-- ===== src/Net.antt =====
-- upk_network.c and upk_network_types.h: the connections of a client or of the controller.
--
-- Types has the handle of a connection, Writing and Reading its two ends, Handles the stack of its
-- callbacks, Closing the loop that frees closed connections. What a call of the system did is an argument. A
-- callback is a function on the connection, given as a parameter. The other files hold laws. Not
-- modelled: `select` and the dispatcher around it, and connecting. Of user data only its release is.
pub mod Types
pub mod Writing
pub mod Sent
pub mod Pieces
pub mod Outgoing
pub mod Overtaking
pub mod Failing
pub mod Reading
pub mod Buffer
pub mod Arriving
pub mod Delivery
pub mod EndToEnd
pub mod Damage
pub mod Nibbles
pub mod Handles
pub mod Closing
pub mod Owned
pub mod Closed
mod Examples
mod ClosingExamples
