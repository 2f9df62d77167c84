-- ===== src/Buddy.antt =====
-- The buddy of controller/buddy.c, which watches one service: the ring buffer of what it saw, and
-- how it hands that to the controller.
--
-- Ring is the ring buffer and what records into it, Flush the exchange with the controller, Process
-- the process, its end and its restarts, Commands the commands of the controller with the stops. Queue
-- describes the ring as a queue that forgets its oldest element; the other modules hold laws. Not
-- modelled: sockets and the event loop.
pub mod Ring
pub mod Flush
pub mod Process
pub mod Restarts
pub mod Reaping
pub mod Queue
pub mod Recording
pub mod Flushing
pub mod Sending
pub mod Stale
pub mod Runs
pub mod Commands
pub mod Stopping
pub mod Stops
pub mod Kept
pub mod Orders
mod Examples
mod RestartExamples
mod StopExamples
