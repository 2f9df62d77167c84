-- ===== src/Protocol.antt =====
-- The client protocol of libupkeeper: messages, packets and their byte form.
pub mod Structs
pub mod Codes
pub mod SerialReq
pub mod SerialRepl
pub mod DeserialReq
pub mod DeserialRepl
pub mod Layout
pub mod Valid
pub mod Sizes
pub mod EmitsReq
pub mod EmitsRepl
pub mod ReadsReq
pub mod ReadsRepl
pub mod Dispatch
pub mod DispatchLaws
pub mod Octets
pub mod PacketFields
pub mod Packet
pub mod RoundTrip
pub mod Refusal
pub mod CreatePkt
pub mod CreateReq
pub mod CreateRepl
pub mod Api
pub mod Calls
pub mod CallLaws
pub mod EndToEnd
pub mod Inversion
pub mod LongArgs
pub mod MsgSize
mod Examples
