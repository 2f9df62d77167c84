-- ===== src/LinkedList.antt =====
-- The list macros UPKLIST_ of libupkeeper/upkeeper/upk_types.h, on a heap of nodes.
--
-- Macros has the macros. Chain says which nodes hang together and what a change of the heap leaves
-- alone. Queue, Stack, Unlink, Removal, Walk and Clear say how the macros keep a queue, a stack, an
-- iteration, and the deletion of a node and of a list; Releasing has loops that free more than nodes;
-- Cursor says what a stale cursor does.
pub mod Macros
pub mod Chain
pub mod Unlink
pub mod Removal
pub mod Queue
pub mod Stack
pub mod Walk
pub mod Releasing
pub mod Cursor
pub mod Clear
mod Examples
