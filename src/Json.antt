-- ===== src/Json.antt =====
-- libupkeeper/upkeeper/upk_json.c: the walk over parsed json with a stack of handlers.
pub mod Types
pub mod Walking
pub mod Text
pub mod Output
pub mod Reference
pub mod Balance
pub mod Printing
pub mod Steps
pub mod Serializing
pub mod Whole
pub mod Escapes
pub mod Parsing
pub mod Unpushed
mod Examples
