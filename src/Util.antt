-- ===== src/Util.antt =====
-- libupkeeper/upkeeper/upk_util.c: `upk_replace_string`, in place, on the bytes of a text.
pub mod Replace
pub mod Moving
pub mod Replacing
pub mod Substitute
mod Examples
