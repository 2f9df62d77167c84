-- ===== src/Wire.antt =====
-- The buffer macros of upk_protocol.h. A serializer fills a buffer of `calloc` from the front; a
-- deserializer reads one from the front. What C leaves undefined is a fault.
--
-- A `char[UPK_MAX_STRING_LEN]` is the list of its bytes up to the zeros that fill it.
pub mod Outcome
pub mod Write
pub mod Read
pub mod Bytes
pub mod Laws
pub mod Stops
