-- ===== src/Uuid.antt =====
-- libupkeeper/upkeeper/uuid.c and upk_uuid.h: identifiers, their text, and their generation.
--
-- Characters are their codes, and a string is the list of those before its zero. Hex has what the code
-- uses of `snprintf` and `strtoul`, Fields the functions of uuid.c. RoundTrip and Version hold laws. Not modelled:
-- `/dev/urandom`, and the seed; the random bytes are an argument.
pub mod Hex
pub mod Fields
pub mod RoundTrip
pub mod Version
mod Examples
