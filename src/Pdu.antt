-- ===== src/Pdu.antt =====
-- pdu.c and ucs2_utf8.c: short messages. The children have the alphabet, the packing of septets,
-- phone numbers, whole messages, the conversion to UTF-8, and their laws.
pub mod Alphabet
pub mod Septets
pub mod Phone
pub mod Submit
pub mod Deliver
pub mod Utf8
mod Tests
