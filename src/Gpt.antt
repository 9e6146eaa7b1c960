-- ===== src/Gpt.antt =====
-- gpt.c: the partition tables of the device, and the look-up of a partition.
pub mod Utf16
pub mod Table
pub mod Find
mod Tests
