-- ===== src/Sahara.antt =====
-- sahara.c: the protocol by which a device asks for its programmer images and offers its memory.
pub mod Glob
pub mod Image
pub mod Dump
mod Tests
pub mod Run
