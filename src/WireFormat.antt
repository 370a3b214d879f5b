-- ===== src/WireFormat.antt =====
-- src/wire_format.h, src/wire_format-inl.h and src/wire_format.cc: varints, zigzag numbers
-- and words of fixed width.
-- A word of `w` bits is a number below `2 ^ w`; a signed word is its two's complement pattern.
-- What a writer stores through `target` is the list of the bytes stored; a reader is given the
-- memory from its pointer on, and `fault` means that it read past the end of that memory.
pub mod Fixed
pub mod Defs
pub mod Encode
pub mod Decode
pub mod ZigZag
pub mod Safe
mod Examples
