-- ===== src/SzBinary.antt =====
-- The Shenzhen binary protocol: src/szBinary_decoder.hpp, src/szBinary_encoder.hpp and
-- src/szBinary_input_service.cpp.
pub mod Decoder
pub mod Encoder
pub mod Session
