-- ===== src/Base.antt =====
-- Native/anisette_base.cpp: text encodings and error texts that both backends share.
pub mod Base64
pub mod Uuid
pub mod Errors
mod Tests
