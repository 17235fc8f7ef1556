-- ===== src/Core.antt =====
-- Native/anisette_core_uc.cpp: the C interface over the guest machine.
pub mod Adi
pub mod Session
pub mod Json
pub mod Setup
pub mod Bodies
pub mod Entries
mod Tests
