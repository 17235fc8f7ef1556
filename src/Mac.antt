-- ===== src/Mac.antt =====
-- The host loader and the core over it, for macOS: Native/Loader/elf_loader_host.cpp and
-- Native/anisette_core_mac.cpp.
pub mod Platform
pub mod Process
pub mod Registry
pub mod Resolve
pub mod Relocate
pub mod Tables
pub mod Exports
pub mod Load
pub mod Steps
pub mod Setup
pub mod Entries
pub mod Globals
pub mod Bodies
pub mod Locks
pub mod Files
pub mod Handles
pub mod Tests
