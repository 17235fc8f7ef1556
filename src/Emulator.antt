-- ===== src/Emulator.antt =====
-- Native/Loader/elf_loader_emulator.cpp: the guest machine, its imports and its libraries.
pub mod Allocator
pub mod Unicorn
pub mod Host
pub mod Vm
pub mod Memory
pub mod Strings
pub mod FileFormats
pub mod Files
pub mod Imports
pub mod System
pub mod Router
pub mod Faults
pub mod Symbols
pub mod Relocation
pub mod Elf
pub mod Segments
pub mod Dynamic
pub mod Loader
pub mod Procedure
pub mod Machine
mod Tests
