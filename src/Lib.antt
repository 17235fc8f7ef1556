-- ===== src/Lib.antt =====
-- AnisetteKit: models and proofs of the native core.
--
-- The native core (Native/) runs Apple's ADI libraries, Android ARM64 shared objects, inside a
-- guest machine that the Unicorn engine emulates, and offers the results to the Swift package
-- through a C interface. The parts and the files that model them:
--
-- - Native/anisette_base.cpp: Base64 (`base64_encode`), Uuid (`format_uuid_string`,
--   `get_android_id_string`) and Errors (`get_anisette_error_description` and the enumeration of
--   Native/include/anisette_core.h), below Base.
-- - Native/Loader/elf_loader_emulator.cpp and .h, below Emulator: Allocator is `PageAllocator`; Vm
--   is the record `EmulatorVM` with the commands that the handlers are made of; Memory, Strings,
--   Files and System have the hooks, one definition for each C++ function of the same name;
--   FileFormats has the open flags and the stat structure; Imports has the constructor, the stubs
--   and the copies into the guest's heap; Router is `import_callback_router`; Faults is
--   `hook_mem_invalid`; Symbols and Relocation are `vm_resolve_symbol` and `apply_vm_relocations`;
--   Loader is `load_library_to_vm`, with its loops over the program headers in Segments, over the
--   dynamic section and the symbols in Dynamic, and the structures of the file
--   (Native/anisette_base.h) in Elf; Machine is a small engine and host for the tests; Procedure
--   is `run_vm_procedure` and the constructors of the libraries.
-- - Native/anisette_core_uc.cpp, below Core: Session has the globals, and steps on them that can
--   fail; Adi has the names in `kADISymbols`; Setup is `setup_vm_and_adi`; Json has the texts that
--   are returned; Bodies is what the exported functions do behind their set-up, and Entries is
--   these functions. Session holds a machine of Emulator.Vm, and a step of the core is made of
--   commands on it.
-- - Native/Loader/elf_loader_host.cpp and .h and Native/anisette_core_mac.cpp, which run the
--   libraries in the process itself, below Mac: Platform is what they take from the system and the
--   native code; Process has the class `ElfLoader`, the statics and globals of both files and
--   actions on them; Registry has the constructor, the destructor, the names of the loaders and
--   `get_adi_symbol`; Resolve has `lookup_hook` and the resolution of a symbol, Relocate is
--   `ElfLoader::relocate`, Load is `ElfLoader::load`, with the dynamic section and the count of
--   symbols in Tables and the map of exports in Exports; Files has the hooks on files, Handles
--   those of the dynamic linker and of threads, and Locks those of the read-write locks; Globals,
--   Setup, Bodies and Entries are anisette_core_mac.cpp, as a set-up and the bodies of the four
--   exported functions, and Steps has actions that can end a function; Tests.System is a small
--   system with a library in its memory.
--
-- How the models correspond to the code. A C++ function on `EmulatorVM *` is a command: a function
-- from the machine to a run, which ends with a result and the new machine, in `abort`, out of
-- fuel, or in a read outside of a buffer of the host (`undefined`). Arguments come from registers
-- and results go to X0, as in the code. Unsigned 64-bit arithmetic is add64, sub64 and mul64 on ℕ,
-- which wrap around. The engine is a parameter (Emulator.Unicorn) with the laws of its registers
-- and memory, and so is the host's C library and kernel (Emulator.Host). A read of several bytes
-- that fails leaves the zeros that the buffer was made with. Text is the list of its character
-- codes. Unordered maps are association lists.
--
-- In the models of native code, an action is a function from the process to a run. An address is a
-- number, 0 the null pointer, and a pointer to a loader is the number of that object, which is
-- given out once; a use of a deleted loader, a null pointer where the code follows it, and a read
-- or write that the memory does not allow end in `undefined`. The memory, the system's calls and
-- the native code are the Platform's: a call of the libraries takes its world to a reply and a new
-- one, so what the hooks do to files and locks during such a call is part of that world, and the
-- hooks are modelled as operations of their own.
--
-- Bounds and fuel: loops that run until a zero byte or an unreadable address get a number of
-- rounds, and the theorems on them hold for every number above the length of the text; all other
-- loops are bounded by the size of their input or by an argument. The loops of the loader over the
-- guest's memory are on fuel too: Dynamic.Tables and Dynamic.Ends say how much is enough. The
-- engine's run of guest code (`uc_emu_start`) is a parameter that takes the machine to a status
-- and a machine. The loops of the host loader over a dynamic section, a text and a chain of the
-- GNU hash table are on fuel in the same way; its scan for symbols without a hash table is bounded
-- as in the code.
--
-- Not modelled: logging, the shims for Windows, and the Swift package. Of the host loader, the
-- hooks that only print or return a constant or an address of the host (errno, the Android log,
-- dlclose, dlerror, getauxval, the stack check), the switch of the write protection for native
-- code, which is the platform's, the word at 0x507c4 that is read for a message, and three local
-- functions of `ElfLoader::load` that nothing calls.
pub mod Prelude
pub mod Base
pub mod Emulator
pub mod Core
pub mod Mac
