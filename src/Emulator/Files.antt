-- ===== src/Emulator/Files.antt =====
-- The file hooks of Native/Loader/elf_loader_emulator.cpp. What the host's file calls do is a parameter.
pub mod Descriptors
use anisette_kit.Prelude.{
  ℕ, ◌+◌, Bool, true, false, Option, none, some, List, ltb, ◌==◌, if◌then◌else◌, length, le_bytes,
}
use anisette_kit.Emulator.Host.{Host, Stat}
use anisette_kit.Emulator.Unicorn.{Unicorn, x}
use anisette_kit.Emulator.Vm.{
  ok, when, Command, pure, ◌>>=◌, ◌>>◌, reg_read, reg_write, mem_read, mem_write, find_key,
  insert_key, erase_key,
}
use anisette_kit.Emulator.Strings.{load_text}
use anisette_kit.Emulator.Memory.{buffer}
use anisette_kit.Emulator.FileFormats.{
  linux_to_darwin_open_flags, stat_bytes, minus_one, status, fd_key, count_or_error,
}

module _ {u : Unicorn} {h : Host} where
  -- A call of the host that returns `A`.
  abbrev pub host_call : {A : Type 0} → (h.World → A × h.World) → Command u h A
  host_call call vm = let (a, world) = call vm.world in ok (a, record vm { world = world })

  -- `uc_mem_write(vm->uc, vm->errno_addr, &err, sizeof(err))`
  unfoldable pub write_errno : (err : ℕ) → Command u h (Unit {0})
  write_errno err vm = mem_write vm.errno_addr (le_bytes 4 err) vm

  -- The same with the host's `errno`.
  unfoldable pub pass_errno : Command u h (Unit {0})
  pass_errno vm = write_errno (h.errno vm.world) vm

  -- `vm->fd_map.find((int)guest_fd)`
  abbrev pub find_fd : (guest_fd : ℕ) → Command u h (Option ℕ)
  find_fd guest_fd vm = ok (find_key (fd_key guest_fd) vm.fd_map, vm)

  unfoldable pub add_fd : (host_fd : ℕ) → Command u h ℕ
  add_fd host_fd vm = ok (
    vm.next_guest_fd,
    record vm {
      next_guest_fd = vm.next_guest_fd + 1;
      fd_map = insert_key vm.next_guest_fd host_fd vm.fd_map;
    },
  )

  -- The branches on the result of `open`.
  unfoldable pub finish_open : Option ℕ → Command u h ℕ
  finish_open none = do pass_errno; pure minus_one
  finish_open (some host_fd) = do guest_fd ← add_fd host_fd; write_errno 0; pure guest_fd

  unfoldable pub hook_open : (rounds : ℕ) → Command u h (Unit {0})
  hook_open rounds = do
    path_ptr ← reg_read (x 0)
    flags ← reg_read (x 1)
    mode ← reg_read (x 2)
    path ← load_text rounds path_ptr
    let host_flags = linux_to_darwin_open_flags h.flags flags
    host_fd ← host_call λ w. h.open_file w path host_flags mode
    guest_fd ← finish_open host_fd
    reg_write (x 0) guest_fd

  unfoldable pub close_fd : (guest_fd : ℕ) → Option ℕ → Command u h ℕ
  close_fd guest_fd none vm = ok (minus_one, vm)
  close_fd guest_fd (some host_fd) vm = ok (
    0,
    record vm { world = h.close vm.world host_fd; fd_map = erase_key (fd_key guest_fd) vm.fd_map },
  )

  unfoldable pub hook_close : Command u h (Unit {0})
  hook_close = do
    guest_fd ← reg_read (x 0)
    host_fd ← find_fd guest_fd
    res ← close_fd guest_fd host_fd
    reg_write (x 0) res

  -- What is done with the bytes that `read` returned.
  unfoldable pub store_read : (buf_ptr : ℕ) → Option (List ℕ) → Command u h ℕ
  store_read buf_ptr none = pure minus_one
  store_read buf_ptr (some bytes) = do
    when (ltb 0 (length bytes)) (mem_write buf_ptr bytes)
    pure (length bytes)

  unfoldable pub read_fd : (buf_ptr count : ℕ) → Option ℕ → Command u h ℕ
  read_fd buf_ptr count none = pure minus_one
  read_fd buf_ptr count (some host_fd) = do
    bytes_read ← host_call λ w. h.read w host_fd count
    store_read buf_ptr bytes_read

  unfoldable pub hook_read : Command u h (Unit {0})
  hook_read = do
    guest_fd ← reg_read (x 0)
    buf_ptr ← reg_read (x 1)
    count ← reg_read (x 2)
    host_fd ← find_fd guest_fd
    res ← read_fd buf_ptr count host_fd
    reg_write (x 0) res

  unfoldable pub write_fd : (buf_ptr count : ℕ) → Option ℕ → Command u h ℕ
  write_fd buf_ptr count none = pure minus_one
  write_fd buf_ptr count (some host_fd) = do
    tmp ← mem_read buf_ptr count
    written ← host_call λ w. h.write w host_fd (buffer tmp count)
    pure (count_or_error written)

  unfoldable pub hook_write : Command u h (Unit {0})
  hook_write = do
    guest_fd ← reg_read (x 0)
    buf_ptr ← reg_read (x 1)
    count ← reg_read (x 2)
    host_fd ← find_fd guest_fd
    res ← write_fd buf_ptr count host_fd
    reg_write (x 0) res

  unfoldable pub truncate_fd : (long : ℕ) → Option ℕ → Command u h ℕ
  truncate_fd long none = pure minus_one
  truncate_fd long (some host_fd) = do
    done ← host_call λ w. h.ftruncate w host_fd long
    pure (status done)

  unfoldable pub hook_ftruncate : Command u h (Unit {0})
  hook_ftruncate = do
    guest_fd ← reg_read (x 0)
    long ← reg_read (x 1)
    host_fd ← find_fd guest_fd
    res ← truncate_fd long host_fd
    reg_write (x 0) res

  -- `errno == EEXIST`
  abbrev pub is_eexist : Command u h Bool
  is_eexist vm = ok (h.errno vm.world == h.eexist, vm)

  -- The branches on the result of `mkdir`, and on whether the directory was there.
  unfoldable pub finish_mkdir : (done exists : Bool) → Command u h ℕ
  finish_mkdir true exists = do write_errno 0; pure 0
  finish_mkdir false true = do write_errno 0; pure 0
  finish_mkdir false false = do pass_errno; pure minus_one

  unfoldable pub hook_mkdir : (rounds : ℕ) → Command u h (Unit {0})
  hook_mkdir rounds = do
    path_ptr ← reg_read (x 0)
    mode ← reg_read (x 1)
    path ← load_text rounds path_ptr
    done ← host_call λ w. h.mkdir w path mode
    exists ← is_eexist
    res ← finish_mkdir done exists
    reg_write (x 0) res

  unfoldable pub hook_umask : Command u h (Unit {0})
  hook_umask = do
    mask ← reg_read (x 0)
    old_mask ← host_call λ w. h.umask w mask
    reg_write (x 0) old_mask

  unfoldable pub hook_chmod : (rounds : ℕ) → Command u h (Unit {0})
  hook_chmod rounds = do
    path_ptr ← reg_read (x 0)
    mode ← reg_read (x 1)
    path ← load_text rounds path_ptr
    done ← host_call λ w. h.chmod w path mode
    reg_write (x 0) (status done)

  -- The branches on the result of `lstat`.
  unfoldable pub finish_lstat : (stat_buf_ptr : ℕ) → Option Stat → Command u h ℕ
  finish_lstat stat_buf_ptr none = do pass_errno; pure minus_one
  finish_lstat stat_buf_ptr (some host_st) =
      if stat_buf_ptr == 0
      then (do pass_errno; pure 0)
      else (do mem_write stat_buf_ptr (stat_bytes host_st); write_errno 0; pure 0)

  unfoldable pub hook_lstat : (rounds : ℕ) → Command u h (Unit {0})
  hook_lstat rounds = do
    path_ptr ← reg_read (x 0)
    stat_buf_ptr ← reg_read (x 1)
    path ← load_text rounds path_ptr
    host_st ← host_call λ w. h.lstat w path
    res ← finish_lstat stat_buf_ptr host_st
    reg_write (x 0) res

  -- The branches on the result of `fstat`.
  unfoldable pub finish_fstat : (stat_buf_ptr : ℕ) → Option Stat → Command u h ℕ
  finish_fstat stat_buf_ptr none = pure minus_one
  finish_fstat stat_buf_ptr (some host_st) = do mem_write stat_buf_ptr (stat_bytes host_st); pure 0

  unfoldable pub fstat_fd : (stat_buf_ptr : ℕ) → Option ℕ → Command u h ℕ
  fstat_fd stat_buf_ptr none = pure minus_one
  fstat_fd stat_buf_ptr (some host_fd) =
      if stat_buf_ptr == 0
      then pure minus_one
      else (do host_st ← host_call λ w. h.fstat w host_fd; finish_fstat stat_buf_ptr host_st)

  unfoldable pub hook_fstat : Command u h (Unit {0})
  hook_fstat = do
    guest_fd ← reg_read (x 0)
    stat_buf_ptr ← reg_read (x 1)
    host_fd ← find_fd guest_fd
    res ← fstat_fd stat_buf_ptr host_fd
    reg_write (x 0) res
