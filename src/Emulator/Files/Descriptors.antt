-- ===== src/Emulator/Files/Descriptors.antt =====
-- The descriptor table: what `open` adds to it and `close` takes from it.
use anisette_kit.Prelude.{
  ℕ, ◌+◌, ◌^◌, ◌≤◌, ◌<◌, ◌≡◌, refl, none, some, ◌==◌, if◌then◌else◌, le_bytes, arith,
}
use anisette_kit.Prelude.Text.{Text}
use anisette_kit.Emulator.Host.{Host}
use anisette_kit.Emulator.Unicorn.{Unicorn, UnicornLaws, x}
use anisette_kit.Emulator.Vm.{ok, Vm, find_key, insert_key, erase_key}
use anisette_kit.Emulator.Vm.Maps.{
  KeysIn, KeysIn-mono, KeysIn-insert_key, KeysIn-erase_key, find_key-insert_key, find_key-erase_key,
  find_key-out,
}
use anisette_kit.Emulator.Strings.{load_text}
use anisette_kit.Emulator.FileFormats.{linux_to_darwin_open_flags, fd_key}
use anisette_kit.Emulator.Files.{hook_open, hook_close, finish_open, add_fd, close_fd, write_errno}
use anisette_kit.Emulator.Memory.Heap.{x0-back}

module _ {u : Unicorn} {h : Host} where
  -- The descriptors in use are numbers of an `int` that have been given out, from 10 on.
  pub record IsTable (vm : Vm u h) : Type 0 where
    pub keys : KeysIn 10 vm.next_guest_fd vm.fd_map
    pub start : 10 ≤ vm.next_guest_fd
    pub fits : vm.next_guest_fd < 2 ^ 31

module _ {u : Unicorn} {h : Host} (L : UnicornLaws u) where
  -- Where the host opens the file, `open` returns a descriptor that was not in use, which leads to
  -- the host's, and leaves all others as they were.
  pub hook_open_lem :
      (rounds : ℕ) (vm : Vm u h) (path : Text) (host_fd : ℕ) (world : h.World)
      → IsTable vm
      → vm.next_guest_fd + 1 < 2 ^ 31
      → load_text rounds (u.reg_read vm.uc (x 0)) vm ≡ ok (path, vm)
      → h.open_file vm.world path
          (linux_to_darwin_open_flags h.flags (u.reg_read vm.uc (x 1)))
          (u.reg_read vm.uc (x 2))
        ≡ (some host_fd, world)
      → (vm' : Vm u h) × (hook_open rounds vm ≡ ok (tt, vm'))
        × (find_key (u.reg_read vm'.uc (x 0)) vm.fd_map ≡ none)
        × ((j : ℕ)
            → find_key j vm'.fd_map
              ≡ (if u.reg_read vm'.uc (x 0) == j then some host_fd else find_key j vm.fd_map))
        × IsTable vm'
  unfolding hook_open finish_open add_fd write_errno
  hook_open_lem rounds vm path host_fd world t room text opened =
      let g : ℕ = vm.next_guest_fd in
      let cleared : u.State = u.mem_write vm.uc vm.errno_addr (le_bytes 4 0) in
      let back : u.reg_read (u.reg_write cleared (x 0) g) (x 0) ≡ g =
        x0-back L cleared g (omega (arith, room)) in
      (
        record vm {
          uc = u.reg_write cleared (x 0) g;
          world = world;
          next_guest_fd = g + 1;
          fd_map = insert_key g host_fd vm.fd_map;
        },
        rw (text, opened) refl,
        rw back (find_key-out 10 g g vm.fd_map t.keys (omega arith)),
        λ j. rw back (find_key-insert_key g j host_fd vm.fd_map),
        record {
          keys =
              KeysIn-insert_key 10 (g + 1) g host_fd vm.fd_map t.start (omega arith)
                (KeysIn-mono 10 g (g + 1) vm.fd_map (omega arith) t.keys);
          start = omega (arith, t.start);
          fits = room;
        },
      )

  -- `close` of a descriptor in use returns 0, after which that descriptor is not in use and all others
  -- are as they were.
  pub hook_close_lem :
      (vm : Vm u h) (host_fd : ℕ)
      → let key : ℕ = fd_key (u.reg_read vm.uc (x 0)) in
        IsTable vm
        → find_key key vm.fd_map ≡ some host_fd
        → (vm' : Vm u h) × (hook_close vm ≡ ok (tt, vm'))
          × (u.reg_read vm'.uc (x 0) ≡ 0)
          × (vm'.world ≡ h.close vm.world host_fd)
          × ((j : ℕ) → find_key j vm'.fd_map ≡ (if key == j then none else find_key j vm.fd_map))
          × IsTable vm'
  unfolding hook_close close_fd
  hook_close_lem vm host_fd t found =
      let key : ℕ = fd_key (u.reg_read vm.uc (x 0)) in
      (
        record vm {
          uc = u.reg_write vm.uc (x 0) 0;
          world = h.close vm.world host_fd;
          fd_map = erase_key key vm.fd_map;
        },
        rw found refl,
        x0-back L vm.uc 0 (omega arith),
        refl,
        λ j. find_key-erase_key key j vm.fd_map,
        record {
          keys = KeysIn-erase_key 10 vm.next_guest_fd key vm.fd_map t.keys;
          start = t.start;
          fits = t.fits;
        },
      )
