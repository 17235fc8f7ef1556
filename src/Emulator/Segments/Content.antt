-- ===== src/Emulator/Segments/Content.antt =====
-- What the copy of a segment leaves in the guest's memory.
use anisette_kit.Prelude.{
  ℕ, ◌+◌, ◌-◌, ◌^◌, ◌≤◌, ◌<◌, ◌≡◌, refl, ap, ◌∙◌, true, some, List, [], ◌∷◌, ltb, ◌==◌, length,
  replicate, add64, arith, ◌⊎◌, inl, inr, Bool-cases,
}
use anisette_kit.Emulator.Unicorn.{Unicorn, UnicornLaws, collect, byte, covers}
use anisette_kit.Emulator.Vm.{LibraryInfo, ok}
use anisette_kit.Prelude.{length-replicate}
use anisette_kit.Emulator.Unicorn.Content.{
  covers-part, collect-mem_write_self, collect-mem_write_apart, covers-mem_write,
}
use anisette_kit.Emulator.Elf.{Elf64Phdr, slice}
use anisette_kit.Emulator.Symbols.{mapped_at}
use anisette_kit.Emulator.Segments.{write_file_part, write_bss, load_segment}
use anisette_kit.Emulator.Segments.Image.{length-slice}

no_bytes : (bytes : List ℕ) → length bytes ≡ 0 → [] ≡ bytes
no_bytes [] e = refl
no_bytes (b ∷ bytes) e = absurd (omega arith)

module _ {u : Unicorn} (L : UnicornLaws u) where
  -- A state that differs from another in one range only, and maps no less.
  pub record ChangesOnly (lo hi : ℕ) (s s' : u.State) : Type 0 where
    pub elsewhere :
        (b n : ℕ) → (b + n ≤ lo) ⊎ (hi ≤ b) → collect (byte u s') b n ≡ collect (byte u s) b n
    pub mapped : (b n : ℕ) → covers u s b n ≡ true → covers u s' b n ≡ true

  unchanged : (lo hi : ℕ) (s : u.State) → ChangesOnly lo hi s s
  unchanged lo hi s = record { elsewhere = λ b n apart. refl; mapped = λ b n c. c }

  ChangesOnly-mem_write :
      (lo hi : ℕ) (s : u.State) (a : ℕ) (bytes : List ℕ)
      → lo ≤ a
      → a + length bytes ≤ hi
      → ChangesOnly lo hi s (u.mem_write s a bytes)
  ChangesOnly-mem_write lo hi s a bytes from to = record {
    elsewhere = λ b n apart. collect-mem_write_apart u L s a bytes b n (ground (arith, apart));
    mapped = λ b n c. covers-mem_write u L s a bytes b n c;
  }

  file_part_lem :
      (s : u.State) (dest filesz : ℕ) (part : List ℕ)
      → length part ≡ filesz
      → covers u s dest filesz ≡ true
      → (s' : u.State) × (write_file_part u s dest filesz (some part) ≡ ok s')
        × (collect (byte u s') dest filesz ≡ some part)
        × ChangesOnly dest (dest + filesz) s s'
  unfolding write_file_part
  file_part_lem s dest filesz part long there = elim (Bool-cases (filesz == 0)) [
    | inl empty ↦
        let z : filesz ≡ 0 = ground arith in
        (
          s,
          rw empty refl,
          rw z (ap some (no_bytes part (long ∙ z))),
          unchanged dest (dest + filesz) s,
        )
    | inr more ↦ (
      u.mem_write s dest part,
      rw more refl,
      collect-mem_write_self u L s dest part filesz long there,
      ChangesOnly-mem_write dest (dest + filesz) s dest part (omega arith) (omega arith),
    )
  ]

  bss_lem :
      (s : u.State) (dest filesz memsz : ℕ)
      → filesz ≤ memsz
      → dest + memsz < 2 ^ 64
      → covers u s (dest + filesz) (memsz - filesz) ≡ true
      → (collect (byte u (write_bss u s dest filesz memsz)) (dest + filesz) (memsz - filesz)
          ≡ some (replicate (memsz - filesz) 0))
        × ChangesOnly (dest + filesz) (dest + memsz) s (write_bss u s dest filesz memsz)
  unfolding write_bss
  bss_lem s dest filesz memsz less fits there =
      let at : add64 dest filesz ≡ dest + filesz = omega arith in
      elim (Bool-cases (ltb filesz memsz)) [
        | inl some_bss ↦
            rw (some_bss, at)
              (
                collect-mem_write_self u L s (dest + filesz) (replicate (memsz - filesz) 0)
                    (memsz - filesz) (length-replicate (memsz - filesz) 0) there,
                ChangesOnly-mem_write (dest + filesz) (dest + memsz) s (dest + filesz) _
                    (omega arith) (omega (arith, length-replicate {A = ℕ} (memsz - filesz) 0)),
              )
        | inr no_bss ↦
            let nothing : memsz - filesz ≡ 0 = ground arith in
            rw (no_bss, nothing) (refl, unchanged (dest + filesz) (dest + memsz) s)
      ]

  -- A segment is copied if its part of the file lies in the file and is no longer than the
  -- segment, and its place is mapped and does not run past the address space: the memory then
  -- holds the part of the file, then zeros up to the segment's size, and elsewhere what it held
  -- before.
  pub load_segment_lem :
      (file : List ℕ) (lib : LibraryInfo) (ph : Elf64Phdr) (s : u.State) (part : List ℕ)
      → slice file ph.p_offset ph.p_filesz ≡ some part
      → ph.p_filesz ≤ ph.p_memsz
      → mapped_at lib ph.p_vaddr + ph.p_memsz < 2 ^ 64
      → covers u s (mapped_at lib ph.p_vaddr) ph.p_memsz ≡ true
      → (s' : u.State) × (load_segment u file lib ph s ≡ ok s')
        × (collect (byte u s') (mapped_at lib ph.p_vaddr) ph.p_filesz ≡ some part)
        × (collect (byte u s') (mapped_at lib ph.p_vaddr + ph.p_filesz) (ph.p_memsz - ph.p_filesz)
            ≡ some (replicate (ph.p_memsz - ph.p_filesz) 0))
        × ChangesOnly (mapped_at lib ph.p_vaddr) (mapped_at lib ph.p_vaddr + ph.p_memsz) s s'
  unfolding load_segment
  load_segment_lem file lib ph s part lies less fits there =
      let dest : ℕ = mapped_at lib ph.p_vaddr in
      let (s1, first, holds, only1) =
        file_part_lem s dest ph.p_filesz part (length-slice file ph.p_offset ph.p_filesz part lies)
          (covers-part (byte u s) dest ph.p_memsz dest ph.p_filesz there (omega arith)
            (omega arith)) in
      let behind : covers u s1 (dest + ph.p_filesz) (ph.p_memsz - ph.p_filesz) ≡ true =
        only1.mapped (dest + ph.p_filesz) (ph.p_memsz - ph.p_filesz) (
          covers-part (byte u s) dest ph.p_memsz (dest + ph.p_filesz) (ph.p_memsz - ph.p_filesz)
            there (omega arith) (omega arith)) in
      let (zeros, only2) = bss_lem s1 dest ph.p_filesz ph.p_memsz less fits behind in
      (
        write_bss u s1 dest ph.p_filesz ph.p_memsz,
        rw (lies, first) refl,
        only2.elsewhere dest ph.p_filesz (inl (omega arith)) ∙ holds,
        zeros,
        record {
          elsewhere = λ b n apart.
              only2.elsewhere b n (ground (arith, apart))
              ∙ only1.elsewhere b n (ground (arith, apart));
          mapped = λ b n c. only2.mapped b n (only1.mapped b n c);
        },
      )
