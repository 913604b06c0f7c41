-- ===== src/Tests/Host.antt =====
-- Runs of core/interp_patcher.cpp on a file of 136 bytes: the ELF header, one program header, and a
-- segment of sixteen bytes with the interpreter.
use virtualaosp.Base.{
  ℕ, ◌<◌, ◌≤◌, ◌∷◌, ◌++◌, ◌≡◌, refl, arith, length, replicate, Bytes, codes, str_eq,
}
use virtualaosp.Host.Interp.{
  Elf64Phdr, pread, read_ehdr, read_phdr, find_interp, locate, until_nul, success, failure, enospc,
  read_interp, patch_interp,
}
use virtualaosp.Host.Interp.Patch.{read-patch_interp}

-- A field of `n` bytes below 256.
abbrev small : ℕ → ℕ → Bytes
small n value = value ∷ replicate n 0

abbrev header : Bytes
header =
    0x7f ∷ 69 ∷ 76 ∷ 70 ∷ 2 ∷ replicate 27 0
    ++ (small 7 64 ++ (replicate 14 0 ++ (small 1 56 ++ (small 1 1 ++ replicate 6 0))))

abbrev program_header : Bytes
program_header = small 7 3 ++ (small 7 120 ++ (replicate 16 0 ++ (small 7 16 ++ replicate 16 0)))

abbrev elf_file : Bytes
elf_file = header ++ (program_header ++ (codes "/bin/ld" ++ replicate 9 0))

abbrev segment : Elf64Phdr
segment = record { p_type = 3; p_offset = 120; p_filesz = 16 }

read_run : read_interp 0 elf_file ≡ success (codes "/bin/ld")
unfolding read_interp locate pread read_ehdr read_phdr find_interp until_nul str_eq
read_run = refl

read-patch_interp_example :
    (length (codes "/r/ld") < 16
      → (patched : Bytes) × (patch_interp 0 elf_file (codes "/r/ld") ≡ success patched)
        × (read_interp 9 patched ≡ success (codes "/r/ld")))
    × (16 ≤ length (codes "/r/ld") → patch_interp 0 elf_file (codes "/r/ld") ≡ failure enospc)
read-patch_interp_example =
    read-patch_interp 0 9 elf_file (codes "/r/ld") header segment (unfold pread in refl)
      (unfold locate pread read_ehdr read_phdr find_interp str_eq in refl)
      (unfold read_ehdr in λ i lt. omega arith) (omega arith) (omega arith) (omega arith)
      (unfold until_nul in refl)
