-- ===== src/Host/Interp.antt =====
-- core/interp_patcher.cpp: reading and patching the PT_INTERP segment of an ELF64 file. A file is
-- its bytes, shorter than 2 ^ 63, on a little-endian target; it opens, and reads and writes fail
-- only for an offset that is negative as an off_t or at the end of the file.
pub mod Patch
use virtualaosp.Base.{
  ℕ, zero, suc, ◌+◌, ◌-◌, ◌*◌, ◌%◌, ◌^◌, Bool, true, false, ◌&&◌, Option, none, some, List, [], ◌∷◌,
  ◌++◌, ◌==◌, ltb, leb, if◌then◌else◌, length, get_or, take, drop, replicate, Bytes, str_eq,
}

-- The fields of the ELF header that are read.
pub record Elf64Ehdr : Type 0 where
  pub e_phoff : ℕ
  pub e_phentsize : ℕ
  pub e_phnum : ℕ

pub record Elf64Phdr : Type 0 where
  pub p_type : ℕ
  pub p_offset : ℕ
  pub p_filesz : ℕ

-- sizeof(Elf64Ehdr) and sizeof(Elf64Phdr)
abbrev pub ehdr_size : ℕ
ehdr_size = 64

abbrev pub phdr_size : ℕ
phdr_size = 56

abbrev pub pt_interp : ℕ
pt_interp = 3

-- Error numbers of the Linux ABI.
abbrev pub eio : ℕ
eio = 5

abbrev pub einval : ℕ
einval = 22

abbrev pub enospc : ℕ
enospc = 28

-- `n` bytes, little-endian, from an offset.
abbrev pub field : ℕ → ℕ → Bytes → ℕ
field zero off bs = 0
field (suc n) off bs = get_or bs off 0 + 2 ^ 8 * field n (off + 1) bs

-- `pread(fd, buf, n, off) == n`
unfoldable pub pread : Bytes → ℕ → ℕ → Option Bytes
pread file n off =
    let bs = take n (drop off file) in
    if ltb off (2 ^ 63) && (length bs == n) then some bs else none

-- pwrite in the file, which has the bytes up to the offset.
unfoldable pub pwrite : Bytes → Bytes → ℕ → Bytes
pwrite file bs off = take off file ++ (bs ++ drop (off + length bs) file)

unfoldable pub read_ehdr : Bytes → Elf64Ehdr
read_ehdr bs = record {
  e_phoff = field 8 32 bs;
  e_phentsize = field 2 54 bs;
  e_phnum = field 2 56 bs;
}

unfoldable pub read_phdr : Bytes → Elf64Phdr
read_phdr bs = record { p_type = field 4 0 bs; p_offset = field 8 8 bs; p_filesz = field 8 32 bs }

-- The magic bytes and the class of a 64-bit ELF file.
abbrev pub is_elf64 : Bytes → Bool
is_elf64 bs = str_eq (take 4 bs) (0x7f ∷ 69 ∷ 76 ∷ 70 ∷ []) && (get_or bs 4 0 == 2)

-- `e_phoff + i * e_phentsize` as an off_t
abbrev pub phdr_offset : Elf64Ehdr → ℕ → ℕ
phdr_offset eh i = (eh.e_phoff + i * eh.e_phentsize) % 2 ^ 64

-- What the loop over the program headers comes to.
pub data Search : Type 0 where
  broken absent : Search
  found : Elf64Phdr → Search

-- One round of the loop, with the next.
abbrev pub visit : Option Bytes → Search → Search
visit none next = broken
visit (some bs) next = let ph = read_phdr bs in if ph.p_type == pt_interp then found ph else next

-- The loop from header `i`, with `k` headers left.
unfoldable pub find_interp : Bytes → Elf64Ehdr → ℕ → ℕ → Search
unfolding pread read_phdr
find_interp file eh i zero = absent
find_interp file eh i (suc k) =
    let next = find_interp file eh (i + 1) k in visit (pread file phdr_size (phdr_offset eh i)) next

-- The tests in front of the loop, and the loop. `errno` is what stands in errno: a short read
-- leaves it.
pub data Located : Type 0 where
  refused : ℕ → Located
  located : Elf64Phdr → Located

abbrev pub located_of : Search → Located
located_of broken = refused eio
located_of absent = refused einval
located_of (found ph) = located ph

abbrev pub check_header : ℕ → Bytes → Option Bytes → Located
check_header errno file none = refused (if errno == 0 then eio else errno)
check_header errno file (some bs) =
    if is_elf64 bs
    then located_of (find_interp file (read_ehdr bs) 0 (read_ehdr bs).e_phnum)
    else refused einval

unfoldable pub locate : ℕ → Bytes → Located
locate errno file = check_header errno file (pread file ehdr_size 0)

-- `interp.resize(strlen(interp.c_str()))`
unfoldable pub until_nul : Bytes → Bytes
until_nul [] = []
until_nul (c ∷ s) = let rest = until_nul s in if c == 0 then [] else c ∷ rest

pub data Outcome (A : Type 0) : Type 0 where
  success : A → Outcome A
  failure : ℕ → Outcome A

abbrev pub read_segment : Bytes → Located → Outcome Bytes
read_segment file (refused errno) = failure errno
read_segment file (located ph) = elim (pread file ph.p_filesz ph.p_offset) [
  | none ↦ failure eio
  | some interp ↦ success (until_nul interp)
]

-- ReadInterp
unfoldable pub read_interp : ℕ → Bytes → Outcome Bytes
unfolding locate until_nul
read_interp errno file = read_segment file (locate errno file)

-- NUL bytes up to the size of the segment.
abbrev pub padded : Bytes → ℕ → Bytes
padded new_interp size = new_interp ++ replicate (size - length new_interp) 0

abbrev pub write_segment : Bytes → Bytes → Located → Outcome Bytes
write_segment file new_interp (refused errno) = failure errno
write_segment file new_interp (located ph) =
    if ltb ph.p_filesz (length new_interp + 1)
    then failure enospc
    else if ltb ph.p_offset (2 ^ 63)
    then success (pwrite file (padded new_interp ph.p_filesz) ph.p_offset)
    else failure eio

-- PatchInterp: the file after a success.
unfoldable pub patch_interp : ℕ → Bytes → Bytes → Outcome Bytes
unfolding locate pwrite
patch_interp errno file new_interp = write_segment file new_interp (locate errno file)
