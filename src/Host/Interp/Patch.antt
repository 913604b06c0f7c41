-- ===== src/Host/Interp/Patch.antt =====
-- PatchInterp and ReadInterp of core/interp_patcher.cpp together.
use virtualaosp.Base.{
  ℕ, zero, suc, ◌+◌, ◌-◌, ◌^◌, ◌≤◌, ◌<◌, some, [], ◌∷◌, ◌++◌, ◌≡◌, refl, sym, ap, ◌∙◌, arith,
  length, length-append, length-replicate, take, drop, replicate, take-length, Bytes,
}
use virtualaosp.Host.Interp.{
  Elf64Ehdr, Elf64Phdr, ehdr_size, phdr_size, pread, pwrite, read_ehdr, phdr_offset, find_interp,
  located, check_header, locate, until_nul, success, failure, read_segment, read_interp, padded,
  write_segment, patch_interp, enospc,
}

take-front :
    (p n : ℕ) (file more : Bytes)
    → n ≤ p
    → p ≤ length file
    → take n (take p file ++ more) ≡ take n file
take-front p zero file more h b = refl
take-front zero (suc n) file more h b = absurd (omega arith)
take-front (suc p) (suc n) [] more h b = absurd (omega arith)
take-front (suc p) (suc n) (c ∷ file) more h b =
    ap (◌∷◌ c) (take-front p n file more (omega arith) (omega arith))

-- A read that ends in front of `p` does not see what stands from `p` on.
slice-front :
    (p off n : ℕ) (file more : Bytes)
    → off + n ≤ p
    → p ≤ length file
    → take n (drop off (take p file ++ more)) ≡ take n (drop off file)
slice-front p zero n file more h b = take-front p n file more (omega arith) b
slice-front zero (suc off) n file more h b = absurd (omega arith)
slice-front (suc p) (suc off) n [] more h b = absurd (omega arith)
slice-front (suc p) (suc off) n (c ∷ file) more h b =
    slice-front p off n file more (omega arith) (omega arith)

slice-written :
    (p : ℕ) (file bs more : Bytes)
    → p ≤ length file
    → take (length bs) (drop p (take p file ++ (bs ++ more))) ≡ bs
slice-written zero file bs more b = take-length bs more
slice-written (suc p) [] bs more b = absurd (omega arith)
slice-written (suc p) (c ∷ file) bs more b = slice-written p file bs more (omega arith)

pread-front :
    (p off n : ℕ) (file bs : Bytes)
    → off + n ≤ p
    → p ≤ length file
    → pread (pwrite file bs p) n off ≡ pread file n off
unfolding pread pwrite
pread-front p off n file bs h b =
    rw (slice-front p off n file (bs ++ drop (p + length bs) file) h b) refl

-- Every program header ends in front of `p`.
abbrev pub HeadersBefore : Elf64Ehdr → ℕ → Type 0
HeadersBefore eh p = (i : ℕ) → i < eh.e_phnum → phdr_offset eh i + phdr_size ≤ p

find_interp-pwrite :
    (p : ℕ) (file bs : Bytes) (eh : Elf64Ehdr) (i k : ℕ)
    → HeadersBefore eh p
    → p ≤ length file
    → i + k ≤ eh.e_phnum
    → find_interp (pwrite file bs p) eh i k ≡ find_interp file eh i k
unfolding find_interp
find_interp-pwrite p file bs eh i zero h b c = refl
find_interp-pwrite p file bs eh i (suc k) h b c =
    rw
      (
        pread-front p (phdr_offset eh i) phdr_size file bs (h i (omega arith)) b,
        find_interp-pwrite p file bs eh (i + 1) k h b (omega arith),
      )
      refl

until_nul-padded :
    (s : Bytes) (n : ℕ) → until_nul s ≡ s → 0 < n → until_nul (s ++ replicate n 0) ≡ s
unfolding until_nul
until_nul-padded [] zero h pos = absurd (omega arith)
until_nul-padded [] (suc n) h pos = refl
until_nul-padded (c ∷ s) n h pos = ground (arith, until_nul-padded s n)

check_header-pwrite :
    (errno p : ℕ) (file bs hdr : Bytes)
    → HeadersBefore (read_ehdr hdr) p
    → p ≤ length file
    → check_header errno (pwrite file bs p) (some hdr) ≡ check_header errno file (some hdr)
check_header-pwrite errno p file bs hdr h b =
    rw (find_interp-pwrite p file bs (read_ehdr hdr) 0 (read_ehdr hdr).e_phnum h b (omega arith))
      refl

locate-pwrite :
    (errno p : ℕ) (file bs hdr : Bytes)
    → pread file ehdr_size 0 ≡ some hdr
    → HeadersBefore (read_ehdr hdr) p
    → ehdr_size ≤ p
    → p ≤ length file
    → locate errno (pwrite file bs p) ≡ locate errno file
unfolding locate
locate-pwrite errno p file bs hdr e h front b =
    ap (check_header errno (pwrite file bs p)) (pread-front p 0 ehdr_size file bs front b ∙ e)
    ∙ check_header-pwrite errno p file bs hdr h b
    ∙ ap (check_header errno file) (sym e)

-- The header is read, so errno is not.
locate-errno :
    (a b : ℕ) (file hdr : Bytes) → pread file ehdr_size 0 ≡ some hdr → locate a file ≡ locate b file
unfolding locate
locate-errno a b file hdr e = ap (check_header a file) e ∙ ap (check_header b file) (sym e)

length-padded : (s : Bytes) (n : ℕ) → length s < n → length (padded s n) ≡ n
length-padded s n h =
    length-append s (replicate (n - length s) 0)
    ∙ omega (arith, length-replicate {A = ℕ} (n - length s) 0)

pread-written :
    (p n : ℕ) (file bs : Bytes)
    → length bs ≡ n
    → p ≤ length file
    → p < 2 ^ 63
    → pread (pwrite file bs p) n p ≡ some bs
unfolding pread pwrite
pread-written p n file bs e b small =
    let w =
      ap (λ k. take k (drop p (take p file ++ (bs ++ drop (p + length bs) file)))) (sym e)
      ∙ slice-written p file bs (drop (p + length bs) file) b in
    rw (w, e) (ground arith)

-- In a file whose interpreter segment lies inside the file and behind the ELF header and all
-- program headers, a path without NUL that is shorter than the segment is patched in, and is then
-- what is read; any other path fails with ENOSPC.
pub read-patch_interp :
    (errno later : ℕ) (file new_interp hdr : Bytes) (ph : Elf64Phdr)
    → pread file ehdr_size 0 ≡ some hdr
    → locate errno file ≡ located ph
    → HeadersBefore (read_ehdr hdr) ph.p_offset
    → ehdr_size ≤ ph.p_offset
    → ph.p_offset + ph.p_filesz ≤ length file
    → ph.p_offset < 2 ^ 63
    → until_nul new_interp ≡ new_interp
    → (length new_interp < ph.p_filesz
        → (patched : Bytes) × (patch_interp errno file new_interp ≡ success patched)
          × (read_interp later patched ≡ success new_interp))
      × (ph.p_filesz ≤ length new_interp → patch_interp errno file new_interp ≡ failure enospc)
unfolding patch_interp read_interp
read-patch_interp errno later file new_interp hdr ph e l h front inside small clean = (
  λ fits.
      let bs = padded new_interp ph.p_filesz in
      let whole = length-padded new_interp ph.p_filesz fits in
      let loc =
        locate-pwrite later ph.p_offset file bs hdr e h front (omega arith)
        ∙ locate-errno later errno file hdr e
        ∙ l in
      (
        pwrite file bs ph.p_offset,
        ap (write_segment file new_interp) l ∙ ground arith,
        ap (read_segment (pwrite file bs ph.p_offset)) loc
            ∙ rw
                (
                  read_segment,
                  pread-written ph.p_offset ph.p_filesz file bs whole (omega arith) small,
                )
                (ap success (
                  until_nul-padded new_interp (ph.p_filesz - length new_interp) clean
                    (omega arith))),
      ),
  λ long. ap (write_segment file new_interp) l ∙ ground arith,
)
