-- ===== src/Guest/Redirect/Excludes.antt =====
-- The exclusion table of fake/path_redirect.cpp: what one call of `set_excluded_prefixes` reads
-- out of its list.
use virtualaosp.Base.{
  ℕ, zero, suc, ◌+◌, ◌-◌, ◌≤◌, ◌<◌, false, Option, none, some, List, [], ◌∷◌, ◌++◌, ◌≡◌, refl, sym,
  ap, ◌∙◌, inl, inr, arith, ◌==◌, ltb, ltb→lt, if◌then◌else◌, length, length-take, set, take,
  take_all, take-append_le, append_assoc, append-nil, Bool-cases, Bytes,
}
use virtualaosp.Guest.Redirect.{
  ExcludeTable, max_excludes, split_colon, accepts, register, exclude_loop, set_excluded_prefixes,
}

abbrev pub push_head : ℕ → List Bytes → List Bytes
push_head c [] = (c ∷ []) ∷ []
push_head c (seg ∷ segs) = (c ∷ seg) ∷ segs

-- The text between colons, in order.
pub split_on : Bytes → List Bytes
split_on [] = [] ∷ []
split_on (c ∷ p) = if c == b':' then [] ∷ split_on p else push_head c (split_on p)

-- The segments that are absolute and shorter than a row.
pub accepted : List Bytes → List Bytes
accepted [] = []
accepted (seg ∷ segs) = if accepts seg then seg ∷ accepted segs else accepted segs

-- The rows that `map_path` compares.
abbrev pub rows : ExcludeTable → List Bytes
rows t = take t.count t.entries

abbrev Splits : Bytes → Bytes × Option Bytes → Type 0
Splits p (seg, none) = split_on p ≡ seg ∷ []
Splits p (seg, some rest) = (split_on p ≡ seg ∷ split_on rest) × (length rest < length p)

Splits-cons :
    (c : ℕ) (p : Bytes) (r : Bytes × Option Bytes)
    → (c == b':') ≡ false
    → Splits p r
    → Splits (c ∷ p) (c ∷ r.0, r.1)
unfolding split_on
Splits-cons c p (seg, none) miss s = ground arith
Splits-cons c p (seg, some rest) miss s = ground arith

split_colon-Splits : (p : Bytes) → Splits p (split_colon p)
unfolding split_colon split_on
split_colon-Splits [] = refl
split_colon-Splits (c ∷ p) = elim (Bool-cases (c == b':')) [
  | inl hit ↦ rw hit (ground arith, omega arith)
  | inr miss ↦ rw miss (Splits-cons c p (split_colon p) miss (split_colon-Splits p))
]

-- A table in which this call alone has registered rows.
record IsFresh (t : ExcludeTable) (idx : ℕ) : Type 0 where
  at_count : idx ≡ t.count
  sized : length t.entries ≡ max_excludes
  room : t.count ≤ max_excludes

take-set {ℓ} :
    {A : Type ℓ} (xs : List A) (n : ℕ) (x : A)
    → n < length xs
    → take (n + 1) (set xs n x) ≡ take n xs ++ x ∷ []
take-set [] n x h = absurd (omega arith)
take-set (y ∷ xs) zero x h = refl
take-set (y ∷ xs) (suc n) x h =
    ap (λ k. take k (y ∷ set xs n x)) {x = suc n + 1} {y = suc (n + 1)} (omega arith)
    ∙ ap (◌∷◌ y) (take-set xs n x (omega arith))

pub length-set {ℓ} : {A : Type ℓ} (xs : List A) (i : ℕ) (v : A) → length (set xs i v) ≡ length xs
length-set [] i v = refl
length-set (x ∷ xs) zero v = refl
length-set (x ∷ xs) (suc i) v = ap suc (length-set xs i v)

register-IsFresh :
    (seg : Bytes) (idx : ℕ) (t : ExcludeTable)
    → IsFresh t idx
    → t.count < max_excludes
    → IsFresh (register seg idx t).1 (register seg idx t).0
unfolding register
register-IsFresh seg idx t v h = ground (arith, length-set t.entries idx seg)

rows-register :
    (seg : Bytes) (idx : ℕ) (t : ExcludeTable) (segs : List Bytes)
    → IsFresh t idx
    → t.count < max_excludes
    → rows (register seg idx t).1 ++ accepted segs ≡ rows t ++ accepted (seg ∷ segs)
unfolding register accepted
rows-register seg idx t segs v h = elim (Bool-cases (accepts seg)) [
  | inl good ↦
      rw (good, v.at_count, take-set t.entries t.count seg (omega arith))
        (append_assoc (rows t) (seg ∷ []) (accepted segs))
  | inr bad ↦ rw bad refl
]

-- The rows so far, once the table is full, are the result.
take_full :
    (t : ExcludeTable) (idx : ℕ) (segs : List Bytes)
    → IsFresh t idx
    → max_excludes ≤ t.count
    → rows t ≡ take max_excludes (rows t ++ segs)
take_full t idx segs v full =
    let e : length (rows t) ≡ max_excludes =
      omega (arith, length-take t.count t.entries, v.sized, v.room) in
    sym (
      take-append_le max_excludes (rows t) segs (omega arith)
      ∙ ap (λ k. rows t ++ take k segs) {x = max_excludes - length (rows t)} {y = 0} (omega arith)
      ∙ append-nil (rows t))

take_rest : (t : ExcludeTable) (idx : ℕ) → IsFresh t idx → rows t ≡ take max_excludes (rows t ++ [])
take_rest t idx v =
    rw append-nil
      (sym (take_all max_excludes (rows t) (omega (arith, length-take t.count t.entries, v.room))))

abbrev Reads : ℕ → Type 0
Reads fuel =
    (p : Bytes) (idx : ℕ) (t : ExcludeTable)
    → length p < fuel
    → IsFresh t idx
    → rows (exclude_loop fuel p idx t) ≡ take max_excludes (rows t ++ accepted (split_on p))

-- What a round does behind its test, on the segment and rest that it splits off.
abbrev pub continue_loop : ℕ → Bytes × Option Bytes → ℕ × ExcludeTable → ExcludeTable
continue_loop fuel (seg, none) (idx, t) = t
continue_loop fuel (seg, some rest) (idx, t) = exclude_loop fuel rest idx t

rows-continue_loop :
    (fuel : ℕ) (p : Bytes) (r : Bytes × Option Bytes) (idx : ℕ) (t : ExcludeTable)
    → Reads fuel
    → Splits p r
    → length p ≤ fuel
    → IsFresh t idx
    → t.count < max_excludes
    → rows (continue_loop fuel r (register r.0 idx t))
      ≡ take max_excludes (rows t ++ accepted (split_on p))
unfolding accepted
rows-continue_loop fuel p (seg, none) idx t reads s short v room =
    take_rest _ _ (register-IsFresh seg idx t v room)
    ∙ ap (take max_excludes)
        (rows-register seg idx t [] v room ∙ ap (λ l. rows t ++ accepted l) (sym s))
rows-continue_loop fuel p (seg, some rest) idx t reads s short v room =
    reads rest _ _ (omega (arith, s.1)) (register-IsFresh seg idx t v room)
    ∙ ap (take max_excludes)
        (rows-register seg idx t (split_on rest) v room ∙ ap (λ l. rows t ++ accepted l) (sym s.0))

pub exclude_loop_step :
    (fuel c : ℕ) (p : Bytes) (idx : ℕ) (t : ExcludeTable)
    → exclude_loop (suc fuel) (c ∷ p) idx t ≡ (
        if ltb t.count max_excludes
        then continue_loop fuel (split_colon (c ∷ p)) (register (split_colon (c ∷ p)).0 idx t)
        else t)
unfolding exclude_loop
exclude_loop_step fuel c p idx t = ground arith

exclude_loop_rows : (fuel : ℕ) → Reads fuel
unfolding exclude_loop accepted split_on accepts
exclude_loop_rows zero p idx t h v = absurd (omega arith)
exclude_loop_rows (suc fuel) [] idx t h v = take_rest t idx v
exclude_loop_rows (suc fuel) (c ∷ p) idx t h v = elim (Bool-cases (ltb t.count max_excludes)) [
  | inl room ↦
      ap rows (exclude_loop_step fuel c p idx t)
      ∙ rw room (
          rows-continue_loop fuel (c ∷ p) (split_colon (c ∷ p)) idx t (exclude_loop_rows fuel)
            (split_colon-Splits (c ∷ p)) (omega arith) v (ltb→lt _ _ room))
  | inr full ↦
      ap rows (exclude_loop_step fuel c p idx t)
      ∙ rw full (take_full t idx (accepted (split_on (c ∷ p))) v (ground arith))
]

-- On a table with no row in use, one call registers exactly the first sixteen segments between
-- colons that are absolute and shorter than 256 bytes, in order; the loop's fuel suffices.
pub rows-set_excluded_prefixes :
    (list : Bytes) (t : ExcludeTable)
    → t.count ≡ 0
    → length t.entries ≡ max_excludes
    → rows (set_excluded_prefixes (some list) t) ≡ take max_excludes (accepted (split_on list))
unfolding set_excluded_prefixes
rows-set_excluded_prefixes list t empty sized =
    exclude_loop_rows (suc (length list)) list 0 t (omega arith)
      (record { at_count = sym empty; sized = sized; room = omega arith })
    ∙ ap (λ l. take max_excludes (l ++ accepted (split_on list)))
        (ap (λ k. take k t.entries) {y = 0} empty)
