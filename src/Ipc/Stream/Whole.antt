-- ===== src/Ipc/Stream/Whole.antt =====
-- The reading loops of core/ipc.cpp and fake/ipc_client.cpp over a stream that is cut into pieces.
use virtualaosp.Base.{
  ℕ, zero, suc, ◌-◌, ◌≤◌, ◌<◌, List, [], ◌∷◌, ◌++◌, ◌≡◌, ◌≢◌, refl, inl, inr, sym, ap, subst, arith,
  leb, length, length-append, length-drop, drop, take-length, drop-length, Bool-cases, Bytes,
}
use virtualaosp.Ipc.Stream.{Input, piece, interrupted, closed, full, recv_exact, read_full}

-- The stream gives exactly these bytes, in pieces that are not empty, and then closes. Calls may
-- be interrupted.
abbrev pub Arrives : List Input → Bytes → Type 0
Arrives [] bs = ⊥
Arrives (closed ∷ inputs) bs = bs ≡ []
Arrives (interrupted ∷ inputs) bs = Arrives inputs bs
Arrives (piece p ∷ inputs) bs = (p ≢ []) × ((rest : Bytes) × (bs ≡ p ++ rest) × Arrives inputs rest)

-- No call is interrupted.
abbrev pub IsSteady : List Input → Type 0
IsSteady [] = Unit
IsSteady (closed ∷ inputs) = IsSteady inputs
IsSteady (interrupted ∷ inputs) = ⊥
IsSteady (piece p ∷ inputs) = IsSteady inputs

-- Without interruptions the two sides read alike.
pub recv_exact-read_full :
    (n : ℕ) (inputs : List Input) → IsSteady inputs → recv_exact n inputs ≡ read_full n inputs
unfolding recv_exact read_full
recv_exact-read_full zero inputs s = refl
recv_exact-read_full (suc n) [] s = refl
recv_exact-read_full (suc n) (closed ∷ inputs) s = refl
recv_exact-read_full (suc n) (interrupted ∷ inputs) s = absurd s
recv_exact-read_full (suc n) (piece [] ∷ inputs) s = refl
recv_exact-read_full (suc n) (piece (b ∷ bs) ∷ inputs) s =
    rw (recv_exact-read_full (suc n - length (b ∷ bs)) inputs s)

-- Of two ways to cut one list, the shorter front part begins the longer.
append-cut :
    (p r xs ys : Bytes)
    → xs ++ ys ≡ p ++ r
    → length p ≤ length xs
    → (xs ≡ p ++ drop (length p) xs) × (drop (length p) xs ++ ys ≡ r)
append-cut [] r xs ys e h = (refl, e)
append-cut (b ∷ p) r [] ys e h = absurd (omega arith)
append-cut (b ∷ p) r (x ∷ xs) ys e h = ground (arith, append-cut p r xs ys)

-- What a reader that asks for `xs` finds.
pub record Took (inputs : List Input) (xs ys : Bytes) : Type 0 where
  pub left : List Input
  pub reads : read_full (length xs) inputs ≡ full xs left
  pub arrives : Arrives left ys
  pub steady : IsSteady inputs → IsSteady left

piece-whole :
    (b : ℕ) (bs : Bytes) (inputs : List Input) (xs more ys : Bytes)
    → xs ≡ (b ∷ bs) ++ more
    → Took inputs more ys
    → Took (piece (b ∷ bs) ∷ inputs) xs ys
unfolding read_full
piece-whole b bs inputs [] more ys e t = cc
piece-whole b bs inputs (x ∷ xs) more ys e t = record {
  left = t.left;
  reads =
      let n : suc (length xs) - suc (length bs) ≡ length more =
        omega (arith, ap length e, length-append (b ∷ bs) more) in
      ground (
        arith,
        n,
        ap (λ k. read_full k inputs) n,
        t.reads,
        length-append (b ∷ bs) more,
        ap length e,
      );
  arrives = t.arrives;
  steady = t.steady;
}

piece-part :
    (b : ℕ) (bs : Bytes) (inputs : List Input) (x : ℕ) (xs more rest : Bytes)
    → (b ∷ bs) ≡ (x ∷ xs) ++ more
    → more ≢ []
    → Arrives inputs rest
    → Took (piece (b ∷ bs) ∷ inputs) (x ∷ xs) (more ++ rest)
unfolding read_full
piece-part b bs inputs x xs [] rest e ne a = absurd (ne refl)
piece-part b bs inputs x xs (m ∷ more) rest e ne a = record {
  left = piece (m ∷ more) ∷ inputs;
  reads = ground (
    arith,
    ap length e,
    length-append xs (m ∷ more),
    take-length xs (m ∷ more),
    drop-length xs (m ∷ more),
  );
  arrives = (ne, (rest, refl, a));
  steady = λ s. s;
}

-- A reader that asks for the length of the front part of what arrives gets just that part, and
-- the rest still arrives.
pub read_full-Took :
    (inputs : List Input) (xs ys : Bytes) → Arrives inputs (xs ++ ys) → Took inputs xs ys
unfolding read_full
read_full-Took inputs [] ys a = record { left = inputs; reads = refl; arrives = a; steady = λ s. s }
read_full-Took [] (x ∷ xs) ys a = absurd a
read_full-Took (closed ∷ inputs) (x ∷ xs) ys a = cc
read_full-Took (interrupted ∷ inputs) (x ∷ xs) ys a =
    let t = read_full-Took inputs (x ∷ xs) ys a in
    record { left = t.left; reads = t.reads; arrives = t.arrives; steady = λ s. absurd s }
read_full-Took (piece [] ∷ inputs) (x ∷ xs) ys a = absurd (a.0 refl)
read_full-Took (piece (b ∷ bs) ∷ inputs) (x ∷ xs) ys (ne, (rest, e, a)) =
    elim (Bool-cases (leb (length (b ∷ bs)) (length (x ∷ xs)))) [
      | inl short ↦
          let c = append-cut (b ∷ bs) rest (x ∷ xs) ys e (ground arith) in
          piece-whole b bs inputs (x ∷ xs) (drop (length (b ∷ bs)) (x ∷ xs)) ys c.0 (
            read_full-Took inputs (drop (length (b ∷ bs)) (x ∷ xs)) ys
              (subst (Arrives inputs) (sym c.1) a))
      | inr long ↦
          let c = append-cut (x ∷ xs) ys (b ∷ bs) rest (sym e) (ground arith) in
          let longer : length (x ∷ xs) < length (b ∷ bs) = ground arith in
          subst (Took (piece (b ∷ bs) ∷ inputs) (x ∷ xs)) c.1 (
            piece-part b bs inputs x xs (drop (length (x ∷ xs)) (b ∷ bs)) rest c.0
              (λ none.
                omega (arith, ap length none, length-drop (length (x ∷ xs)) (b ∷ bs), longer))
              a)
    ]
