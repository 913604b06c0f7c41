-- ===== src/Guest/RealLibc/Returns.antt =====
-- That a thread gets through `next_sym` of fake/real_libc.cpp.
use Prim.Native.String.{String}
use virtualaosp.Base.{
  ℕ, ◌+◌, ◌-◌, ◌≤◌, Bool, true, false, ◌&&◌, not, Option, none, some, List, [], ◌∷◌, ◌==◌, ◌≡◌,
  refl, ap, ◌∙◌, sym, subst, arith, inl, inr, ◌⊎◌, if◌then◌else◌,
}
use virtualaosp.Guest.RealLibc.{
  Request, real_open, real_close, real_read, real_lseek, real_readlink, real_fstat, real_fdopen,
  real_opendir, real_getpid, slot_of, call_of, Pc, outside, loading, looking, aborted, storing,
  called, Process, fresh, update, found, loaded, move, enter, Event, enters, moves, step, run,
}
use virtualaosp.Guest.RealLibc.Resolves.{Fits, step-Inv, run-Inv, fresh-Inv, update-at}

-- The name in libc of the function that each accessor stands for.
abbrev pub name_of : Request → String
name_of (real_open file flags mode) = "open"
name_of (real_close fd) = "close"
name_of (real_read fd buf count) = "read"
name_of (real_lseek fd offset whence) = "lseek"
name_of (real_readlink file buf size) = "readlink"
name_of (real_fstat fd st) = "fstat"
name_of (real_fdopen fd mode) = "fdopen"
name_of (real_opendir file) = "opendir"
name_of real_getpid = "getpid"

symbol_is : (r : Request) → (call_of r).symbol ≡ name_of r
unfolding call_of
symbol_is (real_open file flags mode) = refl
symbol_is (real_close fd) = refl
symbol_is (real_read fd buf count) = refl
symbol_is (real_lseek fd offset whence) = refl
symbol_is (real_readlink file buf size) = refl
symbol_is (real_fstat fd st) = refl
symbol_is (real_fdopen fd mode) = refl
symbol_is (real_opendir file) = refl
symbol_is real_getpid = refl

-- How many steps a thread has left.
abbrev rank : Pc → ℕ
rank outside = 0
rank (loading r) = 3
rank (looking r) = 2
rank (storing r fn) = 1
rank (called r fn) = 0
rank (aborted r) = 0

-- A thread is in the accessor for `r`.
abbrev InCall : Request → Pc → Type 0
InCall r outside = ⊥
InCall r (loading r') = r' ≡ r
InCall r (looking r') = r' ≡ r
InCall r (storing r' fn) = r' ≡ r
InCall r (called r' fn) = r' ≡ r
InCall r (aborted r') = r' ≡ r

abbrev Left : ℕ → Request → Pc → Type 0
Left n r pc = InCall r pc × (rank pc ≤ n)

abbrev is_other : ℕ → Event → Bool
is_other i (enters j r) = not (j == i)
is_other i (moves j) = true

-- The thread enters no other accessor.
unfoldable pub stays : ℕ → List Event → Bool
stays i [] = true
stays i (e ∷ es) = is_other i e && stays i es

abbrev is_move : ℕ → Event → ℕ
is_move i (enters j r) = 0
is_move i (moves j) = if j == i then 1 else 0

unfoldable pub moves_of : ℕ → List Event → ℕ
moves_of i [] = 0
moves_of i (e ∷ es) = is_move i e + moves_of i es

update-other : {A : Type 0} (i j : ℕ) (a : A) (f : ℕ → A) → (j == i) ≡ false → update j a f i ≡ f i
update-other i j a f e = ap (λ b. if b then a else f i) e

split-and : (x y : Bool) → (x && y) ≡ true → (x ≡ true) × (y ≡ true)
split-and true y h = (refl, h)
split-and false y h = ground arith

loaded-Left :
    (r r' : Request) (o : Option ℕ) (n : ℕ) → r' ≡ r → 3 ≤ n → Left (n - 1) r (loaded r' o)
loaded-Left r r' none n e h = (e, omega arith)
loaded-Left r r' (some fn) n e h = (e, omega arith)

found-Left : (r r' : Request) (o : Option ℕ) (n : ℕ) → r' ≡ r → 2 ≤ n → Left (n - 1) r (found r' o)
found-Left r r' none n e h = (e, omega arith)
found-Left r r' (some fn) n e h = (e, omega arith)

no_less : (n : ℕ) (r : Request) (pc : Pc) → Left n r pc → Left (n - 0) r pc
no_less n r pc h = (h.0, omega (arith, h.1))

module _ (dlsym : String → Option ℕ) (i : ℕ) (r : Request) where
  at-Left : (n : ℕ) (pc : Pc) (f : ℕ → Pc) → Left n r pc → Left n r (update i pc f i)
  at-Left n pc f h = subst (Left n r) (sym (update-at i pc f)) h

  own-Left :
      (n : ℕ) (p : Process) (pc : Pc)
      → p.pcs i ≡ pc
      → Left n r pc
      → Left (n - 1) r ((move dlsym p i pc).pcs i)
  own-Left n p outside e h = absurd h.0
  own-Left n p (loading r') e h =
      at-Left (n - 1) _ p.pcs (loaded-Left r r' (p.slots (slot_of r')) n h.0 h.1)
  own-Left n p (looking r') e h =
      at-Left (n - 1) _ p.pcs (found-Left r r' (dlsym (call_of r').symbol) n h.0 h.1)
  own-Left n p (storing r' fn) e h = at-Left (n - 1) _ p.pcs (h.0, omega arith)
  own-Left n p (called r' fn) e h = subst (Left (n - 1) r) (sym e) (h.0, omega arith)
  own-Left n p (aborted r') e h = subst (Left (n - 1) r) (sym e) (h.0, omega arith)

  other-move :
      (p : Process) (j : ℕ) (pc : Pc) → (j == i) ≡ false → (move dlsym p j pc).pcs i ≡ p.pcs i
  other-move p j outside e = refl
  other-move p j (loading r') e = update-other i j _ p.pcs e
  other-move p j (looking r') e = update-other i j _ p.pcs e
  other-move p j (storing r' fn) e = update-other i j _ p.pcs e
  other-move p j (called r' fn) e = refl
  other-move p j (aborted r') e = refl

  other-enter :
      (p : Process) (j : ℕ) (r' : Request) (pc : Pc)
      → (j == i) ≡ false
      → (enter p j r' pc).pcs i ≡ p.pcs i
  other-enter p j r' outside e = update-other i j _ p.pcs e
  other-enter p j r' (called r'' fn) e = update-other i j _ p.pcs e
  other-enter p j r' (loading r'') e = refl
  other-enter p j r' (looking r'') e = refl
  other-enter p j r' (storing r'' fn) e = refl
  other-enter p j r' (aborted r'') e = refl

  step-Left :
      (n : ℕ) (p : Process) (e : Event)
      → is_other i e ≡ true
      → Left n r (p.pcs i)
      → Left (n - is_move i e) r ((step dlsym p e).pcs i)
  unfolding step
  step-Left n p (enters j r') ok h =
      no_less n r _ (subst (Left n r) (sym (other-enter p j r' (p.pcs j) (ground (arith, ok)))) h)
  step-Left n p (moves j) ok h = on (j == i) refl
    where
      on :
          (b : Bool)
          → (j == i) ≡ b
          → Left (n - (if b then 1 else 0)) r ((move dlsym p j (p.pcs j)).pcs i)
      on true e =
          subst (λ k. Left (n - 1) r ((move dlsym p k (p.pcs k)).pcs i)) (ground (arith, e))
            (own-Left n p (p.pcs i) refl h)
      on false e = no_less n r _ (subst (Left n r) (sym (other-move p j (p.pcs j) e)) h)

  run-Left :
      (n : ℕ) (p : Process) (es : List Event)
      → stays i es ≡ true
      → Left n r (p.pcs i)
      → Left (n - moves_of i es) r ((run dlsym p es).pcs i)
  unfolding stays moves_of run
  run-Left n p [] ok h = no_less n r _ h
  run-Left n p (e ∷ es) ok h =
      let both = split-and (is_other i e) (stays i es) ok in
      let rest = run-Left (n - is_move i e) (step dlsym p e) es both.1 (step-Left n p e both.0 h) in
      (rest.0, omega (arith, rest.1))

  -- A thread with no step left has called the function, or there is none.
  Returned : Pc → Type 0
  Returned pc =
      ((fn : ℕ) × (pc ≡ called r fn) × (dlsym (name_of r) ≡ some fn))
      ⊎ ((pc ≡ aborted r) × (dlsym (name_of r) ≡ none))

  own_name :
      (r' : Request) (o : Option ℕ) → r' ≡ r → dlsym (call_of r').symbol ≡ o → dlsym (name_of r) ≡ o
  own_name r' o e f = ap dlsym (ap name_of (sym e) ∙ sym (symbol_is r')) ∙ f

  last-Returned : (pc : Pc) → Left 0 r pc → Fits dlsym pc → Returned pc
  unfolding Returned Fits
  last-Returned outside h f = absurd h.0
  last-Returned (loading r') h f = ground (arith, h.1)
  last-Returned (looking r') h f = ground (arith, h.1)
  last-Returned (storing r' fn) h f = ground (arith, h.1)
  last-Returned (called r' fn) h f =
      inl (fn, ap (λ q. called q fn) h.0, own_name r' (some fn) h.0 f)
  last-Returned (aborted r') h f = inr (ap aborted h.0, own_name r' none h.0 f)

-- Whatever the other threads do with the accessors, a thread that enters one is behind three steps
-- of its own in the function that dlsym finds for the name that libc has for the accessor, or, if dlsym finds
-- none, in abort.
pub accessor_returns :
    (dlsym : String → Option ℕ) (i : ℕ) (r : Request) (es later : List Event)
    → (run dlsym fresh es).pcs i ≡ outside
    → stays i later ≡ true
    → 3 ≤ moves_of i later
    → (let pc = (run dlsym (step dlsym (run dlsym fresh es) (enters i r)) later).pcs i in
        ((fn : ℕ) × (pc ≡ called r fn) × (dlsym (name_of r) ≡ some fn))
        ⊎ ((pc ≡ aborted r) × (dlsym (name_of r) ≡ none)))
unfolding Returned step
accessor_returns dlsym i r es later at ok enough =
    let start = run dlsym fresh es in
    let entered = step dlsym start (enters i r) in
    let last = run dlsym entered later in
    let left = run-Left dlsym i r 3 entered later ok (begun start at) in
    last-Returned dlsym i r (last.pcs i) (left.0, omega (arith, left.1, enough))
      ((run-Inv dlsym entered later
          (step-Inv dlsym start (enters i r) (run-Inv dlsym fresh es (fresh-Inv dlsym)))).fits
        i)
  where
    begun : (p : Process) → p.pcs i ≡ outside → Left 3 r ((step dlsym p (enters i r)).pcs i)
    begun p e =
        subst (λ pc. Left 3 r ((enter p i r pc).pcs i)) (sym e)
          (at-Left dlsym i r 3 (loading r) p.pcs (refl, omega arith))
