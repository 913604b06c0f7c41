-- ===== src/Guest/RealLibc/Resolves.antt =====
-- What the accessors of fake/real_libc.cpp call.
use Prim.Native.String.{String}
use virtualaosp.Base.{
  ℕ, zero, suc, Bool, true, false, Option, none, some, List, [], ◌∷◌, ◌==◌, ◌≡◌, refl, ap, ◌∙◌, sym,
  subst, arith, if◌then◌else◌, ==_self,
}
use virtualaosp.Guest.RealLibc.{
  Request, real_open, real_close, real_read, real_lseek, real_readlink, real_fstat, real_fdopen,
  real_opendir, real_getpid, slot_of, call_of, Pc, outside, loading, looking, aborted, storing,
  called, Process, fresh, update, found, loaded, move, enter, Event, enters, moves, step, run,
}

abbrev names : List String
names =
    "open" ∷ "close" ∷ "read" ∷ "lseek" ∷ "readlink" ∷ "fstat" ∷ "fdopen" ∷ "opendir" ∷ "getpid"
    ∷ []

nth : List String → ℕ → String
nth [] n = ""
nth (x ∷ xs) zero = x
nth (x ∷ xs) (suc n) = nth xs n

-- The symbol that belongs to a slot.
abbrev symbol_at : ℕ → String
symbol_at n = nth names n

symbol_is : (r : Request) → symbol_at (slot_of r) ≡ (call_of r).symbol
unfolding nth call_of
symbol_is (real_open file flags mode) = refl
symbol_is (real_close fd) = refl
symbol_is (real_read fd buf count) = refl
symbol_is (real_lseek fd offset whence) = refl
symbol_is (real_readlink file buf size) = refl
symbol_is (real_fstat fd st) = refl
symbol_is (real_fdopen fd mode) = refl
symbol_is (real_opendir file) = refl
symbol_is real_getpid = refl

pub update-at : {A : Type 0} (i : ℕ) (a : A) (f : ℕ → A) → update i a f i ≡ a
update-at i a f = ap (λ b. if b then a else f i) (==_self i)

-- A property of each entry is kept by an update that has it.
update-all :
    {A : Type 0} (P : ℕ → A → Type 0) (i : ℕ) (a : A) (f : ℕ → A)
    → P i a
    → ((j : ℕ) → P j (f j))
    → (j : ℕ) → P j (update i a f j)
update-all P i a f new old j = on (i == j) refl
  where
    on : (b : Bool) → (i == j) ≡ b → P j (if b then a else f j)
    on true e = subst (λ k. P k a) (ground (arith, e)) new
    on false e = old j

module _ (dlsym : String → Option ℕ) where
  -- What a slot holds is what dlsym finds.
  pub Sound : ℕ → Option ℕ → Type 0
  Sound n none = Unit
  Sound n (some fn) = dlsym (symbol_at n) ≡ some fn

  -- A thread has the function of its own accessor.
  unfoldable pub Fits : Pc → Type 0
  Fits outside = Unit
  Fits (loading r) = Unit
  Fits (looking r) = Unit
  Fits (storing r fn) = dlsym (call_of r).symbol ≡ some fn
  Fits (called r fn) = dlsym (call_of r).symbol ≡ some fn
  Fits (aborted r) = dlsym (call_of r).symbol ≡ none

  pub record Inv (p : Process) : Type 0 where
    pub sound : (n : ℕ) → Sound n (p.slots n)
    pub fits : (i : ℕ) → Fits (p.pcs i)

  loaded-Fits : (r : Request) (o : Option ℕ) → Sound (slot_of r) o → Fits (loaded r o)
  unfolding Sound Fits
  loaded-Fits r none h = tt
  loaded-Fits r (some fn) h = ap dlsym (sym (symbol_is r)) ∙ h

  found-Fits : (r : Request) (o : Option ℕ) → dlsym (call_of r).symbol ≡ o → Fits (found r o)
  unfolding Fits
  found-Fits r none h = h
  found-Fits r (some fn) h = h

  pc-Inv :
      (p : Process) (i : ℕ) (pc : Pc) → Fits pc → Inv p → Inv (record p { pcs = update i pc p.pcs })
  pc-Inv p i pc h inv = record {
    sound = inv.sound;
    fits = update-all (λ j. Fits) i pc p.pcs h inv.fits;
  }

  enter-Inv : (p : Process) (i : ℕ) (r : Request) (pc : Pc) → Inv p → Inv (enter p i r pc)
  unfolding Fits
  enter-Inv p i r outside inv = pc-Inv p i (loading r) tt inv
  enter-Inv p i r (called r' fn) inv = pc-Inv p i (loading r) tt inv
  enter-Inv p i r (loading r') inv = inv
  enter-Inv p i r (looking r') inv = inv
  enter-Inv p i r (storing r' fn) inv = inv
  enter-Inv p i r (aborted r') inv = inv

  store-Sound :
      (r : Request) (fn : ℕ) → dlsym (call_of r).symbol ≡ some fn → Sound (slot_of r) (some fn)
  unfolding Sound
  store-Sound r fn h = ap dlsym (symbol_is r) ∙ h

  move-Inv : (p : Process) (i : ℕ) (pc : Pc) → Fits pc → Inv p → Inv (move dlsym p i pc)
  unfolding Fits
  move-Inv p i outside h inv = inv
  move-Inv p i (loading r) h inv =
      pc-Inv p i (loaded r (p.slots (slot_of r)))
        (loaded-Fits r (p.slots (slot_of r)) (inv.sound (slot_of r))) inv
  move-Inv p i (looking r) h inv =
      pc-Inv p i (found r (dlsym (call_of r).symbol)) (found-Fits r _ refl) inv
  move-Inv p i (storing r fn) h inv = record {
    sound = update-all Sound (slot_of r) (some fn) p.slots (store-Sound r fn h) inv.sound;
    fits = update-all (λ j. Fits) i (called r fn) p.pcs h inv.fits;
  }
  move-Inv p i (called r fn) h inv = inv
  move-Inv p i (aborted r) h inv = inv

  pub step-Inv : (p : Process) (e : Event) → Inv p → Inv (step dlsym p e)
  unfolding step
  step-Inv p (enters i r) inv = enter-Inv p i r (p.pcs i) inv
  step-Inv p (moves i) inv = move-Inv p i (p.pcs i) (inv.fits i) inv

  pub run-Inv : (p : Process) (es : List Event) → Inv p → Inv (run dlsym p es)
  unfolding run
  run-Inv p [] inv = inv
  run-Inv p (e ∷ es) inv = run-Inv (step dlsym p e) es (step-Inv p e inv)

  pub fresh-Inv : Inv fresh
  unfolding Sound Fits
  fresh-Inv = record { sound = λ n. tt; fits = λ i. tt }
