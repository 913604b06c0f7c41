-- ===== src/Guest/State/Root.antt =====
-- The sandbox root that `set_state` of fake/fake_state.cpp stores.
use virtualaosp.Base.{
  ℕ, zero, suc, ◌+◌, ◌-◌, ◌≤◌, ◌<◌, Bool, true, false, Option, none, some, [], ◌∷◌, ◌++◌, ◌≡◌, ◌≢◌,
  ap, ◌∙◌, arith, length, get_or, take, replicate, length-append, length-take, length-replicate,
  get_or-take, get_or-append_left, get_or-append_right, get_or-replicate, take-length, Bytes,
  is_absolute,
}
use virtualaosp.Base.Int.{ℤ}
use virtualaosp.Guest.State.{State, rootfs_size, trim_len, activate, set_state}

-- An absolute path that fits the buffer and has no trailing slash, but for "/" itself.
pub record IsRoot (r : Bytes) : Type 0 where
  pub absolute : is_absolute r ≡ true
  pub fits : length r < rootfs_size
  pub trimmed : 1 < length r → get_or r (length r - 1) 0 ≢ b'/'

abbrev pub IsValid : State → Type 0
IsValid s = s.enabled ≡ true → IsRoot s.root

trim_len-le : (root : Bytes) (n : ℕ) → trim_len root n ≤ n
unfolding trim_len
trim_len-le root zero = omega arith
trim_len-le root (suc n) = ground (arith, trim_len-le root n)

trim_len_pos : (root : Bytes) (n : ℕ) → 0 < n → 0 < trim_len root n
unfolding trim_len
trim_len_pos root zero h = h
trim_len_pos root (suc n) h = ground (arith, trim_len_pos root n)

trim_len_last :
    (root : Bytes) (n : ℕ) → 1 < trim_len root n → get_or root (trim_len root n - 1) 0 ≢ b'/'
unfolding trim_len
trim_len_last root zero h = absurd (omega arith)
trim_len_last root (suc n) h = ground (arith, trim_len_last root n)

-- A run of slashes behind position `k` is dropped, down to `k`.
trim_len_run :
    (root : Bytes) (k n : ℕ)
    → 0 < k
    → (1 < k → get_or root (k - 1) 0 ≢ b'/')
    → ((i : ℕ) → i < n → get_or root (k + i) 0 ≡ b'/')
    → trim_len root (k + n) ≡ k
unfolding trim_len
trim_len_run root zero n h last run = absurd (omega arith)
trim_len_run root (suc j) zero h last run =
    ap (trim_len root) {x = suc j + 0} {y = suc j} (omega arith)
    ∙ ground (arith, last, ap (λ k. get_or root k 0) {x = suc j - 1} {y = j} (omega arith))
trim_len_run root (suc j) (suc n) h last run =
    ap (trim_len root) {x = suc j + suc n} {y = suc (suc j + n)} (omega arith)
    ∙ ground (arith, run n, trim_len_run root (suc j) n h last (λ i lt. run i (omega arith)))

IsRoot-ne-nil : ¬ IsRoot []
unfolding is_absolute
IsRoot-ne-nil v = cc (v.absolute)

-- What is left of a root with `n` slashes behind it is the root.
trim_len-slashes :
    (r : Bytes) (n : ℕ)
    → IsRoot r
    → trim_len (r ++ replicate n b'/') (length (r ++ replicate n b'/')) ≡ length r
trim_len-slashes [] n v = absurd (IsRoot-ne-nil v)
trim_len-slashes (c ∷ r) n v =
    ap (trim_len (c ∷ r ++ replicate n b'/')) {y = length (c ∷ r) + n}
      (omega (arith, length-append (c ∷ r) (replicate n b'/'), length-replicate {A = ℕ} n b'/'))
    ∙ trim_len_run (c ∷ r ++ replicate n b'/') (length (c ∷ r)) n (omega arith)
        (λ lt.
          rw (get_or-append_left (c ∷ r) (replicate n b'/') (length (c ∷ r) - 1) 0 (omega arith))
            (v.trimmed lt))
        (λ i lt.
          get_or-append_right (c ∷ r) (replicate n b'/') i 0 ∙ get_or-replicate n i b'/' 0 lt)

is_absolute-append : (r s : Bytes) → is_absolute r ≡ true → is_absolute (r ++ s) ≡ true
unfolding is_absolute
is_absolute-append [] s h = cc
is_absolute-append (c ∷ r) s h = h

-- A root followed by any number of slashes activates the engine with exactly that root, under
-- the identity given, whatever the state was.
pub set_state_activates :
    (s : State) (r : Bytes) (n : ℕ) (uid gid : ℤ)
    → IsRoot r
    → set_state s true (some (r ++ replicate n b'/')) uid gid
      ≡ record { enabled = true; root = r; fake_uid = uid; fake_gid = gid }
unfolding set_state activate
set_state_activates s r n uid gid v = ground (
  arith,
  v.fits,
  is_absolute-append r (replicate n b'/') v.absolute,
  trim_len-slashes r n v,
  take-length r (replicate n b'/'),
)

is_absolute-take :
    (n : ℕ) (root : Bytes) → 0 < n → is_absolute root ≡ true → is_absolute (take n root) ≡ true
unfolding is_absolute
is_absolute-take zero root h a = absurd (omega arith)
is_absolute-take (suc n) [] h a = a
is_absolute-take (suc n) (c ∷ root) h a = a

absolute_pos : (root : Bytes) → is_absolute root ≡ true → 0 < length root
unfolding is_absolute
absolute_pos [] a = cc
absolute_pos (c ∷ root) a = omega arith

trimmed-IsRoot :
    (root : Bytes)
    → is_absolute root ≡ true
    → trim_len root (length root) < rootfs_size
    → IsRoot (take (trim_len root (length root)) root)
trimmed-IsRoot root a h =
    let n = length root in
    let t = trim_len root n in
    let e : length (take t root) ≡ t = omega (arith, length-take t root, trim_len-le root n) in
    record {
      absolute = is_absolute-take t root (trim_len_pos root n (absolute_pos root a)) a;
      fits = omega arith;
      trimmed = λ lt.
          rw (e, get_or-take t (t - 1) root 0 (omega arith)) (trim_len_last root n (omega arith));
    }

-- From an inactive process, an activation that goes through has a well-formed root.
pub set_state-IsValid :
    (s : State) (enable : Bool) (root : Option Bytes) (uid gid : ℤ)
    → s.enabled ≡ false
    → IsValid (set_state s enable root uid gid)
unfolding set_state activate
set_state-IsValid s enable none uid gid off = λ h. cc
set_state-IsValid s enable (some root) uid gid off = λ h. ground (arith, trimmed-IsRoot root)
