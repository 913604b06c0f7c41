-- ===== src/Guest/Redirect/Unsound.antt =====
-- Two histories of fake/path_redirect.cpp and fake/fake_state.cpp: an exclusion list registered
-- twice, and a refused second activation.
use virtualaosp.Base.{
  ℕ, zero, suc, ◌+◌, ◌≤◌, ◌<◌, true, false, none, some, List, [], ◌∷◌, ◌≡◌, refl, ◌∙◌, arith,
  length, get_or, set, lt→ltb, Bytes, is_absolute,
}
use virtualaosp.Base.Int.{ℤ}
use virtualaosp.Guest.State.{State, rootfs_size, trim_len, activate, set_state}
use virtualaosp.Guest.Redirect.Excludes.{exclude_loop_step, length-set}
use virtualaosp.Guest.Redirect.{
  ExcludeTable, max_excludes, has_prefix, split_colon, accepts, register, set_excluded_prefixes,
  is_excluded, Engine, bypasses, map_path, map_into_sandbox, map_generic, passthrough, mapped,
  is_virtual_fs_path, starts_with_rootfs,
}

has_prefix_empty : (p : Bytes) → is_absolute p ≡ true → has_prefix p [] ≡ true
unfolding has_prefix is_absolute
has_prefix_empty [] h = refl
has_prefix_empty (c ∷ p) h = h

-- An empty row among those in use excludes every absolute path.
is_excluded_empty :
    (p : Bytes) (entries : List Bytes) (i n : ℕ)
    → is_absolute p ≡ true
    → i < n
    → i < length entries
    → get_or entries i [] ≡ []
    → is_excluded p entries n ≡ true
unfolding is_excluded
is_excluded_empty p entries i zero a lt inside e = absurd (omega arith)
is_excluded_empty p [] i (suc n) a lt inside e = absurd (omega arith)
is_excluded_empty p (row ∷ entries) zero (suc n) a lt inside e =
    ground (arith, has_prefix_empty p a)
is_excluded_empty p (row ∷ entries) (suc i) (suc n) a lt inside e =
    ground (arith, is_excluded_empty p entries i n a)

get_or-set_ne :
    (xs : List Bytes) (j : ℕ) (v : Bytes) → 0 < j → get_or (set xs 0 v) j [] ≡ get_or xs j []
get_or-set_ne [] j v h = refl
get_or-set_ne (x ∷ xs) zero v h = absurd (omega arith)
get_or-set_ne (x ∷ xs) (suc j) v h = refl

-- The table after a call with one segment: row 0 is overwritten and the count grows.
set_excluded_prefixes_one :
    (c : ℕ) (p : Bytes) (t : ExcludeTable)
    → split_colon (c ∷ p) ≡ (c ∷ p, none)
    → accepts (c ∷ p) ≡ true
    → t.count < max_excludes
    → set_excluded_prefixes (some (c ∷ p)) t
      ≡ record { entries = set t.entries 0 (c ∷ p); count = t.count + 1 }
set_excluded_prefixes_one c p t whole good room =
    unfold set_excluded_prefixes in
    exclude_loop_step (length (c ∷ p)) c p 0 t
    ∙ rw (lt→ltb _ _ room, whole) (unfold register in ground arith)

-- A second call of `set_excluded_prefixes`, with one acceptable segment and some but not all rows
-- in use, writes the segment over row 0 and puts the unwritten row `count` in use: if that row is
-- empty, as the static table is, an engine with the new table maps no path at all.
pub second_call_excludes_all :
    (e : Engine) (c : ℕ) (seg p : Bytes) (size : ℕ)
    → split_colon (c ∷ seg) ≡ (c ∷ seg, none)
    → accepts (c ∷ seg) ≡ true
    → 0 < e.excludes.count
    → e.excludes.count < max_excludes
    → length e.excludes.entries ≡ max_excludes
    → get_or e.excludes.entries e.excludes.count [] ≡ []
    → map_path
        (record e { excludes = set_excluded_prefixes (some (c ∷ seg)) e.excludes })
        (some p)
        size
      ≡ passthrough
unfolding map_path bypasses
second_call_excludes_all e c seg p size whole good used room sized blank =
    let t = e.excludes in
    rw (set_excluded_prefixes_one c seg t whole good room) (
      ground (
        arith,
        is_excluded_empty p (set t.entries 0 (c ∷ seg)) t.count (t.count + 1),
        length-set t.entries 0 (c ∷ seg),
        get_or-set_ne t.entries t.count (c ∷ seg) used,
      ))

-- A root that still has 4096 bytes without its trailing slashes is refused, but an engine that was
-- active stays active, now with an empty root and its old identity.
set_state_refused :
    (s : State) (root : Bytes) (uid gid : ℤ)
    → is_absolute root ≡ true
    → rootfs_size ≤ trim_len root (length root)
    → set_state s true (some root) uid gid ≡ record s { root = [] }
unfolding set_state activate
set_state_refused s root uid gid a long = ground arith

-- After such a refusal, with no resolver, the engine maps every absolute path that is neither
-- virtual nor excluded to itself: to the file of the host.
pub refused_root_leaks :
    (e : Engine) (root p : Bytes) (uid gid : ℤ) (size : ℕ)
    → e.enabled ≡ true
    → is_absolute root ≡ true
    → rootfs_size ≤ trim_len root (length root)
    → e.resolver.initialized ≡ false
    → is_absolute p ≡ true
    → is_virtual_fs_path p ≡ false
    → is_excluded p e.excludes.entries e.excludes.count ≡ false
    → length p < size
    → map_path (record e { state = set_state e.state true (some root) uid gid }) (some p) size
      ≡ mapped p
unfolding map_path bypasses starts_with_rootfs map_into_sandbox map_generic
refused_root_leaks e root p uid gid size on a long raw above plain kept room =
    rw (set_state_refused e.state root uid gid a long) (ground arith)
