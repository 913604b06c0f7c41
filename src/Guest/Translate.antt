-- ===== src/Guest/Translate.antt =====
-- The path translation that the hooks share: class Translated and `maybe_map` of
-- fake/syscall_hooks_write.cpp and fake/syscall_hooks_read.cpp.
use virtualaosp.Base.{
  ℕ, Bool, true, false, Option, none, some, ◌≡◌, refl, ◌⊎◌, inr, arith, if◌then◌else◌, ◌≢◌, Bytes,
  is_absolute,
}
use virtualaosp.Guest.Redirect.{
  Engine, MapResult, passthrough, mapped, overflow, bypasses, map_path, map_into_sandbox,
  map_generic, starts_with_rootfs,
}
use virtualaosp.Guest.Redirect.Confine.{IsActive}
use virtualaosp.Guest.Redirect.RoundTrip.{map_path_confined}

abbrev pub path_buf_size : ℕ
path_buf_size = 8192

-- `get()` with `mapped()`, or `overflowed()`.
pub data Translated : Type 0 where
  value : Option Bytes → Bool → Translated
  overflowed : Translated

unfoldable pub choose : MapResult → Option Bytes → Translated
choose passthrough path = value path false
choose (mapped out) path = value (some out) true
choose overflow path = overflowed

-- `Translated t(path)`
unfoldable pub translate : Engine → Option Bytes → Translated
unfolding choose
translate e path = choose (map_path e path path_buf_size) path

-- The at() variants translate only absolute paths.
unfoldable pub maybe_map : Engine → Option Bytes → Translated
unfolding translate is_absolute
maybe_map e none = value none false
maybe_map e (some path) =
    if is_absolute path then translate e (some path) else value (some path) false

-- A path that libc may be given as a location: null, relative, or one that `map_path` itself
-- would leave alone (in the sandbox, virtual, or excluded).
abbrev pub IsSafe : Engine → Option Bytes → Type 0
IsSafe e none = Unit
IsSafe e (some path) = (is_absolute path ≡ false) ⊎ (bypasses e path ≡ true)

abbrev pub AllSafe : Engine → Translated → Type 0
AllSafe e (value path was_mapped) = IsSafe e path
AllSafe e overflowed = Unit

map_into_sandbox-ne-passthrough :
    (e : Engine) (p : Bytes) (n : ℕ) → map_into_sandbox e p n ≢ passthrough
unfolding map_into_sandbox map_generic
map_into_sandbox-ne-passthrough e p n = ground arith

map_path-passthrough :
    (e : Engine) (p : Bytes) (n : ℕ)
    → e.enabled ≡ true
    → map_path e (some p) n ≡ passthrough
    → (is_absolute p ≡ false) ⊎ (bypasses e p ≡ true)
unfolding map_path
map_path-passthrough e p n on h = ground (arith, map_into_sandbox-ne-passthrough e p n)

rooted-bypasses :
    (e : Engine) (p : Bytes) → starts_with_rootfs e.state p ≡ true → bypasses e p ≡ true
unfolding bypasses
rooted-bypasses e p h = ground arith

choose-AllSafe :
    (e : Engine) (p : Bytes) (r : MapResult)
    → IsActive e
    → map_path e (some p) path_buf_size ≡ r
    → AllSafe e (choose r (some p))
unfolding choose
choose-AllSafe e p passthrough v h = map_path-passthrough e p path_buf_size v.active h
choose-AllSafe e p (mapped out) v h = inr (
    rooted-bypasses e out
      (map_path_confined e p path_buf_size v (omega (arith, v.rooted.fits)) h).0)
choose-AllSafe e p overflow v h = tt

pub translate-AllSafe :
    (e : Engine) (path : Option Bytes) → IsActive e → AllSafe e (translate e path)
unfolding translate
translate-AllSafe e none v = unfold map_path choose in tt
translate-AllSafe e (some p) v = choose-AllSafe e p (map_path e (some p) path_buf_size) v refl

-- A path that is not absolute is left alone by `map_path` too, so the at() variants translate as
-- the others do.
pub maybe_map-translate : (e : Engine) (path : Option Bytes) → maybe_map e path ≡ translate e path
unfolding maybe_map translate map_path choose
maybe_map-translate e none = refl
maybe_map-translate e (some p) = ground arith
