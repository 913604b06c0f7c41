-- ===== src/Guest/Redirect/RoundTrip.antt =====
-- `map_path` and `unmap_path` of fake/path_redirect.cpp together.
use virtualaosp.Base.{
  ℕ, ◌+◌, ◌-◌, ◌≤◌, ◌<◌, true, false, some, [], ◌∷◌, ◌++◌, ◌≡◌, ◌≢◌, sym, ap, subst, ◌∙◌, ◌⊎◌, inl,
  inr, arith, ltb, length, length-append, length-take, take, take_all, take-append_le, Bool-cases,
  Bytes, strip_prefix-append, is_absolute,
}
use virtualaosp.Guest.Redirect.{
  Engine, starts_with_rootfs, passthrough, mapped, overflow, map_generic, map_into_sandbox,
  bypasses, map_path, unmap_path, unmap_suffix,
}
use virtualaosp.Guest.Redirect.Confine.{
  IsActive, guest_view, map_into_sandbox_cases, starts_with_rootfs-append, is_absolute-at_boundary,
  at_boundary-take,
}

map_path_mapped :
    (e : Engine) (p : Bytes) (size : ℕ) {out : Bytes}
    → map_path e (some p) size ≡ mapped out
    → (is_absolute p ≡ true) × (map_into_sandbox e p size ≡ mapped out)
unfolding map_path
map_path_mapped e p size {out} h = ground arith

map_path_inside :
    (e : Engine) (p : Bytes) (size : ℕ)
    → IsActive e
    → is_absolute p ≡ true
    → bypasses e p ≡ false
    → map_path e (some p) size ≡ map_into_sandbox e p size
unfolding map_path
map_path_inside e p size v a b = ground (arith, v.active)

-- A path under the root in the buffer, and bounded by it.
record Lands (e : Engine) (size : ℕ) (out : Bytes) : Type 0 where
  under : starts_with_rootfs e.state out ≡ true
  bounded : length out < size

generic-Lands :
    (e : Engine) (p : Bytes) (size : ℕ) {out : Bytes}
    → IsActive e
    → is_absolute p ≡ true
    → map_generic e.state p size ≡ mapped out
    → Lands e size out
unfolding map_generic
generic-Lands e p size {out} v a h = elim (Bool-cases (ltb size (length e.root + length p + 1))) [
  | inl long ↦ ground arith
  | inr fits ↦ subst (Lands e size) {x = e.root ++ p} (ground arith) (record {
    under = starts_with_rootfs-append e.state p v.rooted (is_absolute-at_boundary p a);
    bounded = ground (arith, length-append e.root p);
  })
]

alias-Lands :
    (e : Engine) (y : Bytes) (size : ℕ)
    → IsActive e
    → length e.root < size
    → is_absolute y ≡ true
    → Lands e size (take (size - 1) (e.root ++ y))
alias-Lands e y size v room a = record {
  under = rw (take-append_le (size - 1) e.root y (omega arith)) (
      starts_with_rootfs-append e.state _ v.rooted
        (at_boundary-take _ y (is_absolute-at_boundary y a)));
  bounded = omega (arith, length-take (size - 1) (e.root ++ y));
}

map_path-Lands :
    (e : Engine) (p : Bytes) (size : ℕ) {out : Bytes}
    → IsActive e
    → length e.root < size
    → map_path e (some p) size ≡ mapped out
    → Lands e size out
map_path-Lands e p size {out} v room h =
    let (a, inside) = map_path_mapped e p size h in
    elim (map_into_sandbox_cases e p size v) [
      | inl (same, generic) ↦ generic-Lands e p size v a (sym generic ∙ inside)
      | inr (above, cut) ↦
          subst (Lands e size) {x = take (size - 1) (e.root ++ guest_view e p)}
            (ground (arith, cut, inside)) (alias-Lands e (guest_view e p) size v room above)
    ]

map_path-rooted :
    (e : Engine) (p : Bytes) (n : ℕ)
    → starts_with_rootfs e.state p ≡ true
    → map_path e (some p) n ≡ passthrough
unfolding map_path bypasses
map_path-rooted e p n h = ground arith

-- Whatever `map_path` of an active engine writes into a buffer with room for the root lies under
-- the sandbox root, fits the buffer with its NUL, and is left as it is when it is mapped again.
pub map_path_confined :
    (e : Engine) (p : Bytes) (size : ℕ) {out : Bytes}
    → IsActive e
    → length e.root < size
    → map_path e (some p) size ≡ mapped out
    → (starts_with_rootfs e.state out ≡ true)
      × (length out < size)
      × ((n : ℕ) → map_path e (some out) n ≡ passthrough)
map_path_confined e p size {out} v room h =
    let l = map_path-Lands e p size v room h in
    (l.under, l.bounded, λ n. map_path-rooted e out n l.under)

pub guest_view-absolute :
    (e : Engine) (p : Bytes)
    → IsActive e
    → is_absolute p ≡ true
    → is_absolute (guest_view e p) ≡ true
guest_view-absolute e p v a = elim (map_into_sandbox_cases e p 0 v) [
  | inl (same, generic) ↦ rw same a
  | inr (above, cut) ↦ above
]

unmap_suffix-absolute :
    (y : Bytes) (size : ℕ) → is_absolute y ≡ true → length y < size → unmap_suffix y size ≡ some y
unfolding unmap_suffix is_absolute
unmap_suffix-absolute [] size a h = cc
unmap_suffix-absolute (c ∷ y) size a h = ground arith

pub unmap_path-append :
    (e : Engine) (y : Bytes) (size : ℕ)
    → IsActive e
    → is_absolute y ≡ true
    → length y < size
    → unmap_path e.state (e.root ++ y) size ≡ some y
unfolding unmap_path
unmap_path-append e y size v a h = ground (
  arith,
  starts_with_rootfs-append e.state y v.rooted (is_absolute-at_boundary y a),
  strip_prefix-append e.root y,
  unmap_suffix-absolute y size a h,
)

map_into_sandbox-fits :
    (e : Engine) (p : Bytes) (size : ℕ)
    → IsActive e
    → length e.root + length (guest_view e p) < size
    → map_into_sandbox e p size ≡ mapped (e.root ++ guest_view e p)
unfolding map_generic
map_into_sandbox-fits e p size v room = elim (map_into_sandbox_cases e p size v) [
  | inl (same, generic) ↦ ground (arith, ap length same, ap (◌++◌ e.root) same)
  | inr (above, cut) ↦
      cut
      ∙ ap mapped (
          take_all (size - 1) (e.root ++ guest_view e p)
            (omega (arith, length-append e.root (guest_view e p))))
]

-- An active engine maps an absolute path that no test lets through, if the buffer has room, to
-- the root followed by the guest's view of the path, and unmapping that gives the view back.
pub unmap-map_path :
    (e : Engine) (p : Bytes) (size : ℕ)
    → IsActive e
    → is_absolute p ≡ true
    → bypasses e p ≡ false
    → length e.root + length (guest_view e p) < size
    → (map_path e (some p) size ≡ mapped (e.root ++ guest_view e p))
      × (unmap_path e.state (e.root ++ guest_view e p) size ≡ some (guest_view e p))
unmap-map_path e p size v a b room = (
  map_path_inside e p size v a b ∙ map_into_sandbox-fits e p size v room,
  unmap_path-append e (guest_view e p) size v (guest_view-absolute e p v a) (omega arith),
)

-- Where the combined text does not fit the buffer, an unaliased path is reported as an overflow,
-- but an aliased one is mapped to the text cut off at `size - 1` bytes, which is another path.
pub map_path_too_long :
    (e : Engine) (p : Bytes) (size : ℕ)
    → IsActive e
    → is_absolute p ≡ true
    → bypasses e p ≡ false
    → size ≤ length e.root + length (guest_view e p)
    → 0 < size
    → ((guest_view e p ≡ p) × (map_path e (some p) size ≡ overflow))
      ⊎ ((map_path e (some p) size ≡ mapped (take (size - 1) (e.root ++ guest_view e p)))
          × (take (size - 1) (e.root ++ guest_view e p) ≢ e.root ++ guest_view e p))
unfolding map_generic
map_path_too_long e p size v a b long pos = elim (map_into_sandbox_cases e p size v) [
  | inl (same, generic) ↦ inl (same, ground (arith, ap length same, map_path_inside e p size v a b))
  | inr (above, cut) ↦ inr (
    map_path_inside e p size v a b ∙ cut,
    λ same. omega (
      arith,
      ap length same,
      length-take (size - 1) (e.root ++ guest_view e p),
      length-append e.root (guest_view e p),
    ),
  )
]
