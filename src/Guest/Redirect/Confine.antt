-- ===== src/Guest/Redirect/Confine.antt =====
-- The guest's own view of a path, and `map_into_sandbox`, a part of `map_path` of
-- fake/path_redirect.cpp, in its terms.
use mathlib.Core.Option
use virtualaosp.Base.{
  ℕ, zero, suc, ◌-◌, ◌<◌, true, none, some, [], ◌∷◌, ◌++◌, ◌≡◌, refl, ap, ◌∙◌, ◌⊎◌, inl, inr, arith,
  if◌then◌else◌, length, get_or, take, Option-cases, Bool-cases, Bytes, strip_prefix,
  strip_prefix-append, at_boundary, is_absolute,
}
use virtualaosp.Guest.State.{State}
use virtualaosp.Guest.State.Root.{IsRoot}
use virtualaosp.Guest.Resolver.{alias_table, find_alias, pop_slash, resolve_ready}
use virtualaosp.Guest.Resolver.Aliases.{find_alias-alias_table, alias-absolute}
use virtualaosp.Guest.Redirect.{
  Engine, has_prefix, starts_with_rootfs, mapped, map_generic, map_into_sandbox,
}

-- An engine as `ac_fake_init` leaves it: active, with a well-formed root, and a resolver that is
-- not initialised or was initialised with that root.
pub record IsActive (e : Engine) : Type 0 where
  pub active : e.enabled ≡ true
  pub rooted : IsRoot e.root
  pub base_is : e.resolver.initialized ≡ true → e.resolver.base ≡ pop_slash e.root
  pub table_is : e.resolver.initialized ≡ true → e.resolver.prefixes ≡ alias_table e.resolver.base

-- The file of the sandbox that a guest path names, seen from the guest: the alias if the table
-- has one, else the path itself. The table is not consulted for a path that begins with the text
-- of the base.
unfoldable pub guest_view : Engine → Bytes → Bytes
guest_view e path =
    if e.resolver.initialized
    then elim (strip_prefix e.resolver.base path) [
      | some rest ↦ path
      | none ↦ Option.get_or (find_alias (alias_table []) path) path
    ]
    else path

pub root_pos : (r : Bytes) → IsRoot r → 0 < length r
unfolding is_absolute
root_pos [] v = cc (v.absolute)
root_pos (c ∷ r) v = omega arith

pub is_absolute-at_boundary : (p : Bytes) → is_absolute p ≡ true → at_boundary p ≡ true
unfolding is_absolute at_boundary
is_absolute-at_boundary [] h = refl
is_absolute-at_boundary (c ∷ p) h = h

pub at_boundary-take : (n : ℕ) (p : Bytes) → at_boundary p ≡ true → at_boundary (take n p) ≡ true
unfolding at_boundary
at_boundary-take zero p h = refl
at_boundary-take (suc n) [] h = refl
at_boundary-take (suc n) (c ∷ p) h = h

pub starts_with_rootfs-append :
    (s : State) (p : Bytes)
    → IsRoot s.root
    → at_boundary p ≡ true
    → starts_with_rootfs s (s.root ++ p) ≡ true
unfolding starts_with_rootfs has_prefix
starts_with_rootfs-append s p v h = ground (arith, root_pos s.root v, strip_prefix-append s.root p)

-- The base is the root, unless the root is "/" and the base is empty.
pop_slash-IsRoot : (r : Bytes) → IsRoot r → (pop_slash r ≡ r) ⊎ (pop_slash r ≡ [])
unfolding pop_slash
pop_slash-IsRoot [] v = inl refl
pop_slash-IsRoot (c ∷ []) v = ground arith
pop_slash-IsRoot (c ∷ d ∷ r) v = ground (
  arith,
  v.trimmed,
  ap (λ k. get_or (c ∷ d ∷ r) k 0) {x = suc (suc (length r)) - 1} {y = suc (length r)}
      (omega arith),
)

-- With the base tested first, a base that is empty never aliases.
base-root :
    (e : Engine) (p : Bytes)
    → IsActive e
    → e.resolver.initialized ≡ true
    → strip_prefix e.resolver.base p ≡ none
    → e.resolver.base ≡ e.root
unfolding strip_prefix
base-root e p v ready miss = elim (pop_slash-IsRoot e.root v.rooted) [
  | inl same ↦ v.base_is ready ∙ same
  | inr empty ↦ cc (v.base_is ready, empty, miss)
]

-- `map_into_sandbox`, with the resolver's answer read through `guest_view`: either the generic
-- mapping of an unaliased path, or the alias cut to the buffer.
abbrev pub ViewCases : Engine → Bytes → ℕ → Type 0
ViewCases e p size =
    ((guest_view e p ≡ p) × (map_into_sandbox e p size ≡ map_generic e.state p size))
    ⊎ ((is_absolute (guest_view e p) ≡ true)
        × (map_into_sandbox e p size ≡ mapped (take (size - 1) (e.root ++ guest_view e p))))

alias_case :
    (e : Engine) (p : Bytes) (size : ℕ)
    → IsActive e
    → e.resolver.initialized ≡ true
    → strip_prefix e.resolver.base p ≡ none
    → ViewCases e p size
unfolding guest_view map_into_sandbox resolve_ready
alias_case e p size v ready miss =
    let table : find_alias e.resolver.prefixes p
        ≡ Option.map (◌++◌ e.resolver.base) (find_alias (alias_table []) p) =
      ap (λ t. find_alias t p) (v.table_is ready) ∙ find_alias-alias_table e.resolver.base p in
    elim (Option-cases (find_alias (alias_table []) p)) [
      | inl none_found ↦ inl (ground arith, ground arith)
      | inr (y, found) ↦
          inr (ground (arith, alias-absolute p found), ground (arith, base-root e p v ready miss))
    ]

pub map_into_sandbox_cases : (e : Engine) (p : Bytes) (size : ℕ) → IsActive e → ViewCases e p size
unfolding guest_view map_into_sandbox resolve_ready
map_into_sandbox_cases e p size v = elim (Bool-cases e.resolver.initialized) [
  | inl ready ↦ elim (Option-cases (strip_prefix e.resolver.base p)) [
    | inl miss ↦ alias_case e p size v ready miss
    | inr (rest, hit) ↦ inl (ground arith, ground arith)
  ]
  | inr raw ↦ inl (ground arith, ground arith)
]
