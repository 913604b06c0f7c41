-- ===== src/Guest/Resolver/Aliases.antt =====
-- What the alias table of fake/path_resolver.cpp makes of a path, independently of the base.
use mathlib.Core.Option
use virtualaosp.Base.{
  true, some, List, [], ◌∷◌, ◌++◌, ◌≡◌, refl, inl, inr, arith, append_assoc, Option-cases, Bytes,
  strip_prefix, is_absolute,
}
use virtualaosp.Guest.Resolver.{alias_table, find_alias}

-- Each row's target is the base followed by the target of the row over the empty base.
data Shifted (base : Bytes) : List (Bytes × Bytes) → List (Bytes × Bytes) → Type 0 where
  done : Shifted base [] []
  row :
      (prefix target : Bytes) {rows rows' : List (Bytes × Bytes)}
      → Shifted base rows rows'
      → Shifted base ((prefix, target) ∷ rows) ((prefix, base ++ target) ∷ rows')

alias_table-Shifted : (base : Bytes) → Shifted base (alias_table []) (alias_table base)
unfolding alias_table
alias_table-Shifted base =
    row _ _ (row _ _ (row _ _ (row _ _ (row _ _ (row _ _ (row _ _ (row _ _ done)))))))

find_alias-Shifted :
    {base : Bytes} {rows rows' : List (Bytes × Bytes)} (path : Bytes)
    → Shifted base rows rows'
    → find_alias rows' path ≡ Option.map (◌++◌ base) (find_alias rows path)
unfolding find_alias
find_alias-Shifted path done = refl
find_alias-Shifted {base} path (row prefix target {rows} {rows'} s) =
    elim (Option-cases (strip_prefix prefix path)) [
      | inl e ↦ rw (e, find_alias) (find_alias-Shifted path s)
      | inr (rest, e) ↦ ground (arith, find_alias-Shifted path s, append_assoc base target rest)
    ]

pub find_alias-alias_table :
    (base path : Bytes)
    → find_alias (alias_table base) path ≡ Option.map (◌++◌ base) (find_alias (alias_table []) path)
find_alias-alias_table base path = find_alias-Shifted path (alias_table-Shifted base)

abbrev AbsoluteTargets : List (Bytes × Bytes) → Type 0
AbsoluteTargets [] = Unit
AbsoluteTargets ((prefix, target) ∷ rows) = (is_absolute target ≡ true) × AbsoluteTargets rows

is_absolute-append : (r s : Bytes) → is_absolute r ≡ true → is_absolute (r ++ s) ≡ true
unfolding is_absolute
is_absolute-append [] s h = cc
is_absolute-append (c ∷ r) s h = h

find_alias-absolute :
    (rows : List (Bytes × Bytes)) (path : Bytes) {out : Bytes}
    → AbsoluteTargets rows
    → find_alias rows path ≡ some out
    → is_absolute out ≡ true
unfolding find_alias
find_alias-absolute [] path t h = cc
find_alias-absolute ((prefix, target) ∷ rows) path {out} t h =
    elim (Option-cases (strip_prefix prefix path)) [
      | inl e ↦ find_alias-absolute rows path t.1 (rw (e, find_alias) at h)
      | inr (rest, e) ↦
          ground (
            arith,
            find_alias-absolute rows path {out = out} t.1,
            is_absolute-append target rest t.0,
          )
    ]

-- An aliased path is absolute in the guest too.
pub alias-absolute :
    (path : Bytes) {out : Bytes}
    → find_alias (alias_table []) path ≡ some out
    → is_absolute out ≡ true
unfolding alias_table is_absolute
alias-absolute path h =
    find_alias-absolute (alias_table []) path
      (refl, (refl, (refl, (refl, (refl, (refl, (refl, (refl, tt)))))))) h
