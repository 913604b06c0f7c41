-- ===== src/Guest/Resolver.antt =====
-- fake/path_resolver.cpp: the table of legacy path aliases of the process-wide PathResolver.
-- The output buffer is never null: both callers pass an array.
pub mod Aliases
use Prim.Native.String.{String}
use virtualaosp.Base.{
  ℕ, zero, suc, ◌-◌, Bool, true, false, Option, none, some, List, [], ◌∷◌, ◌++◌, ◌==◌,
  if◌then◌else◌, length, get_or, take, Bytes, codes, strip_prefix, at_boundary,
}

pub record Resolver : Type 0 where
  pub initialized : Bool
  pub base : Bytes
  pub prefixes : List (Bytes × Bytes)

abbrev pub unready : Resolver
unready = record { initialized = false; base = []; prefixes = [] }

-- `if (!mRootfsBase.empty() && mRootfsBase.back() == '/') mRootfsBase.pop_back();`
unfoldable pub pop_slash : Bytes → Bytes
pop_slash [] = []
pop_slash (c ∷ s) = if get_or (c ∷ s) (length s) 0 == b'/' then take (length s) (c ∷ s) else c ∷ s

abbrev pub default_base : Bytes
default_base = codes "/data/user/0/dev.itzkaguya.aospcontainer/files/rootfs"

-- The base before the slash is dropped.
unfoldable pub choose_base : (String → Option Bytes) → Option Bytes → Bytes
choose_base getenv (some (c ∷ s)) = c ∷ s
choose_base getenv _ = elim (getenv "AOSP_ROOTFS_DIR") [ none ↦ default_base | some env ↦ env ]

unfoldable pub alias_table : Bytes → List (Bytes × Bytes)
alias_table base =
    (codes "/system", base ++ codes "/system")
    ∷ (codes "/vendor", base ++ codes "/vendor")
    ∷ (codes "/apex", base ++ codes "/apex")
    ∷ (codes "/data", base ++ codes "/data")
    ∷ (codes "/etc", base ++ codes "/system/etc")
    ∷ (codes "/bin", base ++ codes "/system/bin")
    ∷ (codes "/xbin", base ++ codes "/system/xbin")
    ∷ (codes "/storage", base ++ codes "/storage")
    ∷ []

-- `init`
unfoldable pub init : (String → Option Bytes) → Option Bytes → Resolver
unfolding pop_slash choose_base alias_table
init getenv rootfs_base =
    let base = pop_slash (choose_base getenv rootfs_base) in
    record { initialized = true; base = base; prefixes = alias_table base }

-- What `resolvePath` leaves in the buffer, and whether it returns true.
pub data Resolved : Type 0 where
  rejected : Resolved
  unresolved : Bytes → Resolved
  resolved : Bytes → Resolved

-- strncpy to `size - 1` bytes and a closing NUL: a text that is too long is cut off.
abbrev pub copy_to : ℕ → Bytes → Bytes
copy_to size text = take (size - 1) text

-- The first table row whose prefix ends at a component boundary of the path.
unfoldable pub find_alias : List (Bytes × Bytes) → Bytes → Option Bytes
find_alias [] path = none
find_alias ((prefix, target) ∷ rows) path =
    let later = find_alias rows path in
    elim (strip_prefix prefix path) [
      | none ↦ later
      | some rest ↦ if at_boundary rest then some (target ++ rest) else later
    ]

unfoldable pub resolve_ready : Resolver → Bytes → ℕ → Resolved
unfolding find_alias strip_prefix at_boundary
resolve_ready r path size = elim (strip_prefix r.base path) [
  | some rest ↦ unresolved (copy_to size path)
  | none ↦ elim (find_alias r.prefixes path) [
    | some redirected ↦ resolved (copy_to size redirected)
    | none ↦ unresolved (copy_to size path)
  ]
]

-- `resolvePath`: the first call initialises the table from the environment.
unfoldable pub resolve_path :
    (String → Option Bytes) → Resolver → Option Bytes → ℕ → Resolver × Resolved
unfolding resolve_ready init
resolve_path getenv r none size = (r, rejected)
resolve_path getenv r (some []) size = (r, rejected)
resolve_path getenv r (some (c ∷ path)) zero = (r, rejected)
resolve_path getenv r (some (c ∷ path)) (suc n) =
    let r' = if r.initialized then r else init getenv none in
    (r', resolve_ready r' (c ∷ path) (suc n))
