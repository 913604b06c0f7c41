-- ===== src/Guest/Redirect.antt =====
-- fake/path_redirect.cpp: translation of guest paths into the sandbox and back. An engine is
-- the state that `map_path` reads: the flag and root (fake_state.cpp), the exclusion table, and
-- the resolver. A null path is `none`.
pub mod Confine
pub mod RoundTrip
pub mod Excludes
pub mod Unsound
use virtualaosp.Base.{
  ℕ, zero, suc, ◌+◌, ◌≤◌, ◌<◌, Bool, true, false, ◌&&◌, ◌||◌, not, Option, none, some, List, [],
  ◌∷◌, ◌++◌, ◌==◌, ltb, if◌then◌else◌, length, get_or, set, replicate, Bytes, codes, strip_prefix,
  at_boundary, is_absolute,
}
use virtualaosp.Guest.State.{State}
use virtualaosp.Guest.Resolver.{Resolver, Resolved, rejected, unresolved, resolved, resolve_ready}

-- `entries[16][256]` as sixteen strings, all empty at first.
pub record ExcludeTable : Type 0 where
  pub entries : List Bytes
  pub count : ℕ

abbrev pub max_excludes : ℕ
max_excludes = 16

abbrev pub max_exclude_len : ℕ
max_exclude_len = 256

abbrev pub empty_table : ExcludeTable
empty_table = record { entries = replicate max_excludes []; count = 0 }

pub record Engine : Type 0 where
  pub state : State
  pub open state use *
  pub excludes : ExcludeTable
  pub resolver : Resolver

-- "/proc" matches "/proc/x" and not "/processor_info".
unfoldable pub has_prefix : Bytes → Bytes → Bool
unfolding strip_prefix at_boundary
has_prefix path prefix = elim (strip_prefix prefix path) [
  | none ↦ false
  | some rest ↦ at_boundary rest
]

unfoldable pub starts_with_rootfs : State → Bytes → Bool
unfolding has_prefix
starts_with_rootfs s path = if length s.root == 0 then false else has_prefix path s.root

unfoldable pub is_virtual_fs_path : Bytes → Bool
unfolding has_prefix
is_virtual_fs_path path = has_prefix path (codes "/proc") || has_prefix path (codes "/sys")

-- `strchr(p, ':')`: the segment before the colon, and the text behind it if there is one.
unfoldable pub split_colon : Bytes → Bytes × Option Bytes
split_colon [] = ([], none)
split_colon (c ∷ p) =
    let (seg, rest) = split_colon p in if c == b':' then ([], some p) else (c ∷ seg, rest)

-- `seg > 0 && seg < kMaxExcludeLen && p[0] == '/'`
unfoldable pub accepts : Bytes → Bool
unfolding is_absolute
accepts seg = ltb 0 (length seg) && ltb (length seg) max_exclude_len && is_absolute seg

-- One round's write: row `idx`, which starts at 0 in each call, and the shared count.
unfoldable pub register : Bytes → ℕ → ExcludeTable → ℕ × ExcludeTable
unfolding accepts
register seg idx t =
    if accepts seg
    then (idx + 1, record { entries = set t.entries idx seg; count = t.count + 1 })
    else (idx, t)

-- The while loop, with fuel for its rounds.
unfoldable pub exclude_loop : ℕ → Bytes → ℕ → ExcludeTable → ExcludeTable
unfolding register split_colon
exclude_loop zero p idx t = t
exclude_loop (suc fuel) [] idx t = t
exclude_loop (suc fuel) (c ∷ p) idx t =
    let (seg, end) = split_colon (c ∷ p) in
    let (idx', t') = register seg idx t in
    let more : ExcludeTable = elim end [ none ↦ t' | some rest ↦ exclude_loop fuel rest idx' t' ] in
    if ltb t.count max_excludes then more else t

-- Each round takes at least one byte of the list, so its length is fuel enough.
unfoldable pub set_excluded_prefixes : Option Bytes → ExcludeTable → ExcludeTable
unfolding exclude_loop
set_excluded_prefixes none t = t
set_excluded_prefixes (some colon_list) t = exclude_loop (suc (length colon_list)) colon_list 0 t

-- What `map_path` returns; `mapped` carries the text in the buffer.
pub data MapResult : Type 0 where
  passthrough : MapResult
  mapped : Bytes → MapResult
  overflow : MapResult

-- `for (i = 0; i < count; ++i) if (has_prefix(path, entries[i]))`
unfoldable pub is_excluded : Bytes → List Bytes → ℕ → Bool
unfolding has_prefix
is_excluded path entries zero = false
is_excluded path [] (suc n) = false
is_excluded path (e ∷ entries) (suc n) = has_prefix path e || is_excluded path entries n

-- `<root> + path`, if it fits with its NUL.
unfoldable pub map_generic : State → Bytes → ℕ → MapResult
map_generic s path out_size =
    if ltb out_size (length s.root + length path + 1) then overflow else mapped (s.root ++ path)

-- The resolver's table first, if it is ready; what it leaves in the buffer on false is
-- overwritten or not read.
unfoldable pub map_into_sandbox : Engine → Bytes → ℕ → MapResult
unfolding map_generic resolve_ready
map_into_sandbox e path out_size =
    if e.resolver.initialized
    then elim (resolve_ready e.resolver path out_size) [
      | resolved out ↦ mapped out
      | _ ↦ map_generic e.state path out_size
    ]
    else map_generic e.state path out_size

-- The tests that leave an absolute path as it is, in the source's order.
unfoldable pub bypasses : Engine → Bytes → Bool
unfolding starts_with_rootfs is_virtual_fs_path is_excluded
bypasses e path =
    starts_with_rootfs e.state path
    || (is_virtual_fs_path path || is_excluded path e.excludes.entries e.excludes.count)

unfoldable pub map_path : Engine → Option Bytes → ℕ → MapResult
unfolding bypasses map_into_sandbox is_absolute
map_path e none out_size = passthrough
map_path e (some path) out_size =
    if not e.enabled || not (is_absolute path)
    then passthrough
    else if bypasses e path
    then passthrough
    else map_into_sandbox e path out_size

-- `none` is the result false; the sandbox root itself maps back to "/".
unfoldable pub unmap_suffix : Bytes → ℕ → Option Bytes
unmap_suffix [] out_size = if ltb out_size 2 then none else some (codes "/")
unmap_suffix (c ∷ suffix) out_size =
    if ltb out_size (length (c ∷ suffix) + 1) then none else some (c ∷ suffix)

unfoldable pub unmap_path : State → Bytes → ℕ → Option Bytes
unfolding starts_with_rootfs unmap_suffix
unmap_path s path out_size =
    if starts_with_rootfs s path
    then elim (strip_prefix s.root path) [
      | none ↦ none
      | some suffix ↦ unmap_suffix suffix out_size
    ]
    else none
