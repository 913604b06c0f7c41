-- ===== src/Guest/State.antt =====
-- fake/fake_state.cpp: the activation flag, the sandbox root and the fake identity of one
-- guest process. `root` is the first `g_rootfs_len` bytes of `g_rootfs`, which every write of
-- the source closes with a NUL. The environment and strtol(3) are arguments.
pub mod Root
use Prim.Native.String.{String}
use virtualaosp.Base.{
  ℕ, zero, suc, ◌+◌, ◌-◌, ◌≤◌, ◌<◌, Bool, true, false, ◌&&◌, Option, none, some, List, [], ◌∷◌,
  ◌==◌, ltb, leb, if◌then◌else◌, length, get_or, take, Bytes, is_absolute,
}
use virtualaosp.Base.Int.{ℤ, pos}

pub record State : Type 0 where
  pub enabled : Bool
  pub root : Bytes
  pub fake_uid : ℤ
  pub fake_gid : ℤ

-- The static initialisers.
abbrev pub inactive : State
inactive = record { enabled = false; root = []; fake_uid = pos 0; fake_gid = pos 0 }

-- sizeof(g_rootfs)
abbrev pub rootfs_size : ℕ
rootfs_size = 4096

-- The length left by `while (len > 1 && root[len - 1] == '/') --len;`.
unfoldable pub trim_len : Bytes → ℕ → ℕ
trim_len root zero = 0
trim_len root (suc n) =
    if ltb 1 (suc n) && (get_or root n 0 == b'/') then trim_len root n else suc n

unfoldable pub activate : State → Bytes → ℤ → ℤ → State
activate s root uid gid =
    let len = trim_len root (length root) in
    if leb rootfs_size len
    then record s { root = [] }
    else record { enabled = true; root = take len root; fake_uid = uid; fake_gid = gid }

abbrev pub deactivate : State → ℤ → ℤ → State
deactivate s uid gid = record { enabled = false; root = []; fake_uid = uid; fake_gid = gid }

-- A root of 4096 bytes or more is refused by an early return: the root is cleared, and the
-- flag and the identity stay as they were.
unfoldable pub set_state : State → Bool → Option Bytes → ℤ → ℤ → State
unfolding activate trim_len is_absolute
set_state s enable none uid gid = deactivate s uid gid
set_state s enable (some root) uid gid =
    if enable && is_absolute root then activate s root uid gid else deactivate s uid gid

-- An `AC_CONTAINER` that is missing or does not begin with '1' leaves the process transparent.
abbrev pub flag_set : Option Bytes → Bool
flag_set none = false
flag_set (some []) = false
flag_set (some (c ∷ cs)) = c == b'1'

abbrev pub parse_id : (Bytes → ℤ) → Option Bytes → ℤ
parse_id strtol none = pos 0
parse_id strtol (some text) = strtol text

unfoldable pub init_from_env : (String → Option Bytes) → (Bytes → ℤ) → State → State
unfolding set_state
init_from_env getenv strtol s =
    if flag_set (getenv "AC_CONTAINER")
    then set_state s true (getenv "AC_ROOTFS") (parse_id strtol (getenv "AC_FAKE_UID"))
        (parse_id strtol (getenv "AC_FAKE_GID"))
    else s
