-- ===== src/Guest/Vfs.antt =====
-- fake/vfs_emu.cpp: the userspace emulation of /proc and /sys. `own_pid` is the text that snprintf
-- prints for getpid(), and `print` what dprintf prints for a long.
pub mod Content
pub mod Emulate
pub mod Maps
pub mod View
pub mod Answers
use virtualaosp.Base.{
  ℕ, ◌+◌, Bool, true, false, ◌||◌, not, Option, none, some, List, [], ◌∷◌, ◌++◌, ltb, if◌then◌else◌,
  length, Bytes, codes, strip_prefix, str_eq,
}
use virtualaosp.Guest.State.{State}
use virtualaosp.Guest.Redirect.{is_virtual_fs_path}

pub data Entry : Type 0 where
  not_virtual unknown dir version cpuinfo meminfo uptime filesystems mounts_top : Entry
  self_status self_cmdline self_maps self_mounts self_mountinfo : Entry

-- `kFiles`
abbrev pub file_table : List (Bytes × Entry)
file_table =
    (codes "/proc/version", version)
    ∷ (codes "/proc/cpuinfo", cpuinfo)
    ∷ (codes "/proc/meminfo", meminfo)
    ∷ (codes "/proc/uptime", uptime)
    ∷ (codes "/proc/filesystems", filesystems)
    ∷ (codes "/proc/mounts", mounts_top)
    ∷ (codes "/proc/self/status", self_status)
    ∷ (codes "/proc/self/cmdline", self_cmdline)
    ∷ (codes "/proc/self/maps", self_maps)
    ∷ (codes "/proc/self/mounts", self_mounts)
    ∷ (codes "/proc/self/mountinfo", self_mountinfo)
    ∷ []

-- The names behind "/proc/<own-pid>/".
abbrev pub own_table : List (Bytes × Entry)
own_table =
    (codes "status", self_status)
    ∷ (codes "cmdline", self_cmdline)
    ∷ (codes "maps", self_maps)
    ∷ (codes "mounts", self_mounts)
    ∷ (codes "mountinfo", self_mountinfo)
    ∷ (codes "", dir)
    ∷ []

-- The first row whose path is equal.
unfoldable pub find_entry : List (Bytes × Entry) → Bytes → Entry
unfolding str_eq
find_entry [] path = unknown
find_entry ((name, e) ∷ rows) path =
    let later = find_entry rows path in if str_eq path name then e else later

abbrev pub is_known : Entry → Bool
is_known unknown = false
is_known e = true

abbrev pub starts : Bytes → Bytes → Bool
starts prefix path = elim (strip_prefix prefix path) [ none ↦ false | some rest ↦ true ]

unfoldable pub is_listed_dir : Bytes → Bool
unfolding str_eq strip_prefix
is_listed_dir path =
    str_eq path (codes "/proc")
    || (str_eq path (codes "/sys")
        || (str_eq path (codes "/proc/self")
            || (str_eq path (codes "/proc/net") || starts (codes "/sys/") path)))

-- /proc/<own-pid>/... aliases /proc/self/...
unfoldable pub classify_own : Bytes → Bytes → Entry
unfolding find_entry str_eq strip_prefix
classify_own own_pid path = elim (strip_prefix (codes "/proc/" ++ (own_pid ++ codes "/")) path) [
  | some rest ↦ find_entry own_table rest
  | none ↦ if str_eq path (codes "/proc/" ++ own_pid) then dir else unknown
]

unfoldable pub classify : Bytes → Bytes → Entry
unfolding is_virtual_fs_path is_listed_dir find_entry classify_own
classify own_pid path =
    let e = find_entry file_table path in
    if not (is_virtual_fs_path path)
    then not_virtual
    else if is_listed_dir path
    then dir
    else if is_known e
    then e
    else classify_own own_pid path

-- "<rootfs>/.virtual" and the guest path; `none` is the result false.
unfoldable pub placeholder_path : State → Bytes → ℕ → Option Bytes
placeholder_path s path out_size =
    if ltb out_size (length s.root + length (codes "/.virtual") + length path + 1)
    then none
    else some (s.root ++ (codes "/.virtual" ++ path))
