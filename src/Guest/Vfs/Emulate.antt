-- ===== src/Guest/Vfs/Emulate.antt =====
-- The calls that fake/vfs_emu.cpp answers: emu_open, emu_stat, emu_access, emu_readlink, emu_opendir.
use virtualaosp.Base.{
  ℕ, ◌-◌, ◌/◌, ◌%◌, Bool, true, ◌||◌, not, Option, none, some, List, [], ◌∷◌, ◌==◌, if◌then◌else◌,
  length, take, Bytes, codes, str_eq,
}
use virtualaosp.Base.Int.{ℤ, to_u32}
use virtualaosp.Guest.State.{State}
use virtualaosp.Guest.Redirect.{Engine, is_virtual_fs_path, unmap_path}
use virtualaosp.Guest.Libc.{
  Libc, path, text, num, Call, Reply, done, failed, StatReply, filled, refused, LinkReply, target,
  no_link, enoent, eacces, enametoolong,
}
use virtualaosp.Guest.WriteHooks
use virtualaosp.Guest.Vfs.{
  Entry, not_virtual, unknown, dir, version, cpuinfo, meminfo, uptime, filesystems, mounts_top,
  self_status, self_cmdline, self_maps, self_mounts, self_mountinfo, file_table, classify,
  placeholder_path,
}
use virtualaosp.Guest.Vfs.Content.{copy_file, emit_mount_list, emit_maps, sanitized_status}

-- The result -2, or the answer of the emulation.
pub data Emulated (A : Type 0) : Type 0 where
  passed : Emulated A
  answered : A → Emulated A

-- What the sanitizers read besides files: the text of getpid(), the printer for a long, and the
-- value of AC_MOUNTS.
pub record Process : Type 0 where
  pub own_pid : Bytes
  pub print : ℤ → Bytes
  pub mounts : Option Bytes

-- S_IFDIR | 0555 and S_IFREG | 0444
abbrev pub dir_mode : ℕ
dir_mode = 0o40555

abbrev pub file_mode : ℕ
file_mode = 0o100444

abbrev pub entry_stat : State → Entry → StatReply
entry_stat s unknown = refused enoent
entry_stat s e = filled (record {
  st_mode = elim e [ dir ↦ dir_mode | _ ↦ file_mode ];
  st_nlink = 1;
  st_uid = to_u32 s.fake_uid;
  st_gid = to_u32 s.fake_gid;
  st_size = elim e [ dir ↦ 512 | _ ↦ 4096 ];
  others = [];
})

abbrev pub stat_entry : State → Entry → Emulated StatReply
stat_entry s not_virtual = passed
stat_entry s e = answered (entry_stat s e)

unfoldable pub emu_stat : Process → State → Bytes → Emulated StatReply
unfolding classify
emu_stat p s name = stat_entry s (classify p.own_pid name)

-- The error number, 0 for none: W_OK is refused.
abbrev pub access_error : Entry → ℕ → ℕ
access_error unknown mode = enoent
access_error e mode = if mode / 2 % 2 == 1 then eacces else 0

abbrev pub access_entry : Entry → ℕ → Emulated ℕ
access_entry not_virtual mode = passed
access_entry e mode = answered (access_error e mode)

unfoldable pub emu_access : Process → Bytes → ℕ → Emulated ℕ
unfolding classify
emu_access p name mode = access_entry (classify p.own_pid name) mode

-- The text in the buffer and the result, or -1 with errno.
pub data Link : Type 0 where
  linked : Bytes → ℕ → Link
  link_error : ℕ → Link

-- The directories of the placeholder tree, in order.
abbrev pub tree_dirs : List Bytes
tree_dirs =
    codes "/.virtual"
    ∷ codes "/.virtual/proc"
    ∷ codes "/.virtual/proc/self"
    ∷ codes "/.virtual/proc/net"
    ∷ codes "/.virtual/sys"
    ∷ codes "/.virtual/sys/class"
    ∷ codes "/.virtual/sys/class/net"
    ∷ codes "/.virtual/sys/class/net/lo"
    ∷ codes "/.virtual/sys/class/net/wlan0"
    ∷ codes "/.virtual/sys/devices"
    ∷ codes "/.virtual/sys/devices/system"
    ∷ []

-- O_CREAT | O_WRONLY | O_TRUNC
abbrev pub truncating_create : ℕ
truncating_create = 0x241

abbrev pub open_backing : Bytes → Call
open_backing backing = record {
  symbol = "open";
  args = path (some backing) ∷ num truncating_create ∷ num 0o644 ∷ [];
}

module _ (libc : Libc) where
  open libc use {World, call, read_file, read_lines, fill, read_link}

  -- What is made of a file; one that cannot be opened leaves nothing.
  abbrev pub made : {A : Type 0} → (A → Bytes) → Option A × World → Bytes × World
  made make (none, w) = ([], w)
  made make (some found, w) = (make found, w)

  unfoldable pub copied : Bytes → World → Bytes × World
  unfolding copy_file
  copied name w = made copy_file (read_file name w)

  unfoldable pub sanitized_maps : State → World → Bytes × World
  unfolding emit_maps
  sanitized_maps s w =
      made (λ pieces. emit_maps s pieces []) (read_file (codes "/proc/self/maps") w)

  unfoldable pub streamed_status : Process → State → World → Bytes × World
  unfolding sanitized_status
  streamed_status p s w =
      made (λ lines. sanitized_status p.print s lines) (read_lines (codes "/proc/self/status") w)

  unfoldable pub content : Process → State → Entry → World → Bytes × World
  unfolding copied sanitized_maps streamed_status emit_mount_list
  content p s version = copied (codes "/proc/version")
  content p s cpuinfo = copied (codes "/proc/cpuinfo")
  content p s meminfo = copied (codes "/proc/meminfo")
  content p s uptime = copied (codes "/proc/uptime")
  content p s filesystems = copied (codes "/proc/filesystems")
  content p s mounts_top = λ w. (emit_mount_list p.mounts, w)
  content p s self_mounts = λ w. (emit_mount_list p.mounts, w)
  content p s self_mountinfo = λ w. (emit_mount_list p.mounts, w)
  content p s self_status = streamed_status p s
  content p s self_maps = sanitized_maps s
  content p s self_cmdline = copied (codes "/proc/self/cmdline")
  content p s _ = λ w. ([], w)

  -- The memfd is made first, and its offset is set back at the end.
  abbrev pub serve_file : (World → Bytes × World) → Reply × World → Reply × World
  serve_file make (failed errno, w) = (failed errno, w)
  serve_file make (done fd, w) = let (bs, w') = make w in (done fd, fill fd bs w')

  abbrev pub memfd_call : Call
  memfd_call = record { symbol = "memfd_create"; args = text (some (codes "acvfs")) ∷ num 0 ∷ [] }

  abbrev pub open_entry : Process → State → Entry → World → Emulated Reply × World
  open_entry p s not_virtual w = (passed, w)
  open_entry p s unknown w = (answered (failed enoent), w)
  open_entry p s dir w = (answered (failed enoent), w)
  open_entry p s e w =
      let (r, w') = serve_file (content p s e) (call memfd_call w) in (answered r, w')

  unfoldable pub emu_open : Process → State → Bytes → World → Emulated Reply × World
  unfolding classify content
  emu_open p s name = open_entry p s (classify p.own_pid name)

  -- "/proc/self/exe" and "/proc/self/cwd": the guest's view of the host's link.
  abbrev pub read_self : State → ℕ → LinkReply × World → Emulated Link × World
  read_self s size (no_link errno, w) = (passed, w)
  read_self s size (target [], w) = (passed, w)
  read_self s size (target (c ∷ host), w) = elim (unmap_path s (c ∷ host) size) [
    | some guest ↦ (answered (linked guest (length guest)), w)
    | none ↦ let cut = take (size - 1) (c ∷ host) in (answered (linked cut (length cut)), w)
  ]

  unfoldable pub emu_readlink : State → Bytes → ℕ → World → Emulated Link × World
  unfolding is_virtual_fs_path unmap_path str_eq
  emu_readlink s name size w =
      if not (is_virtual_fs_path name)
      then (passed, w)
      else if str_eq name (codes "/proc/self/root")
      then (answered (linked (take (size - 1) (codes "/")) 1), w)
      else if str_eq name (codes "/proc/self/exe") || str_eq name (codes "/proc/self/cwd")
      then read_self s size (read_link name w)
      else (answered (link_error enoent), w)

  -- The directories through the hook of mkdir, whose failures are only logged.
  unfoldable pub make_dirs : Engine → List Bytes → World → World
  unfolding WriteHooks.mkdir
  make_dirs e [] w = w
  make_dirs e (name ∷ names) w = make_dirs e names (WriteHooks.mkdir libc e (some name) 0o755 w).1

  abbrev pub close_opened : Reply × World → World
  close_opened (failed errno, w) = w
  close_opened (done fd, w) = (call (record { symbol = "close"; args = num fd ∷ [] }) w).1

  unfoldable pub make_files : State → List (Bytes × Entry) → World → World
  unfolding placeholder_path
  make_files s [] w = w
  make_files s ((name, e) ∷ rows) w = make_files s rows (elim (placeholder_path s name 4096) [
    | none ↦ w
    | some backing ↦ close_opened (call (open_backing backing) w)
  ])

  -- Once for each process: `ready` is the static flag `done`.
  unfoldable pub ensure_placeholder_tree : Engine → Bool → World → Bool × World
  unfolding make_dirs make_files
  ensure_placeholder_tree e ready w =
      if ready || not e.enabled
      then (ready, w)
      else (true, make_files e.state file_table (make_dirs e tree_dirs w))

  abbrev pub open_backing_dir : Option Bytes → Bool × World → Emulated Reply × (Bool × World)
  open_backing_dir none (ready, w) = (answered (failed enametoolong), (ready, w))
  open_backing_dir (some backing) (ready, w) =
      let (r, w') = call (record { symbol = "opendir"; args = path (some backing) ∷ [] }) w in
      (answered r, (ready, w'))

  unfoldable pub emu_opendir : Engine → Bool → Bytes → World → Emulated Reply × (Bool × World)
  unfolding is_virtual_fs_path ensure_placeholder_tree placeholder_path
  emu_opendir e ready name w =
      if is_virtual_fs_path name
      then open_backing_dir (placeholder_path e.state name 4096) (ensure_placeholder_tree e ready w)
      else (passed, (ready, w))
