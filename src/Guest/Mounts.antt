-- ===== src/Guest/Mounts.antt =====
-- fake/mount_emu.cpp: mounts that succeed without a call, and device nodes as regular files.
pub mod Nodes
use Prim.Native.String.{String}
use virtualaosp.Base.{
  ℕ, ◌/◌, ◌%◌, ◌^◌, Bool, true, false, Option, none, some, List, [], ◌∷◌, ◌==◌, if◌then◌else◌,
  Bytes, is_absolute,
}
use virtualaosp.Guest.Redirect.{Engine, map_path, MapResult, passthrough, mapped, overflow}
use virtualaosp.Guest.Translate.{Translated, value, overflowed, translate, maybe_map}
use virtualaosp.Guest.Libc.{
  Libc, Arg, path, text, num, Call, Reply, done, failed, Stat, StatReply, filled, refused, eexist,
  einval, enametoolong,
}

-- O_CREAT | O_EXCL | O_WRONLY | O_CLOEXEC
abbrev pub exclusive_create : ℕ
exclusive_create = 0x800c1

-- S_ISREG
abbrev pub is_regular : ℕ → Bool
is_regular mode = mode / 2 ^ 12 % 2 ^ 4 == 8

abbrev pub create_call : Bytes → Call
create_call name = record {
  symbol = "open";
  args = path (some name) ∷ num exclusive_create ∷ num 0o600 ∷ [];
}

abbrev pub close_call : ℕ → Call
close_call fd = record { symbol = "close"; args = num fd ∷ [] }

abbrev pub probe_call : Bytes → Call
probe_call name = record { symbol = "stat"; args = path (some name) ∷ [] }

module _ (libc : Libc) where
  open libc use {World, call, stat_call}

  -- Success with no call, while the engine is active.
  unfoldable pub pretend : Engine → String → List Arg → World → Reply × World
  pretend e symbol args w =
      if e.enabled then (done 0, w) else call (record { symbol = symbol; args = args }) w

  -- The data of a mount is passed on as a pointer.
  unfoldable pub mount :
      Engine → Option Bytes → Option Bytes → Option Bytes → ℕ → ℕ → World → Reply × World
  unfolding pretend
  mount e source target filesystemtype mountflags blob =
      pretend e "mount"
        (path source ∷ path target ∷ text filesystemtype ∷ num mountflags ∷ num blob ∷ [])

  unfoldable pub umount : Engine → Option Bytes → World → Reply × World
  unfolding pretend
  umount e target = pretend e "umount" (path target ∷ [])

  unfoldable pub umount2 : Engine → Option Bytes → ℕ → World → Reply × World
  unfolding pretend
  umount2 e target flags = pretend e "umount2" (path target ∷ num flags ∷ [])

  unfoldable pub pivot_root : Engine → Option Bytes → Option Bytes → World → Reply × World
  unfolding pretend
  pivot_root e new_root put_old = pretend e "pivot_root" (path new_root ∷ path put_old ∷ [])

  unfoldable pub chroot : Engine → Option Bytes → World → Reply × World
  unfolding pretend
  chroot e name = pretend e "chroot" (path name ∷ [])

  -- What stands at an occupied path decides: a regular file counts as created.
  abbrev pub judge : StatReply × World → Reply × World
  judge (filled st, w) = (if is_regular st.st_mode then done 0 else failed eexist, w)
  judge (refused errno, w) = (failed eexist, w)

  abbrev pub after_create : Bytes → Reply × World → Reply × World
  after_create name (done fd, w) = (done 0, (call (close_call fd) w).1)
  after_create name (failed errno, w) =
      if errno == eexist then judge (stat_call (probe_call name) w) else (failed errno, w)

  unfoldable pub emu_mknod : Option Bytes → World → Reply × World
  emu_mknod none w = (failed einval, w)
  emu_mknod (some name) w = after_create name (call (create_call name) w)

  abbrev pub node_at : Translated → World → Reply × World
  node_at overflowed w = (failed enametoolong, w)
  node_at (value name was_mapped) w = emu_mknod name w

  -- The mode and the device number are not used while the engine is active.
  unfoldable pub mknod : Engine → Option Bytes → ℕ → ℕ → World → Reply × World
  unfolding emu_mknod translate
  mknod e name mode dev w =
      if e.enabled
      then node_at (translate e name) w
      else call (record { symbol = "mknod"; args = path name ∷ num mode ∷ num dev ∷ [] }) w

  unfoldable pub mknodat : Engine → ℕ → Option Bytes → ℕ → ℕ → World → Reply × World
  unfolding emu_mknod maybe_map
  mknodat e dirfd name mode dev w =
      if e.enabled
      then node_at (maybe_map e name) w
      else call
          (record { symbol = "mknodat"; args = num dirfd ∷ path name ∷ num mode ∷ num dev ∷ [] }) w
