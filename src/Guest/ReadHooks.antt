-- ===== src/Guest/ReadHooks.antt =====
-- fake/syscall_hooks_read.cpp: the hooks of the open and stat families, access, readlink and the
-- directory calls. A path that a hook gives to strncmp unread is not null; the O_CREAT mode is 0
-- where the caller gives none, and the callbacks of scandir are numbers.
pub mod Virtual
pub mod Slot
pub mod Confined
use Prim.Native.String.{String}
use virtualaosp.Base.{
  ℕ, ◌/◌, ◌%◌, ◌^◌, Bool, true, false, ◌&&◌, Option, none, some, List, [], ◌∷◌, ◌++◌, ◌==◌,
  if◌then◌else◌, not, Bytes, codes, is_absolute,
}
use virtualaosp.Guest.Redirect.{Engine, is_virtual_fs_path}
use virtualaosp.Guest.Libc.{
  Libc, Arg, path, text, num, Call, Reply, done, failed, Stat, StatReply, filled, refused,
  enametoolong,
}
use virtualaosp.Guest.Translate.{Translated, value, overflowed, translate, maybe_map}
use virtualaosp.Guest.Identity.{fix_stat_owner}
use virtualaosp.Guest.WriteHooks.{forward}
use virtualaosp.Guest.Vfs.Emulate.{
  Emulated, passed, answered, Process, Link, linked, link_error, emu_open, emu_stat, emu_access,
  emu_readlink, emu_opendir,
}

-- `enabled() && is_virtual_fs_path(path)`
abbrev pub is_emulated : Engine → Bytes → Bool
is_emulated e name = e.enabled && is_virtual_fs_path name

-- `flags & O_CREAT`
abbrev pub creates : ℕ → Bool
creates flags = flags / 2 ^ 6 % 2 == 1

-- The flags, and the mode only with O_CREAT.
abbrev pub open_args : ℕ → ℕ → List Arg
open_args flags mode = if creates flags then num flags ∷ num mode ∷ [] else num flags ∷ []

-- What a hook does with the answer of the emulation: return it, or go on.
abbrev pub or_else : {W A B : Type 0} → (A → B) → Emulated A × W → (W → B × W) → B × W
or_else finish (answered a, w) go_on = (finish a, w)
or_else finish (passed, w) go_on = go_on w

module _ (libc : Libc) where
  open libc use {World, call, stat_call}

  unfoldable pub open_hook : Process → Engine → Bytes → ℕ → ℕ → World → Reply × World
  open_hook p e name flags mode w =
      let go_on : World → Reply × World =
        forward libc (translate e (some name))
          λ q. record { symbol = "open"; args = path q ∷ open_args flags mode } in
      if is_emulated e name
      then or_else (λ r. r) (emu_open libc p e.state name w) go_on
      else go_on w

  unfoldable pub open64 : Engine → Option Bytes → ℕ → ℕ → World → Reply × World
  open64 e name flags mode =
      forward libc (translate e name)
        λ q. record { symbol = "open64"; args = path q ∷ open_args flags mode }

  unfoldable pub openat : Engine → ℕ → Option Bytes → ℕ → ℕ → World → Reply × World
  openat e dirfd name flags mode =
      forward libc (maybe_map e name)
        λ q. record { symbol = "openat"; args = num dirfd ∷ path q ∷ open_args flags mode }

  unfoldable pub creat : Engine → Option Bytes → ℕ → World → Reply × World
  creat e name mode =
      forward libc (translate e name)
        λ q. record { symbol = "creat"; args = path q ∷ num mode ∷ [] }

  -- The one static slot of fopen: the symbol that the first resolution put there.
  abbrev pub resolve : Option String → String → String
  resolve none symbol = symbol
  resolve (some cached) symbol = cached

  -- fdopen of the emulated file, or fopen of the translated path, each through the slot. A
  -- descriptor below 0 is a null result.
  abbrev pub fopen_emulated :
      Option String
      → Option Bytes
      → Emulated Reply × World
      → (World → (Reply × World) × Option String)
      → (Reply × World) × Option String
  fopen_emulated slot mode (passed, w) go_on = go_on w
  fopen_emulated slot mode (answered (failed errno), w) go_on = ((failed errno, w), slot)
  fopen_emulated slot mode (answered (done fd), w) go_on =
      let symbol = resolve slot "fdopen" in
      (call (record { symbol = symbol; args = num fd ∷ text mode ∷ [] }) w, some symbol)

  abbrev pub fopen_real :
      Option String → Option Bytes → Translated → World → (Reply × World) × Option String
  fopen_real slot mode overflowed w = ((failed enametoolong, w), slot)
  fopen_real slot mode (value q was_mapped) w =
      let symbol = resolve slot "fopen" in
      (call (record { symbol = symbol; args = path q ∷ text mode ∷ [] }) w, some symbol)

  unfoldable pub fopen :
      Process
      → Engine
      → Option String
      → Bytes
      → Option Bytes
      → World
      → (Reply × World) × Option String
  fopen p e slot name mode w =
      let go_on = fopen_real slot mode (translate e (some name)) in
      if is_emulated e name
      then fopen_emulated slot mode (emu_open libc p e.state name w) go_on
      else go_on w

  unfoldable pub fopen64 : Engine → Option Bytes → Option Bytes → World → Reply × World
  fopen64 e name mode =
      forward libc (translate e name)
        λ q. record { symbol = "fopen64"; args = path q ∷ text mode ∷ [] }

  -- The owner is replaced only in what a mapped path gave.
  abbrev pub fix_reply : Engine → Bool → StatReply × World → StatReply × World
  fix_reply e was_mapped (refused errno, w) = (refused errno, w)
  fix_reply e was_mapped (filled st, w) = (
    if was_mapped
        then elim (fix_stat_owner e.state (some st)) [
          | none ↦ filled st
          | some fixed ↦ filled fixed
        ]
        else filled st,
    w,
  )

  -- As `forward`, for a call that fills a struct stat.
  unfoldable pub forward_stat :
      Engine → Translated → (Option Bytes → Call) → World → StatReply × World
  forward_stat e overflowed make w = (refused enametoolong, w)
  forward_stat e (value q was_mapped) make w = fix_reply e was_mapped (stat_call (make q) w)

  -- The struct is not null.
  unfoldable pub stat : Process → Engine → Bytes → World → StatReply × World
  stat p e name w =
      let go_on : World → StatReply × World =
        forward_stat e (translate e (some name))
          λ q. record { symbol = "stat"; args = path q ∷ [] } in
      if is_emulated e name then or_else (λ r. r) (emu_stat p e.state name, w) go_on else go_on w

  unfoldable pub lstat : Engine → Option Bytes → World → StatReply × World
  lstat e name =
      forward_stat e (translate e name) λ q. record { symbol = "lstat"; args = path q ∷ [] }

  -- The owner of what a relative path names is left as it is: nothing was mapped.
  unfoldable pub fstatat : Engine → ℕ → Option Bytes → ℕ → World → StatReply × World
  fstatat e dirfd name flags =
      forward_stat e (maybe_map e name)
        λ q. record { symbol = "fstatat"; args = num dirfd ∷ path q ∷ num flags ∷ [] }

  abbrev pub access_reply : ℕ → Reply
  access_reply err = if err == 0 then done 0 else failed err

  unfoldable pub access : Process → Engine → Bytes → ℕ → World → Reply × World
  access p e name mode w =
      let go_on : World → Reply × World =
        forward libc (translate e (some name))
          λ q. record { symbol = "access"; args = path q ∷ num mode ∷ [] } in
      if is_emulated e name then or_else access_reply (emu_access p name mode, w) go_on else go_on w

  unfoldable pub faccessat : Engine → ℕ → Option Bytes → ℕ → ℕ → World → Reply × World
  faccessat e dirfd name mode flags =
      forward libc (maybe_map e name)
        λ q. record { symbol = "faccessat"; args = num dirfd ∷ path q ∷ num mode ∷ num flags ∷ [] }

  -- The result of the hook; what stands in the buffer of a libc call is part of the world.
  abbrev pub link_reply : Link → Reply
  link_reply (linked guest n) = done n
  link_reply (link_error errno) = failed errno

  unfoldable pub readlink : Engine → Bytes → ℕ → ℕ → World → Reply × World
  readlink e name buf size w =
      let go_on : World → Reply × World =
        forward libc (translate e (some name))
          λ q. record { symbol = "readlink"; args = path q ∷ num buf ∷ num size ∷ [] } in
      if not (buf == 0) && is_emulated e name
      then or_else link_reply (emu_readlink libc e.state name size w) go_on
      else go_on w

  unfoldable pub readlinkat : Engine → ℕ → Option Bytes → ℕ → ℕ → World → Reply × World
  readlinkat e dirfd name buf size =
      forward libc (maybe_map e name)
        λ q. record { symbol = "readlinkat"; args = num dirfd ∷ path q ∷ num buf ∷ num size ∷ [] }

  -- The state of the emulation's static flag goes along.
  unfoldable pub opendir : Engine → Bool → Bytes → World → Reply × (Bool × World)
  opendir e ready name w =
      let go_on : Bool × World → Reply × (Bool × World) = λ s.
        let (r, w') =
          forward libc (translate e (some name))
            (λ q. record { symbol = "opendir"; args = path q ∷ [] }) s.1 in
        (r, (s.0, w')) in
      if e.enabled
      then or_else (λ r. r) (emu_opendir libc e ready name w) go_on
      else go_on (ready, w)

  unfoldable pub scandir : Engine → Option Bytes → ℕ → ℕ → ℕ → World → Reply × World
  scandir e dir namelist select_fn compar = forward libc (translate e dir) λ q. record {
    symbol = "scandir";
    args = path q ∷ num namelist ∷ num select_fn ∷ num compar ∷ [];
  }
