-- ===== src/Guest/ReadHooks/Confined.antt =====
-- A guest's call of one of thirteen hooks of fake/syscall_hooks_read.cpp, as data, and the locations
-- that the hooks give to libc. No request stands for fopen and opendir: fopen shares its slot for
-- libc's function with fopen64, and opendir goes on in fake/vfs_emu.cpp, as the emulated paths do.
pub mod Served
use Prim.Native.String.{String}
use virtualaosp.Base.{
  ℕ, Bool, true, false, ◌&&◌, not, Option, some, List, [], ◌∷◌, ◌++◌, ◌==◌, ◌≡◌, refl, sym, subst,
  ◌⊎◌, inl, inr, arith, if◌then◌else◌, Bytes,
}
use virtualaosp.Guest.Redirect.{Engine, is_virtual_fs_path}
use virtualaosp.Guest.Redirect.Confine.{IsActive}
use virtualaosp.Guest.Libc.{
  Libc, Arg, path, text, num, Reply, failed, StatReply, refused, enametoolong,
}
use virtualaosp.Guest.Translate.{
  Translated, value, overflowed, translate, IsSafe, AllSafe, translate-AllSafe, maybe_map,
  maybe_map-translate,
}
use virtualaosp.Guest.Vfs.Emulate.{Process}
use virtualaosp.Guest.WriteHooks.{forward}
use virtualaosp.Guest.WriteHooks.Confined.{SafeArgs}
use virtualaosp.Guest.ReadHooks.{creates, open_args, is_emulated, or_else}
use virtualaosp.Guest.ReadHooks

pub data Request : Type 0 where
  opens : Bytes → ℕ → ℕ → Request
  open64 : Option Bytes → ℕ → ℕ → Request
  openat : ℕ → Option Bytes → ℕ → ℕ → Request
  creat : Option Bytes → ℕ → Request
  fopen64 : Option Bytes → Option Bytes → Request
  access : Bytes → ℕ → Request
  faccessat : ℕ → Option Bytes → ℕ → ℕ → Request
  readlink : Bytes → ℕ → ℕ → Request
  readlinkat : ℕ → Option Bytes → ℕ → ℕ → Request
  scandir : Option Bytes → ℕ → ℕ → ℕ → Request

pub data StatRequest : Type 0 where
  stat : Bytes → StatRequest
  lstat : Option Bytes → StatRequest
  fstatat : ℕ → Option Bytes → ℕ → StatRequest

-- The libc function of the same name.
abbrev pub symbol_of : Request → String
symbol_of (opens name flags mode) = "open"
symbol_of (open64 name flags mode) = "open64"
symbol_of (openat dirfd name flags mode) = "openat"
symbol_of (creat name mode) = "creat"
symbol_of (fopen64 name mode) = "fopen64"
symbol_of (access name mode) = "access"
symbol_of (faccessat dirfd name mode flags) = "faccessat"
symbol_of (readlink name buf size) = "readlink"
symbol_of (readlinkat dirfd name buf size) = "readlinkat"
symbol_of (scandir dir namelist select_fn compar) = "scandir"

abbrev pub stat_symbol_of : StatRequest → String
stat_symbol_of (stat name) = "stat"
stat_symbol_of (lstat name) = "lstat"
stat_symbol_of (fstatat dirfd name flags) = "fstatat"

-- The path that a hook gives to the emulation first.
abbrev pub goes_to_libc : Request → Bool
goes_to_libc (opens name flags mode) = not (is_virtual_fs_path name)
goes_to_libc (access name mode) = not (is_virtual_fs_path name)
goes_to_libc (readlink name buf size) = not (is_virtual_fs_path name)
goes_to_libc q = true

abbrev pub stat_goes_to_libc : StatRequest → Bool
stat_goes_to_libc (stat name) = not (is_virtual_fs_path name)
stat_goes_to_libc q = true

module _ (libc : Libc) where
  open libc use {World, call, stat_call}

  unfoldable pub serve_read : Process → Engine → Request → World → Reply × World
  unfolding ReadHooks.open_hook ReadHooks.open64 ReadHooks.openat ReadHooks.creat ReadHooks.fopen64
      ReadHooks.access ReadHooks.faccessat ReadHooks.readlink ReadHooks.readlinkat ReadHooks.scandir
  serve_read p e (opens name flags mode) = ReadHooks.open_hook libc p e name flags mode
  serve_read p e (open64 name flags mode) = ReadHooks.open64 libc e name flags mode
  serve_read p e (openat dirfd name flags mode) = ReadHooks.openat libc e dirfd name flags mode
  serve_read p e (creat name mode) = ReadHooks.creat libc e name mode
  serve_read p e (fopen64 name mode) = ReadHooks.fopen64 libc e name mode
  serve_read p e (access name mode) = ReadHooks.access libc p e name mode
  serve_read p e (faccessat dirfd name mode flags) =
      ReadHooks.faccessat libc e dirfd name mode flags
  serve_read p e (readlink name buf size) = ReadHooks.readlink libc e name buf size
  serve_read p e (readlinkat dirfd name buf size) = ReadHooks.readlinkat libc e dirfd name buf size
  serve_read p e (scandir dir namelist select_fn compar) =
      ReadHooks.scandir libc e dir namelist select_fn compar

  unfoldable pub serve_stat : Process → Engine → StatRequest → World → StatReply × World
  unfolding ReadHooks.stat ReadHooks.lstat ReadHooks.fstatat
  serve_stat p e (stat name) = ReadHooks.stat libc p e name
  serve_stat p e (lstat name) = ReadHooks.lstat libc e name
  serve_stat p e (fstatat dirfd name flags) = ReadHooks.fstatat libc e dirfd name flags

  module _ (e : Engine) (symbol : String) (w : World) where
    -- ENAMETOOLONG and no call, or one call of `symbol` with safe locations.
    abbrev pub Confined : Reply × World → Type 0
    Confined r =
        (r ≡ (failed enametoolong, w))
        ⊎ ((args : List Arg) × (r ≡ call (record { symbol = symbol; args = args }) w)
            × SafeArgs e args)

    -- As `Confined`, for a call that fills a struct stat, with the owner replaced or not.
    abbrev pub ConfinedStat : StatReply × World → Type 0
    ConfinedStat r =
        (r ≡ (refused enametoolong, w))
        ⊎ ((args : List Arg) × (mapped : Bool) × (r
              ≡ ReadHooks.fix_reply libc e mapped
                  (stat_call (record { symbol = symbol; args = args }) w))
            × SafeArgs e args)

    safe_around :
        (pre : List Arg) (q : Option Bytes) (post : List Arg)
        → SafeArgs e pre
        → IsSafe e q
        → SafeArgs e post
        → SafeArgs e (pre ++ (path q ∷ post))
    safe_around [] q post h s h' = (s, h')
    safe_around (num n ∷ pre) q post h s h' = safe_around pre q post h s h'
    safe_around (text t ∷ pre) q post h s h' = safe_around pre q post h s h'
    safe_around (path p ∷ pre) q post h s h' = (h.0, safe_around pre q post h.1 s h')

    pub forward-Confined :
        (t : Translated) (pre post : List Arg)
        → AllSafe e t
        → SafeArgs e pre
        → SafeArgs e post
        → Confined
            (forward libc t (λ q. record { symbol = symbol; args = pre ++ (path q ∷ post) }) w)
    unfolding forward
    forward-Confined overflowed pre post s h h' = inl refl
    forward-Confined (value q m) pre post s h h' = inr (_, refl, safe_around pre q post h s h')

    pub stat-Confined :
        (t : Translated) (pre post : List Arg)
        → AllSafe e t
        → SafeArgs e pre
        → SafeArgs e post
        → ConfinedStat (
            ReadHooks.forward_stat libc e t
              (λ q. record { symbol = symbol; args = pre ++ (path q ∷ post) })
              w)
    unfolding ReadHooks.forward_stat
    stat-Confined overflowed pre post s h h' = inl refl
    stat-Confined (value q m) pre post s h h' = inr (_, m, refl, safe_around pre q post h s h')
