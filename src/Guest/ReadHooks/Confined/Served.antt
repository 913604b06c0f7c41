-- ===== src/Guest/ReadHooks/Confined/Served.antt =====
-- The hooks of fake/syscall_hooks_read.cpp, one by one, and the locations that they give to libc.
use Prim.Native.String.{String}
use virtualaosp.Base.{
  ℕ, Bool, true, false, ◌&&◌, not, Option, some, List, [], ◌∷◌, ◌==◌, ◌≡◌, refl, sym, subst, arith,
  if◌then◌else◌, Bytes,
}
use virtualaosp.Guest.Redirect.{Engine, is_virtual_fs_path}
use virtualaosp.Guest.Redirect.Confine.{IsActive}
use virtualaosp.Guest.Libc.{Libc, Arg, path, text, num, Reply}
use virtualaosp.Guest.Translate.{translate, translate-AllSafe, maybe_map, maybe_map-translate}
use virtualaosp.Guest.Vfs.Emulate.{Process}
use virtualaosp.Guest.WriteHooks.{forward}
use virtualaosp.Guest.WriteHooks.Confined.{SafeArgs}
use virtualaosp.Guest.ReadHooks.{creates, open_args, is_emulated, or_else}
use virtualaosp.Guest.ReadHooks
use virtualaosp.Guest.ReadHooks.Confined.{
  Confined, ConfinedStat, serve_read, serve_stat, forward-Confined, stat-Confined, Request,
  StatRequest, symbol_of, stat_symbol_of, goes_to_libc, stat_goes_to_libc, opens, open64, openat,
  creat, fopen64, access, faccessat, readlink, readlinkat, scandir, stat, lstat, fstatat,
}

open_args-SafeArgs : (e : Engine) (flags mode : ℕ) → SafeArgs e (open_args flags mode)
open_args-SafeArgs e flags mode = on (creates flags)
  where
    on : (b : Bool) → SafeArgs e (if b then num flags ∷ num mode ∷ [] else num flags ∷ [])
    on true = tt
    on false = tt

-- A path that is not virtual is not emulated.
not_emulated :
    (e : Engine) (name : Bytes) → not (is_virtual_fs_path name) ≡ true → is_emulated e name ≡ false
not_emulated e name h = ground arith

either-right : {A : Type 0} (b : Bool) (x y : A) → b ≡ false → (if b then x else y) ≡ y
either-right true x y h = ground (arith, h)
either-right false x y h = refl

and_false : (a b : Bool) → b ≡ false → (a && b) ≡ false
and_false true b h = h
and_false false b h = refl

module _ (libc : Libc) (p : Process) (e : Engine) (w : libc.World) (v : IsActive e) where
  first :
      (symbol : String) (name : Option Bytes) (post : List Arg)
      → SafeArgs e post
      → Confined libc e symbol w (
          forward libc (translate e name) (λ q. record { symbol = symbol; args = path q ∷ post }) w)
  first symbol name post h =
      forward-Confined libc e symbol w (translate e name) [] post (translate-AllSafe e name v) tt h

  behind :
      (symbol : String) (dirfd : ℕ) (name : Option Bytes) (post : List Arg)
      → SafeArgs e post
      → Confined libc e symbol w (
          forward libc
            (maybe_map e name)
            (λ q. record { symbol = symbol; args = num dirfd ∷ path q ∷ post })
            w)
  behind symbol dirfd name post h =
      subst
        (λ t.
          Confined libc e symbol w
            (forward libc t (λ q. record { symbol = symbol; args = num dirfd ∷ path q ∷ post }) w))
        (sym (maybe_map-translate e name))
        (forward-Confined libc e symbol w (translate e name) (num dirfd ∷ []) post
          (translate-AllSafe e name v) tt h)

  -- A hook that asks the emulation first.
  past_emulation :
      (symbol : String) (emulated : Bool) (x y : Reply × libc.World)
      → emulated ≡ false
      → Confined libc e symbol w y
      → Confined libc e symbol w (if emulated then x else y)
  past_emulation symbol emulated x y h c =
      subst (Confined libc e symbol w) (sym (either-right emulated x y h)) c

  -- With an active engine each hook that a path is not emulated for either fails with ENAMETOOLONG
  -- and makes no call, or makes one call of its own symbol, in which every location is relative, in
  -- the sandbox, virtual or excluded.
  confined_read :
      (q : Request)
      → goes_to_libc q ≡ true
      → Confined libc e (symbol_of q) w (serve_read libc p e q w)
  unfolding serve_read
  confined_read (opens name flags mode) h =
      past_emulation "open" (is_emulated e name) _ _ (not_emulated e name h)
        (first "open" (some name) (open_args flags mode) (open_args-SafeArgs e flags mode))
  confined_read (open64 name flags mode) h =
      first "open64" name (open_args flags mode) (open_args-SafeArgs e flags mode)
  confined_read (openat dirfd name flags mode) h =
      behind "openat" dirfd name (open_args flags mode) (open_args-SafeArgs e flags mode)
  confined_read (creat name mode) h = first "creat" name (num mode ∷ []) tt
  confined_read (fopen64 name mode) h = first "fopen64" name (text mode ∷ []) tt
  confined_read (access name mode) h =
      past_emulation "access" (is_emulated e name) _ _ (not_emulated e name h)
        (first "access" (some name) (num mode ∷ []) tt)
  confined_read (faccessat dirfd name mode flags) h =
      behind "faccessat" dirfd name (num mode ∷ num flags ∷ []) tt
  confined_read (readlink name buf size) h =
      past_emulation "readlink" (not (buf == 0) && is_emulated e name) _ _
        (and_false (not (buf == 0)) (is_emulated e name) (not_emulated e name h))
        (first "readlink" (some name) (num buf ∷ num size ∷ []) tt)
  confined_read (readlinkat dirfd name buf size) h =
      behind "readlinkat" dirfd name (num buf ∷ num size ∷ []) tt
  confined_read (scandir dir namelist select_fn compar) h =
      first "scandir" dir (num namelist ∷ num select_fn ∷ num compar ∷ []) tt

  confined_stat :
      (q : StatRequest)
      → stat_goes_to_libc q ≡ true
      → ConfinedStat libc e (stat_symbol_of q) w (serve_stat libc p e q w)
  unfolding serve_stat
  confined_stat (stat name) h =
      subst (ConfinedStat libc e "stat" w)
        (sym (either-right (is_emulated e name) _ _ (not_emulated e name h)))
        (stat-Confined libc e "stat" w (translate e (some name)) [] []
          (translate-AllSafe e (some name) v) tt tt)
  confined_stat (lstat name) h =
      stat-Confined libc e "lstat" w (translate e name) [] [] (translate-AllSafe e name v) tt tt
  confined_stat (fstatat dirfd name flags) h =
      subst
        (λ t. ConfinedStat libc e "fstatat" w (
          ReadHooks.forward_stat libc e t
            (λ q. record { symbol = "fstatat"; args = num dirfd ∷ path q ∷ num flags ∷ [] }) w))
        (sym (maybe_map-translate e name))
        (stat-Confined libc e "fstatat" w (translate e name) (num dirfd ∷ []) (num flags ∷ [])
          (translate-AllSafe e name v) tt tt)

-- With an active engine each of the thirteen hooks open, open64, openat, creat, fopen64, access,
-- faccessat, readlink, readlinkat, scandir, stat, lstat and fstatat, where its path is not left to
-- the emulation, either fails with ENAMETOOLONG and makes no call, or makes one call of its own symbol, in which
-- every location is relative, in the sandbox, virtual or excluded; a stat hook then at most
-- replaces the owner in the result.
pub serve_read-Confined :
    (libc : Libc) (p : Process) (e : Engine) (q : Request) (s : StatRequest) (w : libc.World)
    → IsActive e
    → goes_to_libc q ≡ true
    → stat_goes_to_libc s ≡ true
    → Confined libc e (symbol_of q) w (serve_read libc p e q w)
      × ConfinedStat libc e (stat_symbol_of s) w (serve_stat libc p e s w)
serve_read-Confined libc p e q s w v h h' =
    (confined_read libc p e w v q h, confined_stat libc p e w v s h')
