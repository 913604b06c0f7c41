-- ===== src/Guest/Identity.antt =====
-- fake/uid_spoof.cpp: the hooks that answer identity queries with the fake ids and pretend that
-- changes of identity succeed. A pointer is a number, 0 if null; what a hook stores through
-- pointers is a list of addresses and values.
pub mod Coherent
use Prim.Native.String.{String}
use virtualaosp.Base.{
  ℕ, zero, suc, Bool, true, false, ◌||◌, not, Option, none, some, List, [], ◌∷◌, ◌==◌,
  if◌then◌else◌, Bytes, codes, str_eq,
}
use virtualaosp.Base.Int.{ℤ, pos, negsuc, to_u32}
use virtualaosp.Guest.State.{State}
use virtualaosp.Guest.Libc.{Libc, Arg, text, num, Call, Reply, done, failed, Stat, efault, einval}

abbrev pub Stores : Type 0
Stores = List (ℕ × ℕ)

pub record Passwd : Type 0 where
  pub pw_name : Bytes
  pub pw_passwd : Bytes
  pub pw_uid : ℕ
  pub pw_gid : ℕ
  pub pw_gecos : Bytes
  pub pw_dir : Bytes
  pub pw_shell : Bytes

pub record Group : Type 0 where
  pub gr_name : Bytes
  pub gr_passwd : Bytes
  pub gr_gid : ℕ

abbrev pub g_passwd : Passwd
g_passwd = record {
  pw_name = codes "root";
  pw_passwd = codes "*";
  pw_uid = 0;
  pw_gid = 0;
  pw_gecos = codes "container root";
  pw_dir = codes "/";
  pw_shell = codes "/system/bin/sh";
}

abbrev pub g_group : Group
g_group = record { gr_name = codes "root"; gr_passwd = codes "*"; gr_gid = 0 }

-- The static entry, or what libc's lookup returns.
pub data Entry (A : Type 0) : Type 0 where
  synthetic : A → Entry A
  looked_up : Reply → Entry A

-- Also used by the stat hooks; a null buffer is `none`.
unfoldable pub fix_stat_owner : State → Option Stat → Option Stat
fix_stat_owner s none = none
fix_stat_owner s (some st) =
    if s.enabled
    then some (record st { st_uid = to_u32 s.fake_uid; st_gid = to_u32 s.fake_gid })
    else some st

-- The three results are stored through the pointers, if none is null.
unfoldable pub store_three : ℕ → ℕ → ℕ → ℕ → Reply × Stores
store_three id r e s =
    if r == 0 || (e == 0 || s == 0)
    then (failed efault, [])
    else (done 0, (s, id) ∷ (e, id) ∷ (r, id) ∷ [])

unfoldable pub fake_groups : State → ℤ → ℕ → Reply × Stores
fake_groups st (negsuc n) list = (failed einval, [])
fake_groups st (pos zero) list = (done 1, [])
fake_groups st (pos (suc n)) list =
    if list == 0 then (failed efault, []) else (done 1, (list, to_u32 st.fake_gid) ∷ [])

-- `name != nullptr && strcmp(name, "root") == 0`
abbrev pub is_root_name : Option Bytes → Bool
is_root_name none = false
is_root_name (some name) = str_eq name (codes "root")

module _ (libc : Libc) where
  open libc use {World, call}

  -- `if (!enabled()) return real(args);` with the fake answer otherwise.
  unfoldable pub answer : State → String → List Arg → Reply → World → Reply × World
  answer s symbol args fake w =
      if s.enabled then (fake, w) else call (record { symbol = symbol; args = args }) w

  unfoldable pub getuid : State → World → Reply × World
  unfolding answer
  getuid s = answer s "getuid" [] (done (to_u32 s.fake_uid))

  unfoldable pub geteuid : State → World → Reply × World
  unfolding answer
  geteuid s = answer s "geteuid" [] (done (to_u32 s.fake_uid))

  unfoldable pub getgid : State → World → Reply × World
  unfolding answer
  getgid s = answer s "getgid" [] (done (to_u32 s.fake_gid))

  unfoldable pub getegid : State → World → Reply × World
  unfolding answer
  getegid s = answer s "getegid" [] (done (to_u32 s.fake_gid))

  abbrev pub no_stores : Reply × World → (Reply × Stores) × World
  no_stores (r, w) = ((r, []), w)

  unfoldable pub getresuid : State → ℕ → ℕ → ℕ → World → (Reply × Stores) × World
  unfolding store_three
  getresuid st r e s w =
      if st.enabled
      then (store_three (to_u32 st.fake_uid) r e s, w)
      else no_stores (call (record { symbol = "getresuid"; args = num r ∷ num e ∷ num s ∷ [] }) w)

  unfoldable pub getresgid : State → ℕ → ℕ → ℕ → World → (Reply × Stores) × World
  unfolding store_three
  getresgid st r e s w =
      if st.enabled
      then (store_three (to_u32 st.fake_gid) r e s, w)
      else no_stores (call (record { symbol = "getresgid"; args = num r ∷ num e ∷ num s ∷ [] }) w)

  unfoldable pub getgroups : State → ℤ → ℕ → World → (Reply × Stores) × World
  unfolding fake_groups
  getgroups st size list w =
      if st.enabled
      then (fake_groups st size list, w)
      else no_stores
          (call (record { symbol = "getgroups"; args = num (to_u32 size) ∷ num list ∷ [] }) w)

  abbrev pub look_up : {A : Type 0} → String → List Arg → World → Entry A × World
  look_up symbol args w =
      let (r, w') = call (record { symbol = symbol; args = args }) w in (looked_up r, w')

  unfoldable pub getpwuid : State → ℕ → World → Entry Passwd × World
  getpwuid st uid w =
      if not st.enabled || not (uid == to_u32 st.fake_uid)
      then look_up "getpwuid" (num uid ∷ []) w
      else (synthetic g_passwd, w)

  unfoldable pub getgrgid : State → ℕ → World → Entry Group × World
  getgrgid st gid w =
      if not st.enabled || not (gid == to_u32 st.fake_gid)
      then look_up "getgrgid" (num gid ∷ []) w
      else (synthetic g_group, w)

  unfoldable pub getpwnam : State → Option Bytes → World → Entry Passwd × World
  unfolding str_eq
  getpwnam st name w =
      if not st.enabled || not (is_root_name name)
      then look_up "getpwnam" (text name ∷ []) w
      else (synthetic g_passwd, w)

  unfoldable pub getgrnam : State → Option Bytes → World → Entry Group × World
  unfolding str_eq
  getgrnam st name w =
      if not st.enabled || not (is_root_name name)
      then look_up "getgrnam" (text name ∷ []) w
      else (synthetic g_group, w)

  -- AC_NOOP_ID_HOOK: success with no call, while the engine is active.
  unfoldable pub noop_id_hook : String → State → List Arg → World → Reply × World
  unfolding answer
  noop_id_hook symbol s args = answer s symbol args (done 0)

  unfoldable pub setuid : State → ℕ → World → Reply × World
  unfolding noop_id_hook
  setuid s uid = noop_id_hook "setuid" s (num uid ∷ [])

  unfoldable pub seteuid : State → ℕ → World → Reply × World
  unfolding noop_id_hook
  seteuid s euid = noop_id_hook "seteuid" s (num euid ∷ [])

  unfoldable pub setreuid : State → ℕ → ℕ → World → Reply × World
  unfolding noop_id_hook
  setreuid s ruid euid = noop_id_hook "setreuid" s (num ruid ∷ num euid ∷ [])

  unfoldable pub setresuid : State → ℕ → ℕ → ℕ → World → Reply × World
  unfolding noop_id_hook
  setresuid st r e s = noop_id_hook "setresuid" st (num r ∷ num e ∷ num s ∷ [])

  unfoldable pub setfsuid : State → ℕ → World → Reply × World
  unfolding noop_id_hook
  setfsuid s fsuid = noop_id_hook "setfsuid" s (num fsuid ∷ [])

  unfoldable pub setgid : State → ℕ → World → Reply × World
  unfolding noop_id_hook
  setgid s gid = noop_id_hook "setgid" s (num gid ∷ [])

  unfoldable pub setegid : State → ℕ → World → Reply × World
  unfolding noop_id_hook
  setegid s egid = noop_id_hook "setegid" s (num egid ∷ [])

  unfoldable pub setregid : State → ℕ → ℕ → World → Reply × World
  unfolding noop_id_hook
  setregid s rgid egid = noop_id_hook "setregid" s (num rgid ∷ num egid ∷ [])

  unfoldable pub setresgid : State → ℕ → ℕ → ℕ → World → Reply × World
  unfolding noop_id_hook
  setresgid st r e s = noop_id_hook "setresgid" st (num r ∷ num e ∷ num s ∷ [])

  unfoldable pub setfsgid : State → ℕ → World → Reply × World
  unfolding noop_id_hook
  setfsgid s fsgid = noop_id_hook "setfsgid" s (num fsgid ∷ [])

  unfoldable pub setgroups : State → ℕ → ℕ → World → Reply × World
  unfolding noop_id_hook
  setgroups s size list = noop_id_hook "setgroups" s (num size ∷ num list ∷ [])

  unfoldable pub initgroups : State → Option Bytes → ℕ → World → Reply × World
  unfolding noop_id_hook
  initgroups s user group = noop_id_hook "initgroups" s (text user ∷ num group ∷ [])
