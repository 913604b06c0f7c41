-- ===== src/Guest/Vfs/Answers.antt =====
-- What emu_stat, emu_access and emu_open of fake/vfs_emu.cpp say of one path.
use virtualaosp.Base.{
  ℕ, ◌/◌, ◌%◌, Bool, true, false, Option, none, some, List, [], ◌∷◌, ◌++◌, ◌≡◌, ◌≢◌, refl, ap, ◌∙◌,
  ◌⊎◌, inl, inr, ◌==◌, if◌then◌else◌, Bool-cases, Bytes, codes, strip_prefix, str_eq,
}
use virtualaosp.Base.Int.{to_u32}
use virtualaosp.Guest.State.{State}
use virtualaosp.Guest.Redirect.{is_virtual_fs_path}
use virtualaosp.Guest.Libc.{
  Libc, Reply, done, failed, Stat, StatReply, filled, refused, enoent, eacces,
}
use virtualaosp.Guest.Vfs.{
  Entry, not_virtual, unknown, dir, version, cpuinfo, meminfo, uptime, filesystems, mounts_top,
  self_status, self_cmdline, self_maps, self_mounts, self_mountinfo, file_table, own_table,
  find_entry, is_known, is_listed_dir, classify_own, classify,
}
use virtualaosp.Guest.Vfs.Emulate.{
  Emulated, passed, answered, Process, emu_stat, emu_access, emu_open, stat_entry, access_entry,
  open_entry, serve_file, memfd_call, content, dir_mode, file_mode,
}

-- An entry of a virtual path.
abbrev Emulates : Entry → Type 0
Emulates not_virtual = ⊥
Emulates e = Unit

abbrev AllEmulate : List (Bytes × Entry) → Type 0
AllEmulate [] = Unit
AllEmulate ((name, e) ∷ rows) = Emulates e × AllEmulate rows

if-Emulates : (b : Bool) (x y : Entry) → Emulates x → Emulates y → Emulates (if b then x else y)
if-Emulates true x y hx hy = hx
if-Emulates false x y hx hy = hy

find_entry-Emulates :
    (rows : List (Bytes × Entry)) (path : Bytes) → AllEmulate rows → Emulates (find_entry rows path)
unfolding find_entry
find_entry-Emulates [] path h = tt
find_entry-Emulates ((name, e) ∷ rows) path h =
    if-Emulates (str_eq path name) e (find_entry rows path) h.0 (find_entry-Emulates rows path h.1)

classify_own-Emulates : (own_pid path : Bytes) → Emulates (classify_own own_pid path)
unfolding classify_own
classify_own-Emulates own_pid path =
    own_cases (strip_prefix (codes "/proc/" ++ (own_pid ++ codes "/")) path)
  where
    own_cases :
        (r : Option Bytes)
        → Emulates (elim r [
          | some rest ↦ find_entry own_table rest
          | none ↦ if str_eq path (codes "/proc/" ++ own_pid) then dir else unknown
        ])
    own_cases none = if-Emulates (str_eq path (codes "/proc/" ++ own_pid)) dir unknown tt tt
    own_cases (some rest) =
        find_entry-Emulates own_table rest (tt, (tt, (tt, (tt, (tt, (tt, tt))))))

classify-Emulates :
    (own_pid path : Bytes) → is_virtual_fs_path path ≡ true → Emulates (classify own_pid path)
unfolding classify
classify-Emulates own_pid path h = rw h (
    if-Emulates (is_listed_dir path) dir _ tt (
      if-Emulates (is_known (find_entry file_table path)) _ _
        (find_entry-Emulates file_table path
          (tt, (tt, (tt, (tt, (tt, (tt, (tt, (tt, (tt, (tt, (tt, tt))))))))))))
        (classify_own-Emulates own_pid path)))

classify-not_virtual :
    (own_pid path : Bytes) → is_virtual_fs_path path ≡ false → classify own_pid path ≡ not_virtual
unfolding classify
classify-not_virtual own_pid path h = rw h refl

module _ (libc : Libc) (p : Process) (s : State) where
  open libc use {World, call}

  serve_file-reply :
      (make : World → Bytes × World) (r : Reply × World) → (serve_file libc make r).0 ≡ r.0
  serve_file-reply make (done fd, w) = refl
  serve_file-reply make (failed errno, w) = refl

  -- The three calls find nothing at the entry `e`.
  abbrev pub Missing :
      Entry → Emulated StatReply → Emulated ℕ → Emulated Reply × World → World → Type 0
  Missing e st a o w =
      (e ≡ unknown)
      × (st ≡ answered (refused enoent))
      × (a ≡ answered enoent)
      × (o ≡ (answered (failed enoent), w))

  -- stat and access find a directory, for which open says ENOENT, or a file that opens as
  -- memfd_create does. Its owner is the fake identity, and W_OK is refused.
  abbrev pub Present :
      Entry → ℕ → Emulated StatReply → Emulated ℕ → Emulated Reply × World → World → Type 0
  Present e mode st a o w =
      (found : Stat) × (st ≡ answered (filled found))
      × (found.st_uid ≡ to_u32 s.fake_uid)
      × (found.st_gid ≡ to_u32 s.fake_gid)
      × (a ≡ answered (if mode / 2 % 2 == 1 then eacces else 0))
      × (((e ≡ dir) × (found.st_mode ≡ dir_mode) × (o ≡ (answered (failed enoent), w)))
          ⊎ ((e ≢ dir)
              × (found.st_mode ≡ file_mode)
              × (o.0 ≡ answered (call (memfd_call libc) w).0)))

  abbrev Verdict : Entry → ℕ → World → Type 0
  Verdict e mode w =
      Missing e (stat_entry s e) (access_entry e mode) (open_entry libc p s e w) w
      ⊎ Present e mode (stat_entry s e) (access_entry e mode) (open_entry libc p s e w) w

  abbrev stat_of : ℕ → ℕ → Stat
  stat_of mode size = record {
    st_mode = mode;
    st_nlink = 1;
    st_uid = to_u32 s.fake_uid;
    st_gid = to_u32 s.fake_gid;
    st_size = size;
    others = [];
  }

  file_present :
      (e : Entry) (mode : ℕ) (w : World)
      → e ≢ dir
      → stat_entry s e ≡ answered (filled (stat_of file_mode 4096))
      → access_entry e mode ≡ answered (if mode / 2 % 2 == 1 then eacces else 0)
      → (open_entry libc p s e w).0
        ≡ answered (serve_file libc (content libc p s e) (call (memfd_call libc) w)).0
      → Verdict e mode w
  file_present e mode w apart st a o = inr (
    stat_of file_mode 4096,
    st,
    refl,
    refl,
    a,
    inr (
      apart,
      refl,
      o ∙ ap answered (serve_file-reply (content libc p s e) (call (memfd_call libc) w)),
    ),
  )

  entry-Verdict : (e : Entry) (mode : ℕ) (w : World) → Emulates e → Verdict e mode w
  entry-Verdict not_virtual mode w h = absurd h
  entry-Verdict unknown mode w h = inl (refl, refl, refl, refl)
  entry-Verdict dir mode w h =
      inr (stat_of dir_mode 512, refl, refl, refl, refl, inl (refl, refl, refl))
  entry-Verdict version mode w h = file_present version mode w (λ d. cc (d)) refl refl refl
  entry-Verdict cpuinfo mode w h = file_present cpuinfo mode w (λ d. cc (d)) refl refl refl
  entry-Verdict meminfo mode w h = file_present meminfo mode w (λ d. cc (d)) refl refl refl
  entry-Verdict uptime mode w h = file_present uptime mode w (λ d. cc (d)) refl refl refl
  entry-Verdict filesystems mode w h = file_present filesystems mode w (λ d. cc (d)) refl refl refl
  entry-Verdict mounts_top mode w h = file_present mounts_top mode w (λ d. cc (d)) refl refl refl
  entry-Verdict self_status mode w h = file_present self_status mode w (λ d. cc (d)) refl refl refl
  entry-Verdict self_cmdline mode w h =
      file_present self_cmdline mode w (λ d. cc (d)) refl refl refl
  entry-Verdict self_maps mode w h = file_present self_maps mode w (λ d. cc (d)) refl refl refl
  entry-Verdict self_mounts mode w h = file_present self_mounts mode w (λ d. cc (d)) refl refl refl
  entry-Verdict self_mountinfo mode w h =
      file_present self_mountinfo mode w (λ d. cc (d)) refl refl refl

  pub answers_by_kind :
      (name : Bytes) (mode : ℕ) (w : World)
      → ((is_virtual_fs_path name ≡ false)
          × (emu_stat p s name ≡ passed)
          × (emu_access p name mode ≡ passed)
          × (emu_open libc p s name w ≡ (passed, w)))
        ⊎ ((is_virtual_fs_path name ≡ true)
            × (Missing
                  (classify p.own_pid name)
                  (emu_stat p s name)
                  (emu_access p name mode)
                  (emu_open libc p s name w)
                  w
                ⊎ Present
                    (classify p.own_pid name)
                    mode
                    (emu_stat p s name)
                    (emu_access p name mode)
                    (emu_open libc p s name w)
                    w))
  unfolding emu_stat emu_access emu_open
  answers_by_kind name mode w = elim (Bool-cases (is_virtual_fs_path name)) [
    | inl hit ↦
        inr (
          hit,
          entry-Verdict (classify p.own_pid name) mode w (classify-Emulates p.own_pid name hit),
        )
    | inr miss ↦
        let e = classify-not_virtual p.own_pid name miss in
        inl (
          miss,
          ap (stat_entry s) e,
          ap (λ t. access_entry t mode) e,
          ap (λ t. open_entry libc p s t w) e,
        )
  ]
