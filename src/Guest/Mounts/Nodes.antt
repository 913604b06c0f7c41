-- ===== src/Guest/Mounts/Nodes.antt =====
-- The emulation of device nodes in fake/mount_emu.cpp.
use virtualaosp.Base.{
  ℕ, Bool, true, false, Option, some, ◌≡◌, ◌↔◌, inl, inr, refl, sym, ap, ◌∙◌, arith, is_absolute,
  ◌==◌, ==_iff, Bool-cases, Bytes,
}
use virtualaosp.Guest.Redirect.{Engine}
use virtualaosp.Guest.Translate.{value, overflowed, translate, maybe_map, maybe_map-translate}
use virtualaosp.Guest.Libc.{
  Libc, Reply, done, failed, Stat, StatReply, filled, refused, eexist, enametoolong,
}
use virtualaosp.Guest.Mounts.{
  is_regular, create_call, probe_call, judge, after_create, node_at, emu_mknod, mknod, mknodat,
}

module _ (libc : Libc) (name : Bytes) where
  open libc use {World, call, stat_call}

  -- The exclusive create succeeded, or it found a file that is already there and is regular.
  abbrev pub Stands : Reply × World → Type 0
  Stands (done fd, w) = Unit
  Stands (failed errno, w) =
      (errno ≡ eexist)
      × ((st : Stat) × ((stat_call (probe_call name) w).0 ≡ filled st)
          × (is_regular st.st_mode ≡ true))

  judge-Stands :
      (r : StatReply × World)
      → ((judge libc r).0 ≡ done 0)
        ↔ ((st : Stat) × (r.0 ≡ filled st) × (is_regular st.st_mode ≡ true))
  judge-Stands (filled st, w) = (λ h. (st, refl, ground arith), λ h. ground (arith, h.1))
  judge-Stands (refused errno, w) = (λ h. cc, λ h. cc (h.1))

  after_create-Stands : (r : Reply × World) → ((after_create libc name r).0 ≡ done 0) ↔ Stands r
  after_create-Stands (done fd, w) = (λ h. tt, λ h. refl)
  after_create-Stands (failed errno, w) = elim (Bool-cases (errno == eexist)) [
    | inl taken ↦ rw taken (
      λ h. ((==_iff errno eexist).0 taken, (judge-Stands (stat_call (probe_call name) w)).0 h),
      λ h. (judge-Stands (stat_call (probe_call name) w)).1 h.1,
    )
    | inr other ↦ rw other (λ h. cc, λ h. absurd (ground arith))
  ]

mknod_active :
    (libc : Libc) (e : Engine) (name : Option Bytes) (mode dev : ℕ) (w : libc.World)
    → e.enabled ≡ true
    → mknod libc e name mode dev w ≡ node_at libc (translate e name) w
unfolding mknod
mknod_active libc e name mode dev w on = simp on

mknodat_active :
    (libc : Libc) (e : Engine) (dirfd : ℕ) (name : Option Bytes) (mode dev : ℕ) (w : libc.World)
    → e.enabled ≡ true
    → mknodat libc e dirfd name mode dev w ≡ node_at libc (maybe_map e name) w
unfolding mknodat
mknodat_active libc e dirfd name mode dev w on = simp on

-- While the engine is active both node hooks act on the translated path alone, and succeed exactly
-- if the exclusive create of a regular file there succeeds, or fails with EEXIST and the file that
-- is there is regular; a path that does not fit fails with ENAMETOOLONG and no call.
pub mknod_outcome :
    (libc : Libc) (e : Engine) (name : Bytes) (dirfd mode dev : ℕ) (w : libc.World)
    → e.enabled ≡ true
    → (mknodat libc e dirfd (some name) mode dev w ≡ mknod libc e (some name) mode dev w)
      × (translate e (some name) ≡ overflowed
          → mknod libc e (some name) mode dev w ≡ (failed enametoolong, w))
      × ((host : Bytes) (m : Bool)
          → translate e (some name) ≡ value (some host) m
          → ((mknod libc e (some name) mode dev w).0 ≡ done 0)
            ↔ Stands libc host (libc.call (create_call host) w))
mknod_outcome libc e name dirfd mode dev w on =
    let here = mknod_active libc e (some name) mode dev w on in
    (
      mknodat_active libc e dirfd (some name) mode dev w on
          ∙ ap (λ t. node_at libc t w) (maybe_map-translate e (some name))
          ∙ sym here,
      λ over. here ∙ ap (λ t. node_at libc t w) over,
      λ host m image.
          rw (here, image)
            (unfold emu_mknod in after_create-Stands libc host (libc.call (create_call host) w)),
    )

-- A relative path is created relative to the working directory: the directory descriptor of
-- mknodat is not used while the engine is active.
pub mknodat_ignores_dirfd :
    (libc : Libc) (e : Engine) (name : Bytes) (d d' mode dev : ℕ) (w : libc.World)
    → e.enabled ≡ true
    → is_absolute name ≡ false
    → (mknodat libc e d (some name) mode dev w ≡ mknodat libc e d' (some name) mode dev w)
      × (mknodat libc e d (some name) mode dev w ≡ emu_mknod libc (some name) w)
mknodat_ignores_dirfd libc e name d d' mode dev w on relative =
    let here = mknodat_active libc e d (some name) mode dev w on in
    (
      here ∙ sym (mknodat_active libc e d' (some name) mode dev w on),
      here
          ∙ ap (λ t. node_at libc t w) {y = value (some name) false}
              (unfold maybe_map in rw relative),
    )
