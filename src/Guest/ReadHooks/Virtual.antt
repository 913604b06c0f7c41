-- ===== src/Guest/ReadHooks/Virtual.antt =====
-- What the hooks of fake/syscall_hooks_read.cpp do with a path of /proc or /sys.
use virtualaosp.Base.{
  ℕ, ◌/◌, ◌%◌, Bool, true, false, none, some, [], ◌∷◌, ◌≡◌, refl, ap, ◌∙◌, ◌⊎◌, inl, inr, arith,
  ◌==◌, if◌then◌else◌, Bytes,
}
use virtualaosp.Guest.Redirect.{Engine, is_virtual_fs_path, bypasses, map_path, passthrough}
use virtualaosp.Guest.Libc.{
  Libc, path, text, num, Reply, done, failed, Stat, StatReply, filled, refused, enoent, eacces,
}
use virtualaosp.Guest.Translate.{value, choose, translate, maybe_map-translate, path_buf_size}
use virtualaosp.Guest.WriteHooks.{forward}
use virtualaosp.Guest.Vfs.Emulate.{Emulated, answered, Process}
use virtualaosp.Guest.Vfs.Answers.{answers_by_kind}
use virtualaosp.Guest.ReadHooks
use virtualaosp.Guest.ReadHooks.{open_args, is_emulated, or_else}

-- An answer of the emulation is returned.
or_else_answer :
    {W A B : Type 0} (finish : A → B) (b : Bool) (r : Emulated A × W) (go_on : W → B × W)
    (other : B × W) (a : A) (w : W)
    → b ≡ true
    → r ≡ (answered a, w)
    → (if b then or_else finish r go_on else other) ≡ (finish a, w)
or_else_answer finish b r go_on other a w h e = rw (h, e) refl

virtual-passthrough :
    (e : Engine) (name : Bytes) (n : ℕ)
    → is_virtual_fs_path name ≡ true
    → map_path e (some name) n ≡ passthrough
unfolding map_path bypasses
virtual-passthrough e name n v = ground arith

virtual-translate :
    (e : Engine) (name : Bytes)
    → is_virtual_fs_path name ≡ true
    → translate e (some name) ≡ value (some name) false
unfolding translate choose
virtual-translate e name v = rw (virtual-passthrough e name path_buf_size v) refl

-- With an active engine, stat, access and open of a path of /proc or /sys are answered by the
-- emulation: either all three fail with ENOENT, or stat and access find it; where they do so they
-- leave the host's world as it is.
pub virtual_answers :
    (libc : Libc) (p : Process) (e : Engine) (name : Bytes) (flags mode : ℕ) (w : libc.World)
    → e.enabled ≡ true
    → is_virtual_fs_path name ≡ true
    → ((ReadHooks.stat libc p e name w ≡ (refused enoent, w))
        × (ReadHooks.access libc p e name mode w ≡ (failed enoent, w))
        × (ReadHooks.open_hook libc p e name flags mode w ≡ (failed enoent, w)))
      ⊎ ((found : Stat) × (ReadHooks.stat libc p e name w ≡ (filled found, w))
          × (ReadHooks.access libc p e name mode w
              ≡ (if mode / 2 % 2 == 1 then failed eacces else done 0, w)))
unfolding ReadHooks.stat ReadHooks.access ReadHooks.open_hook
virtual_answers libc p e name flags mode w on v =
    elim (answers_by_kind libc p e.state name mode w) [
      | inl outside ↦ absurd (ground arith)
      | inr (inside, inl missing) ↦ inl (
        or_else_answer _ _ _ _ _ (refused enoent) w emulated (ap (λ r. (r, w)) missing.1),
        or_else_answer _ _ _ _ _ enoent w emulated (ap (λ r. (r, w)) missing.2),
        or_else_answer _ _ _ _ _ (failed enoent) w emulated missing.3,
      )
      | inr (inside, inr found) ↦ inr (
        found.0,
        or_else_answer _ _ _ _ _ (filled found.0) w emulated (ap (λ r. (r, w)) found.1),
        or_else_answer _ _ _ _ _ (if mode / 2 % 2 == 1 then eacces else 0) w emulated
              (ap (λ r. (r, w)) found.4)
            ∙ access_reply_if (mode / 2 % 2 == 1),
      )
    ]
  where
    emulated : is_emulated e name ≡ true
    emulated = ground (arith, on, v)

    access_reply_if :
        (b : Bool)
        → ◌≡◌ {A = Reply × libc.World}
            (ReadHooks.access_reply libc (if b then eacces else 0), w)
            (if b then failed eacces else done 0, w)
    access_reply_if true = refl
    access_reply_if false = refl

-- The hooks without emulation hand the same path to libc as it is, so that they reach the /proc and
-- /sys of the host: open64, openat, fopen64, creat, lstat, fstatat, faccessat, readlinkat, scandir.
pub virtual_reaches_host :
    (libc : Libc) (e : Engine) (name : Bytes) (dirfd a b c : ℕ) (w : libc.World)
    → is_virtual_fs_path name ≡ true
    → (ReadHooks.open64 libc e (some name) a b w
        ≡ libc.call (record { symbol = "open64"; args = path (some name) ∷ open_args a b }) w)
      × (ReadHooks.openat libc e dirfd (some name) a b w
          ≡ libc.call
              (record { symbol = "openat"; args = num dirfd ∷ path (some name) ∷ open_args a b })
              w)
      × (ReadHooks.fopen64 libc e (some name) none w
          ≡ libc.call (record { symbol = "fopen64"; args = path (some name) ∷ text none ∷ [] }) w)
      × (ReadHooks.creat libc e (some name) a w
          ≡ libc.call (record { symbol = "creat"; args = path (some name) ∷ num a ∷ [] }) w)
      × (ReadHooks.lstat libc e (some name) w
          ≡ libc.stat_call (record { symbol = "lstat"; args = path (some name) ∷ [] }) w)
      × (ReadHooks.fstatat libc e dirfd (some name) a w
          ≡ libc.stat_call
              (record { symbol = "fstatat"; args = num dirfd ∷ path (some name) ∷ num a ∷ [] })
              w)
      × (ReadHooks.faccessat libc e dirfd (some name) a b w
          ≡ libc.call
              (record {
                symbol = "faccessat";
                args = num dirfd ∷ path (some name) ∷ num a ∷ num b ∷ [];
              })
              w)
      × (ReadHooks.readlinkat libc e dirfd (some name) a b w
          ≡ libc.call
              (record {
                symbol = "readlinkat";
                args = num dirfd ∷ path (some name) ∷ num a ∷ num b ∷ [];
              })
              w)
      × (ReadHooks.scandir libc e (some name) a b c w
          ≡ libc.call
              (record { symbol = "scandir"; args = path (some name) ∷ num a ∷ num b ∷ num c ∷ [] })
              w)
unfolding ReadHooks.open64 ReadHooks.openat ReadHooks.fopen64 ReadHooks.creat ReadHooks.lstat
    ReadHooks.fstatat ReadHooks.faccessat ReadHooks.readlinkat ReadHooks.scandir forward
    ReadHooks.forward_stat
virtual_reaches_host libc e name dirfd a b c w v =
    let t = virtual-translate e name v in
    let m = maybe_map-translate e (some name) ∙ t in
    (
      rw t refl,
      rw m refl,
      rw t refl,
      rw t refl,
      rw t (
          keep_stat (libc.stat_call (record { symbol = "lstat"; args = path (some name) ∷ [] }) w)),
      rw m (
          keep_stat (
            libc.stat_call
              (record { symbol = "fstatat"; args = num dirfd ∷ path (some name) ∷ num a ∷ [] }) w)),
      rw m refl,
      rw m refl,
      rw t refl,
    )
  where
    keep_stat : (r : StatReply × libc.World) → ReadHooks.fix_reply libc e false r ≡ r
    keep_stat (filled st, w') = refl
    keep_stat (refused errno, w') = refl
