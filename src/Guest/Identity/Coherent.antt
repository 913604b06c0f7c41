-- ===== src/Guest/Identity/Coherent.antt =====
-- The identity that a guest sees through the hooks of fake/uid_spoof.cpp.
use virtualaosp.Base.{ℕ, suc, ◌<◌, ◌^◌, true, [], ◌∷◌, ◌≡◌, ◌↔◌, ap, arith, ==_self}
use virtualaosp.Base.Int.{pos, to_u32, to_u32-lt}
use virtualaosp.Guest.State.{State}
use virtualaosp.Guest.Libc.{Libc, Reply, done}
use virtualaosp.Guest.Identity.{
  synthetic, g_passwd, getuid, geteuid, getgid, getegid, getresuid, getresgid, getgroups, getpwuid,
}

-- While the engine is active all user-id queries give one 32-bit id with no call to libc: getuid,
-- geteuid and, through pointers that are not null, getresuid; getgroups has the one group getgid.
pub ids_agree :
    (libc : Libc) (s : State) (w : libc.World) (r e t list n : ℕ)
    → s.enabled ≡ true
    → 0 < r
    → 0 < e
    → 0 < t
    → 0 < list
    → let uid = to_u32 s.fake_uid in
      let gid = to_u32 s.fake_gid in
      (getuid libc s w ≡ (done uid, w))
      × (geteuid libc s w ≡ getuid libc s w)
      × (getresuid libc s r e t w ≡ ((done 0, (t, uid) ∷ (e, uid) ∷ (r, uid) ∷ []), w))
      × (getgid libc s w ≡ (done gid, w))
      × (getegid libc s w ≡ getgid libc s w)
      × (getresgid libc s r e t w ≡ ((done 0, (t, gid) ∷ (e, gid) ∷ (r, gid) ∷ []), w))
      × (getgroups libc s (pos (suc n)) list w ≡ ((done 1, (list, gid) ∷ []), w))
      × (uid < 2 ^ 32)
unfolding getuid geteuid getresuid getgid getegid getresgid getgroups
ids_agree libc s w r e t list n on hr he ht hl = (
  rw on,
  rw on,
  rw on (ground arith),
  rw on,
  rw on,
  rw on (ground arith),
  rw on (ground arith),
  to_u32-lt s.fake_uid,
)

-- The passwd entry that an active engine returns for the id of getuid has that id exactly if the
-- fake uid is 0 (modulo 2 ^ 32): for any other fake uid the entry says 0.
pub getpwuid_coherent :
    (libc : Libc) (s : State) (w : libc.World)
    → s.enabled ≡ true
    → (getpwuid libc s (to_u32 s.fake_uid) w ≡ (synthetic g_passwd, w))
      × ((g_passwd.pw_uid ≡ to_u32 s.fake_uid) ↔ (getuid libc s w ≡ (done 0, w)))
unfolding getpwuid getuid
getpwuid_coherent libc s w on = (
  rw (on, ==_self (to_u32 s.fake_uid)),
  (
    λ zero_id. rw (on, ← zero_id),
    λ answer_is.
        let same : done (to_u32 s.fake_uid) ≡ done 0 =
          ap (λ (x : Reply × libc.World). x.0) (rw on at answer_is) in
        ground arith,
  ),
)
