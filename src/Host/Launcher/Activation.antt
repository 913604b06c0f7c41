-- ===== src/Host/Launcher/Activation.antt =====
-- From the environment that `Start` of core/launcher.cpp gives its child to the state of libfake
-- in that child (fake/fake.cpp). getenv(3) is that of the block the child was started with, and
-- strtol(3) reads back what std::to_string made of an int.
use Prim.Native.String.{String}
use virtualaosp.Base.{
  ℕ, ◌<◌, ◌^◌, Bool, true, false, Option, none, some, [], ◌∷◌, ◌++◌, ◌≡◌, refl, ◌≢◌, ap, subst, ◌∙◌,
  sym, if◌then◌else◌, replicate, Bytes, codes,
}
use virtualaosp.Base.Int.{ℤ, pos, to_int, to_int-pos}
use virtualaosp.Base.Environ.{Environ}
use virtualaosp.Guest.State.{State, inactive, init_from_env}
use virtualaosp.Guest.State.Root.{IsRoot, set_state_activates}
use virtualaosp.Guest.Redirect.{empty_table, set_excluded_prefixes}
use virtualaosp.Guest.Redirect.Confine.{IsActive}
use virtualaosp.Guest.Init.{
  Host, Process, fresh, ac_fake_init, start_parts, start_engine-IsActive, ac_fake_init-on,
  wants_seccomp,
}
use virtualaosp.Frame.Producer.{
  Descriptors, attach, frame_producer_init_from_env, attach_shut, memfd_flags, survives_exec,
}
use virtualaosp.Guest.Seccomp.{install_seccomp_filter}
use virtualaosp.Host.Launcher.{LaunchConfig, is_given, is_fd, child_env}
use virtualaosp.Host.Launcher.Lookup.{
  option_if, enabled_is, rootfs_is, uid_is, gid_is, seccomp_is, frame_fd_is, excludes_are,
}

-- The system as the child of `Start` finds it.
abbrev pub child_host : Environ → (ℤ → Bytes) → LaunchConfig → Host → Host
child_host E to_string cfg H = record H { getenv = E.getenv (child_env to_string cfg) }

abbrev pub child_process :
    (E : Environ) (to_string : ℤ → Bytes) (H : Host) (cfg : LaunchConfig)
    → H.os.World
    → H.prctl.World
    → Process (child_host E to_string cfg H)
child_process E to_string H cfg w k =
    ac_fake_init (child_host E to_string cfg H) (fresh (child_host E to_string cfg H) w k)

-- The state of libfake that a configuration asks for.
abbrev pub state_of : LaunchConfig → Bytes → State
state_of cfg r = record {
  enabled = true;
  root = r;
  fake_uid = cfg.fake_uid;
  fake_gid = cfg.fake_gid;
}

-- strtol(3) reads back what std::to_string made of an int.
abbrev pub ReadsBack : (ℤ → Bytes) → (Bytes → ℤ) → Type 0
ReadsBack to_string strtol = (z : ℤ) → to_int z ≡ z → strtol (to_string z) ≡ z

-- fakeUid and fakeGid are ints.
abbrev pub AreInts : LaunchConfig → Type 0
AreInts cfg = (to_int cfg.fake_uid ≡ cfg.fake_uid) × (to_int cfg.fake_gid ≡ cfg.fake_gid)

init_from_child_env :
    (E : Environ) (to_string : ℤ → Bytes) (strtol : Bytes → ℤ) (cfg : LaunchConfig) (r : Bytes)
    (n : ℕ)
    → IsRoot r
    → cfg.rootfs_dir ≡ r ++ replicate n b'/'
    → ReadsBack to_string strtol
    → AreInts cfg
    → init_from_env (E.getenv (child_env to_string cfg)) strtol inactive ≡ state_of cfg r
unfolding init_from_env
init_from_child_env E to_string strtol cfg r n v root back ids =
    rw
      (
        enabled_is E to_string cfg,
        rootfs_is E to_string cfg,
        uid_is E to_string cfg,
        gid_is E to_string cfg,
        root,
        back cfg.fake_uid ids.0,
        back cfg.fake_gid ids.1,
      )
      (set_state_activates inactive r n cfg.fake_uid cfg.fake_gid v)

wants_one : (b : Bool) → wants_seccomp (option_if b (codes "1")) ≡ b
wants_one true = refl
wants_one false = refl

-- A guest that `Start` launches with two int identities and a rootfs directory that is a
-- well-formed root, slashes behind it allowed, runs with libfake active: the root is that directory, the identity and the excluded
-- prefixes are those of the configuration, and the seccomp filter is installed exactly if it was
-- asked for.
pub launch_activates :
    (E : Environ) (to_string : ℤ → Bytes) (H : Host) (cfg : LaunchConfig) (r : Bytes) (n : ℕ)
    (w : H.os.World) (k : H.prctl.World)
    → IsRoot r
    → cfg.rootfs_dir ≡ r ++ replicate n b'/'
    → ReadsBack to_string H.strtol
    → AreInts cfg
    → (let p = child_process E to_string H cfg w k in
        IsActive p.engine
        × (p.engine.state ≡ state_of cfg r)
        × (p.engine.excludes
            ≡ set_excluded_prefixes
                (option_if (is_given cfg.exclude_paths) cfg.exclude_paths)
                empty_table)
        × (p.kernel
            ≡ (if cfg.enable_seccomp then (install_seccomp_filter H.prctl H.abi k).1 else k)))
launch_activates E to_string H cfg r n w k v root back ids =
    let H' = child_host E to_string cfg H in
    let s = state_of cfg r in
    let e =
      ac_fake_init-on H' (fresh H' w k) s
        (init_from_child_env E to_string H.strtol cfg r n v root back ids) refl in
    subst
      (λ (p : Process H').
        IsActive p.engine
        × (p.engine.state ≡ s)
        × (p.engine.excludes
            ≡ set_excluded_prefixes (option_if (is_given cfg.exclude_paths) cfg.exclude_paths)
                empty_table)
        × (p.kernel
            ≡ (if cfg.enable_seccomp then (install_seccomp_filter H.prctl H.abi k).1 else k)))
      (sym e)
      (unfold start_parts in
        (
          start_engine-IsActive H' s (fresh H' w k).engine refl v,
          refl,
          ap (λ o. set_excluded_prefixes o empty_table) (excludes_are E to_string cfg),
          ap (λ b. if b then (install_seccomp_filter H.prctl H.abi k).1 else k)
              (ap wants_seccomp (seccomp_is E to_string cfg) ∙ wants_one cfg.enable_seccomp),
        ))

init-attach :
    (getenv : String → Option Bytes) (strtol : Bytes → ℤ) (d : Descriptors) (text : Bytes)
    → getenv "AC_FRAME_FD" ≡ some text
    → text ≢ []
    → frame_producer_init_from_env getenv strtol d true ≡ attach d (to_int (strtol text))
unfolding frame_producer_init_from_env
init-attach getenv strtol d [] h ne = absurd (ne refl)
init-attach getenv strtol d (c ∷ text) h ne = rw (frame_producer_init_from_env, h) refl

started-producer :
    (H : Host) (s : State) (p : Process H)
    → s.enabled ≡ true
    → (start_parts H s p).producer
      ≡ frame_producer_init_from_env H.getenv H.strtol H.descriptors true
unfolding start_parts
started-producer H s p on = ap (frame_producer_init_from_env H.getenv H.strtol H.descriptors) on

-- A guest that `Start` launches with a descriptor for the frame region tries to attach to the
-- region of just that descriptor. Where the descriptor is open in the guest only if the flags that
-- `FrameChannelHost::Create` makes it with let it survive execve(2), the guest attaches to no
-- region: it is made with MFD_CLOEXEC.
pub launch_frame_fd :
    (E : Environ) (to_string : ℤ → Bytes) (H : Host) (cfg : LaunchConfig) (r : Bytes) (n fd : ℕ)
    (w : H.os.World) (k : H.prctl.World)
    → IsRoot r
    → cfg.rootfs_dir ≡ r ++ replicate n b'/'
    → ReadsBack to_string H.strtol
    → AreInts cfg
    → ((z : ℤ) → to_string z ≢ [])
    → cfg.frame_fd ≡ pos fd
    → fd < 2 ^ 31
    → H.descriptors.is_open (pos fd) ≡ survives_exec memfd_flags
    → ((child_process E to_string H cfg w k).producer ≡ attach H.descriptors (pos fd))
      × ((child_process E to_string H cfg w k).producer ≡ none)
launch_frame_fd E to_string H cfg r n fd w k v root back ids text is_pos small shut =
    let H' = child_host E to_string cfg H in
    let s = state_of cfg r in
    let e =
      ac_fake_init-on H' (fresh H' w k) s
        (init_from_child_env E to_string H.strtol cfg r n v root back ids) refl in
    let found = frame_fd_is E to_string cfg ∙ ap (λ z. option_if (is_fd z) (to_string z)) is_pos in
    let producer : (child_process E to_string H cfg w k).producer ≡ attach H.descriptors (pos fd) =
      ap (λ (p : Process H'). p.producer) e
      ∙ started-producer H' s (fresh H' w k) refl
      ∙ init-attach H'.getenv H.strtol H.descriptors (to_string (pos fd)) found (text (pos fd))
      ∙ ap (attach H.descriptors)
          (ap to_int (back (pos fd) (to_int-pos fd small)) ∙ to_int-pos fd small) in
    (producer, producer ∙ attach_shut H.descriptors (pos fd) shut)
