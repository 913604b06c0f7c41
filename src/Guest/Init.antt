-- ===== src/Guest/Init.antt =====
-- The library constructor `ac_fake_init` of fake/fake.cpp and the query interface next to it: the
-- order in which the parts of libfake start. The system, the environment and strtol(3) are
-- arguments.
use Prim.Native.String.{String}
use virtualaosp.Base.{
  Bool, true, false, Option, none, some, [], ◌∷◌, ◌≡◌, refl, inl, inr, ◌⊎◌, ap, subst, ◌∙◌, sym,
  ◌==◌, if◌then◌else◌, Bytes, is_absolute, Bool-cases,
}
use virtualaosp.Base.Int.{ℤ}
use virtualaosp.Guest.State.{State, inactive, init_from_env, parse_id, flag_set}
use virtualaosp.Guest.State.Root.{IsRoot, IsValid, set_state-IsValid}
use virtualaosp.Guest.Resolver.{unready, init, choose_base, pop_slash}
use virtualaosp.Guest.Redirect.{empty_table, Engine, set_excluded_prefixes}
use virtualaosp.Guest.Redirect.Confine.{IsActive}
use virtualaosp.Guest.Seccomp.{Prctl, Abi, install_seccomp_filter}
use virtualaosp.Frame.Producer.{Descriptors, Attached, frame_producer_init_from_env}
use virtualaosp.Ipc.Client.{Os, Client, no_client, ipc_client_init_from_env}

-- What the constructor can reach of the system. `prctl` acts on a world of its own.
pub record Host : Type 1 where
  pub os : Os
  pub prctl : Prctl
  pub descriptors : Descriptors
  pub abi : Abi
  pub getenv : String → Option Bytes
  pub strtol : Bytes → ℤ

-- The static state of the library in one process, and the worlds it acts on.
pub record Process (H : Host) : Type 0 where
  pub engine : Engine
  pub producer : Option Attached
  pub client : Client
  pub world : H.os.World
  pub kernel : H.prctl.World

abbrev pub fresh : (H : Host) → H.os.World → H.prctl.World → Process H
fresh H w k = record {
  engine = record { state = inactive; excludes = empty_table; resolver = unready };
  producer = none;
  client = no_client;
  world = w;
  kernel = k;
}

-- `sc != nullptr && sc[0] == '1'`
abbrev pub wants_seccomp : Option Bytes → Bool
wants_seccomp none = false
wants_seccomp (some []) = false
wants_seccomp (some (c ∷ cs)) = c == b'1'

-- The engine after set_excluded_prefixes and the resolver's init.
abbrev pub start_engine : Host → State → Engine → Engine
start_engine H s e = record {
  state = s;
  excludes = set_excluded_prefixes (H.getenv "AC_EXCLUDE") e.excludes;
  resolver = init H.getenv (some s.root);
}

-- The constructor behind the early return.
unfoldable pub start_parts : (H : Host) → State → Process H → Process H
start_parts H s p =
    let ((running, c), w) = ipc_client_init_from_env H.os s.enabled p.client p.world in
    let (installed, k) = install_seccomp_filter H.prctl H.abi p.kernel in
    record {
      engine = start_engine H s p.engine;
      producer = frame_producer_init_from_env H.getenv H.strtol H.descriptors s.enabled;
      client = c;
      world = w;
      kernel = if wants_seccomp (H.getenv "AC_SECCOMP") then k else p.kernel;
    }

unfoldable pub ac_fake_init : (H : Host) → Process H → Process H
ac_fake_init H p =
    let s = init_from_env H.getenv H.strtol p.engine.state in
    if s.enabled then start_parts H s p else record p { engine = record p.engine { state = s } }

-- ac_fake_enabled, ac_fake_rootfs, ac_fake_uid_value and ac_fake_gid_value
unfoldable pub ac_fake_enabled : State → Bool
ac_fake_enabled s = s.enabled

unfoldable pub ac_fake_rootfs : State → Bytes
ac_fake_rootfs s = s.root

unfoldable pub ac_fake_uid_value : State → ℤ
ac_fake_uid_value s = s.fake_uid

unfoldable pub ac_fake_gid_value : State → ℤ
ac_fake_gid_value s = s.fake_gid

init_from_env-IsValid :
    (getenv : String → Option Bytes) (strtol : Bytes → ℤ)
    → IsValid (init_from_env getenv strtol inactive)
unfolding init_from_env
init_from_env-IsValid getenv strtol = elim (Bool-cases (flag_set (getenv "AC_CONTAINER"))) [
  | inl on ↦ rw on (
      set_state-IsValid inactive true (getenv "AC_ROOTFS") (parse_id strtol (getenv "AC_FAKE_UID"))
        (parse_id strtol (getenv "AC_FAKE_GID")) refl)
  | inr off ↦ rw off (λ h. cc (h))
]

choose_base-root :
    (getenv : String → Option Bytes) (r : Bytes) → IsRoot r → choose_base getenv (some r) ≡ r
unfolding choose_base is_absolute
choose_base-root getenv [] v = cc (v.absolute)
choose_base-root getenv (c ∷ r) v = refl

pub start_engine-IsActive :
    (H : Host) (s : State) (e : Engine)
    → s.enabled ≡ true
    → IsRoot s.root
    → IsActive (start_engine H s e)
unfolding init
start_engine-IsActive H s e on v =
    let b = ap pop_slash (choose_base-root H.getenv s.root v) in
    record { active = on; rooted = v; base_is = λ h. b; table_is = λ h. refl }

pub ac_fake_init-on :
    (H : Host) (p : Process H) (s : State)
    → init_from_env H.getenv H.strtol p.engine.state ≡ s
    → s.enabled ≡ true
    → ac_fake_init H p ≡ start_parts H s p
unfolding ac_fake_init
ac_fake_init-on H p s e on = rw (e, on) refl

pub ac_fake_init-off :
    (H : Host) (p : Process H) (s : State)
    → init_from_env H.getenv H.strtol p.engine.state ≡ s
    → s.enabled ≡ false
    → ac_fake_init H p ≡ record p { engine = record p.engine { state = s } }
unfolding ac_fake_init
ac_fake_init-off H p s e off = rw (e, off) refl

-- In a fresh process, whatever the environment says, the constructor either leaves libfake
-- transparent, with no call into the system, no region and no client, or the engine is active with
-- a well-formed root and its resolver is initialized, for that root.
pub ac_fake_init-IsActive :
    (H : Host) (w : H.os.World) (k : H.prctl.World)
    → (((ac_fake_init H (fresh H w k)).engine.enabled ≡ false)
        × ((ac_fake_init H (fresh H w k)).producer ≡ none)
        × ((ac_fake_init H (fresh H w k)).client ≡ no_client)
        × ((ac_fake_init H (fresh H w k)).world ≡ w)
        × ((ac_fake_init H (fresh H w k)).kernel ≡ k))
      ⊎ (IsActive (ac_fake_init H (fresh H w k)).engine
          × ((ac_fake_init H (fresh H w k)).engine.resolver.initialized ≡ true))
ac_fake_init-IsActive H w k =
    let s = init_from_env H.getenv H.strtol inactive in
    let p = fresh H w k in
    elim (Bool-cases s.enabled) [
      | inl on ↦
          let e = ac_fake_init-on H p s refl on in
          inr (
            subst (λ (q : Process H). IsActive q.engine × (q.engine.resolver.initialized ≡ true))
              (sym e)
              (unfold start_parts in
                (
                  start_engine-IsActive H s p.engine on
                      (init_from_env-IsValid H.getenv H.strtol on),
                  unfold init in refl,
                )))
      | inr off ↦
          let e = ac_fake_init-off H p s refl off in
          inl (
            ap (λ (q : Process H). q.engine.enabled) e ∙ off,
            ap (λ (q : Process H). q.producer) e,
            ap (λ (q : Process H). q.client) e,
            ap (λ (q : Process H). q.world) e,
            ap (λ (q : Process H). q.kernel) e,
          )
    ]
