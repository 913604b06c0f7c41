-- ===== src/Host/Guest/Transparent.antt =====
-- libfake (fake/fake.cpp) in a guest that `startContainer` of core/guest_launcher.cpp starts.
use virtualaosp.Base.{ℕ, false, Option, none, some, ◌≡◌, refl, ap, Bytes, strip_prefix}
use virtualaosp.Base.Environ.{Environ}
use virtualaosp.Guest.State.{inactive, init_from_env}
use virtualaosp.Guest.Redirect.{Engine, map_path, passthrough}
use virtualaosp.Guest.Init.{Host, Process, fresh, ac_fake_init, ac_fake_init-off}
use virtualaosp.Host.Guest.{LaunchConfig, env_strings}
use virtualaosp.Host.Launcher.Lookup.{getenv-Lacks}

-- The system as the guest finds it.
abbrev pub guest_host : Environ → LaunchConfig → Host → Host
guest_host E config H = record H { getenv = E.getenv (env_strings config) }

abbrev pub guest_process :
    (E : Environ) (config : LaunchConfig) (H : Host)
    → H.os.World
    → H.prctl.World
    → Process (guest_host E config H)
guest_process E config H w k =
    ac_fake_init (guest_host E config H) (fresh (guest_host E config H) w k)

flag_missing :
    (E : Environ) (config : LaunchConfig) → E.getenv (env_strings config) "AC_CONTAINER" ≡ none
unfolding env_strings strip_prefix
flag_missing E config =
    getenv-Lacks E "AC_CONTAINER" (env_strings config)
      (refl, (refl, (refl, (refl, (refl, (refl, (refl, tt)))))))

stays_inactive :
    (E : Environ) (config : LaunchConfig) (H : Host)
    → init_from_env (E.getenv (env_strings config)) H.strtol inactive ≡ inactive
unfolding init_from_env
stays_inactive E config H = rw (flag_missing E config) refl

map_path-off :
    (e : Engine) (path : Option Bytes) (n : ℕ) → e.enabled ≡ false → map_path e path n ≡ passthrough
unfolding map_path
map_path-off e none n off = refl
map_path-off e (some path) n off = rw off refl

-- A guest that `startContainer` launches runs with libfake transparent, whatever the configuration:
-- its environment has no AC_CONTAINER, so the constructor returns early, and every path the guest
-- names is passed on to the host as it is.
pub guest_transparent :
    (E : Environ) (config : LaunchConfig) (H : Host) (w : H.os.World) (k : H.prctl.World)
    → ((guest_process E config H w k).engine.enabled ≡ false)
      × ((path : Option Bytes) (n : ℕ)
          → map_path (guest_process E config H w k).engine path n ≡ passthrough)
guest_transparent E config H w k =
    let H' = guest_host E config H in
    let off : (guest_process E config H w k).engine.enabled ≡ false =
      ap (λ (p : Process H'). p.engine.enabled)
        (ac_fake_init-off H' (fresh H' w k) inactive (stays_inactive E config H) refl) in
    (off, λ path n. map_path-off (guest_process E config H w k).engine path n off)
