-- ===== src/Tests/Launch/App.antt =====
-- Runs of core/guest_launcher.cpp: a guest that it starts, its life cycle, and the software frames.
use virtualaosp.Base.{ℕ, true, false, Option, some, [], ◌∷◌, ◌≡◌, Bytes, codes}
use virtualaosp.Base.Int.{pos, negsuc}
use virtualaosp.Guest.Redirect.{map_path, passthrough}
use virtualaosp.Host.Guest
use virtualaosp.Host.Guest.Transparent.{guest_process, guest_transparent}
use virtualaosp.Host.Guest.Lifecycle.{start, guest_exits, stop, run, Consistent, run-Consistent}
use virtualaosp.Tests.Guest.{rootfs}
use virtualaosp.Tests.Launch.{environ, host}

abbrev app : Guest.LaunchConfig
app = record {
  rootfs_path = rootfs;
  libfake_path = codes "/data/app/lib/libfake.so";
  init_binary_path = codes "/init";
  frame_fd = negsuc 0;
  frame_width = pos 720;
  frame_height = pos 1280;
}

guest_transparent_example :
    ((guest_process environ app host 3 []).engine.enabled ≡ false)
    × ((path : Option Bytes) (n : ℕ)
        → map_path (guest_process environ app host 3 []).engine path n ≡ passthrough)
guest_transparent_example = guest_transparent environ app host 3 []

abbrev willing : Guest.Answers
willing = record { exists = λ path. true; pipe_ok = true; child = some 41 }

run-Consistent_example : Consistent (
    run Guest.new_launcher
      (start app willing ∷ guest_exits (Guest.exited 1) ∷ start app willing ∷ stop 15 ∷ []))
run-Consistent_example =
    run-Consistent
      (start app willing ∷ guest_exits (Guest.exited 1) ∷ start app willing ∷ stop 15 ∷ [])

-- A launcher whose guest has exited.
abbrev after_exit : Guest.Launcher
after_exit = record Guest.new_launcher { state = Guest.crashed; monitored = true }

abbrev linker_run : Guest.Spawn
linker_run = record {
  argv = codes "/data/rootfs/bin/linker64" ∷ codes "/data/rootfs/init" ∷ [];
  envp = Guest.env_strings app;
}
