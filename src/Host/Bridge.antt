-- ===== src/Host/Bridge.antt =====
-- core/native_bridge.cpp: the calls of the app on the launcher, and what its listener is told. A
-- listener is set all along here; the references to it are in Listener. The callback runs behind
-- the launcher's lock, on the monitor thread, and the notification of a start on the thread that
-- started, so each is a step of its own. A string of Java is its bytes, and null is `none`.
pub mod Listener
pub mod Starts
pub mod Notices
pub mod Late
use virtualaosp.Base.{
  ℕ, zero, suc, Bool, true, false, ◌||◌, Option, none, some, List, [], ◌∷◌, if◌then◌else◌, Bytes,
}
use virtualaosp.Base.Int.{ℤ, pos, negsuc}
use virtualaosp.Host.Guest.{
  ContainerState, stopped, starting, running, crashed, terminated, LaunchConfig, Launcher,
  new_launcher, Caller, outside, Answers, Outcome, refused, started, aborts, start_container,
  WaitStatus, final_state, exit_code, monitor_loop, stop_container,
}

-- `static_cast<int>(state)`
abbrev pub state_code : ContainerState → ℕ
state_code stopped = 0
state_code starting = 1
state_code running = 2
state_code crashed = 3
state_code terminated = 4

-- `to_std`; ToStd of core/container_core.cpp is the same.
abbrev pub to_std : Option Bytes → Bytes
to_std none = []
to_std (some s) = s

abbrev pub is_empty : Bytes → Bool
is_empty [] = true
is_empty (c ∷ s) = false

-- The fields of the frame channel keep their defaults.
abbrev pub config_of : Option Bytes → Option Bytes → Option Bytes → LaunchConfig
config_of rootfs libfake init_binary = record {
  rootfs_path = to_std rootfs;
  libfake_path = to_std libfake;
  init_binary_path = to_std init_binary;
  frame_fd = negsuc 0;
  frame_width = pos 720;
  frame_height = pos 1280;
}

-- The guard of nativeStartContainer, and the launcher behind it.
unfoldable pub native_start :
    Launcher → Option Bytes → Option Bytes → Option Bytes → Answers → Outcome
unfolding start_container
native_start l rootfs libfake init_binary a =
    let config = config_of rootfs libfake init_binary in
    if is_empty config.rootfs_path || is_empty config.init_binary_path
    then refused l
    else start_container outside l config a

-- The launcher, how many threads still have to tell of their start, the callback that the monitor
-- thread still has to make, and what the listener was told, the latest first.
pub record Bridge : Type 0 where
  pub launcher : Launcher
  pub starts_due : ℕ
  pub exit_due : Option (ContainerState × ℕ)
  pub told : List (ℕ × ℕ)

abbrev pub new_bridge : Bridge
new_bridge = record { launcher = new_launcher; starts_due = 0; exit_due = none; told = [] }

-- `InvokeStateCallback(2, 0)`
abbrev pub tell_start : ℕ → Bridge → Bridge
tell_start zero b = b
tell_start (suc n) b = record b { starts_due = n; told = (2, 0) ∷ b.told }

-- The lambda of JNI_OnLoad.
abbrev pub tell_exit : Option (ContainerState × ℕ) → Bridge → Bridge
tell_exit none b = b
tell_exit (some (state, code)) b = record b {
  exit_due = none;
  told = (state_code state, code) ∷ b.told;
}

-- The monitor thread of the guest before is joined, behind its callback, before a start returns.
abbrev pub after_start : Bridge → Outcome → Bridge
after_start b (refused l) = record b { launcher = l }
after_start b (started l spawn) =
    let told = tell_exit b.exit_due b in
    record told { launcher = l; starts_due = suc told.starts_due }
after_start b (aborts l) = record b { launcher = l }

abbrev pub guest_exit : ℤ → Bridge → WaitStatus → Bridge
guest_exit (pos (suc n)) b status =
    let (l, due) = monitor_loop b.launcher status in record b { launcher = l; exit_due = some due }
guest_exit pid b status = b

-- A start; the notification of one; the exit of the guest; its callback; nativeStopContainer.
pub data Event : Type 0 where
  starts : Option Bytes → Option Bytes → Option Bytes → Answers → Event
  tells_start : Event
  exits : WaitStatus → Event
  tells_exit : Event
  stops : ℕ → Event

unfoldable pub step : Bridge → Event → Bridge
unfolding native_start monitor_loop stop_container
step b (starts rootfs libfake init_binary a) =
    after_start b (native_start b.launcher rootfs libfake init_binary a)
step b tells_start = tell_start b.starts_due b
step b (exits status) = guest_exit b.launcher.guest_pid b status
step b tells_exit = tell_exit b.exit_due b
step b (stops signal) = record b { launcher = (stop_container b.launcher signal).0 }

unfoldable pub run : Bridge → List Event → Bridge
unfolding step
run b [] = b
run b (e ∷ es) = run (step b e) es

-- nativeStopContainer: the timeout is not read.
unfoldable pub native_stop : Launcher → ℕ → Bool × Launcher × Option (ℤ × ℕ)
unfolding stop_container
native_stop l signal =
    let (l', killed) = stop_container l signal in
    (elim killed [ none ↦ false | some k ↦ true ], l', killed)

unfoldable pub native_get_container_state : Launcher → ℕ
native_get_container_state l = state_code l.state
