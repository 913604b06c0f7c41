-- ===== src/Host/Guest.antt =====
-- core/guest_launcher.cpp: the launcher behind ContainerNativeBridge. access(2), pipe(2) and
-- fork(2) answer by arguments; chmod(2) of a path that is found is left out. The calls run one
-- after another: each holds the mutex, and the monitor thread's part is an operation of its own.
pub mod Lifecycle
pub mod Transparent
pub mod Feeder
use virtualaosp.Base.{
  ℕ, zero, suc, ◌+◌, ◌*◌, ◌%◌, ◌^◌, ◌<◌, Bool, true, false, ◌||◌, Option, none, some, List, [], ◌∷◌,
  ◌++◌, ◌==◌, if◌then◌else◌, Bytes, codes,
}
use virtualaosp.Base.Int.{ℤ, pos, negsuc}
use virtualaosp.Base.Environ.{entry}

pub data ContainerState : Type 0 where
  stopped starting running crashed terminated : ContainerState

pub record LaunchConfig : Type 0 where
  pub rootfs_path : Bytes
  pub libfake_path : Bytes
  pub init_binary_path : Bytes
  pub frame_fd : ℤ
  pub frame_width : ℤ
  pub frame_height : ℤ

-- mGuestPid, mFrameFd, mState, whether mMonitorThread is joinable, and the size that the software
-- frame pump runs with, while g_pumpRunning is set.
pub record Launcher : Type 0 where
  pub guest_pid : ℤ
  pub frame_fd : ℤ
  pub state : ContainerState
  pub monitored : Bool
  pub pump : Option (ℤ × ℤ)

abbrev pub new_launcher : Launcher
new_launcher = record {
  guest_pid = negsuc 0;
  frame_fd = negsuc 0;
  state = stopped;
  monitored = false;
  pump = none;
}

-- `(*rel == '/' ? rel + 1 : rel)`
unfoldable pub skip_slash : Bytes → Bytes
skip_slash [] = []
skip_slash (c ∷ rel) = if c == b'/' then rel else c ∷ rel

abbrev pub in_root : Bytes → Bytes → Bytes
in_root root rel = root ++ (b'/' ∷ skip_slash rel)

-- The first candidate that exists.
unfoldable pub resolve_rootfs_path : (Bytes → Bool) → Bytes → List Bytes → Option Bytes
unfolding skip_slash
resolve_rootfs_path exists root [] = none
resolve_rootfs_path exists root (rel ∷ rels) =
    let rest = resolve_rootfs_path exists root rels in
    if exists (in_root root rel) then some (in_root root rel) else rest

abbrev pub linkers : List Bytes
linkers = codes "bin/linker64" ∷ codes "system/bin/linker64" ∷ []

abbrev pub shells : List Bytes
shells = codes "bin/sh" ∷ codes "system/bin/sh" ∷ []

-- The entry point that is asked for, if it is given and exists, or else a shell.
abbrev pub or_shell : (Bytes → Bool) → Bytes → Option Bytes → Option Bytes
or_shell exists root none = resolve_rootfs_path exists root shells
or_shell exists root (some path) = some path

unfoldable pub resolve_binary : (Bytes → Bool) → Bytes → Bytes → Option Bytes
unfolding resolve_rootfs_path
resolve_binary exists root [] = or_shell exists root none
resolve_binary exists root (c ∷ rel) =
    or_shell exists root (resolve_rootfs_path exists root ((c ∷ rel) ∷ []))

unfoldable pub env_strings : LaunchConfig → List Bytes
env_strings config =
    let root = config.rootfs_path in
    entry "LD_PRELOAD" config.libfake_path
    ∷ entry "LD_LIBRARY_PATH" (
        root
        ++ (codes "/lib64:"
            ++ (root
                ++ (codes "/lib:"
                    ++ (root
                        ++ (codes "/system/lib64:"
                            ++ (root
                                ++ (codes "/system/lib:"
                                    ++ (root ++ codes "/apex/com.android.runtime/lib64")))))))))
    ∷ entry "AOSP_ROOTFS_DIR" root
    ∷ entry "PATH" (root ++ (codes "/bin:" ++ (root ++ codes "/system/bin:/system/bin")))
    ∷ entry "ANDROID_ROOT" root
    ∷ entry "ANDROID_DATA" (root ++ codes "/data")
    ∷ entry "TMPDIR" (root ++ codes "/data/local/tmp")
    ∷ []

-- What the child executes, in the directory of the root.
pub record Spawn : Type 0 where
  pub argv : List Bytes
  pub envp : List Bytes

-- The thread that calls: the monitor thread calls from the state callback.
pub data Caller : Type 0 where
  outside monitor : Caller

-- What the system answers to pipe and fork; a child's pid is `suc n`.
pub record Answers : Type 0 where
  pub exists : Bytes → Bool
  pub pipe_ok : Bool
  pub child : Option ℕ

-- `aborts`: std::thread::join of the calling thread throws, and nothing catches it.
pub data Outcome : Type 0 where
  refused : Launcher → Outcome
  started : Launcher → Spawn → Outcome
  aborts : Launcher → Outcome

-- `if (g_pumpRunning.exchange(true)) return;`
abbrev pub start_pump : LaunchConfig → Option (ℤ × ℤ) → Option (ℤ × ℤ)
start_pump config (some size) = some size
start_pump config none = some (config.frame_width, config.frame_height)

abbrev pub in_state : Launcher → ContainerState → Launcher
in_state l s = record l { state = s }

-- The parent behind fork: the fields are set before the old monitor thread is joined, and the pump
-- is started behind that.
abbrev pub adopt : Launcher → LaunchConfig → ℕ → Launcher
adopt l config n = record l { guest_pid = pos (suc n); frame_fd = config.frame_fd; state = running }

abbrev pub join_monitor : Caller → Launcher → LaunchConfig → Spawn → Outcome
join_monitor outside l config spawn =
    started (record l { monitored = true; pump = start_pump config l.pump }) spawn
join_monitor monitor l config spawn =
    if l.monitored
    then aborts l
    else started (record l { monitored = true; pump = start_pump config l.pump }) spawn

abbrev pub after_fork : Caller → Launcher → LaunchConfig → Spawn → Option ℕ → Outcome
after_fork caller l config spawn none = refused (in_state l stopped)
after_fork caller l config spawn (some n) = join_monitor caller (adopt l config n) config spawn

-- From `mState = ContainerState::STARTING` on.
abbrev pub launch : Caller → Launcher → LaunchConfig → Answers → Bytes → Bytes → Outcome
launch caller l config a linker binary =
    let l' = in_state l starting in
    if a.pipe_ok
    then after_fork caller l' config
        (record { argv = linker ∷ binary ∷ []; envp = env_strings config }) a.child
    else refused (in_state l' stopped)

abbrev pub with_binary : Caller → Launcher → LaunchConfig → Answers → Bytes → Option Bytes → Outcome
with_binary caller l config a linker none = refused (in_state l stopped)
with_binary caller l config a linker (some binary) = launch caller l config a linker binary

abbrev pub with_linker : Caller → Launcher → LaunchConfig → Answers → Option Bytes → Outcome
with_linker caller l config a none = refused (in_state l stopped)
with_linker caller l config a (some linker) =
    with_binary caller l config a linker
      (resolve_binary a.exists config.rootfs_path config.init_binary_path)

-- `mState == RUNNING || mState == STARTING`
abbrev pub is_up : ContainerState → Bool
is_up stopped = false
is_up starting = true
is_up running = true
is_up crashed = false
is_up terminated = false

unfoldable pub start_container : Caller → Launcher → LaunchConfig → Answers → Outcome
unfolding resolve_rootfs_path resolve_binary env_strings
start_container caller l config a =
    if is_up l.state
    then refused l
    else with_linker caller l config a (resolve_rootfs_path a.exists config.rootfs_path linkers)

-- What waitpid reports.
pub data WaitStatus : Type 0 where
  exited signalled : ℕ → WaitStatus

abbrev pub exit_code : WaitStatus → ℕ
exit_code (exited code) = code
exit_code (signalled signal) = 1

abbrev pub final_state : WaitStatus → ContainerState
final_state (exited zero) = terminated
final_state (exited (suc code)) = crashed
final_state (signalled signal) = terminated

-- monitorLoop behind waitpid, with what the callback is called with.
unfoldable pub monitor_loop : Launcher → WaitStatus → Launcher × (ContainerState × ℕ)
monitor_loop l status = (
  record l { state = final_state status; guest_pid = negsuc 0 },
  (final_state status, exit_code status),
)

-- The signal goes to the process group; the timeout is not read.
unfoldable pub stop_container : Launcher → ℕ → Launcher × Option (ℤ × ℕ)
stop_container l signal = (
  record l { pump = none },
  elim l.guest_pid [ pos (suc n) ↦ some (negsuc n, signal) | _ ↦ none ],
)
