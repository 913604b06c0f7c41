-- ===== src/Host/Guest/Lifecycle.antt =====
-- Runs of the launcher of core/guest_launcher.cpp: calls of `startContainer` and `stopContainer`
-- from other threads than the monitor, and exits of the guest that the monitor thread waits for.
use virtualaosp.Base.{
  ℕ, zero, suc, Bool, true, false, Option, none, some, List, [], ◌∷◌, ◌≡◌, refl, ap, ◌∙◌, sym, inl,
  inr, Bool-cases, if◌then◌else◌, Bytes, subst,
}
use mathlib.Core.Path.{subst₂}
use virtualaosp.Base.Int.{ℤ, pos, negsuc}
use virtualaosp.Host.Guest.{
  ContainerState, stopped, starting, running, crashed, terminated, LaunchConfig, Launcher,
  new_launcher, Answers, Outcome, refused, started, aborts, Caller, outside, monitor, Spawn,
  in_state, adopt, after_fork, launch, with_binary, with_linker, is_up, start_container, WaitStatus,
  monitor_loop, stop_container, linkers, resolve_rootfs_path, resolve_binary, exited, signalled,
}

pub data Event : Type 0 where
  start : LaunchConfig → Answers → Event
  guest_exits : WaitStatus → Event
  stop : ℕ → Event

abbrev pub launcher_of : Outcome → Launcher
launcher_of (refused l) = l
launcher_of (started l spawn) = l
launcher_of (aborts l) = l

-- A guest exits only while there is one.
abbrev pub exit_step : Launcher → WaitStatus → ℤ → Launcher
exit_step l status (pos (suc n)) = (monitor_loop l status).0
exit_step l status _ = l

unfoldable pub step : Launcher → Event → Launcher
unfolding start_container monitor_loop stop_container
step l (start config a) = launcher_of (start_container outside l config a)
step l (guest_exits status) = exit_step l status l.guest_pid
step l (stop signal) = (stop_container l signal).0

unfoldable pub run : Launcher → List Event → Launcher
unfolding step
run l [] = l
run l (e ∷ es) = run (step l e) es

-- The launcher runs exactly while it has a guest, which the monitor thread waits for, and is never
-- found starting.
abbrev pub StateFits : ContainerState → Launcher → Type 0
StateFits running l = ((n : ℕ) × (l.guest_pid ≡ pos (suc n))) × (l.monitored ≡ true)
StateFits starting l = ⊥
StateFits stopped l = l.guest_pid ≡ negsuc 0
StateFits crashed l = l.guest_pid ≡ negsuc 0
StateFits terminated l = l.guest_pid ≡ negsuc 0

abbrev pub Consistent : Launcher → Type 0
Consistent l = StateFits l.state l

fork-Consistent :
    (l : Launcher) (config : LaunchConfig) (spawn : Spawn) (o : Option ℕ)
    → l.guest_pid ≡ negsuc 0
    → Consistent (launcher_of (after_fork outside l config spawn o))
fork-Consistent l config spawn none down = down
fork-Consistent l config spawn (some n) down = ((n, refl), refl)

launch-Consistent :
    (l : Launcher) (config : LaunchConfig) (a : Answers) (linker binary : Bytes)
    → l.guest_pid ≡ negsuc 0
    → Consistent (launcher_of (launch outside l config a linker binary))
launch-Consistent l config a linker binary down = elim (Bool-cases a.pipe_ok) [
  | inl ok ↦ rw ok (fork-Consistent (in_state l starting) config _ a.child down)
  | inr ko ↦ rw ko down
]

binary-Consistent :
    (l : Launcher) (config : LaunchConfig) (a : Answers) (linker : Bytes) (o : Option Bytes)
    → l.guest_pid ≡ negsuc 0
    → Consistent (launcher_of (with_binary outside l config a linker o))
binary-Consistent l config a linker none down = down
binary-Consistent l config a linker (some binary) down =
    launch-Consistent l config a linker binary down

linker-Consistent :
    (l : Launcher) (config : LaunchConfig) (a : Answers) (o : Option Bytes)
    → l.guest_pid ≡ negsuc 0
    → Consistent (launcher_of (with_linker outside l config a o))
linker-Consistent l config a none down = down
linker-Consistent l config a (some linker) down =
    binary-Consistent l config a linker
      (resolve_binary a.exists config.rootfs_path config.init_binary_path) down

down_pid :
    (s : ContainerState) (l : Launcher) → StateFits s l → is_up s ≡ false → l.guest_pid ≡ negsuc 0
down_pid stopped l fits down = fits
down_pid starting l fits down = absurd fits
down_pid running l fits down = cc (down)
down_pid crashed l fits down = fits
down_pid terminated l fits down = fits

start_container_lem :
    (caller : Caller) (l : Launcher) (config : LaunchConfig) (a : Answers)
    → start_container caller l config a ≡ (
        if is_up l.state
        then refused l
        else with_linker caller l config a
            (resolve_rootfs_path a.exists config.rootfs_path linkers))
unfolding start_container
start_container_lem caller l config a = refl

abbrev choose : Launcher → LaunchConfig → Answers → Option Bytes → Bool → Outcome
choose l config a o up = if up then refused l else with_linker outside l config a o

pub start-Consistent :
    (l : Launcher) (config : LaunchConfig) (a : Answers)
    → Consistent l
    → Consistent (launcher_of (start_container outside l config a))
start-Consistent l config a fits =
    let o = resolve_rootfs_path a.exists config.rootfs_path linkers in
    let settled =
      λ (b : Bool) (e : is_up l.state ≡ b) (c : Consistent (launcher_of (choose l config a o b))).
        subst (λ r. Consistent (launcher_of r))
          (sym (start_container_lem outside l config a ∙ ap (choose l config a o) e)) c in
    elim (Bool-cases (is_up l.state)) [
      | inl up ↦ settled true up fits
      | inr down ↦
          settled false down (linker-Consistent l config a o (down_pid l.state l fits down))
    ]

pub final-Consistent : (l : Launcher) (status : WaitStatus) → Consistent (monitor_loop l status).0
unfolding monitor_loop
final-Consistent l (exited zero) = refl
final-Consistent l (exited (suc code)) = refl
final-Consistent l (signalled signal) = refl

exit-Consistent :
    (l : Launcher) (status : WaitStatus) (pid : ℤ)
    → Consistent l
    → Consistent (exit_step l status pid)
exit-Consistent l status (pos zero) fits = fits
exit-Consistent l status (pos (suc n)) fits = final-Consistent l status
exit-Consistent l status (negsuc n) fits = fits

pub pump_stops :
    (s : ContainerState) (l : Launcher) → StateFits s l → StateFits s (record l { pump = none })
pump_stops stopped l fits = fits
pump_stops starting l fits = fits
pump_stops running l fits = fits
pump_stops crashed l fits = fits
pump_stops terminated l fits = fits

step-Consistent : (l : Launcher) (e : Event) → Consistent l → Consistent (step l e)
unfolding step stop_container
step-Consistent l (start config a) fits = start-Consistent l config a fits
step-Consistent l (guest_exits status) fits = exit-Consistent l status l.guest_pid fits
step-Consistent l (stop signal) fits = pump_stops l.state l fits

run_from : (l : Launcher) (es : List Event) → Consistent l → Consistent (run l es)
unfolding run
run_from l [] fits = fits
run_from l (e ∷ es) fits = run_from (step l e) es (step-Consistent l e fits)

-- After any sequence of starts, stops and exits of the guest, whatever the system answers, the
-- launcher is running exactly if it has a guest's pid, then its monitor thread exists, and it is
-- not left starting.
pub run-Consistent : (es : List Event) → Consistent (run new_launcher es)
run-Consistent es = run_from new_launcher es refl

-- A call from the monitor thread against the same call from another one, where a monitor thread
-- exists.
abbrev Restarts : Outcome → Outcome → Type 0
Restarts (started l spawn) other = (l' : Launcher) × (other ≡ aborts l')
Restarts (refused l) other = other ≡ refused l
Restarts (aborts l) other = Unit

fork-Restarts :
    (l : Launcher) (config : LaunchConfig) (spawn : Spawn) (o : Option ℕ)
    → l.monitored ≡ true
    → Restarts (after_fork outside l config spawn o) (after_fork monitor l config spawn o)
fork-Restarts l config spawn none m = refl
fork-Restarts l config spawn (some n) m = (adopt l config n, rw m refl)

launch-Restarts :
    (l : Launcher) (config : LaunchConfig) (a : Answers) (linker binary : Bytes)
    → l.monitored ≡ true
    → Restarts (launch outside l config a linker binary) (launch monitor l config a linker binary)
launch-Restarts l config a linker binary m = elim (Bool-cases a.pipe_ok) [
  | inl ok ↦ rw ok (fork-Restarts (in_state l starting) config _ a.child m)
  | inr ko ↦ rw ko refl
]

binary-Restarts :
    (l : Launcher) (config : LaunchConfig) (a : Answers) (linker : Bytes) (o : Option Bytes)
    → l.monitored ≡ true
    → Restarts (with_binary outside l config a linker o) (with_binary monitor l config a linker o)
binary-Restarts l config a linker none m = refl
binary-Restarts l config a linker (some binary) m = launch-Restarts l config a linker binary m

linker-Restarts :
    (l : Launcher) (config : LaunchConfig) (a : Answers) (o : Option Bytes)
    → l.monitored ≡ true
    → Restarts (with_linker outside l config a o) (with_linker monitor l config a o)
linker-Restarts l config a none m = refl
linker-Restarts l config a (some linker) m =
    binary-Restarts l config a linker
      (resolve_binary a.exists config.rootfs_path config.init_binary_path) m

start-Restarts :
    (l : Launcher) (config : LaunchConfig) (a : Answers)
    → l.monitored ≡ true
    → Restarts (start_container outside l config a) (start_container monitor l config a)
start-Restarts l config a m =
    let o = resolve_rootfs_path a.exists config.rootfs_path linkers in
    subst₂ Restarts (sym (start_container_lem outside l config a))
      (sym (start_container_lem monitor l config a))
      (elim (Bool-cases (is_up l.state)) [
        | inl up ↦ rw up refl
        | inr down ↦ rw down (linker-Restarts l config a o m)
      ])

-- Where a call of `startContainer` from another thread would start a guest, the same call from the
-- state callback joins the monitor thread that makes it, which ends the program.
pub restart_in_callback :
    (l l' : Launcher) (config : LaunchConfig) (a : Answers) (spawn : Spawn)
    → l.monitored ≡ true
    → start_container outside l config a ≡ started l' spawn
    → (l'' : Launcher) × (start_container monitor l config a ≡ aborts l'')
restart_in_callback l l' config a spawn m e =
    subst (λ o. Restarts o (start_container monitor l config a)) e (start-Restarts l config a m)
