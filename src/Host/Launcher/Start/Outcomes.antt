-- ===== src/Host/Launcher/Start/Outcomes.antt =====
-- The outcomes of `Start` of core/launcher.cpp: the descriptors that the parent is left with, and
-- the status.
use virtualaosp.Base.{
  ℕ, zero, suc, ◌<◌, Bool, true, false, ◌||◌, not, Option, none, some, List, [], ◌∷◌, ◌≡◌, refl, ap,
  ap₂, ◌∙◌, arith, if◌then◌else◌, ◌⊎◌, inl, inr, Bool-cases,
}
use virtualaosp.Base.Int.{pos, negsuc}
use virtualaosp.Host.Launcher.{LaunchConfig}
use virtualaosp.Host.Launcher.Stop.{ContainerState, running, Status}
use virtualaosp.Host.Launcher.Start.{
  Fd, Act, Answers, Started, minus, einval, refuse, read_report, conclude, after_fork,
  after_log_pipe, after_err_pipe, is_valid, start, is_pid, native_start, err_read, err_write,
  log_read, log_write, made_err_pipe, made_log_pipe, closed, spawn_pump, reap, fails,
}

-- Whether the parent holds a descriptor at the end of a trace; the pump takes log_read over.
abbrev same : Fd → Fd → Bool
same err_read err_read = true
same err_write err_write = true
same log_read log_read = true
same log_write log_write = true
same a b = false

abbrev is_err : Fd → Bool
is_err err_read = true
is_err err_write = true
is_err log_read = false
is_err log_write = false

abbrev holds_after : Fd → Bool → Act → Bool
holds_after fd held made_err_pipe = held || is_err fd
holds_after fd held made_log_pipe = held || not (is_err fd)
holds_after fd held (closed fd') = if same fd fd' then false else held
holds_after fd held spawn_pump = if same fd log_read then false else held
holds_after fd held reap = held

abbrev pub holds : Fd → Bool → List Act → Bool
holds fd held [] = held
holds fd held (act ∷ acts) = holds fd (holds_after fd held act) acts

conclude-closes :
    (s : Status) (child : ℕ) (o : Option ℕ) (fd : Fd)
    → holds fd false (conclude s child o).trace ≡ false
conclude-closes s child (some errno) err_read = refl
conclude-closes s child (some errno) err_write = refl
conclude-closes s child (some errno) log_read = refl
conclude-closes s child (some errno) log_write = refl
conclude-closes s child none err_read = refl
conclude-closes s child none err_write = refl
conclude-closes s child none log_read = refl
conclude-closes s child none log_write = refl

fork-closes :
    (s : Status) (a : Answers) (o : Option ℕ) (fd : Fd)
    → holds fd false (after_fork s a o).trace ≡ false
fork-closes s a none fd = conclude-closes s a.child (read_report a.exec a.child_first) fd
fork-closes s a (some errno) err_read = refl
fork-closes s a (some errno) err_write = refl
fork-closes s a (some errno) log_read = refl
fork-closes s a (some errno) log_write = refl

log_pipe-closes :
    (s : Status) (a : Answers) (o : Option ℕ) (fd : Fd)
    → holds fd false (after_log_pipe s a o).trace ≡ false
log_pipe-closes s a none fd = fork-closes s a a.fork_errno fd
log_pipe-closes s a (some errno) err_read = refl
log_pipe-closes s a (some errno) err_write = refl
log_pipe-closes s a (some errno) log_read = refl
log_pipe-closes s a (some errno) log_write = refl

err_pipe-closes :
    (s : Status) (a : Answers) (o : Option ℕ) (fd : Fd)
    → holds fd false (after_err_pipe s a o).trace ≡ false
err_pipe-closes s a none fd = log_pipe-closes s a a.log_pipe fd
err_pipe-closes s a (some errno) fd = refl

start_closes :
    (s : Status) (cfg : LaunchConfig) (a : Answers) (fd : Fd)
    → holds fd false (start s cfg a).trace ≡ false
unfolding start
start_closes s cfg a fd = elim (Bool-cases (is_valid cfg)) [
  | inl v ↦ rw v (err_pipe-closes s a a.err_pipe fd)
  | inr v ↦ rw v refl
]

-- How `Start` leaves the status: with the child running, or as it was.
abbrev Leaves : Status → ℕ → Started → Type 0
Leaves s child r =
    ((r.result ≡ pos child) × (r.status ≡ record { state = running; pid = pos child }))
    ⊎ ((is_pid r.result ≡ false) × (r.status ≡ s))

minus-not_pid : (n : ℕ) → is_pid (minus n) ≡ false
minus-not_pid zero = refl
minus-not_pid (suc n) = refl

conclude-Leaves : (s : Status) (child : ℕ) (o : Option ℕ) → Leaves s child (conclude s child o)
conclude-Leaves s child (some errno) = inr (minus-not_pid _, refl)
conclude-Leaves s child none = inl (refl, refl)

fork-Leaves : (s : Status) (a : Answers) (o : Option ℕ) → Leaves s a.child (after_fork s a o)
fork-Leaves s a (some errno) = inr (minus-not_pid errno, refl)
fork-Leaves s a none = conclude-Leaves s a.child (read_report a.exec a.child_first)

log_pipe-Leaves :
    (s : Status) (a : Answers) (o : Option ℕ) → Leaves s a.child (after_log_pipe s a o)
log_pipe-Leaves s a (some errno) = inr (minus-not_pid errno, refl)
log_pipe-Leaves s a none = fork-Leaves s a a.fork_errno

err_pipe-Leaves :
    (s : Status) (a : Answers) (o : Option ℕ) → Leaves s a.child (after_err_pipe s a o)
err_pipe-Leaves s a (some errno) = inr (minus-not_pid errno, refl)
err_pipe-Leaves s a none = log_pipe-Leaves s a a.log_pipe

start-Leaves : (s : Status) (cfg : LaunchConfig) (a : Answers) → Leaves s a.child (start s cfg a)
unfolding start
start-Leaves s cfg a = elim (Bool-cases (is_valid cfg)) [
  | inl v ↦ rw v (err_pipe-Leaves s a a.err_pipe)
  | inr v ↦ rw v (inr (refl, refl))
]

settle : Started → Started
settle r =
    if is_pid r.result
    then r
    else record r { status = record r.status { state = ContainerState.idle } }

settle-Leaves :
    (s : Status) (child : ℕ) (r : Started)
    → Leaves (record s { state = ContainerState.starting }) child r
    → 0 < child
    → (((settle r).result ≡ pos child)
        × ((settle r).status ≡ record { state = running; pid = pos child }))
      ⊎ ((is_pid (settle r).result ≡ false)
          × ((settle r).status ≡ record { state = ContainerState.idle; pid = s.pid }))
unfolding settle
settle-Leaves s zero r (inl (e, st)) h = absurd (omega arith)
settle-Leaves s (suc child) r (inl (e, st)) h = rw (ap is_pid e) (inl (e, st))
settle-Leaves s child r (inr (e, st)) h =
    rw e (inr (e, ap (λ (t : Status). record t { state = ContainerState.idle }) st))

settle-trace : (r : Started) → (settle r).trace ≡ r.trace
unfolding settle
settle-trace r = elim (Bool-cases (is_pid r.result)) [
  | inl up ↦ rw up refl
  | inr failed ↦ rw failed refl
]

-- `nativeStartContainer` never leaves the launcher starting: it returns the child's pid with the
-- launcher running that child, or no pid with the launcher idle and its pid as it was. On every
-- path, whatever fails, the parent is left with none of the four descriptors of the two pipes; the
-- end that the log is read from belongs to the pump.
pub native_start_settles :
    (s : Status) (cfg : LaunchConfig) (a : Answers)
    → 0 < a.child
    → ((((native_start s cfg a).result ≡ pos a.child)
          × ((native_start s cfg a).status ≡ record { state = running; pid = pos a.child }))
        ⊎ ((is_pid (native_start s cfg a).result ≡ false)
            × ((native_start s cfg a).status
                ≡ record { state = ContainerState.idle; pid = s.pid })))
      × ((fd : Fd) → holds fd false (native_start s cfg a).trace ≡ false)
unfolding native_start settle
native_start_settles s cfg a h =
    let s' = record s { state = ContainerState.starting } in
    (
      settle-Leaves s a.child (start s' cfg a) (start-Leaves s' cfg a) h,
      (λ fd. ap (holds fd false) (settle-trace (start s' cfg a)) ∙ start_closes s' cfg a fd),
    )

start_concludes :
    (s : Status) (cfg : LaunchConfig) (a : Answers)
    → is_valid cfg ≡ true
    → a.err_pipe ≡ none
    → a.log_pipe ≡ none
    → a.fork_errno ≡ none
    → start s cfg a ≡ conclude s a.child (read_report a.exec a.child_first)
unfolding start
start_concludes s cfg a v e l f =
    ap (λ b. if b then after_err_pipe s a a.err_pipe else refuse s einval []) v
    ∙ ap (after_err_pipe s a) e
    ∙ ap (after_log_pipe s a) l
    ∙ ap (after_fork s a) f

-- Where the pipes and the fork go through and the child's execve fails with an errno that is not
-- 0: if the child has reported it by then, `Start` reaps the child, returns the negated errno and
-- leaves the status alone; if the parent's read comes first, `Start` returns the pid of the dead
-- child and the launcher counts it as running.
pub start_exec_fails :
    (s : Status) (cfg : LaunchConfig) (a : Answers) (errno : ℕ)
    → is_valid cfg ≡ true
    → a.err_pipe ≡ none
    → a.log_pipe ≡ none
    → a.fork_errno ≡ none
    → a.exec ≡ fails (suc errno)
    → (a.child_first ≡ true
        → ((start s cfg a).result ≡ negsuc errno) × ((start s cfg a).status ≡ s))
      × (a.child_first ≡ false
          → ((start s cfg a).result ≡ pos a.child)
            × ((start s cfg a).status ≡ record { state = running; pid = pos a.child }))
unfolding read_report
start_exec_fails s cfg a errno v e l f x =
    let c = start_concludes s cfg a v e l f in
    let order = λ (b : Bool) (first : a.child_first ≡ b).
      c ∙ ap₂ (λ x b. conclude s a.child (read_report x b)) x first in
    (
      (λ first. (
        ap (λ (r : Started). r.result) (order true first) ∙ ground arith,
        ap (λ (r : Started). r.status) (order true first),
      )),
      (λ last. (
        ap (λ (r : Started). r.result) (order false last),
        ap (λ (r : Started). r.status) (order false last),
      )),
    )
