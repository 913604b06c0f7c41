-- ===== src/Host/Launcher/Start.antt =====
-- The parent's side of GuestLauncher::Start of core/launcher.cpp. What the system answers is a
-- record of results, and the parent's calls on its descriptors and its child are a trace. The
-- child either reaches its new image, which closes the error pipe, or reports errno through it.
pub mod Outcomes
use virtualaosp.Base.{
  ℕ, zero, suc, ◌<◌, Bool, true, false, ◌||◌, not, Option, none, some, List, [], ◌∷◌, ◌≡◌, refl, ap,
  ap₂, ◌∙◌, arith, ltb, if◌then◌else◌, is_absolute, ◌⊎◌, inl, inr, Bool-cases,
}
use virtualaosp.Base.Int.{ℤ, pos, negsuc}
use virtualaosp.Host.Launcher.{LaunchConfig, is_given}
use virtualaosp.Host.Launcher.Stop.{ContainerState, running, Status}

-- The parent's ends of err_pipe and log_pipe.
pub data Fd : Type 0 where
  err_read err_write log_read log_write : Fd

pub data Act : Type 0 where
  made_err_pipe made_log_pipe : Act
  closed : Fd → Act
  spawn_pump reap : Act

-- How execve of the child ends; `fails` carries its errno.
pub data Exec : Type 0 where
  runs : Exec
  fails : ℕ → Exec

-- The answers: errno of the two calls of pipe2, errno or the child of fork, the child's execve,
-- and whether that came before the parent's read of the error pipe.
pub record Answers : Type 0 where
  pub err_pipe : Option ℕ
  pub log_pipe : Option ℕ
  pub fork_errno : Option ℕ
  pub child : ℕ
  pub exec : Exec
  pub child_first : Bool

pub record Started : Type 0 where
  pub result : ℤ
  pub status : Status
  pub trace : List Act

-- A negative errno.
abbrev pub minus : ℕ → ℤ
minus zero = pos 0
minus (suc n) = negsuc n

abbrev pub einval : ℕ
einval = 22

abbrev pub eio : ℕ
eio = 5

abbrev pub refuse : Status → ℕ → List Act → Started
refuse s errno trace = record { result = minus errno; status = s; trace = trace }

-- What the one read of the error pipe, which does not block, gets: the errno of a child that has
-- failed by then, and nothing from a pipe that is closed or still empty.
unfoldable pub read_report : Exec → Bool → Option ℕ
read_report runs child_first = none
read_report (fails errno) true = some errno
read_report (fails errno) false = none

-- The parent from the read on.
abbrev pub conclude : Status → ℕ → Option ℕ → Started
conclude s child (some errno) = record {
  result = minus (if ltb 0 errno then errno else eio);
  status = s;
  trace =
      made_err_pipe
      ∷ made_log_pipe
      ∷ closed err_write
      ∷ closed log_write
      ∷ spawn_pump
      ∷ closed err_read
      ∷ reap
      ∷ [];
}
conclude s child none = record {
  result = pos child;
  status = record { state = running; pid = pos child };
  trace =
      made_err_pipe
      ∷ made_log_pipe
      ∷ closed err_write
      ∷ closed log_write
      ∷ spawn_pump
      ∷ closed err_read
      ∷ [];
}

abbrev pub after_fork : Status → Answers → Option ℕ → Started
after_fork s a (some errno) = refuse s errno (
    made_err_pipe
    ∷ made_log_pipe
    ∷ closed err_read
    ∷ closed err_write
    ∷ closed log_read
    ∷ closed log_write
    ∷ [])
after_fork s a none = conclude s a.child (read_report a.exec a.child_first)

abbrev pub after_log_pipe : Status → Answers → Option ℕ → Started
after_log_pipe s a (some errno) =
    refuse s errno (made_err_pipe ∷ closed err_read ∷ closed err_write ∷ [])
after_log_pipe s a none = after_fork s a a.fork_errno

abbrev pub after_err_pipe : Status → Answers → Option ℕ → Started
after_err_pipe s a (some errno) = refuse s errno []
after_err_pipe s a none = after_log_pipe s a a.log_pipe

-- `rootfs_dir.empty() || init_path.empty()`, then `init_path.front() != '/'`.
unfoldable pub is_valid : LaunchConfig → Bool
unfolding is_absolute
is_valid cfg = if is_given cfg.rootfs_dir then is_absolute cfg.init_path else false

unfoldable pub start : Status → LaunchConfig → Answers → Started
unfolding is_valid read_report
start s cfg a = if is_valid cfg then after_err_pipe s a a.err_pipe else refuse s einval []

-- nativeStartContainer of core/container_core.cpp, from a configuration: kStarting in front of the
-- call, kIdle behind it if there is no pid.
abbrev pub is_pid : ℤ → Bool
is_pid (pos zero) = false
is_pid (pos (suc n)) = true
is_pid (negsuc n) = false

unfoldable pub native_start : Status → LaunchConfig → Answers → Started
unfolding start
native_start s cfg a =
    let r = start (record s { state = ContainerState.starting }) cfg a in
    if is_pid r.result
    then r
    else record r { status = record r.status { state = ContainerState.idle } }
