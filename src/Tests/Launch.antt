-- ===== src/Tests/Launch.antt =====
-- Runs of the launchers (core/launcher.cpp, core/guest_launcher.cpp), of the start of libfake in
-- their guests (fake/fake.cpp, fake/seccomp_filter.cpp) and of the frame descriptor.
mod App
use Prim.Native.String.{String}
use virtualaosp.Base.{
  ℕ, zero, suc, ◌+◌, Bool, true, false, Option, none, some, List, [], ◌∷◌, ◌++◌, ◌≡◌, ◌≢◌, refl, ap,
  ◌∙◌, sym, ◌⊎◌, arith, ltb, leb, ◌==◌, if◌then◌else◌, length, drop, replicate, append_assoc, Bytes,
  codes, strip_prefix, strip_prefix-append, is_absolute,
}
use virtualaosp.Base.Int.{to_int, to_int-pos, ℤ, pos, negsuc}
use virtualaosp.Base.Environ.{Environ}
use virtualaosp.Guest.Redirect.{empty_table, set_excluded_prefixes, map_path, passthrough}
use virtualaosp.Guest.Redirect.Confine.{IsActive}
use virtualaosp.Guest.Seccomp.{
  SockFilter, SeccompData, Prctl, aarch64, x86_64, ld_abs, jeq_k, offset_nr, filter_program,
  aud_arch, denied, ret_eperm, install_seccomp_filter,
}
use virtualaosp.Guest.Seccomp.Decision.{Machine, listed, run-filter_program}
use virtualaosp.Guest.Init.{Host, fresh, ac_fake_init, ac_fake_init-IsActive}
use virtualaosp.Frame.Producer.{Descriptors, attach, may_publish, may_read, attach-create}
use virtualaosp.Ipc.Client.{Os, no_client}
use virtualaosp.Host.Launcher.{LaunchConfig}
use virtualaosp.Host.Launcher.Activation.{
  child_process, state_of, launch_activates, launch_frame_fd,
}
use virtualaosp.Host.Launcher.Stop
use virtualaosp.Host.Launcher.Start
use virtualaosp.Host.Launcher.Start.Outcomes
use virtualaosp.Host.Pump.{
  logcat_pump, guest_log_pump, lines_from, filled, without_returns, pumps_log_lines,
}
use virtualaosp.Host.Guest
use virtualaosp.Base.{map}
use virtualaosp.Host.Guest.Feeder.{index_of, feed_frame, range, feed_frame_fills}
use virtualaosp.Host.Guest.Transparent.{guest_process, guest_transparent}
use virtualaosp.Host.Guest.Lifecycle.{
  start, guest_exits, stop, run, Consistent, run-Consistent, restart_in_callback,
}
use virtualaosp.Tests.Guest.{rootfs, rootfs-IsRoot}
use virtualaosp.Tests.Frame.{hd, create-hd}

-- A lookup of the first entry with the key.
abbrev first_value : Option Bytes → Option Bytes → Option Bytes
first_value none later = later
first_value (some value) later = some value

abbrev lookup : List Bytes → String → Option Bytes
lookup [] key = none
lookup (e ∷ env) key = first_value (strip_prefix (codes key ++ (b'=' ∷ [])) e) (lookup env key)

environ : Environ
environ = record {
  getenv = lookup;
  getenv_nil = λ key. refl;
  getenv_first = λ key value env.
      ap (λ o. first_value o (lookup env key))
        (ap (strip_prefix (codes key ++ (b'=' ∷ [])))
            (sym (append_assoc (codes key) (b'=' ∷ []) value))
          ∙ strip_prefix-append (codes key ++ (b'=' ∷ [])) value);
  getenv_other = λ key e env h. ap (λ o. first_value o (lookup env key)) h;
}

-- Numbers as a sign and a digit of any size, in place of decimal text.
abbrev to_string : ℤ → Bytes
to_string (pos n) = 43 ∷ n ∷ []
to_string (negsuc n) = 45 ∷ n ∷ []

abbrev strtol : Bytes → ℤ
strtol (c ∷ n ∷ bs) = if c == 45 then negsuc n else pos n
strtol _ = pos 0

strtol-to_string : (z : ℤ) → to_int z ≡ z → strtol (to_string z) ≡ z
strtol-to_string (pos n) h = refl
strtol-to_string (negsuc n) h = refl

to_string-ne : (z : ℤ) → to_string z ≢ []
to_string-ne (pos n) = λ h. cc (h)
to_string-ne (negsuc n) = λ h. cc (h)

-- A system in which every call succeeds; the world counts descriptors.
abbrev system : Os
system = record {
  World = ℕ;
  socket = λ w. (some w, w + 1);
  connect = λ fd target w. (true, w);
  close = λ fd w. w;
  open_append = λ path w. (some w, w + 1);
  writev = λ fd bytes w. (some (length bytes), w);
  start_thread = λ w. (true, w);
}

-- The programs installed, the last one first.
abbrev kernel : Prctl
kernel = record {
  World = List (List SockFilter);
  set_no_new_privs = λ w. (true, w);
  set_seccomp = λ prog w. (true, prog ∷ w);
}

-- Only the standard descriptors are open behind execve.
abbrev is_standard : ℤ → Bool
is_standard (pos n) = ltb n 3
is_standard (negsuc n) = false

abbrev descriptors : Descriptors
descriptors = record { is_open = is_standard; read_header = λ fd. none; mmap = λ fd n. none }

abbrev host : Host
host = record {
  os = system;
  prctl = kernel;
  descriptors = descriptors;
  abi = aarch64;
  getenv = λ key. none;
  strtol = strtol;
}

abbrev config : LaunchConfig
config = record {
  rootfs_dir = rootfs ++ replicate 1 b'/';
  native_lib_dir = codes "/data/app/lib";
  init_path = codes "/init";
  extra_mounts = [];
  exclude_paths = codes "/dev";
  fake_uid = pos 1000;
  fake_gid = pos 0;
  enable_seccomp = true;
  frame_fd = pos 57;
}

launch_activates_example :
    (let p = child_process environ to_string host config 3 [] in
      IsActive p.engine
      × (p.engine.state ≡ state_of config rootfs)
      × (p.engine.excludes ≡ set_excluded_prefixes (some (codes "/dev")) empty_table)
      × (p.kernel ≡ (install_seccomp_filter kernel aarch64 []).1))
launch_activates_example =
    launch_activates environ to_string host config rootfs 1 3 [] rootfs-IsRoot refl strtol-to_string
      (to_int-pos 1000 (omega arith), to_int-pos 0 (omega arith))

ac_fake_init-IsActive_example :
    (((ac_fake_init host (fresh host 3 [])).engine.enabled ≡ false)
      × ((ac_fake_init host (fresh host 3 [])).producer ≡ none)
      × ((ac_fake_init host (fresh host 3 [])).client ≡ no_client)
      × ((ac_fake_init host (fresh host 3 [])).world ≡ 3)
      × ((ac_fake_init host (fresh host 3 [])).kernel ≡ []))
    ⊎ (IsActive (ac_fake_init host (fresh host 3 [])).engine
        × ((ac_fake_init host (fresh host 3 [])).engine.resolver.initialized ≡ true))
ac_fake_init-IsActive_example = ac_fake_init-IsActive host 3 []

-- A descriptor of the channel of 1280 × 720 pixels that is open.
abbrev shared : Descriptors
shared = record {
  is_open = λ fd. true;
  read_header = λ fd. some hd.header;
  mmap = λ fd n. some hd.header;
}

-- The three instructions over a program, behind some instructions that a jump skips.
abbrev execute : List SockFilter → ℕ → SeccompData → ℕ → ℕ
execute [] skipped d a = 0
execute (i ∷ p) (suc skipped) d a = execute p skipped d a
execute (i ∷ p) zero d a =
    let loaded = execute p 0 d (if i.k == offset_nr then d.nr else d.arch) in
    let jumped = execute p (if a == i.k then i.jt else i.jf) d a in
    if i.code == ld_abs then loaded else if i.code == jeq_k then jumped else i.k

execute-drop :
    (p : List SockFilter) (n : ℕ) (d : SeccompData) (a : ℕ)
    → execute p n d a ≡ execute (drop n p) 0 d a
execute-drop [] zero d a = refl
execute-drop [] (suc n) d a = refl
execute-drop (i ∷ p) zero d a = refl
execute-drop (i ∷ p) (suc n) d a = execute-drop p n d a

machine : Machine
machine = record {
  run = λ p d a. execute p 0 d a;
  run-ld_nr = λ p d a. refl;
  run-ld_arch = λ p d a. refl;
  run-jeq = λ p d a k jt jf. execute-drop p (if a == k then jt else jf) d a;
  run-ret = λ p d a k. refl;
}

-- mount(2) and read(2) of an x86-64 process.
run-filter_program_example :
    machine.run
      (filter_program (aud_arch x86_64) (denied x86_64))
      (record { nr = 165; arch = aud_arch x86_64 })
      0
    ≡ ret_eperm
run-filter_program_example =
    unfold denied listed aud_arch in
    run-filter_program machine x86_64 (record { nr = 165; arch = aud_arch x86_64 }) 0

-- A process that is gone after 100 ms of two seconds.
stop-Finishes_example :
    Stop.Finishes 2000
      (leb 100)
      (Stop.stop (record { state = Stop.running; pid = pos 42 }) (pos 42) (pos 2000) (leb 100))
stop-Finishes_example =
    Stop.stop-Finishes (record { state = Stop.running; pid = pos 42 }) 41 (pos 2000) (leb 100)
      (omega arith)

abbrev late : Start.Answers
late = record {
  err_pipe = none;
  log_pipe = none;
  fork_errno = none;
  child = 42;
  exec = Start.fails 2;
  child_first = false;
}

native_start_settles_example :
    ((((Start.native_start Stop.stopped config late).result ≡ pos 42)
        × ((Start.native_start Stop.stopped config late).status
            ≡ record { state = Stop.running; pid = pos 42 }))
      ⊎ ((Start.is_pid (Start.native_start Stop.stopped config late).result ≡ false)
          × ((Start.native_start Stop.stopped config late).status
              ≡ record { state = Stop.idle; pid = pos 0 })))
    × ((fd : Start.Fd)
        → Outcomes.holds fd false (Start.native_start Stop.stopped config late).trace ≡ false)
native_start_settles_example = Outcomes.native_start_settles Stop.stopped config late (omega arith)

pumps_log_lines_example :
    (logcat_pump (codes "a" ∷ (98 ∷ 13 ∷ 10 ∷ 10 ∷ []) ∷ (99 ∷ 0 ∷ 100 ∷ []) ∷ [])
      ≡ (97 ∷ 98 ∷ 13 ∷ []) ∷ [] ∷ codes "c" ∷ [])
    × (guest_log_pump (codes "a" ∷ (98 ∷ 13 ∷ 10 ∷ 10 ∷ []) ∷ (99 ∷ 0 ∷ 100 ∷ []) ∷ [])
        ≡ codes "ab" ∷ codes "c" ∷ [])
unfolding virtualaosp.Host.Interp.until_nul
pumps_log_lines_example =
    unfold lines_from filled without_returns in
    pumps_log_lines (codes "a" ∷ (98 ∷ 13 ∷ 10 ∷ 10 ∷ []) ∷ (99 ∷ 0 ∷ 100 ∷ []) ∷ [])
