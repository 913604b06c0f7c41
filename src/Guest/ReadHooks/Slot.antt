-- ===== src/Guest/ReadHooks/Slot.antt =====
-- The static slot of the hook fopen in fake/syscall_hooks_read.cpp.
use Prim.Native.String.{String}
use virtualaosp.Base.{
  ℕ, Bool, true, false, Option, none, some, [], ◌∷◌, ◌≡◌, refl, ap, arith, if◌then◌else◌, Bytes,
}
use virtualaosp.Guest.Redirect.{Engine, is_virtual_fs_path}
use virtualaosp.Guest.Libc.{Libc, path, text, Reply, done}
use virtualaosp.Guest.Translate.{Translated, value, translate}
use virtualaosp.Guest.Vfs.Emulate.{Emulated, answered, Process, emu_open}
use virtualaosp.Guest.ReadHooks.{is_emulated, fopen, fopen_emulated, fopen_real}

fopen-emulated :
    (libc : Libc) (slot : Option String) (mode : Option Bytes) (b : Bool)
    (r : Emulated Reply × libc.World) (fd : ℕ)
    (go_on : libc.World → (Reply × libc.World) × Option String)
    (other : (Reply × libc.World) × Option String) (w : libc.World)
    → b ≡ true
    → r ≡ (answered (done fd), w)
    → (if b then fopen_emulated libc slot mode r go_on else other)
      ≡ fopen_emulated libc slot mode (answered (done fd), w) go_on
fopen-emulated libc slot mode b r fd go_on other w h e = rw (h, e) refl

fopen-real :
    (libc : Libc) (slot : Option String) (mode : Option Bytes) (b : Bool) (t : Translated)
    (q : Option Bytes) (m : Bool) (other : (Reply × libc.World) × Option String) (w : libc.World)
    → b ≡ false
    → t ≡ value q m
    → (if b then other else fopen_real libc slot mode t w) ≡ fopen_real libc slot mode (value q m) w
fopen-real libc slot mode b t q m other w h e = rw (h, e) refl

-- If the first fopen of a process opens an emulated file, as descriptor `fd`, every later fopen of
-- a path outside /proc and /sys calls fdopen, with the address of the path as the descriptor.
pub fopen_after_virtual :
    (libc : Libc) (p : Process) (e : Engine) (first name : Bytes) (mode : Option Bytes) (fd : ℕ)
    (q : Option Bytes) (m : Bool) (w w' u : libc.World)
    → e.enabled ≡ true
    → is_virtual_fs_path first ≡ true
    → emu_open libc p e.state first w ≡ (answered (done fd), w')
    → is_virtual_fs_path name ≡ false
    → translate e (some name) ≡ value q m
    → ((fopen libc p e none first mode w).1 ≡ some "fdopen")
      × (fopen libc p e (some "fdopen") name mode u ≡ (
        libc.call (record { symbol = "fdopen"; args = path q ∷ text mode ∷ [] }) u,
        some "fdopen",
      ))
unfolding fopen
fopen_after_virtual libc p e first name mode fd q m w w' u on v opened out t = (
  ap (λ (r : (Reply × libc.World) × Option String). r.1)
      (fopen-emulated libc none mode (is_emulated e first) _ fd _ _ w' (ground (arith, on, v))
        opened),
  fopen-real libc (some "fdopen") mode (is_emulated e name) _ q m _ u (ground (arith, out)) t,
)
