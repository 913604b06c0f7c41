-- ===== src/Host/Renderer.antt =====
-- The state of DisplayRenderer in core/display_renderer.cpp outside of EGL and GL: the window with
-- its reference, the size, the latest guest frame, and the pump thread; and the surface calls of
-- core/native_bridge.cpp and core/container_core.cpp. A window is a number, and its geometry is
-- an argument. The references taken and given back are a trace.
pub mod Window
pub mod Egl
pub mod Letterbox
pub mod Pump
use virtualaosp.Base.{
  ℕ, zero, suc, ◌+◌, ◌*◌, Bool, true, false, ◌||◌, not, Option, none, some, List, [], ◌∷◌, ◌++◌,
  ◌==◌, if◌then◌else◌, Bytes, take,
}
use virtualaosp.Base.Int.{ℤ, pos, negsuc}

-- mPumpThread: joinable once it was made, also when its loop has ended.
pub data PumpThread : Type 0 where
  unborn pumping ended : PumpThread

-- mGuestFrameWidth, mGuestFrameHeight and mFrameBuffer
pub record GuestFrame : Type 0 where
  pub width : ℕ
  pub height : ℕ
  pub pixels : Bytes

pub record Renderer : Type 0 where
  pub window : Option ℕ
  pub width : ℤ
  pub height : ℤ
  pub size_changed : Bool
  pub running : Bool
  pub pump : PumpThread
  pub frame : Option GuestFrame
  pub has_new_frame : Bool

abbrev pub new_renderer : Renderer
new_renderer = record {
  window = none;
  width = pos 1080;
  height = pos 2400;
  size_changed = false;
  running = false;
  pump = unborn;
  frame = none;
  has_new_frame = false;
}

-- ANativeWindow_acquire (also by ANativeWindow_fromSurface) and ANativeWindow_release
pub data Act : Type 0 where
  acquire release : ℕ → Act

abbrev pub started : PumpThread → PumpThread
started unborn = pumping
started pumping = pumping
started ended = ended

unfoldable pub ensure_pump_started : Renderer → Renderer
ensure_pump_started r = record r { pump = started r.pump }

abbrev pub same_window : Option ℕ → Option ℕ → Bool
same_window none none = true
same_window none (some b) = false
same_window (some a) none = false
same_window (some a) (some b) = a == b

abbrev pub acquired : Option ℕ → List Act
acquired none = []
acquired (some w) = acquire w ∷ []

abbrev pub released : Option ℕ → List Act
released none = []
released (some w) = release w ∷ []

-- Only a window that is not null changes the size.
abbrev pub resized : (ℕ → ℤ × ℤ) → Option ℕ → Renderer → Renderer
resized geometry none r = r
resized geometry (some w) r =
    let (width, height) = geometry w in record r { width = width; height = height }

-- setNativeWindow behind ensurePumpStarted.
unfoldable pub bind_window : (ℕ → ℤ × ℤ) → Renderer → Option ℕ → Renderer × List Act
bind_window geometry r window = if same_window window r.window then (r, []) else (
  record (resized geometry window r) { window = window; running = true },
  acquired window ++ released r.window,
)

unfoldable pub set_native_window : (ℕ → ℤ × ℤ) → Renderer → Option ℕ → Renderer × List Act
unfolding ensure_pump_started bind_window
set_native_window geometry r window = bind_window geometry (ensure_pump_started r) window

-- Equality of two int.
abbrev pub same_int : ℤ → ℤ → Bool
same_int (pos a) (pos b) = a == b
same_int (pos a) (negsuc b) = false
same_int (negsuc a) (pos b) = false
same_int (negsuc a) (negsuc b) = a == b

unfoldable pub update_window_size : Renderer → ℤ → ℤ → Renderer
update_window_size r width height =
    if not (same_int r.width width) || not (same_int r.height height)
    then record r { width = width; height = height; size_changed = true }
    else r

unfoldable pub destroy_window : Renderer → Renderer × List Act
destroy_window r = (record r { window = none }, released r.window)

-- A null buffer is `none`. The product is one of int: above INT_MAX it is undefined.
unfoldable pub update_guest_frame : Renderer → Option Bytes → ℤ → ℤ → Renderer
update_guest_frame r (some rgba) (pos (suc w)) (pos (suc h)) =
    let size = suc w * suc h * 4 in
    record r {
      frame = some (record { width = suc w; height = suc h; pixels = take size rgba });
      has_new_frame = true;
    }
update_guest_frame r rgba width height = r

-- What ReadLatest of the host channel gives, if there is a channel and a stable frame.
pub record Snapshot : Type 0 where
  pub pixels : Bytes
  pub width : ℤ
  pub height : ℤ

abbrev pub take_snapshot : Renderer → Option Snapshot → Renderer
take_snapshot r none = r
take_snapshot r (some s) = update_guest_frame r (some s.pixels) s.width s.height

-- The test of the pump's loop, and a round of it.
abbrev pub pump_step : PumpThread → Renderer → Option Snapshot → Renderer
pump_step unborn r s = r
pump_step ended r s = r
pump_step pumping r s = if r.running then take_snapshot r s else record r { pump = ended }

unfoldable pub pump_round : Renderer → Option Snapshot → Renderer
unfolding update_guest_frame
pump_round r s = pump_step r.pump r s

-- nativeAttachSurface, nativeOnSurfaceCreated and nativePresenterAttachSurface; a surface that
-- has no window is `none`.
unfoldable pub attach_surface : (ℕ → ℤ × ℤ) → Renderer → Option ℕ → Renderer × List Act
unfolding set_native_window
attach_surface geometry r none = (r, [])
attach_surface geometry r (some w) =
    let (r', acts) = set_native_window geometry r (some w) in
    (r', acquire w ∷ (acts ++ (release w ∷ [])))

-- nativeOnSurfaceChanged without the touch scaling.
unfoldable pub surface_changed : (ℕ → ℤ × ℤ) → Renderer → Option ℕ → ℤ → ℤ → Renderer × List Act
unfolding attach_surface update_window_size
surface_changed geometry r surface width height =
    let (r', acts) = attach_surface geometry r surface in (update_window_size r' width height, acts)
