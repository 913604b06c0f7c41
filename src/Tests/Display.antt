-- ===== src/Tests/Display.antt =====
-- Runs of the renderer's state (core/display_renderer.cpp) and of a batch of touches
-- (core/input_consumer.cpp).
use native.Mathlib.Nat.{div-le_of_le-mul}
use virtualaosp.Base.{
  ℕ, ◌*◌, ◌/◌, ◌≤◌, Option, none, some, List, [], ◌∷◌, map, ◌≡◌, refl, arith, ltb, if◌then◌else◌,
  sym, append-nil,
}
use virtualaosp.Base.Int.{ℤ, pos}
use virtualaosp.Host.Renderer.{new_renderer, Snapshot, pump_round, take_snapshot}
use virtualaosp.Host.Renderer.Window
use virtualaosp.Host.Renderer.Window.{
  attaches, changes, detaches, acquires, releases, held, window_references,
}
use virtualaosp.Host.Renderer.Pump
use virtualaosp.Host.Renderer.Pump.{begins, binds, pumps, destroys, pump_fate}
use virtualaosp.Ipc.Event.{AcTouchEvent, touch_bytes}
use virtualaosp.Ipc.Wire.{encode_header}
use virtualaosp.Ipc.Send.{frame}
use virtualaosp.Ipc.Stream.{Input, piece, closed}
use virtualaosp.Ipc.Stream.Whole.{Arrives}
use virtualaosp.Ipc.Loop.{Message, frames}
use virtualaosp.Ipc.Guest.{touch, packet_of, frame_loop}
use virtualaosp.Ipc.Consumer.{
  Float, FloatLaws, Pointer, batch, set_host_surface_size, AllScaled, batch_delivered,
}

-- Every window has 720 × 1280 pixels.
abbrev geometry : ℕ → ℤ × ℤ
geometry w = (pos 720, pos 1280)

-- Window 4 is attached, reported again with a size, and replaced by window 5.
abbrev surfaces : List Window.Event
surfaces = attaches (some 4) ∷ changes (some 4) (pos 1280) (pos 720) ∷ attaches (some 5) ∷ []

abbrev black : Option Snapshot
black = some (record { pixels = 0 ∷ 0 ∷ 0 ∷ 255 ∷ []; width = pos 1; height = pos 1 })

pump_fate_example :
    (let r = Pump.run geometry new_renderer (begins ∷ binds (some 4) ∷ destroys ∷ []) in
      pump_round r black ≡ take_snapshot r black)
    × (let r =
          Pump.run geometry new_renderer (begins ∷ pumps none ∷ binds (some 4) ∷ destroys ∷ []) in
        pump_round r black ≡ r)
pump_fate_example = pump_fate geometry 4 none black (destroys ∷ [])

-- Fixed point numbers with a step of 1 / 65535, rounded down; none of them is NaN.
abbrev fixed : Float
fixed = record {
  F = ℕ;
  of_int = λ n. n * 65535;
  clamp = λ x lo hi. if ltb x lo then lo else if ltb hi x then hi else x;
  div = λ a b. a * 65535 / b;
  mul = λ a b. a * b / 65535;
  to_u32 = λ a. a / 65535;
}

mul_one : (x n : ℕ) → x ≤ 1 * 65535 → x * (n * 65535) / 65535 ≤ n * 65535
mul_one x n h = div-le_of_le-mul 65535 (grind arith)

fixed_laws : FloatLaws fixed
fixed_laws = record {
  le = λ a b. a ≤ b;
  IsNumber = λ x. Unit;
  le-clamp = λ x lo hi v h. ground arith;
  clamp-le = λ x lo hi v h. ground arith;
  of_int-le = λ n m h small. omega arith;
  le-div = λ x n h small lo. omega arith;
  div-le = λ x n h small hi. div-le_of_le-mul (n * 65535) (omega arith);
  le-mul = λ x n h small lo. omega arith;
  mul-le = λ x n h small hi. mul_one x n hi;
  to_u32-le = λ x n small lo hi. omega arith;
}

abbrev finger : Pointer fixed
finger = record { id = 0; x = 360 * 65535; y = 2000 * 65535; pressure = 65535 }

abbrev touches : List AcTouchEvent
touches = batch fixed (set_host_surface_size (pos 720) (pos 1280)) 0 (finger ∷ [])

abbrev packets : List Message
packets = map packet_of (map touch touches)

abbrev stream : List Input
stream = piece (frames packets) ∷ closed ∷ []

arrives : Arrives stream (frames packets)
unfolding frame encode_header packet_of touch_bytes batch
arrives = (λ e. cc, ([], sym (append-nil (frames packets)), refl))

batch_delivered_example : AllScaled touches × (frame_loop 2 stream ≡ map touch touches)
unfolding fixed_laws
batch_delivered_example =
    batch_delivered fixed fixed_laws (pos 720) (pos 1280) 0 (finger ∷ []) 2 stream (omega arith)
      (omega arith) (omega arith) ((omega arith, tt, tt, tt), tt) arrives
      (unfold batch in omega arith)
