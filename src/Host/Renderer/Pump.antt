-- ===== src/Host/Renderer/Pump.antt =====
-- The pump thread of core/display_renderer.cpp against setNativeWindow: the thread is made in front
-- of the lock, and `mRunning` is set behind it, so a test of the pump's loop can come in between.
use virtualaosp.Base.{
  ℕ, zero, suc, Bool, true, false, Option, none, some, List, [], ◌∷◌, ◌++◌, ◌≡◌, refl, ap, ◌∙◌, sym,
  subst, if◌then◌else◌, Bytes, not, ◌||◌,
}
use virtualaosp.Base.Int.{ℤ, pos, negsuc}
use virtualaosp.Host.Renderer.{
  Renderer, new_renderer, PumpThread, pumping, ended, started, ensure_pump_started, bind_window,
  update_window_size, destroy_window, Snapshot, update_guest_frame, take_snapshot, pump_step,
  pump_round, same_window, same_int, resized, Act, acquired, released,
}

-- The two halves of setNativeWindow, the other calls, and the rounds of the pump.
pub data Event : Type 0 where
  begins : Event
  binds : Option ℕ → Event
  resizes : ℤ → ℤ → Event
  destroys : Event
  pumps : Option Snapshot → Event

unfoldable pub step : (ℕ → ℤ × ℤ) → Renderer → Event → Renderer
unfolding ensure_pump_started bind_window update_window_size destroy_window pump_round
step geometry r begins = ensure_pump_started r
step geometry r (binds window) = (bind_window geometry r window).0
step geometry r (resizes width height) = update_window_size r width height
step geometry r destroys = (destroy_window r).0
step geometry r (pumps s) = pump_round r s

unfoldable pub run : (ℕ → ℤ × ℤ) → Renderer → List Event → Renderer
unfolding step
run geometry r [] = r
run geometry r (e ∷ es) = run geometry (step geometry r e) es

-- The pump goes on for good.
record Alive (r : Renderer) : Type 0 where
  pump_is : r.pump ≡ pumping
  running_is : r.running ≡ true

either-Alive : (b : Bool) (r r' : Renderer) → Alive r → Alive r' → Alive (if b then r else r')
either-Alive true r r' a a' = a
either-Alive false r r' a a' = a'

either-pump :
    (b : Bool) (r r' : Renderer) (p : PumpThread)
    → r.pump ≡ p
    → r'.pump ≡ p
    → (if b then r else r').pump ≡ p
either-pump true r r' p e e' = e
either-pump false r r' p e e' = e'

bound-Alive :
    (b : Bool) (x y : Renderer × List Act) → Alive x.0 → Alive y.0 → Alive (if b then x else y).0
bound-Alive true x y a a' = a
bound-Alive false x y a a' = a'

bound-pump :
    (b : Bool) (x y : Renderer × List Act) (p : PumpThread)
    → x.0.pump ≡ p
    → y.0.pump ≡ p
    → (if b then x else y).0.pump ≡ p
bound-pump true x y p e e' = e
bound-pump false x y p e e' = e'

resized-pump :
    (geometry : ℕ → ℤ × ℤ) (window : Option ℕ) (r : Renderer)
    → (resized geometry window r).pump ≡ r.pump
resized-pump geometry none r = refl
resized-pump geometry (some w) r = refl

frame-Alive :
    (r : Renderer) (rgba : Option Bytes) (width height : ℤ)
    → Alive r
    → Alive (update_guest_frame r rgba width height)
unfolding update_guest_frame
frame-Alive r none width height a = a
frame-Alive r (some rgba) (negsuc w) height a = a
frame-Alive r (some rgba) (pos zero) height a = a
frame-Alive r (some rgba) (pos (suc w)) (negsuc h) a = a
frame-Alive r (some rgba) (pos (suc w)) (pos zero) a = a
frame-Alive r (some rgba) (pos (suc w)) (pos (suc h)) a = record {
  pump_is = a.pump_is;
  running_is = a.running_is;
}

snapshot-Alive : (r : Renderer) (s : Option Snapshot) → Alive r → Alive (take_snapshot r s)
snapshot-Alive r none a = a
snapshot-Alive r (some s) a = frame-Alive r (some s.pixels) s.width s.height a

-- A round of a pump that is alive takes the snapshot.
round-Alive : (r : Renderer) (s : Option Snapshot) → Alive r → pump_round r s ≡ take_snapshot r s
unfolding pump_round
round-Alive r s a =
    ap (λ p. pump_step p r s) a.pump_is
    ∙ ap (λ b. if b then take_snapshot r s else record r { pump = ended }) a.running_is

round_ended : (r : Renderer) (s : Option Snapshot) → r.pump ≡ ended → pump_round r s ≡ r
unfolding pump_round
round_ended r s h = ap (λ p. pump_step p r s) h

step-Alive : (geometry : ℕ → ℤ × ℤ) (r : Renderer) (e : Event) → Alive r → Alive (step geometry r e)
unfolding step ensure_pump_started update_window_size destroy_window
step-Alive geometry r begins a = record {
  pump_is = ap started a.pump_is;
  running_is = a.running_is;
}
step-Alive geometry r (binds window) a =
    bound-Alive (same_window window r.window) (r, [])
      (
        record (resized geometry window r) { window = window; running = true },
        acquired window ++ released r.window,
      )
      a (record { pump_is = resized-pump geometry window r ∙ a.pump_is; running_is = refl })
step-Alive geometry r (resizes width height) a =
    either-Alive (not (same_int r.width width) || not (same_int r.height height))
      (record r { width = width; height = height; size_changed = true }) r
      (record { pump_is = a.pump_is; running_is = a.running_is }) a
step-Alive geometry r destroys a = record { pump_is = a.pump_is; running_is = a.running_is }
step-Alive geometry r (pumps s) a = subst Alive (sym (round-Alive r s a)) (snapshot-Alive r s a)

run-Alive :
    (geometry : ℕ → ℤ × ℤ) (r : Renderer) (es : List Event) → Alive r → Alive (run geometry r es)
unfolding run
run-Alive geometry r [] a = a
run-Alive geometry r (e ∷ es) a =
    run-Alive geometry (step geometry r e) es (step-Alive geometry r e a)

step-ended :
    (geometry : ℕ → ℤ × ℤ) (r : Renderer) (e : Event)
    → r.pump ≡ ended
    → (step geometry r e).pump ≡ ended
unfolding step ensure_pump_started update_window_size destroy_window pump_round
step-ended geometry r begins h = ap started h
step-ended geometry r (binds window) h =
    bound-pump (same_window window r.window) (r, [])
      (
        record (resized geometry window r) { window = window; running = true },
        acquired window ++ released r.window,
      )
      ended h (resized-pump geometry window r ∙ h)
step-ended geometry r (resizes width height) h =
    either-pump (not (same_int r.width width) || not (same_int r.height height))
      (record r { width = width; height = height; size_changed = true }) r ended h h
step-ended geometry r destroys h = h
step-ended geometry r (pumps s) h = ap (λ p. (pump_step p r s).pump) h ∙ h

run-ended :
    (geometry : ℕ → ℤ × ℤ) (r : Renderer) (es : List Event)
    → r.pump ≡ ended
    → (run geometry r es).pump ≡ ended
unfolding run
run-ended geometry r [] h = h
run-ended geometry r (e ∷ es) h =
    run-ended geometry (step geometry r e) es (step-ended geometry r e h)

first-Alive :
    (geometry : ℕ → ℤ × ℤ) (w : ℕ)
    → Alive (run geometry new_renderer (begins ∷ binds (some w) ∷ []))
unfolding run bind_window ensure_pump_started
first-Alive geometry w = record { pump_is = refl; running_is = refl }

first-ended :
    (geometry : ℕ → ℤ × ℤ) (w : ℕ) (s : Option Snapshot)
    → (run geometry new_renderer (begins ∷ pumps s ∷ binds (some w) ∷ [])).pump ≡ ended
unfolding run bind_window ensure_pump_started pump_round
first-ended geometry w s = refl

-- If the first `setNativeWindow` on a window sets `mRunning` before the new pump thread tests it,
-- then after any further calls and rounds a round of the pump takes the snapshot it reads. If the
-- thread tests it first, its loop ends, and after any further calls, later windows included, no
-- round of the pump takes a snapshot: the thread stays joinable and is not made again.
pub pump_fate :
    (geometry : ℕ → ℤ × ℤ) (w : ℕ) (early s : Option Snapshot) (es : List Event)
    → (let r = run geometry new_renderer (begins ∷ binds (some w) ∷ es) in
        pump_round r s ≡ take_snapshot r s)
      × (let r = run geometry new_renderer (begins ∷ pumps early ∷ binds (some w) ∷ es) in
          pump_round r s ≡ r)
unfolding run
pump_fate geometry w early s es =
    let first = run geometry new_renderer (begins ∷ binds (some w) ∷ []) in
    let late = run geometry new_renderer (begins ∷ pumps early ∷ binds (some w) ∷ []) in
    (
      round-Alive (run geometry first es) s (run-Alive geometry first es (first-Alive geometry w)),
      round_ended (run geometry late es) s
          (run-ended geometry late es (first-ended geometry w early)),
    )
