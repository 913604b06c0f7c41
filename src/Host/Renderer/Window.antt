-- ===== src/Host/Renderer/Window.antt =====
-- The references of windows over runs of the renderer of core/display_renderer.cpp.
use virtualaosp.Base.{
  ℕ, zero, suc, ◌+◌, Bool, true, false, Option, none, some, List, [], ◌∷◌, ◌++◌, ◌==◌, ◌≡◌, refl,
  ap, ◌∙◌, sym, inl, inr, arith, if◌then◌else◌, Bool-cases, Bytes,
}
use virtualaosp.Base.Int.{ℤ, pos, negsuc}
use virtualaosp.Host.Renderer.{
  Renderer, new_renderer, Act, acquire, release, ensure_pump_started, same_window, acquired,
  released, bind_window, set_native_window, update_window_size, destroy_window, Snapshot,
  update_guest_frame, take_snapshot, PumpThread, unborn, pumping, ended, pump_step, pump_round,
  attach_surface, surface_changed,
}

pub data Event : Type 0 where
  attaches : Option ℕ → Event
  changes : Option ℕ → ℤ → ℤ → Event
  detaches : Event
  pumps : Option Snapshot → Event

unfoldable pub step : (ℕ → ℤ × ℤ) → Renderer → Event → Renderer × List Act
unfolding attach_surface surface_changed destroy_window pump_round
step geometry r (attaches surface) = attach_surface geometry r surface
step geometry r (changes surface width height) = surface_changed geometry r surface width height
step geometry r detaches = destroy_window r
step geometry r (pumps s) = (pump_round r s, [])

unfoldable pub run : (ℕ → ℤ × ℤ) → Renderer → List Event → Renderer × List Act
unfolding step
run geometry r [] = (r, [])
run geometry r (e ∷ es) =
    let (r', acts) = step geometry r e in
    let (r'', more) = run geometry r' es in (r'', acts ++ more)

-- How often a window was acquired and released, and whether the renderer holds it.
abbrev acquire_of : ℕ → Act → ℕ
acquire_of w (acquire v) = if v == w then 1 else 0
acquire_of w (release v) = 0

abbrev release_of : ℕ → Act → ℕ
release_of w (acquire v) = 0
release_of w (release v) = if v == w then 1 else 0

pub acquires : ℕ → List Act → ℕ
acquires w [] = 0
acquires w (act ∷ acts) = acquire_of w act + acquires w acts

pub releases : ℕ → List Act → ℕ
releases w [] = 0
releases w (act ∷ acts) = release_of w act + releases w acts

abbrev pub held : ℕ → Option ℕ → ℕ
held w none = 0
held w (some v) = if v == w then 1 else 0

abbrev Balanced : ℕ → Renderer → Renderer × List Act → Type 0
Balanced w r (r', acts) = acquires w acts + held w r.window ≡ releases w acts + held w r'.window

acquires-append : (w : ℕ) (xs ys : List Act) → acquires w (xs ++ ys) ≡ acquires w xs + acquires w ys
unfolding acquires
acquires-append w [] ys = omega arith
acquires-append w (x ∷ xs) ys = omega (arith, acquires-append w xs ys)

releases-append : (w : ℕ) (xs ys : List Act) → releases w (xs ++ ys) ≡ releases w xs + releases w ys
unfolding releases
releases-append w [] ys = omega arith
releases-append w (x ∷ xs) ys = omega (arith, releases-append w xs ys)

swap_counts :
    (w : ℕ) (new old : Option ℕ)
    → acquires w (acquired new ++ released old) + held w old
      ≡ releases w (acquired new ++ released old) + held w new
unfolding acquires releases
swap_counts w none none = refl
swap_counts w none (some v) = omega arith
swap_counts w (some u) none = omega arith
swap_counts w (some u) (some v) = omega arith

bind-Balanced :
    (geometry : ℕ → ℤ × ℤ) (w : ℕ) (r : Renderer) (window : Option ℕ)
    → Balanced w r (bind_window geometry r window)
unfolding bind_window acquires releases
bind-Balanced geometry w r window = elim (Bool-cases (same_window window r.window)) [
  | inl same ↦ rw same refl
  | inr other ↦ rw other (swap_counts w window r.window)
]

attach-Balanced :
    (geometry : ℕ → ℤ × ℤ) (w : ℕ) (r : Renderer) (surface : Option ℕ)
    → Balanced w r (attach_surface geometry r surface)
unfolding attach_surface set_native_window ensure_pump_started acquires releases
attach-Balanced geometry w r none = refl
attach-Balanced geometry w r (some v) =
    let bound = bind_window geometry (ensure_pump_started r) (some v) in
    omega (
      arith,
      bind-Balanced geometry w (ensure_pump_started r) (some v),
      acquires-append w bound.1 (release v ∷ []),
      releases-append w bound.1 (release v ∷ []),
    )

either-window :
    (b : Bool) (r r' : Renderer) (o : Option ℕ)
    → r.window ≡ o
    → r'.window ≡ o
    → (if b then r else r').window ≡ o
either-window true r r' o e e' = e
either-window false r r' o e e' = e'

size-window :
    (r : Renderer) (width height : ℤ) → (update_window_size r width height).window ≡ r.window
unfolding update_window_size
size-window r width height = either-window _ _ r r.window refl refl

update-window :
    (r : Renderer) (rgba : Option Bytes) (width height : ℤ)
    → (update_guest_frame r rgba width height).window ≡ r.window
unfolding update_guest_frame
update-window r none width height = refl
update-window r (some rgba) (negsuc w) height = refl
update-window r (some rgba) (pos zero) height = refl
update-window r (some rgba) (pos (suc w)) (negsuc h) = refl
update-window r (some rgba) (pos (suc w)) (pos zero) = refl
update-window r (some rgba) (pos (suc w)) (pos (suc h)) = refl

frame-window : (r : Renderer) (s : Option Snapshot) → (take_snapshot r s).window ≡ r.window
frame-window r none = refl
frame-window r (some s) = update-window r (some s.pixels) s.width s.height

pump-window :
    (p : PumpThread) (r : Renderer) (s : Option Snapshot) → (pump_step p r s).window ≡ r.window
pump-window unborn r s = refl
pump-window ended r s = refl
pump-window pumping r s =
    either-window r.running (take_snapshot r s) (record r { pump = ended }) r.window
      (frame-window r s) refl

release-Balanced :
    (w : ℕ) (o : Option ℕ)
    → acquires w (released o) + held w o ≡ releases w (released o) + held w none
unfolding acquires releases
release-Balanced w none = refl
release-Balanced w (some v) = omega arith

nothing-Balanced : (w : ℕ) (r r' : Renderer) → r'.window ≡ r.window → Balanced w r (r', [])
unfolding acquires releases
nothing-Balanced w r r' e = ap (λ o. 0 + held w o) (sym e)

step-Balanced :
    (geometry : ℕ → ℤ × ℤ) (w : ℕ) (r : Renderer) (e : Event) → Balanced w r (step geometry r e)
unfolding step surface_changed destroy_window pump_round
step-Balanced geometry w r (attaches surface) = attach-Balanced geometry w r surface
step-Balanced geometry w r (changes surface width height) =
    attach-Balanced geometry w r surface
    ∙ ap (λ o. releases w (attach_surface geometry r surface).1 + held w o)
        (sym (size-window (attach_surface geometry r surface).0 width height))
step-Balanced geometry w r detaches = release-Balanced w r.window
step-Balanced geometry w r (pumps s) =
    nothing-Balanced w r (pump_step r.pump r s) (pump-window r.pump r s)

run-Balanced :
    (geometry : ℕ → ℤ × ℤ) (w : ℕ) (r : Renderer) (es : List Event)
    → Balanced w r (run geometry r es)
unfolding run
run-Balanced geometry w r [] = (unfold acquires releases in refl)
run-Balanced geometry w r (e ∷ es) =
    let first = step geometry r e in
    let rest = run geometry first.0 es in
    omega (
      arith,
      step-Balanced geometry w r e,
      run-Balanced geometry w first.0 es,
      acquires-append w first.1 rest.1,
      releases-append w first.1 rest.1,
    )

detached :
    (geometry : ℕ → ℤ × ℤ) (r : Renderer) (es : List Event)
    → (run geometry r (es ++ (detaches ∷ []))).0.window ≡ none
unfolding run
detached geometry r [] = unfold step destroy_window in refl
detached geometry r (e ∷ es) = detached geometry (step geometry r e).0 es

-- Over any sequence of surfaces attached, changed and detached and of rounds of the pump, the
-- renderer and the surface calls have acquired each window once more than released it while it is
-- the window on display, and as often otherwise; behind a detach no reference is left.
pub window_references :
    (geometry : ℕ → ℤ × ℤ) (w : ℕ) (es : List Event)
    → (acquires w (run geometry new_renderer es).1
        ≡ releases w (run geometry new_renderer es).1
          + held w (run geometry new_renderer es).0.window)
      × (acquires w (run geometry new_renderer (es ++ (detaches ∷ []))).1
          ≡ releases w (run geometry new_renderer (es ++ (detaches ∷ []))).1)
window_references geometry w es =
    let behind = es ++ (detaches ∷ []) in
    (
      omega (arith, run-Balanced geometry w new_renderer es),
      omega (
        arith,
        run-Balanced geometry w new_renderer behind,
        ap (held w) (detached geometry new_renderer es),
      ),
    )
