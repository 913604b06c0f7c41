-- ===== src/Host/Render/Steady.antt =====
-- The surface that the render loop of core/display_renderer.cpp draws on while EGL is up.
use virtualaosp.Base.{
  ℕ, Bool, true, false, ◌&&◌, not, Option, none, some, List, [], ◌∷◌, ◌≡◌, refl, ◌∙◌, arith,
}
use virtualaosp.Base.Int.{ℤ}
use virtualaosp.Host.Renderer.{bind_window, set_native_window, ensure_pump_started}
use virtualaosp.Host.Renderer.Egl.{Egl, closed, EglAnswers, init_egl, GlAnswers}
use virtualaosp.Host.Renderer.Letterbox.{Doubles}
use virtualaosp.Host.Render.{
  Screen, new_screen, Stage, unmade, waiting, ready_to_draw, drawn, stopped, on_window, begin_round,
  begin_at, draw, draw_at, SwapError, is_lost, swap, swap_at, bind, Event, binds, resizes, destroys,
  arrives, begins, draws, swaps, step, run,
}
use virtualaosp.Host.Render.Texture.{split-and, either-step}
use virtualaosp.Host.Render.Texture.Latest.{survives}
use virtualaosp.Host.Render.Replace.{init-surface}
use virtualaosp.Host.Render.Balance.Runs.{upload-same, bind-same}

-- EGL is up for the loop, and is `e`.
record Up (e : Egl) (s : Screen) : Type 0 where
  egl_is : s.egl ≡ e
  ready : s.egl_ready ≡ true

-- Nothing takes EGL down on another thread, and the loop is not ended.
abbrev is_steady : Screen → Event → Bool
is_steady s destroys = false
is_steady s (begins a g) = s.renderer.running
is_steady s e = survives s e

unfoldable pub steady : {D : Type 0} → Doubles D → (ℕ → ℤ × ℤ) → Screen → List Event → Bool
unfolding step
steady o geometry s [] = true
steady o geometry s (e ∷ es) = is_steady s e && steady o geometry (step o geometry s e).0 es

module _ (e : Egl) where
  moved-Up : (s s' : Screen) → s'.egl ≡ s.egl → s'.egl_ready ≡ s.egl_ready → Up e s → Up e s'
  moved-Up s s' h h' u = record { egl_is = h ∙ u.egl_is; ready = h' ∙ u.ready }

  window-Up :
      (a : EglAnswers) (g : GlAnswers) (o : Option ℕ) (s : Screen)
      → Up e s
      → Up e (on_window a g o s).0
  window-Up a g none s u = moved-Up s _ refl refl u
  window-Up a g (some w) s u =
      either-step (Up e) s.egl_ready (record s { stage = ready_to_draw }, []) _
        (λ b. moved-Up s _ refl refl u) (λ b. ground (arith, u.ready, b))

  begin_at-Up :
      (stage : Stage) (a : EglAnswers) (g : GlAnswers) (s : Screen)
      → s.renderer.running ≡ true
      → Up e s
      → Up e (begin_at stage a g s).0
  unfolding begin_round
  begin_at-Up waiting a g s on u =
      either-step (Up e) s.renderer.running _ _ (λ b. window-Up a g s.renderer.window s u)
        (λ b. ground (arith, on, b))
  begin_at-Up unmade a g s on u = u
  begin_at-Up ready_to_draw a g s on u = u
  begin_at-Up drawn a g s on u = u
  begin_at-Up stopped a g s on u = u

  swap_at-Up :
      (stage : Stage) (answer : Bool → Option ℕ → Option SwapError) (s : Screen)
      → not (is_lost (answer s.egl.display s.egl.surface)) ≡ true
      → Up e s
      → Up e (swap_at stage answer s).0
  unfolding swap
  swap_at-Up drawn answer s ok u =
      either-step (Up e) (is_lost (answer s.egl.display s.egl.surface)) _
        (record s { stage = waiting }, []) (λ b. ground (arith, ok, b))
        (λ b. moved-Up s _ refl refl u)
  swap_at-Up unmade answer s ok u = u
  swap_at-Up waiting answer s ok u = u
  swap_at-Up ready_to_draw answer s ok u = u
  swap_at-Up stopped answer s ok u = u

  module _ {D : Type 0} (o : Doubles D) (geometry : ℕ → ℤ × ℤ) where
    draw_at-Up : (stage : Stage) (s : Screen) → Up e s → Up e (draw_at o stage s)
    unfolding draw
    draw_at-Up ready_to_draw s u = moved-Up s _ (upload-same s).0 (upload-same s).1 u
    draw_at-Up unmade s u = u
    draw_at-Up waiting s u = u
    draw_at-Up drawn s u = u
    draw_at-Up stopped s u = u

    step-Up :
        (s : Screen) (x : Event) → is_steady s x ≡ true → Up e s → Up e (step o geometry s x).0
    unfolding step
    step-Up s (binds window) ok u =
        moved-Up s (bind geometry s window) (bind-same o geometry s window).0
          (bind-same o geometry s window).1 u
    step-Up s (resizes width height) ok u = moved-Up s _ refl refl u
    step-Up s destroys ok u = ground arith
    step-Up s (arrives f) ok u = moved-Up s _ refl refl u
    step-Up s (begins a g) ok u = begin_at-Up s.stage a g s ok u
    step-Up s draws ok u = draw_at-Up s.stage s u
    step-Up s (swaps answer) ok u = swap_at-Up s.stage answer s ok u

    run-Up :
        (s : Screen) (es : List Event)
        → steady o geometry s es ≡ true
        → Up e s
        → Up e (run o geometry s es).0
    unfolding run steady
    run-Up s [] ok u = u
    run-Up s (x ∷ es) ok u =
        let both = split-and (is_steady s x) (steady o geometry (step o geometry s x).0 es) ok in
        run-Up (step o geometry s x).0 es both.1 (step-Up s x both.0 u)

first-Up :
    {D : Type 0} (o : Doubles D) (geometry : ℕ → ℤ × ℤ) (w : ℕ) (a : EglAnswers) (g : GlAnswers)
    → (init_egl a w closed).ok ≡ true
    → Up
        (record { display = true; surface = some w; context = true })
        (run o geometry new_screen (binds (some w) ∷ begins a g ∷ [])).0
unfolding run bind begin_round set_native_window bind_window ensure_pump_started
first-Up o geometry w a g ok =
    either-step (Up (record { display = true; surface = some w; context = true }))
      (init_egl a w closed).ok _ _ (λ b. record { egl_is = init-surface a w b; ready = refl })
      (λ b. ground (arith, ok, b))

-- While no `destroyWindow` and no failed swap comes in between, the loop draws on the surface of
-- the window it first made EGL on, also behind a `setNativeWindow` on another window.
pub surface_kept :
    {D : Type 0} (o : Doubles D) (geometry : ℕ → ℤ × ℤ) (w : ℕ) (a : EglAnswers) (g : GlAnswers)
    (es : List Event)
    → (init_egl a w closed).ok ≡ true
    → steady o geometry (run o geometry new_screen (binds (some w) ∷ begins a g ∷ [])).0 es ≡ true
    → (run o geometry new_screen (binds (some w) ∷ begins a g ∷ es)).0.egl
      ≡ record { display = true; surface = some w; context = true }
unfolding run
surface_kept o geometry w a g es ok calm =
    let first = (run o geometry new_screen (binds (some w) ∷ begins a g ∷ [])).0 in
    let up = (run-Up _ o geometry first es calm (first-Up o geometry w a g ok)) in up.egl_is
