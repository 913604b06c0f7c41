-- ===== src/Host/Render/Replace.antt =====
-- A window that is replaced under the render loop of core/display_renderer.cpp: `destroyWindow`
-- takes EGL down on the thread of the surface, and the loop finds out by a swap that fails.
pub mod Recovers
use virtualaosp.Base.{
  ℕ, zero, suc, Bool, true, false, ◌&&◌, not, Option, none, some, List, [], ◌∷◌, ◌++◌, ◌≡◌, refl,
  ap, ◌∙◌, sym, subst, arith, if◌then◌else◌,
}
use virtualaosp.Base.Int.{ℤ, pos, negsuc}
use virtualaosp.Host.Renderer.{
  GuestFrame, Renderer, same_window, bind_window, set_native_window, ensure_pump_started, resized,
  update_window_size, destroy_window, update_guest_frame,
}
use virtualaosp.Host.Renderer.Egl.{
  Egl, closed, EglAct, EglAnswers, EglInit, init_surface, init_context, init_display, init_egl,
  terminate_egl, GlAnswers, Gl, setup_gl,
}
use virtualaosp.Host.Renderer.Letterbox.{Doubles}
use virtualaosp.Host.Render.{
  Screen, new_screen, Stage, unmade, waiting, ready_to_draw, drawn, stopped, end_loop, set_up,
  window_block, on_window, begin_round, begin_at, upload, is_there, draw, draw_at, SwapError,
  is_lost, swap, swap_at, started_loop, bind, destroy, Event, binds, resizes, destroys, arrives,
  begins, draws, swaps, step, run,
}
use virtualaosp.Host.Render.Balance.{displays}
use virtualaosp.Host.Render.Balance.Runs.{egl_balanced}

-- A screen on the way: where the thread is, what it believes, and what it has.
pub record Ahead (v : ℕ) (f : GuestFrame) (stage : Stage) (ready : Bool) (egl : Egl) (s : Screen)
    : Type 0 where
  pub stage_is : s.stage ≡ stage
  pub ready_is : s.egl_ready ≡ ready
  pub egl_is : s.egl ≡ egl
  pub running_is : s.renderer.running ≡ true
  pub window_is : s.renderer.window ≡ some v
  pub frame_is : s.renderer.frame ≡ some f

-- EGL answers a swap without a display by an error.
abbrev pub Refuses : (Bool → Option ℕ → Option SwapError) → Type 0
Refuses answer = (x : Option ℕ) → is_lost (answer false x) ≡ true

-- Behind the first frame that meets the new window the texture of that context has no image.
pub record Lost (f : GuestFrame) (s : Screen) : Type 0 where
  pub old : s.renderer.has_new_frame ≡ false
  pub frame_is : s.renderer.frame ≡ some f
  pub image_is : s.gl.image ≡ none

pub if-true : (b : Bool) (x y : Screen × List EglAct) → b ≡ true → (if b then x else y).0 ≡ x.0
if-true true x y h = refl
if-true false x y h = ground arith

-- An initEGL that succeeds makes its surface on the window.
pub init-surface :
    (a : EglAnswers) (v : ℕ)
    → (init_egl a v closed).ok ≡ true
    → (init_egl a v closed).egl ≡ record { display = true; surface = some v; context = true }
unfolding init_egl
init-surface a v ok = ground arith

-- The texture of a new context.
pub setup-image : (g : GlAnswers) (gl : Gl) → (setup_gl g gl).0.image ≡ none
unfolding setup_gl
setup-image g gl = ground arith

-- The window is replaced, and a round goes up to its swap.
abbrev pub drawing : ℕ → EglAnswers → GlAnswers → List Event
drawing v a g = destroys ∷ binds (some v) ∷ begins a g ∷ draws ∷ []

-- The window is replaced, a round goes by, and the next one begins.
abbrev pub replacing :
    ℕ
    → EglAnswers
    → GlAnswers
    → (Bool → Option ℕ → Option SwapError)
    → EglAnswers
    → GlAnswers
    → List Event
replacing v a g answer a' g' =
    destroys ∷ binds (some v) ∷ begins a g ∷ draws ∷ swaps answer ∷ begins a' g' ∷ []

module _ {D : Type 0} (o : Doubles D) (geometry : ℕ → ℤ × ℤ) (v : ℕ) (f : GuestFrame) where
  pub bind-Ahead :
      (s : Screen)
      → s.stage ≡ waiting
      → s.egl_ready ≡ true
      → s.renderer.frame ≡ some f
      → (destroy s).0.egl ≡ closed
      → Ahead v f waiting true closed (bind geometry (destroy s).0 (some v))
  unfolding bind destroy destroy_window set_native_window bind_window ensure_pump_started
  bind-Ahead s at ready frame shut = record {
    stage_is = started s.renderer.running;
    ready_is = ready;
    egl_is = shut;
    running_is = refl;
    window_is = refl;
    frame_is = frame;
  }
    where
      started : (b : Bool) → started_loop b s.stage ≡ waiting
      started true = at
      started false = refl

  begin_ready :
      (a : EglAnswers) (g : GlAnswers) (e : Egl) (s : Screen)
      → Ahead v f waiting true e s
      → begin_at s.stage a g s ≡ (record s { stage = ready_to_draw }, [])
  unfolding begin_round
  begin_ready a g e s h =
      ap (λ st. begin_at st a g s) h.stage_is
      ∙ ap (λ b. if b then on_window a g s.renderer.window s else end_loop s) h.running_is
      ∙ ap (λ w. on_window a g w s) h.window_is
      ∙ ap
          (λ b.
            if b then (record s { stage = ready_to_draw }, []) else set_up (init_egl a v s.egl) g s)
          h.ready_is

  pub begin-Ahead :
      (a : EglAnswers) (g : GlAnswers) (e : Egl) (s : Screen)
      → Ahead v f waiting true e s
      → Ahead v f ready_to_draw true e (begin_at s.stage a g s).0
  begin-Ahead a g e s h =
      subst (λ x. Ahead v f ready_to_draw true e x.0) (sym (begin_ready a g e s h))
        (record {
          stage_is = refl;
          ready_is = h.ready_is;
          egl_is = h.egl_is;
          running_is = h.running_is;
          window_is = h.window_is;
          frame_is = h.frame_is;
        })

  either-Ahead :
      (b : Bool) (e : Egl) (stage : Stage) (ready : Bool) (x y : Screen)
      → Ahead v f stage ready e x
      → Ahead v f stage ready e y
      → Ahead v f stage ready e (if b then x else y)
  either-Ahead true e stage ready x y h h' = h
  either-Ahead false e stage ready x y h h' = h'

  upload-Ahead :
      (e : Egl) (s : Screen)
      → Ahead v f ready_to_draw true e s
      → Ahead v f ready_to_draw true e (upload s)
  unfolding upload
  upload-Ahead e s h =
      either-Ahead (s.renderer.has_new_frame && is_there s.renderer.frame) e ready_to_draw true _ s
        (record {
          stage_is = h.stage_is;
          ready_is = h.ready_is;
          egl_is = h.egl_is;
          running_is = h.running_is;
          window_is = h.window_is;
          frame_is = h.frame_is;
        })
        h

  -- Behind an upload there is no new frame, if there was a frame.
  upload-old : (s : Screen) → s.renderer.frame ≡ some f → (upload s).renderer.has_new_frame ≡ false
  unfolding upload
  upload-old s h = either-old s.renderer.has_new_frame s.renderer.frame h refl
    where
      either-old :
          (b : Bool) (frame : Option GuestFrame)
          → frame ≡ some f
          → s.renderer.has_new_frame ≡ b
          → (if b && is_there frame
              then record s {
                renderer = record (s.renderer) { has_new_frame = false };
                gl = record (s.gl) { image = s.renderer.frame };
              }
              else s).renderer.has_new_frame
            ≡ false
      either-old false frame e is = is
      either-old true none e is = ground arith
      either-old true (some f') e is = refl

  pub draw-Ahead :
      (e : Egl) (s : Screen)
      → Ahead v f ready_to_draw true e s
      → Ahead v f drawn true e (draw_at o s.stage s)
        × ((draw_at o s.stage s).renderer.has_new_frame ≡ false)
  unfolding draw
  draw-Ahead e s h =
      let up = upload-Ahead e s h in
      subst
        (λ st.
          Ahead v f drawn true e (draw_at o st s)
          × ((draw_at o st s).renderer.has_new_frame ≡ false))
        (sym h.stage_is)
        (
          record {
            stage_is = refl;
            ready_is = up.ready_is;
            egl_is = up.egl_is;
            running_is = up.running_is;
            window_is = up.window_is;
            frame_is = up.frame_is;
          },
          upload-old s h.frame_is,
        )

  swap_refused :
      (answer : Bool → Option ℕ → Option SwapError) (s : Screen)
      → Refuses answer
      → Ahead v f drawn true closed s
      → swap_at s.stage answer s
        ≡ (record s { egl = closed; egl_ready = false; stage = waiting }, [])
  unfolding swap terminate_egl
  swap_refused answer s no_swap h =
      ap (λ st. swap_at st answer s) h.stage_is
      ∙ ap
          (λ e.
            if is_lost (answer e.display e.surface)
            then (
              record s { egl = (terminate_egl e).0; egl_ready = false; stage = waiting },
              (terminate_egl e).1,
            )
            else (record s { stage = waiting }, []))
          h.egl_is
      ∙ ap
          (λ b.
            if b
            then (record s { egl = closed; egl_ready = false; stage = waiting }, [])
            else (record s { stage = waiting }, []))
          (no_swap none)

  pub swap-Ahead :
      (answer : Bool → Option ℕ → Option SwapError) (s : Screen)
      → Refuses answer
      → Ahead v f drawn true closed s
      → s.renderer.has_new_frame ≡ false
      → Ahead v f waiting false closed (swap_at s.stage answer s).0
        × ((swap_at s.stage answer s).0.renderer.has_new_frame ≡ false)
  swap-Ahead answer s no_swap h old =
      subst (λ x. Ahead v f waiting false closed x.0 × (x.0.renderer.has_new_frame ≡ false))
        (sym (swap_refused answer s no_swap h))
        (
          record {
            stage_is = refl;
            ready_is = refl;
            egl_is = refl;
            running_is = h.running_is;
            window_is = h.window_is;
            frame_is = h.frame_is;
          },
          old,
        )
