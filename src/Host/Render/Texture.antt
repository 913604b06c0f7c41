-- ===== src/Host/Render/Texture.antt =====
-- Which steps of the render loop of core/display_renderer.cpp leave the latest frame and the texture
-- as they are.
pub mod Latest
pub mod Lost
use virtualaosp.Base.{
  ℕ, zero, suc, Bool, true, false, ◌&&◌, ◌||◌, not, Option, none, some, List, [], ◌∷◌, ◌++◌, ◌≡◌,
  refl, ap, ◌∙◌, sym, subst, inl, inr, arith, if◌then◌else◌, Bool-cases, Bytes,
}
use virtualaosp.Base.Int.{ℤ, pos, negsuc}
use virtualaosp.Host.Renderer.{
  GuestFrame, Renderer, same_window, bind_window, set_native_window, ensure_pump_started, resized,
  same_int, update_window_size, destroy_window, Act, Snapshot, update_guest_frame,
}
use virtualaosp.Host.Renderer.Egl.{
  Egl, closed, EglAct, EglAnswers, EglInit, init_egl, terminate_egl, GlAnswers, Gl, setup_gl,
}
use virtualaosp.Host.Renderer.Letterbox.{Doubles}
use virtualaosp.Host.Render.{
  Screen, new_screen, Stage, unmade, waiting, ready_to_draw, drawn, stopped, end_loop, set_up,
  window_block, on_window, begin_round, begin_at, upload, is_there, draw, draw_at, SwapError,
  is_lost, swap, swap_at, started_loop, bind, destroy, Event, binds, resizes, destroys, arrives,
  begins, draws, swaps, step, run,
}

-- What the frames drawn depend on.
pub record Alike (s s' : Screen) : Type 0 where
  pub ready_is : s'.egl_ready ≡ s.egl_ready
  pub new_is : s'.renderer.has_new_frame ≡ s.renderer.has_new_frame
  pub frame_is : s'.renderer.frame ≡ s.renderer.frame
  pub image_is : s'.gl.image ≡ s.gl.image

pub itself : (s : Screen) → Alike s s
itself s = record { ready_is = refl; new_is = refl; frame_is = refl; image_is = refl }

pub moved : (s : Screen) (stage : Stage) → Alike s (record s { stage = stage })
moved s stage = record { ready_is = refl; new_is = refl; frame_is = refl; image_is = refl }

pub either-Alike :
    (b : Bool) (s x y : Screen) → Alike s x → Alike s y → Alike s (if b then x else y)
either-Alike true s x y h h' = h
either-Alike false s x y h h' = h'

pub either-frame :
    (b : Bool) (r x y : Renderer)
    → (x.has_new_frame ≡ r.has_new_frame) × (x.frame ≡ r.frame)
    → (y.has_new_frame ≡ r.has_new_frame) × (y.frame ≡ r.frame)
    → ((if b then x else y).has_new_frame ≡ r.has_new_frame)
      × ((if b then x else y).frame ≡ r.frame)
either-frame true r x y h h' = h
either-frame false r x y h h' = h'

-- The first of a choice of steps, as a property of the screen.
pub either-step :
    (P : Screen → Type 0) (b : Bool) (x y : Screen × List EglAct)
    → (b ≡ true → P x.0)
    → (b ≡ false → P y.0)
    → P (if b then x else y).0
either-step P true x y h h' = h refl
either-step P false x y h h' = h' refl

pub resized-frame :
    (geometry : ℕ → ℤ × ℤ) (window : Option ℕ) (r : Renderer)
    → ((resized geometry window r).has_new_frame ≡ r.has_new_frame)
      × ((resized geometry window r).frame ≡ r.frame)
resized-frame geometry none r = (refl, refl)
resized-frame geometry (some w) r = (refl, refl)

pub bound-frame :
    (b : Bool) (r : Renderer) (x y : Renderer × List Act)
    → (x.0.has_new_frame ≡ r.has_new_frame) × (x.0.frame ≡ r.frame)
    → (y.0.has_new_frame ≡ r.has_new_frame) × (y.0.frame ≡ r.frame)
    → ((if b then x else y).0.has_new_frame ≡ r.has_new_frame)
      × ((if b then x else y).0.frame ≡ r.frame)
bound-frame true r x y h h' = h
bound-frame false r x y h h' = h'

pub set-frame :
    (geometry : ℕ → ℤ × ℤ) (r : Renderer) (window : Option ℕ)
    → ((set_native_window geometry r window).0.has_new_frame ≡ r.has_new_frame)
      × ((set_native_window geometry r window).0.frame ≡ r.frame)
unfolding set_native_window bind_window ensure_pump_started
set-frame geometry r window =
    bound-frame (same_window window r.window) r (ensure_pump_started r, []) _ (refl, refl)
      (resized-frame geometry window (ensure_pump_started r))

pub bind-Alike :
    (geometry : ℕ → ℤ × ℤ) (s : Screen) (window : Option ℕ) → Alike s (bind geometry s window)
unfolding bind
bind-Alike geometry s window =
    let kept = set-frame geometry s.renderer window in
    either-Alike (same_window window s.renderer.window) s _ _
      (record { ready_is = refl; new_is = kept.0; frame_is = kept.1; image_is = refl })
      (record { ready_is = refl; new_is = kept.0; frame_is = kept.1; image_is = refl })

pub size-frame :
    (r : Renderer) (width height : ℤ)
    → ((update_window_size r width height).has_new_frame ≡ r.has_new_frame)
      × ((update_window_size r width height).frame ≡ r.frame)
unfolding update_window_size
size-frame r width height = either-frame _ r _ r (refl, refl) (refl, refl)

pub resize-Alike :
    (s : Screen) (width height : ℤ)
    → Alike s (record s { renderer = update_window_size s.renderer width height })
resize-Alike s width height =
    let kept = size-frame s.renderer width height in
    record { ready_is = refl; new_is = kept.0; frame_is = kept.1; image_is = refl }

pub destroy-Alike : (s : Screen) → Alike s (destroy s).0
unfolding destroy destroy_window
destroy-Alike s = record { ready_is = refl; new_is = refl; frame_is = refl; image_is = refl }

pub end-Alike : (s : Screen) → Alike s (end_loop s).0
end-Alike s =
    either-step (Alike s) s.egl_ready _ (record s { stage = stopped }, [])
      (λ b. record { ready_is = refl; new_is = refl; frame_is = refl; image_is = refl })
      (λ b. moved s stopped)

pub window-Alike :
    (a : EglAnswers) (g : GlAnswers) (o : Option ℕ) (s : Screen)
    → s.egl_ready ≡ true
    → Alike s (on_window a g o s).0
window-Alike a g none s ready = moved s waiting
window-Alike a g (some w) s ready =
    either-step (Alike s) s.egl_ready (record s { stage = ready_to_draw }, []) _
      (λ b. moved s ready_to_draw) (λ b. ground (arith, ready, b))

pub begin_at-Alike :
    (stage : Stage) (a : EglAnswers) (g : GlAnswers) (s : Screen)
    → s.egl_ready ≡ true
    → Alike s (begin_at stage a g s).0
unfolding begin_round
begin_at-Alike waiting a g s ready =
    either-step (Alike s) s.renderer.running _ _ (λ b. window-Alike a g s.renderer.window s ready)
      (λ b. end-Alike s)
begin_at-Alike unmade a g s ready = itself s
begin_at-Alike ready_to_draw a g s ready = itself s
begin_at-Alike drawn a g s ready = itself s
begin_at-Alike stopped a g s ready = itself s

pub swap-Alike :
    (answer : Bool → Option ℕ → Option SwapError) (s : Screen)
    → not (is_lost (answer s.egl.display s.egl.surface)) ≡ true
    → Alike s (swap answer s).0
unfolding swap
swap-Alike answer s ok =
    either-step (Alike s) (is_lost (answer s.egl.display s.egl.surface)) _
      (record s { stage = waiting }, []) (λ b. ground (arith, ok, b)) (λ b. moved s waiting)

pub split-and : (a b : Bool) → (a && b) ≡ true → (a ≡ true) × (b ≡ true)
split-and true b h = (refl, h)
split-and false b h = ground arith
