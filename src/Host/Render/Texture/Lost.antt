-- ===== src/Host/Render/Texture/Lost.antt =====
-- The guest frame behind a window that was replaced, in the render loop of
-- core/display_renderer.cpp.
use virtualaosp.Base.{
  ℕ, Bool, true, false, ◌&&◌, Option, none, some, List, [], ◌∷◌, ◌≡◌, ap, ◌∙◌, sym, subst, arith,
  if◌then◌else◌,
}
use virtualaosp.Base.Int.{ℤ}
use virtualaosp.Host.Renderer.{GuestFrame}
use virtualaosp.Host.Renderer.Egl.{closed, EglAnswers, EglInit, init_egl, GlAnswers}
use virtualaosp.Host.Renderer.Letterbox.{Doubles}
use virtualaosp.Host.Render.{
  at_location, Screen, new_screen, Stage, unmade, waiting, ready_to_draw, drawn, stopped, set_up,
  on_window, begin_round, begin_at, upload, is_there, draw, draw_at, SwapError, is_lost, swap,
  swap_at, bind, destroy, Event, binds, resizes, destroys, arrives, begins, draws, swaps, step, run,
}
use virtualaosp.Host.Render.Texture.{
  split-and, Alike, moved, either-step, bind-Alike, resize-Alike, destroy-Alike, end-Alike,
}
use virtualaosp.Host.Render.Balance.{displays}
use virtualaosp.Host.Render.Balance.Runs.{egl_balanced}
use virtualaosp.Host.Render.Replace.{Refuses, Lost, replacing, setup-image}
use virtualaosp.Host.Render.Replace.Recovers.{replaced}

-- No guest frame arrives.
abbrev is_quiet : Event → Bool
is_quiet (arrives f) = false
is_quiet e = true

unfoldable pub quiet : List Event → Bool
quiet [] = true
quiet (e ∷ es) = is_quiet e && quiet es

module _ (f : GuestFrame) where
  same-Lost : (s s' : Screen) → Alike s s' → Lost f s → Lost f s'
  same-Lost s s' e l = record {
    old = e.new_is ∙ l.old;
    frame_is = e.frame_is ∙ l.frame_is;
    image_is = e.image_is ∙ l.image_is;
  }

  set_up-Lost : (i : EglInit) (g : GlAnswers) (s : Screen) → Lost f s → Lost f (set_up i g s).0
  set_up-Lost i g s l =
      either-step (Lost f) i.ok _ _
        (λ b. record { old = l.old; frame_is = l.frame_is; image_is = setup-image g s.gl })
        (λ b. record { old = l.old; frame_is = l.frame_is; image_is = l.image_is })

  window-Lost :
      (a : EglAnswers) (g : GlAnswers) (o : Option ℕ) (s : Screen)
      → Lost f s
      → Lost f (on_window a g o s).0
  window-Lost a g none s l = same-Lost s _ (moved s waiting) l
  window-Lost a g (some w) s l =
      either-step (Lost f) s.egl_ready (record s { stage = ready_to_draw }, []) _
        (λ b. same-Lost s _ (moved s ready_to_draw) l) (λ b. set_up-Lost (init_egl a w s.egl) g s l)

  begin_at-Lost :
      (stage : Stage) (a : EglAnswers) (g : GlAnswers) (s : Screen)
      → Lost f s
      → Lost f (begin_at stage a g s).0
  unfolding begin_round
  begin_at-Lost waiting a g s l =
      either-step (Lost f) s.renderer.running _ _ (λ b. window-Lost a g s.renderer.window s l)
        (λ b. same-Lost s _ (end-Alike s) l)
  begin_at-Lost unmade a g s l = l
  begin_at-Lost ready_to_draw a g s l = l
  begin_at-Lost drawn a g s l = l
  begin_at-Lost stopped a g s l = l

  swap_at-Lost :
      (stage : Stage) (answer : Bool → Option ℕ → Option SwapError) (s : Screen)
      → Lost f s
      → Lost f (swap_at stage answer s).0
  unfolding swap
  swap_at-Lost drawn answer s l =
      either-step (Lost f) (is_lost (answer s.egl.display s.egl.surface)) _
        (record s { stage = waiting }, [])
        (λ b. record { old = l.old; frame_is = l.frame_is; image_is = l.image_is })
        (λ b. record { old = l.old; frame_is = l.frame_is; image_is = l.image_is })
  swap_at-Lost unmade answer s l = l
  swap_at-Lost waiting answer s l = l
  swap_at-Lost ready_to_draw answer s l = l
  swap_at-Lost stopped answer s l = l

  -- There is nothing to upload.
  upload-Lost : (s : Screen) → Lost f s → upload s ≡ s
  unfolding upload
  upload-Lost s l =
      ap
        (λ b.
          if b && is_there s.renderer.frame
          then record s {
            renderer = record (s.renderer) { has_new_frame = false };
            gl = record (s.gl) { image = s.renderer.frame };
          }
          else s)
        l.old

  module _ {D : Type 0} (o : Doubles D) (geometry : ℕ → ℤ × ℤ) where
    draw_at-Lost : (stage : Stage) (s : Screen) → Lost f s → Lost f (draw_at o stage s)
    unfolding draw
    draw_at-Lost ready_to_draw s l =
        let l' = subst (Lost f) (sym (upload-Lost s l)) l in
        record { old = l'.old; frame_is = l'.frame_is; image_is = l'.image_is }
    draw_at-Lost unmade s l = l
    draw_at-Lost waiting s l = l
    draw_at-Lost drawn s l = l
    draw_at-Lost stopped s l = l

    step-Lost :
        (s : Screen) (e : Event) → is_quiet e ≡ true → Lost f s → Lost f (step o geometry s e).0
    unfolding step
    step-Lost s (binds window) q l =
        same-Lost s (bind geometry s window) (bind-Alike geometry s window) l
    step-Lost s (resizes width height) q l = same-Lost s _ (resize-Alike s width height) l
    step-Lost s destroys q l = same-Lost s (destroy s).0 (destroy-Alike s) l
    step-Lost s (arrives g) q l = ground arith
    step-Lost s (begins a g) q l = begin_at-Lost s.stage a g s l
    step-Lost s draws q l = draw_at-Lost s.stage s l
    step-Lost s (swaps answer) q l = swap_at-Lost s.stage answer s l

    run-Lost :
        (s : Screen) (es : List Event) → quiet es ≡ true → Lost f s → Lost f (run o geometry s es).0
    unfolding run quiet
    run-Lost s [] q l = l
    run-Lost s (e ∷ es) q l =
        let both = split-and (is_quiet e) (quiet es) q in
        run-Lost (step o geometry s e).0 es both.1 (step-Lost s e both.0 l)

    draw-Lost : (s : Screen) → Lost f s → (draw o s).1.image ≡ none
    unfolding draw
    draw-Lost s l = ap (λ x. x.gl.image) (upload-Lost s l) ∙ l.image_is

    draw-sampler :
        (s : Screen) → Lost f s → (draw o s).1.sampler ≡ at_location s.use_texture_loc true
    unfolding draw
    draw-sampler s l = ap (λ x. at_location s.use_texture_loc (is_there x)) l.frame_is

-- A window destroyed and replaced while the loop waits loses the guest frame: once EGL is made on
-- the new window, and for as long as no further frame arrives, each draw samples the texture of
-- the new context, which has no image, although the renderer still has the frame.
pub frame_lost :
    {D : Type 0} (o : Doubles D) (geometry : ℕ → ℤ × ℤ) (v : ℕ) (f : GuestFrame)
    (es later : List Event) (a a' : EglAnswers) (g g' : GlAnswers)
    (answer : Bool → Option ℕ → Option SwapError)
    → (run o geometry new_screen es).0.stage ≡ waiting
    → (run o geometry new_screen es).0.egl_ready ≡ true
    → (run o geometry new_screen es).0.renderer.frame ≡ some f
    → Refuses answer
    → (init_egl a' v closed).ok ≡ true
    → quiet later ≡ true
    → (let s =
          (run o geometry
            (run o geometry (run o geometry new_screen es).0 (replacing v a g answer a' g')).0
            later).0 in
        ((draw o s).1.sampler ≡ at_location s.use_texture_loc true)
        × ((draw o s).1.image ≡ none)
        × (s.renderer.frame ≡ some f))
frame_lost o geometry v f es later a a' g g' answer at ready frame no_swap ok q =
    let start = (run o geometry new_screen es).0 in
    let (h, l) =
      replaced o geometry v f start a a' g g' answer at ready frame
        (egl_balanced o geometry displays es).2 no_swap ok in
    let s = (run o geometry start (replacing v a g answer a' g')).0 in
    let l' = run-Lost f o geometry s later q l in
    let s' = (run o geometry s later).0 in
    (draw-sampler f o geometry s' l', draw-Lost f o geometry s' l', l'.frame_is)
