-- ===== src/Host/Render/Replace/Recovers.antt =====
-- The window that is replaced, up to the round that draws on it (core/display_renderer.cpp).
use virtualaosp.Base.{
  ℕ, Bool, true, false, Option, some, List, [], ◌≡◌, refl, ap, ◌∙◌, sym, subst, if◌then◌else◌,
}
use virtualaosp.Base.Int.{ℤ}
use virtualaosp.Host.Renderer.{GuestFrame}
use virtualaosp.Host.Renderer.Egl.{closed, EglAct, EglAnswers, init_egl, GlAnswers, setup_gl}
use virtualaosp.Host.Renderer.Letterbox.{Doubles}
use virtualaosp.Host.Render.{
  Screen, new_screen, drawn, waiting, ready_to_draw, end_loop, set_up, on_window, begin_round,
  begin_at, draw_at, SwapError, swap_at, bind, destroy, Event, run,
}
use virtualaosp.Host.Render.Balance.{displays}
use virtualaosp.Host.Render.Balance.Runs.{egl_balanced}
use virtualaosp.Host.Render.Replace.{
  Ahead, Refuses, Lost, drawing, replacing, if-true, init-surface, setup-image, bind-Ahead,
  begin-Ahead, draw-Ahead, swap-Ahead,
}

module _ {D : Type 0} (o : Doubles D) (geometry : ℕ → ℤ × ℤ) (v : ℕ) (f : GuestFrame) where
  begin_init :
      (a : EglAnswers) (g : GlAnswers) (s : Screen)
      → (init_egl a v closed).ok ≡ true
      → Ahead v f waiting false closed s
      → (begin_at s.stage a g s).0 ≡ record s {
        egl = (init_egl a v closed).egl;
        gl = (setup_gl g s.gl).0;
        use_texture_loc = g.use_texture_at;
        time_loc = g.time_at;
        egl_ready = true;
        stage = ready_to_draw;
      }
  unfolding begin_round
  begin_init a g s ok h =
      ap (λ st. (begin_at st a g s).0) h.stage_is
      ∙ ap (λ b. (first b).0) h.running_is
      ∙ ap (λ w. (on_window a g w s).0) h.window_is
      ∙ ap (λ b. (second b).0) h.ready_is
      ∙ ap (λ e. (set_up (init_egl a v e) g s).0) h.egl_is
      ∙ if-true (init_egl a v closed).ok _ _ ok
    where
      first : Bool → Screen × List EglAct
      first b = if b then on_window a g s.renderer.window s else end_loop s

      second : Bool → Screen × List EglAct
      second b =
          if b then (record s { stage = ready_to_draw }, []) else set_up (init_egl a v s.egl) g s

  init-Ahead :
      (a : EglAnswers) (g : GlAnswers) (s : Screen)
      → (init_egl a v closed).ok ≡ true
      → Ahead v f waiting false closed s
      → s.renderer.has_new_frame ≡ false
      → Ahead v f ready_to_draw true (init_egl a v closed).egl (begin_at s.stage a g s).0
        × Lost f (begin_at s.stage a g s).0
  init-Ahead a g s ok h old =
      subst (λ x. Ahead v f ready_to_draw true (init_egl a v closed).egl x × Lost f x)
        (sym (begin_init a g s ok h))
        (
          record {
            stage_is = refl;
            ready_is = refl;
            egl_is = refl;
            running_is = h.running_is;
            window_is = h.window_is;
            frame_is = h.frame_is;
          },
          record { old = old; frame_is = h.frame_is; image_is = setup-image g s.gl },
        )

  refused :
      (s : Screen) (a : EglAnswers) (g : GlAnswers) (answer : Bool → Option ℕ → Option SwapError)
      → s.stage ≡ waiting
      → s.egl_ready ≡ true
      → s.renderer.frame ≡ some f
      → (destroy s).0.egl ≡ closed
      → Refuses answer
      → (let p = (run o geometry s (drawing v a g)).0 in
          Ahead v f drawn true closed p
          × Ahead v f waiting false closed (swap_at p.stage answer p).0)
  unfolding run
  refused s a g answer at ready frame shut no_swap =
      let bound = bind geometry (destroy s).0 (some v) in
      let begun = (begin_at bound.stage a g bound).0 in
      let painted = draw_at o begun.stage begun in
      let (h, old) = draw-Ahead o geometry v f closed begun (
        begin-Ahead o geometry v f a g closed bound
          (bind-Ahead o geometry v f s at ready frame shut)) in
      (h, (swap-Ahead o geometry v f answer painted no_swap h old).0)

  pub replaced :
      (s : Screen) (a a' : EglAnswers) (g g' : GlAnswers)
      (answer : Bool → Option ℕ → Option SwapError)
      → s.stage ≡ waiting
      → s.egl_ready ≡ true
      → s.renderer.frame ≡ some f
      → (destroy s).0.egl ≡ closed
      → Refuses answer
      → (init_egl a' v closed).ok ≡ true
      → Ahead v f ready_to_draw true
          (init_egl a' v closed).egl
          (run o geometry s (replacing v a g answer a' g')).0
        × Lost f (run o geometry s (replacing v a g answer a' g')).0
  unfolding run
  replaced s a a' g g' answer at ready frame shut no_swap ok =
      let bound = bind geometry (destroy s).0 (some v) in
      let begun = (begin_at bound.stage a g bound).0 in
      let painted = draw_at o begun.stage begun in
      let lost = (swap_at painted.stage answer painted).0 in
      let (h, old) = draw-Ahead o geometry v f closed begun (
        begin-Ahead o geometry v f a g closed bound
          (bind-Ahead o geometry v f s at ready frame shut)) in
      let (h', old') = swap-Ahead o geometry v f answer painted no_swap h old in
      init-Ahead a' g' lost ok h' old'

-- A window that is destroyed and replaced while the loop waits: if EGL can be made on the new one,
-- the next round is drawn with no display, in the belief that EGL is up; its swap is refused, which
-- ends that belief, and the round behind it draws on the new window. This holds in every state the
-- renderer can reach with EGL believed up and a guest frame.
pub replaced_window_recovers :
    {D : Type 0} (o : Doubles D) (geometry : ℕ → ℤ × ℤ) (v : ℕ) (f : GuestFrame) (es : List Event)
    (a a' : EglAnswers) (g g' : GlAnswers) (answer : Bool → Option ℕ → Option SwapError)
    → (run o geometry new_screen es).0.stage ≡ waiting
    → (run o geometry new_screen es).0.egl_ready ≡ true
    → (run o geometry new_screen es).0.renderer.frame ≡ some f
    → Refuses answer
    → (init_egl a' v closed).ok ≡ true
    → (let start = (run o geometry new_screen es).0 in
        let p = (run o geometry start (drawing v a g)).0 in
        let q = (swap_at p.stage answer p).0 in
        let s = (run o geometry start (replacing v a g answer a' g')).0 in
        ((p.stage ≡ drawn) × (p.egl ≡ closed) × (p.egl_ready ≡ true))
        × ((q.stage ≡ waiting) × (q.egl ≡ closed) × (q.egl_ready ≡ false))
        × (s.stage ≡ ready_to_draw)
        × (s.renderer.window ≡ some v)
        × (s.egl.surface ≡ some v)
        × (s.egl.display ≡ true))
replaced_window_recovers o geometry v f es a a' g g' answer at ready frame no_swap ok =
    let (p, q) =
      refused o geometry v f (run o geometry new_screen es).0 a g answer at ready frame
        (egl_balanced o geometry displays es).2 no_swap in
    let (h, lost) =
      replaced o geometry v f (run o geometry new_screen es).0 a a' g g' answer at ready frame
        (egl_balanced o geometry displays es).2 no_swap ok in
    let made = h.egl_is ∙ init-surface a' v ok in
    (
      (p.stage_is, p.egl_is, p.ready_is),
      (q.stage_is, q.egl_is, q.ready_is),
      h.stage_is,
      h.window_is,
      ap (λ e. e.surface) made,
      ap (λ e. e.display) made,
    )
