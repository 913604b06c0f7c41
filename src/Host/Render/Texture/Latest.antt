-- ===== src/Host/Render/Texture/Latest.antt =====
-- The frames drawn while EGL is up, in the render loop of core/display_renderer.cpp.
use virtualaosp.Base.{
  ℕ, zero, suc, Bool, true, false, ◌&&◌, not, Option, some, List, [], ◌∷◌, ◌≡◌, refl, ap, ◌∙◌, sym,
  arith, if◌then◌else◌, Bytes,
}
use virtualaosp.Base.Int.{ℤ, pos, negsuc}
use virtualaosp.Host.Renderer.{
  GuestFrame, bind_window, set_native_window, ensure_pump_started, update_guest_frame,
}
use virtualaosp.Host.Renderer.Egl.{closed, EglAnswers, init_egl, GlAnswers, setup_gl}
use virtualaosp.Host.Renderer.Letterbox.{Doubles}
use virtualaosp.Host.Render.{
  Screen, new_screen, Stage, unmade, waiting, ready_to_draw, drawn, stopped, begin_round, begin_at,
  upload, at_location, is_there, draw, draw_at, SwapError, is_lost, swap, swap_at, bind, destroy,
  Event, binds, resizes, destroys, arrives, begins, draws, swaps, step, run,
}
use virtualaosp.Host.Render.Texture.{
  split-and, Alike, itself, either-step, bind-Alike, resize-Alike, destroy-Alike, begin_at-Alike,
  swap-Alike,
}

-- The texture is the frame, but for a frame that has not been uploaded.
record Live (s : Screen) : Type 0 where
  ready : s.egl_ready ≡ true
  fresh : s.renderer.has_new_frame ≡ false → s.gl.image ≡ s.renderer.frame
  there : s.renderer.has_new_frame ≡ true → is_there s.renderer.frame ≡ true

-- `e` is no swap that takes EGL down, in the screen `s`.
abbrev pub survives : Screen → Event → Bool
survives s (swaps answer) = not (is_lost (answer s.egl.display s.egl.surface))
survives s e = true

-- No swap of a run takes EGL down.
unfoldable pub lasts : {D : Type 0} → Doubles D → (ℕ → ℤ × ℤ) → Screen → List Event → Bool
unfolding step
lasts o geometry s [] = true
lasts o geometry s (e ∷ es) = survives s e && lasts o geometry (step o geometry s e).0 es

same-Live : (s s' : Screen) → Alike s s' → Live s → Live s'
same-Live s s' e l = record {
  ready = e.ready_is ∙ l.ready;
  fresh = λ h. e.image_is ∙ l.fresh (sym e.new_is ∙ h) ∙ sym e.frame_is;
  there = λ h. ap is_there e.frame_is ∙ l.there (sym e.new_is ∙ h);
}

arrive-Live :
    (s : Screen) (rgba : Bytes) (width height : ℤ)
    → Live s
    → Live (record s { renderer = update_guest_frame s.renderer (some rgba) width height })
unfolding update_guest_frame
arrive-Live s rgba (negsuc w) height l = same-Live s _ (itself s) l
arrive-Live s rgba (pos zero) height l = same-Live s _ (itself s) l
arrive-Live s rgba (pos (suc w)) (negsuc h) l = same-Live s _ (itself s) l
arrive-Live s rgba (pos (suc w)) (pos zero) l = same-Live s _ (itself s) l
arrive-Live s rgba (pos (suc w)) (pos (suc h)) l = record {
  ready = l.ready;
  fresh = λ h. ground arith;
  there = λ h. refl;
}

either-Live :
    (b : Bool) (x y : Screen)
    → (b ≡ true → Live x)
    → (b ≡ false → Live y)
    → Live (if b then x else y)
either-Live true x y h h' = h refl
either-Live false x y h h' = h' refl

upload-Live : (s : Screen) → Live s → Live (upload s)
unfolding upload
upload-Live s l =
    either-Live (s.renderer.has_new_frame && is_there s.renderer.frame) _ s
      (λ b. record { ready = l.ready; fresh = λ h. refl; there = λ h. ground arith }) (λ b. l)

either-latest :
    (b : Bool) (x y : Screen) (f : Option GuestFrame)
    → (b ≡ true → x.gl.image ≡ f)
    → (b ≡ false → y.gl.image ≡ f)
    → (if b then x else y).gl.image ≡ f
either-latest true x y f h h' = h refl
either-latest false x y f h h' = h' refl

-- The test of the upload is false where there is no new frame.
old_frame : (new here : Bool) → (new && here) ≡ false → (new ≡ true → here ≡ true) → new ≡ false
old_frame true here b h = ground (arith, h refl)
old_frame false here b h = refl

upload-latest : (s : Screen) → Live s → (upload s).gl.image ≡ s.renderer.frame
unfolding upload
upload-latest s l =
    either-latest (s.renderer.has_new_frame && is_there s.renderer.frame) _ s s.renderer.frame
      (λ b. refl)
      (λ b. l.fresh (old_frame s.renderer.has_new_frame (is_there s.renderer.frame) b l.there))

module _ {D : Type 0} (o : Doubles D) (geometry : ℕ → ℤ × ℤ) where
  draw_at-Live : (stage : Stage) (s : Screen) → Live s → Live (draw_at o stage s)
  unfolding draw
  draw_at-Live ready_to_draw s l =
      same-Live (upload s) _
        (record { ready_is = refl; new_is = refl; frame_is = refl; image_is = refl })
        (upload-Live s l)
  draw_at-Live unmade s l = l
  draw_at-Live waiting s l = l
  draw_at-Live drawn s l = l
  draw_at-Live stopped s l = l

  swap_at-Live :
      (stage : Stage) (answer : Bool → Option ℕ → Option SwapError) (s : Screen)
      → not (is_lost (answer s.egl.display s.egl.surface)) ≡ true
      → Live s
      → Live (swap_at stage answer s).0
  swap_at-Live drawn answer s ok l = same-Live s (swap answer s).0 (swap-Alike answer s ok) l
  swap_at-Live unmade answer s ok l = l
  swap_at-Live waiting answer s ok l = l
  swap_at-Live ready_to_draw answer s ok l = l
  swap_at-Live stopped answer s ok l = l

  step-Live : (s : Screen) (e : Event) → survives s e ≡ true → Live s → Live (step o geometry s e).0
  unfolding step
  step-Live s (binds window) ok l =
      same-Live s (bind geometry s window) (bind-Alike geometry s window) l
  step-Live s (resizes width height) ok l = same-Live s _ (resize-Alike s width height) l
  step-Live s destroys ok l = same-Live s (destroy s).0 (destroy-Alike s) l
  step-Live s (arrives f) ok l = arrive-Live s f.pixels f.width f.height l
  step-Live s (begins a g) ok l =
      same-Live s (begin_at s.stage a g s).0 (begin_at-Alike s.stage a g s l.ready) l
  step-Live s draws ok l = draw_at-Live s.stage s l
  step-Live s (swaps answer) ok l = swap_at-Live s.stage answer s ok l

  run-Live :
      (s : Screen) (es : List Event)
      → lasts o geometry s es ≡ true
      → Live s
      → Live (run o geometry s es).0
  unfolding lasts run
  run-Live s [] ok l = l
  run-Live s (e ∷ es) ok l =
      let split = split-and (survives s e) (lasts o geometry (step o geometry s e).0 es) ok in
      run-Live (step o geometry s e).0 es split.1 (step-Live s e split.0 l)

first-Live :
    {D : Type 0} (o : Doubles D) (geometry : ℕ → ℤ × ℤ) (w : ℕ) (a : EglAnswers) (g : GlAnswers)
    → (init_egl a w closed).ok ≡ true
    → Live (run o geometry new_screen (binds (some w) ∷ begins a g ∷ [])).0
unfolding run bind begin_round set_native_window bind_window ensure_pump_started setup_gl
first-Live o geometry w a g ok =
    either-step Live (init_egl a w closed).ok _ _
      (λ b. record { ready = refl; fresh = λ h. ground arith; there = λ h. ground arith })
      (λ b. ground (arith, ok, b))

draw-sampler :
    {D : Type 0} (o : Doubles D) (s : Screen)
    → (draw o s).1.sampler ≡ at_location s.use_texture_loc (is_there s.renderer.frame)
unfolding draw
draw-sampler o s = refl

draw-image : {D : Type 0} (o : Doubles D) (s : Screen) → (draw o s).1.image ≡ (upload s).gl.image
unfolding draw
draw-image o s = refl

-- From the first EGL on, and as long as no swap takes it down, each frame is drawn with the latest
-- guest frame as its texture, and uUseTexture is set exactly if there is a guest frame, however
-- surface calls, sizes, frames and rounds come in between.
pub draw_latest :
    {D : Type 0} (o : Doubles D) (geometry : ℕ → ℤ × ℤ) (w : ℕ) (a : EglAnswers) (g : GlAnswers)
    (es : List Event)
    → (init_egl a w closed).ok ≡ true
    → lasts o geometry (run o geometry new_screen (binds (some w) ∷ begins a g ∷ [])).0 es ≡ true
    → (let s = (run o geometry new_screen (binds (some w) ∷ begins a g ∷ es)).0 in
        ((draw o s).1.image ≡ s.renderer.frame)
        × ((draw o s).1.sampler ≡ at_location s.use_texture_loc (is_there s.renderer.frame)))
unfolding run
draw_latest o geometry w a g es ok steady =
    let first = (run o geometry new_screen (binds (some w) ∷ begins a g ∷ [])).0 in
    (
      draw-image o (run o geometry first es).0
          ∙ upload-latest (run o geometry first es).0
              (run-Live o geometry first es steady (first-Live o geometry w a g ok)),
      draw-sampler o (run o geometry first es).0,
    )
