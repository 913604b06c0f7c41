-- ===== src/Host/Render.antt =====
-- renderLoop of core/display_renderer.cpp with the calls that meet it. A round of the loop is
-- three steps, between which the other threads can come: the block under mWindowMutex, the upload
-- under mFrameMutex, and eglSwapBuffers. Uniform values are a part of the draw.
pub mod Balance
pub mod Replace
pub mod Steady
pub mod Texture
use virtualaosp.Base.{
  ℕ, zero, suc, ◌+◌, Bool, true, false, ◌&&◌, ◌||◌, not, Option, none, some, List, [], ◌∷◌, ◌++◌,
  if◌then◌else◌,
}
use virtualaosp.Base.Int.{ℤ, pos, negsuc}
use virtualaosp.Host.Renderer.{
  GuestFrame, Renderer, new_renderer, same_window, bind_window, set_native_window,
  update_window_size, destroy_window, Snapshot, update_guest_frame,
}
use virtualaosp.Host.Renderer.Egl.{
  Egl, closed, EglAct, EglAnswers, EglInit, init_egl, terminate_egl, Gl, no_gl, GlAnswers, setup_gl,
}
use virtualaosp.Host.Renderer.Letterbox.{Doubles, Viewport, letterbox}

-- What a frame is drawn with: `sampler` is the value of uUseTexture and `time` of uTime, in units
-- of 0.016 s, `none` where the program has no such uniform.
pub record Draw : Type 0 where
  pub viewport : Viewport
  pub sampler : Option Bool
  pub time : Option ℕ
  pub image : Option GuestFrame

-- Where the render thread is: not made, at the head of the loop, behind the block of the window,
-- in front of the swap, or ended.
pub data Stage : Type 0 where
  unmade waiting ready_to_draw drawn stopped : Stage

-- The renderer, its EGL and GL state, and the locals of renderLoop.
pub record Screen : Type 0 where
  pub renderer : Renderer
  pub egl : Egl
  pub gl : Gl
  pub stage : Stage
  pub egl_ready : Bool
  pub time_val : ℕ
  pub use_texture_loc : Option ℕ
  pub time_loc : Option ℕ

abbrev pub new_screen : Screen
new_screen = record {
  renderer = new_renderer;
  egl = closed;
  gl = no_gl;
  stage = unmade;
  egl_ready = false;
  time_val = 0;
  use_texture_loc = none;
  time_loc = none;
}

-- The end of the loop.
abbrev pub end_loop : Screen → Screen × List EglAct
end_loop s =
    if s.egl_ready
    then (let (e, acts) = terminate_egl s.egl in (record s { egl = e; stage = stopped }, acts))
    else (record s { stage = stopped }, [])

abbrev pub set_up : EglInit → GlAnswers → Screen → Screen × List EglAct
set_up i g s =
    if i.ok
    then (
      record s {
        egl = i.egl;
        gl = (setup_gl g s.gl).0;
        use_texture_loc = g.use_texture_at;
        time_loc = g.time_at;
        egl_ready = true;
        stage = ready_to_draw;
      },
      i.acts,
    )
    else (let (e, acts) = terminate_egl i.egl in
        (record s { egl = e; stage = waiting }, i.acts ++ acts))

-- The block under mWindowMutex, where a window is there.
abbrev pub window_block : EglAnswers → GlAnswers → ℕ → Screen → Screen × List EglAct
window_block a g w s =
    if s.egl_ready
    then (record s { stage = ready_to_draw }, [])
    else set_up (init_egl a w s.egl) g s

abbrev pub on_window : EglAnswers → GlAnswers → Option ℕ → Screen → Screen × List EglAct
on_window a g none s = (record s { stage = waiting }, [])
on_window a g (some w) s = window_block a g w s

-- From the test of mRunning up to the viewport.
unfoldable pub begin_round : EglAnswers → GlAnswers → Screen → Screen × List EglAct
unfolding init_egl terminate_egl setup_gl
begin_round a g s = if s.renderer.running then on_window a g s.renderer.window s else end_loop s

-- mGuestFrameWidth and mGuestFrameHeight, which are 1080 and 2400 up to the first frame.
abbrev pub guest_width : Option GuestFrame → ℕ
guest_width none = 1080
guest_width (some f) = f.width

abbrev pub guest_height : Option GuestFrame → ℕ
guest_height none = 2400
guest_height (some f) = f.height

abbrev pub is_there : Option GuestFrame → Bool
is_there none = false
is_there (some f) = true

-- A guest frame has at least four bytes, so the buffer is empty up to the first.
unfoldable pub upload : Screen → Screen
upload s =
    if s.renderer.has_new_frame && is_there s.renderer.frame
    then record s {
      renderer = record (s.renderer) { has_new_frame = false };
      gl = record (s.gl) { image = s.renderer.frame };
    }
    else s

abbrev pub at_location : {A : Type 0} → Option ℕ → A → Option A
at_location none v = none
at_location (some l) v = some v

-- From the viewport up to glDrawArrays; the sizes are read together with the frame.
unfoldable pub draw : {D : Type 0} → Doubles D → Screen → Screen × Draw
unfolding upload letterbox
draw o s =
    let r = s.renderer in
    let s' = upload s in
    let time = suc s.time_val in
    (
      record s' { time_val = time; stage = drawn },
      record {
        viewport = letterbox o (guest_width r.frame) (guest_height r.frame) r.width r.height;
        sampler = at_location s.use_texture_loc (is_there r.frame);
        time = at_location s.time_loc time;
        image = s'.gl.image;
      },
    )

-- eglGetError behind an eglSwapBuffers that failed; `other_error` is any other code.
pub data SwapError : Type 0 where
  bad_surface bad_display bad_native_window other_error : SwapError

abbrev pub is_lost : Option SwapError → Bool
is_lost none = false
is_lost (some bad_surface) = true
is_lost (some bad_display) = true
is_lost (some bad_native_window) = true
is_lost (some other_error) = false

-- What eglSwapBuffers does with mEglDisplay and mEglSurface.
unfoldable pub swap : (Bool → Option ℕ → Option SwapError) → Screen → Screen × List EglAct
unfolding terminate_egl
swap answer s =
    if is_lost (answer s.egl.display s.egl.surface)
    then (let (e, acts) = terminate_egl s.egl in
        (record s { egl = e; egl_ready = false; stage = waiting }, acts))
    else (record s { stage = waiting }, [])

abbrev pub started_loop : Bool → Stage → Stage
started_loop true stage = stage
started_loop false stage = waiting

-- setNativeWindow makes the render thread where it sets mRunning.
unfoldable pub bind : (ℕ → ℤ × ℤ) → Screen → Option ℕ → Screen
unfolding set_native_window
bind geometry s window =
    let r = s.renderer in
    if same_window window r.window
    then record s { renderer = (set_native_window geometry r window).0 }
    else record s {
      renderer = (set_native_window geometry r window).0;
      stage = started_loop r.running s.stage;
    }

unfoldable pub destroy : Screen → Screen × List EglAct
unfolding terminate_egl destroy_window
destroy s =
    let (e, acts) = terminate_egl s.egl in
    (record s { egl = e; renderer = (destroy_window s.renderer).0 }, acts)

-- The calls of the other threads, and the steps of the render thread; a step of the thread is
-- taken where the thread is in front of it.
pub data Event : Type 0 where
  binds : Option ℕ → Event
  resizes : ℤ → ℤ → Event
  destroys : Event
  arrives : Snapshot → Event
  begins : EglAnswers → GlAnswers → Event
  draws : Event
  swaps : (Bool → Option ℕ → Option SwapError) → Event

abbrev pub begin_at : Stage → EglAnswers → GlAnswers → Screen → Screen × List EglAct
begin_at waiting a g s = begin_round a g s
begin_at stage a g s = (s, [])

abbrev pub draw_at : {D : Type 0} → Doubles D → Stage → Screen → Screen
draw_at o ready_to_draw s = (draw o s).0
draw_at o stage s = s

abbrev pub swap_at : Stage → (Bool → Option ℕ → Option SwapError) → Screen → Screen × List EglAct
swap_at drawn answer s = swap answer s
swap_at stage answer s = (s, [])

unfoldable pub step : {D : Type 0} → Doubles D → (ℕ → ℤ × ℤ) → Screen → Event → Screen × List EglAct
unfolding bind destroy begin_round draw swap update_window_size update_guest_frame
step o geometry s (binds window) = (bind geometry s window, [])
step o geometry s (resizes width height) =
    (record s { renderer = update_window_size s.renderer width height }, [])
step o geometry s destroys = destroy s
step o geometry s (arrives f) =
    (record s { renderer = update_guest_frame s.renderer (some f.pixels) f.width f.height }, [])
step o geometry s (begins a g) = begin_at s.stage a g s
step o geometry s draws = (draw_at o s.stage s, [])
step o geometry s (swaps answer) = swap_at s.stage answer s

unfoldable pub run :
    {D : Type 0} → Doubles D → (ℕ → ℤ × ℤ) → Screen → List Event → Screen × List EglAct
unfolding step
run o geometry s [] = (s, [])
run o geometry s (e ∷ es) =
    let (s', acts) = step o geometry s e in
    let (s'', more) = run o geometry s' es in (s'', acts ++ more)
