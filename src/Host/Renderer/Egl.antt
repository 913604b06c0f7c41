-- ===== src/Host/Renderer/Egl.antt =====
-- The EGL and GL set-up of core/display_renderer.cpp: initEGL, terminateEGL, compileShader and
-- setupGL. The EGL and GL libraries are not part of the repository: what their calls answer is an
-- argument, and the calls that take or give back a resource are a trace. Of a handle it is kept
-- whether it is there, of a surface the window it was made on.
use virtualaosp.Base.{
  ℕ, Bool, true, false, ◌||◌, not, Option, none, some, List, [], ◌∷◌, ◌++◌, if◌then◌else◌,
}
use virtualaosp.Host.Renderer.{GuestFrame}

-- mEglDisplay, mEglSurface and mEglContext
pub record Egl : Type 0 where
  pub display : Bool
  pub surface : Option ℕ
  pub context : Bool

abbrev pub closed : Egl
closed = record { display = false; surface = none; context = false }

pub data EglAct : Type 0 where
  get_display initialize terminate create_context destroy_context : EglAct
  create_surface destroy_surface : ℕ → EglAct

-- What the calls of one initEGL answer, in their order; `configs` is numConfigs.
pub record EglAnswers : Type 0 where
  pub has_display : Bool
  pub initializes : Bool
  pub chooses : Bool
  pub configs : Bool
  pub context_es3 : Bool
  pub context_es2 : Bool
  pub has_surface : Bool
  pub makes_current : Bool

pub record EglInit : Type 0 where
  pub ok : Bool
  pub egl : Egl
  pub acts : List EglAct

-- The context of version 3, or else of version 2: two calls, of which one at most gives a context.
abbrev pub init_surface : EglAnswers → ℕ → Egl → EglInit
init_surface a window e =
    if not a.has_surface
    then record { ok = false; egl = record e { surface = none }; acts = [] }
    else record {
      ok = a.makes_current;
      egl = record e { surface = some window };
      acts = create_surface window ∷ [];
    }

abbrev pub init_context : EglAnswers → ℕ → Egl → EglInit
init_context a window e =
    let made = a.context_es3 || a.context_es2 in
    let rest = init_surface a window (record e { context = made }) in
    if not made
    then record { ok = false; egl = record e { context = made }; acts = [] }
    else record rest { acts = create_context ∷ rest.acts }

-- A display that eglGetDisplay gave; `initialize` is an eglInitialize that succeeds.
abbrev pub init_display : EglAnswers → ℕ → Egl → EglInit
init_display a window e =
    let rest = init_context a window e in
    if not a.initializes
    then record { ok = false; egl = e; acts = get_display ∷ [] }
    else if not a.chooses || not a.configs
    then record { ok = false; egl = e; acts = get_display ∷ initialize ∷ [] }
    else record rest { acts = get_display ∷ initialize ∷ rest.acts }

-- Only the mWindow of the caller is read, which is not null there.
unfoldable pub init_egl : EglAnswers → ℕ → Egl → EglInit
init_egl a window e =
    if not a.has_display
    then record { ok = false; egl = record e { display = false }; acts = [] }
    else init_display a window (record e { display = true })

abbrev pub destroyed_surface : Option ℕ → List EglAct
destroyed_surface none = []
destroyed_surface (some w) = destroy_surface w ∷ []

abbrev pub destroyed_context : Bool → List EglAct
destroyed_context true = destroy_context ∷ []
destroyed_context false = []

unfoldable pub terminate_egl : Egl → Egl × List EglAct
terminate_egl e =
    if e.display
    then (closed, destroyed_surface e.surface ++ (destroyed_context e.context ++ (terminate ∷ [])))
    else (e, [])

-- mProgram, mVao, mVbo and mTextureId, and what glTexImage2D put in the texture of the context.
pub record Gl : Type 0 where
  pub program : ℕ
  pub vao : ℕ
  pub vbo : ℕ
  pub texture : ℕ
  pub image : Option GuestFrame

abbrev pub no_gl : Gl
no_gl = record { program = 0; vao = 0; vbo = 0; texture = 0; image = none }

-- The names the calls of setupGL give, and how the compiler and the linker decide.
pub record GlAnswers : Type 0 where
  pub vertex : ℕ
  pub vertex_compiles : Bool
  pub fragment : ℕ
  pub fragment_compiles : Bool
  pub program_name : ℕ
  pub links : Bool
  pub vao_name : ℕ
  pub vbo_name : ℕ
  pub texture_name : ℕ
  -- glGetUniformLocation; -1 is `none`.
  pub use_texture_at : Option ℕ
  pub time_at : Option ℕ

pub data ShaderAct : Type 0 where
  create_shader delete_shader : ℕ → ShaderAct
  attach_shader : ℕ → ℕ → ShaderAct

unfoldable pub compile_shader : ℕ → Bool → ℕ × List ShaderAct
compile_shader shader ok =
    if ok
    then (shader, create_shader shader ∷ [])
    else (0, create_shader shader ∷ delete_shader shader ∷ [])

-- The texture of a new context has no image. Without a link the other names are the ones of the
-- context before.
unfoldable pub setup_gl : GlAnswers → Gl → Gl × List ShaderAct
unfolding compile_shader
setup_gl a gl =
    let (vs, acts) = compile_shader a.vertex a.vertex_compiles in
    let (fs, more) = compile_shader a.fragment a.fragment_compiles in
    let p = a.program_name in
    (
      if a.links
          then record {
            program = p;
            vao = a.vao_name;
            vbo = a.vbo_name;
            texture = a.texture_name;
            image = none;
          }
          else record gl { program = p; image = none },
      acts
          ++ (more
              ++ (attach_shader p vs
                  ∷ attach_shader p fs
                  ∷ delete_shader vs
                  ∷ delete_shader fs
                  ∷ [])),
    )
