-- ===== src/Host/Render/Balance.antt =====
-- The EGL resources of core/display_renderer.cpp, and what initEGL and terminateEGL take and give.
pub mod Runs
use virtualaosp.Base.{
  ℕ, zero, suc, ◌+◌, ◌≤◌, Bool, true, false, ◌&&◌, ◌||◌, not, Option, none, some, List, [], ◌∷◌,
  ◌++◌, ◌==◌, ◌≡◌, refl, ap, ◌∙◌, sym, subst, inl, inr, arith, if◌then◌else◌, Bool-cases,
}
use virtualaosp.Base.Int.{ℤ}
use virtualaosp.Host.Renderer.{Renderer, same_window, set_native_window, destroy_window}
use virtualaosp.Host.Renderer.Egl.{
  Egl, closed, EglAct, get_display, initialize, terminate, create_context, destroy_context,
  create_surface, destroy_surface, EglAnswers, EglInit, init_surface, init_context, init_display,
  init_egl, terminate_egl, destroyed_surface, destroyed_context, GlAnswers, setup_gl,
}
use virtualaosp.Host.Renderer.Letterbox.{Doubles}
use virtualaosp.Host.Render.{
  Screen, new_screen, Stage, unmade, waiting, ready_to_draw, drawn, stopped, end_loop, set_up,
  window_block, on_window, begin_round, begin_at, upload, is_there, draw, draw_at, SwapError,
  is_lost, swap, swap_at, bind, destroy, Event, binds, resizes, destroys, arrives, begins, draws,
  swaps, step, run,
}

-- A display that eglGetDisplay gave, a context, or a surface on a window.
pub data Resource : Type 0 where
  displays contexts : Resource
  surfaces : ℕ → Resource

abbrev gain : Resource → EglAct → ℕ
gain displays get_display = 1
gain contexts create_context = 1
gain (surfaces w) (create_surface v) = if v == w then 1 else 0
gain k act = 0

abbrev loss : Resource → EglAct → ℕ
loss displays terminate = 1
loss contexts destroy_context = 1
loss (surfaces w) (destroy_surface v) = if v == w then 1 else 0
loss k act = 0

pub gains : Resource → List EglAct → ℕ
gains k [] = 0
gains k (act ∷ acts) = gain k act + gains k acts

pub losses : Resource → List EglAct → ℕ
losses k [] = 0
losses k (act ∷ acts) = loss k act + losses k acts

-- The displays that were initialised.
abbrev is_init : EglAct → ℕ
is_init initialize = 1
is_init act = 0

pub inits : List EglAct → ℕ
inits [] = 0
inits (act ∷ acts) = is_init act + inits acts

inits-append : (xs ys : List EglAct) → inits (xs ++ ys) ≡ inits xs + inits ys
unfolding inits
inits-append [] ys = omega arith
inits-append (x ∷ xs) ys = omega (arith, inits-append xs ys)

abbrev one_if : Bool → ℕ
one_if true = 1
one_if false = 0

abbrev on_surface : ℕ → Option ℕ → ℕ
on_surface w none = 0
on_surface w (some v) = if v == w then 1 else 0

abbrev pub holds : Resource → Egl → ℕ
holds displays e = one_if e.display
holds contexts e = one_if e.context
holds (surfaces w) e = on_surface w e.surface

gains-append : (k : Resource) (xs ys : List EglAct) → gains k (xs ++ ys) ≡ gains k xs + gains k ys
unfolding gains
gains-append k [] ys = omega arith
gains-append k (x ∷ xs) ys = omega (arith, gains-append k xs ys)

losses-append :
    (k : Resource) (xs ys : List EglAct) → losses k (xs ++ ys) ≡ losses k xs + losses k ys
unfolding losses
losses-append k [] ys = omega arith
losses-append k (x ∷ xs) ys = omega (arith, losses-append k xs ys)

-- Without a display there is no surface and no context.
abbrev pub Kept : Egl → Type 0
Kept e = e.display ≡ false → e ≡ closed

-- What was taken is given back or held, and no display is initialised that was not taken.
abbrev pub Balanced : Egl → Egl × List EglAct → Type 0
Balanced e (e', acts) =
    ((k : Resource) → gains k acts + holds k e ≡ losses k acts + holds k e')
    × (inits acts ≤ gains displays acts)

-- An EGL state with a display, in which the calls made take nothing that is not in it.
pub record Opened (i : EglInit) : Type 0 where
  pub kept : Kept i.egl
  pub balanced : Balanced closed (i.egl, i.acts)

init-gains :
    (a : EglAnswers) (w : ℕ) (k : Resource)
    → gains k (init_egl a w closed).acts + holds k closed
      ≡ losses k (init_egl a w closed).acts + holds k (init_egl a w closed).egl
unfolding init_egl gains losses
init-gains a w displays = ground arith
init-gains a w contexts = ground arith
init-gains a w (surfaces v) = ground arith

init-inits :
    (a : EglAnswers) (w : ℕ)
    → inits (init_egl a w closed).acts ≤ gains displays (init_egl a w closed).acts
unfolding init_egl gains inits
init-inits a w = ground arith

pub init-Opened : (a : EglAnswers) (w : ℕ) → Opened (init_egl a w closed)
unfolding init_egl
init-Opened a w = record { kept = ground arith; balanced = (init-gains a w, init-inits a w) }

terminate-losses :
    (e : Egl) (k : Resource)
    → gains k (terminate_egl e).1 + holds k e
      ≡ losses k (terminate_egl e).1 + holds k (terminate_egl e).0
unfolding terminate_egl gains losses
terminate-losses e displays = ground arith
terminate-losses e contexts = ground arith
terminate-losses e (surfaces v) = ground arith

terminate-inits : (e : Egl) → inits (terminate_egl e).1 ≤ gains displays (terminate_egl e).1
unfolding terminate_egl gains inits
terminate-inits e = ground arith

pub terminate-Balanced : (e : Egl) → Balanced e (terminate_egl e)
terminate-Balanced e = (terminate-losses e, terminate-inits e)

either-closed :
    (b : Bool) (x y : Egl × List EglAct)
    → x.0 ≡ closed
    → (b ≡ false → y.0 ≡ closed)
    → (if b then x else y).0 ≡ closed
either-closed true x y h h' = h
either-closed false x y h h' = h' refl

pub terminate-closed : (e : Egl) → Kept e → (terminate_egl e).0 ≡ closed
unfolding terminate_egl
terminate-closed e kept = either-closed e.display _ (e, []) refl kept

pub after-Balanced :
    (e : Egl) (x : Egl × List EglAct) (y : Egl × List EglAct)
    → Balanced e x
    → Balanced x.0 y
    → Balanced e (y.0, x.1 ++ y.1)
after-Balanced e x y h h' = (
  (λ k. omega (arith, h.0 k, h'.0 k, gains-append k x.1 y.1, losses-append k x.1 y.1)),
  omega (arith, h.1, h'.1, gains-append displays x.1 y.1, inits-append x.1 y.1),
)

pub nothing-Balanced : (e e' : Egl) → e' ≡ e → Balanced e (e', [])
unfolding gains losses inits
nothing-Balanced e e' same = ((λ k. ap (λ x. 0 + holds k x) (sym same)), omega arith)
