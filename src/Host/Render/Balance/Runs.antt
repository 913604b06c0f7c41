-- ===== src/Host/Render/Balance/Runs.antt =====
-- The EGL resources over the steps of the render loop of core/display_renderer.cpp.
use virtualaosp.Base.{
  ℕ, ◌+◌, ◌≤◌, Bool, true, false, ◌&&◌, Option, none, some, List, [], ◌∷◌, ◌++◌, ◌≡◌, refl, ap, ◌∙◌,
  sym, subst, arith, if◌then◌else◌,
}
use virtualaosp.Base.Int.{ℤ}
use virtualaosp.Host.Renderer.{same_window}
use virtualaosp.Host.Renderer.Egl.{
  closed, EglAct, EglAnswers, EglInit, init_egl, terminate_egl, GlAnswers,
}
use virtualaosp.Host.Renderer.Letterbox.{Doubles}
use virtualaosp.Host.Render.{
  Screen, new_screen, Stage, unmade, waiting, ready_to_draw, drawn, stopped, end_loop, set_up,
  window_block, on_window, begin_round, begin_at, upload, is_there, draw, draw_at, SwapError,
  is_lost, swap, swap_at, bind, destroy, Event, binds, resizes, destroys, arrives, begins, draws,
  swaps, step, run,
}
use virtualaosp.Host.Render.Balance.{
  Opened, Resource, gains, losses, inits, holds, Kept, Balanced, init-Opened, terminate-Balanced,
  terminate-closed, after-Balanced, nothing-Balanced, displays, contexts, surfaces,
}

-- What holds between the steps: nothing is held without a display, nor while the loop has no EGL.
record Inv (s : Screen) : Type 0 where
  kept : Kept s.egl
  idle : s.egl_ready ≡ false → s.egl ≡ closed

-- A step keeps `Inv` and the balance.
record Good (s : Screen) (x : Screen × List EglAct) : Type 0 where
  inv : Inv (x.0)
  balanced : Balanced s.egl (x.0.egl, x.1)

-- Steps that touch neither EGL nor `egl_ready`.
same-Good : (s s' : Screen) → s'.egl ≡ s.egl → s'.egl_ready ≡ s.egl_ready → Inv s → Good s (s', [])
same-Good s s' e r inv = record {
  inv = record {
    kept = λ down. e ∙ inv.kept (sym (ap (λ x. x.display) e) ∙ down);
    idle = λ no_egl. e ∙ inv.idle (sym r ∙ no_egl);
  };
  balanced = nothing-Balanced s.egl s'.egl e;
}

closed-Inv : (s : Screen) → s.egl ≡ closed → Inv s
closed-Inv s e = record { kept = λ down. e; idle = λ no_egl. e }

either-Good :
    (b : Bool) (s : Screen) (x y : Screen × List EglAct)
    → (b ≡ true → Good s x)
    → (b ≡ false → Good s y)
    → Good s (if b then x else y)
either-Good true s x y h h' = h refl
either-Good false s x y h h' = h' refl

-- EGL is taken down.
down-Good :
    (s s' : Screen)
    → s'.egl ≡ (terminate_egl s.egl).0
    → Inv s
    → Good s (s', (terminate_egl s.egl).1)
down-Good s s' e inv = record {
  inv = closed-Inv s' (e ∙ terminate-closed s.egl inv.kept);
  balanced =
      subst (λ x. Balanced s.egl (x, (terminate_egl s.egl).1)) (sym e) (terminate-Balanced s.egl);
}

end-Good : (s : Screen) → Inv s → Good s (end_loop s)
end-Good s inv =
    either-Good s.egl_ready s _ (record s { stage = stopped }, [])
      (λ b. down-Good s (record s { egl = (terminate_egl s.egl).0; stage = stopped }) refl inv)
      (λ b. same-Good s (record s { stage = stopped }) refl refl inv)

set_up-Good :
    (i : EglInit) (g : GlAnswers) (s : Screen) → s.egl ≡ closed → Opened i → Good s (set_up i g s)
set_up-Good i g s e opened =
    either-Good i.ok s _ _
      (λ ok. record {
        inv = record { kept = opened.kept; idle = λ no_egl. ground arith };
        balanced = subst (λ x. Balanced x (i.egl, i.acts)) (sym e) opened.balanced;
      })
      (λ ok. record {
        inv = closed-Inv _ (terminate-closed i.egl opened.kept);
        balanced =
            subst (λ x. Balanced x ((terminate_egl i.egl).0, i.acts ++ (terminate_egl i.egl).1))
              (sym e)
              (after-Balanced closed (i.egl, i.acts) (terminate_egl i.egl) opened.balanced
                (terminate-Balanced i.egl));
      })

block-Good :
    (a : EglAnswers) (g : GlAnswers) (w : ℕ) (s : Screen) → Inv s → Good s (window_block a g w s)
block-Good a g w s inv =
    either-Good s.egl_ready s (record s { stage = ready_to_draw }, []) _
      (λ b. same-Good s (record s { stage = ready_to_draw }) refl refl inv)
      (λ b.
        set_up-Good (init_egl a w s.egl) g s (inv.idle b)
          (subst (λ e. Opened (init_egl a w e)) (sym (inv.idle b)) (init-Opened a w)))

window-Good :
    (a : EglAnswers) (g : GlAnswers) (o : Option ℕ) (s : Screen)
    → Inv s
    → Good s (on_window a g o s)
window-Good a g none s inv = same-Good s (record s { stage = waiting }) refl refl inv
window-Good a g (some w) s inv = block-Good a g w s inv

begin-Good : (a : EglAnswers) (g : GlAnswers) (s : Screen) → Inv s → Good s (begin_round a g s)
unfolding begin_round
begin-Good a g s inv =
    either-Good s.renderer.running s _ _ (λ b. window-Good a g s.renderer.window s inv)
      (λ b. end-Good s inv)

begin_at-Good :
    (stage : Stage) (a : EglAnswers) (g : GlAnswers) (s : Screen)
    → Inv s
    → Good s (begin_at stage a g s)
begin_at-Good waiting a g s inv = begin-Good a g s inv
begin_at-Good unmade a g s inv = same-Good s s refl refl inv
begin_at-Good ready_to_draw a g s inv = same-Good s s refl refl inv
begin_at-Good drawn a g s inv = same-Good s s refl refl inv
begin_at-Good stopped a g s inv = same-Good s s refl refl inv

-- A choice of screens with the EGL state of one.
either-same :
    (b : Bool) (s x y : Screen)
    → (x.egl ≡ s.egl) × (x.egl_ready ≡ s.egl_ready)
    → (y.egl ≡ s.egl) × (y.egl_ready ≡ s.egl_ready)
    → ((if b then x else y).egl ≡ s.egl) × ((if b then x else y).egl_ready ≡ s.egl_ready)
either-same true s x y h h' = h
either-same false s x y h h' = h'

pub upload-same : (s : Screen) → ((upload s).egl ≡ s.egl) × ((upload s).egl_ready ≡ s.egl_ready)
unfolding upload
upload-same s =
    either-same (s.renderer.has_new_frame && is_there s.renderer.frame) s _ s (refl, refl)
      (refl, refl)

module _ {D : Type 0} (o : Doubles D) (geometry : ℕ → ℤ × ℤ) where
  draw_at-Good : (stage : Stage) (s : Screen) → Inv s → Good s (draw_at o stage s, [])
  unfolding draw
  draw_at-Good ready_to_draw s inv =
      same-Good s (draw o s).0 (upload-same s).0 (upload-same s).1 inv
  draw_at-Good unmade s inv = same-Good s s refl refl inv
  draw_at-Good waiting s inv = same-Good s s refl refl inv
  draw_at-Good drawn s inv = same-Good s s refl refl inv
  draw_at-Good stopped s inv = same-Good s s refl refl inv

  swap-Good :
      (answer : Bool → Option ℕ → Option SwapError) (s : Screen) → Inv s → Good s (swap answer s)
  unfolding swap
  swap-Good answer s inv =
      either-Good (is_lost (answer s.egl.display s.egl.surface)) s _
        (record s { stage = waiting }, [])
        (λ b.
          down-Good s
            (record s { egl = (terminate_egl s.egl).0; egl_ready = false; stage = waiting }) refl
            inv)
        (λ b. same-Good s (record s { stage = waiting }) refl refl inv)

  swap_at-Good :
      (stage : Stage) (answer : Bool → Option ℕ → Option SwapError) (s : Screen)
      → Inv s
      → Good s (swap_at stage answer s)
  swap_at-Good drawn answer s inv = swap-Good answer s inv
  swap_at-Good unmade answer s inv = same-Good s s refl refl inv
  swap_at-Good waiting answer s inv = same-Good s s refl refl inv
  swap_at-Good ready_to_draw answer s inv = same-Good s s refl refl inv
  swap_at-Good stopped answer s inv = same-Good s s refl refl inv

  pub bind-same :
      (s : Screen) (window : Option ℕ)
      → ((bind geometry s window).egl ≡ s.egl) × ((bind geometry s window).egl_ready ≡ s.egl_ready)
  unfolding bind
  bind-same s window =
      either-same (same_window window s.renderer.window) s _ _ (refl, refl) (refl, refl)

  step-Good : (s : Screen) (e : Event) → Inv s → Good s (step o geometry s e)
  unfolding step destroy
  step-Good s (binds window) inv =
      same-Good s (bind geometry s window) (bind-same s window).0 (bind-same s window).1 inv
  step-Good s (resizes width height) inv =
      same-Good s (step o geometry s (resizes width height)).0 refl refl inv
  step-Good s destroys inv = down-Good s (destroy s).0 refl inv
  step-Good s (arrives f) inv = same-Good s (step o geometry s (arrives f)).0 refl refl inv
  step-Good s (begins a g) inv = begin_at-Good s.stage a g s inv
  step-Good s draws inv = draw_at-Good s.stage s inv
  step-Good s (swaps answer) inv = swap_at-Good s.stage answer s inv

  run-Good : (s : Screen) (es : List Event) → Inv s → Good s (run o geometry s es)
  unfolding run
  run-Good s [] inv = same-Good s s refl refl inv
  run-Good s (e ∷ es) inv =
      let first = step-Good s e inv in
      let rest = run-Good (step o geometry s e).0 es first.inv in
      record {
        inv = rest.inv;
        balanced =
            after-Balanced s.egl ((step o geometry s e).0.egl, (step o geometry s e).1)
              (
                (run o geometry (step o geometry s e).0 es).0.egl,
                (run o geometry (step o geometry s e).0 es).1,
              )
              first.balanced rest.balanced;
      }

new-Inv : Inv new_screen
new-Inv = closed-Inv new_screen refl

-- Over any interleaving of the surface calls, frames and the steps of the render thread, whatever
-- EGL answers, the displays that eglGetDisplay gave, the contexts and the surfaces on each window are
-- the ones that were terminated or destroyed and the ones the renderer still has, and the displays
-- that were initialised are at most those that were terminated or that it still has; behind
-- `destroyWindow` it has none of them.
pub egl_balanced :
    {D : Type 0} (o : Doubles D) (geometry : ℕ → ℤ × ℤ) (k : Resource) (es : List Event)
    → (gains k (run o geometry new_screen es).1
        ≡ losses k (run o geometry new_screen es).1 + holds k (run o geometry new_screen es).0.egl)
      × (inits (run o geometry new_screen es).1
          ≤ losses displays (run o geometry new_screen es).1
            + holds displays (run o geometry new_screen es).0.egl)
      × ((destroy (run o geometry new_screen es).0).0.egl ≡ closed)
unfolding destroy
egl_balanced o geometry k es =
    let good = run-Good o geometry new_screen es new-Inv in
    (
      omega (arith, good.balanced.0 k, new-holds k),
      omega (arith, good.balanced.0 displays, good.balanced.1),
      terminate-closed (run o geometry new_screen es).0.egl good.inv.kept,
    )
  where
    new-holds : (k : Resource) → holds k closed ≡ 0
    new-holds displays = refl
    new-holds contexts = refl
    new-holds (surfaces w) = refl
