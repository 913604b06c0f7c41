-- ===== src/Tests/Render.antt =====
-- Runs of the render loop (core/display_renderer.cpp).
use native.Mathlib.Nat.{
  div-le_of_le-mul, div-mul-le_self, mul-le-mul_left, mul-le-mul_right, le_of_mul-le-mul_right,
  le-div_iff_mul-le,
}
use virtualaosp.Base.{
  ℕ, suc, ◌+◌, ◌-◌, ◌*◌, ◌/◌, ◌≤◌, Bool, true, false, Option, none, some, List, [], ◌∷◌, ◌≡◌, refl,
  arith, ltb,
}
use virtualaosp.Base.Int.{ℤ, pos}
use virtualaosp.Host.Renderer.{GuestFrame, Snapshot}
use virtualaosp.Host.Renderer.Egl.{EglAnswers, GlAnswers, closed, init_egl}
use virtualaosp.Host.Render.{
  waiting, drawn, swap_at, is_there, SwapError, bad_display, Event, binds, resizes, arrives, begins,
  draws, swaps, new_screen, run, draw, destroy, ready_to_draw, at_location,
}
use virtualaosp.Host.Render.Balance.{inits, displays, losses, surfaces, gains, losses, holds}
use virtualaosp.Host.Render.Balance.Runs.{egl_balanced}
use virtualaosp.Host.Render.Replace.{drawing, replacing}
use virtualaosp.Host.Render.Replace.Recovers.{replaced_window_recovers}
use virtualaosp.Host.Render.Texture.Latest.{lasts, draw_latest}
use virtualaosp.Host.Render.Texture.Lost.{quiet, frame_lost}
use virtualaosp.Host.Renderer.Letterbox.{Doubles, IsRounding, Fits, letterbox, letterbox-Fits}

-- (p + 1) / (q + 1) as the pair of p and q.
abbrev fractions : Doubles (ℕ × ℕ)
fractions = record {
  ratio = λ a b. (a - 1, b - 1);
  above = λ (x : ℕ × ℕ) (y : ℕ × ℕ). ltb ((y.0 + 1) * (x.1 + 1)) ((x.0 + 1) * (y.1 + 1));
  quotient = λ n (x : ℕ × ℕ). n * (x.1 + 1) / (x.0 + 1);
  product = λ n (x : ℕ × ℕ). n * (x.0 + 1) / (x.1 + 1);
}

div-le-div : (x y a c : ℕ) → x * (c + 1) ≤ y * (a + 1) → x / (a + 1) ≤ y / (c + 1)
div-le-div x y a c h =
    let k : ℕ = x / (a + 1) in
    let below : k * (a + 1) ≤ x = div-mul-le_self x (a + 1) in
    let scaled : k * (a + 1) * (c + 1) ≤ x * (c + 1) = mul-le-mul_right (c + 1) below in
    let crossed : k * (c + 1) * (a + 1) ≤ y * (a + 1) = grind (arith, scaled, h) in
    let fits : k * (c + 1) ≤ y = le_of_mul-le-mul_right crossed (omega arith) in
    (le-div_iff_mul-le {k = c + 1} {x = k} {y = y} (omega arith)).1 fits

cross_above : (n p q r s : ℕ) → ltb (r * q) (p * s) ≡ true → n * q * r ≤ n * s * p
cross_above n p q r s h =
    let less : r * q ≤ p * s = ground arith in
    let scaled : n * (r * q) ≤ n * (p * s) = mul-le-mul_left n less in grind (arith, scaled)

cross_below : (n p q r s : ℕ) → ltb (r * q) (p * s) ≡ false → n * p * s ≤ n * r * q
cross_below n p q r s h =
    let less : p * s ≤ r * q = ground arith in
    let scaled : n * (p * s) ≤ n * (r * q) = mul-le-mul_left n less in grind (arith, scaled)

swap_back : (x y : ℕ) → suc x * (suc y - 1 + 1) ≤ (suc x - 1 + 1) * suc y
swap_back x y =
    let e : suc x - 1 + 1 ≡ suc x = omega arith in
    let e' : suc y - 1 + 1 ≡ suc y = omega arith in rw e (rw e' (omega arith))

fractions-IsRounding : IsRounding fractions
fractions-IsRounding = record {
  quotient_antitone = λ n a b h.
      div-le-div (n * (a.1 + 1)) (n * (b.1 + 1)) a.0 b.0
        (cross_above n (a.0 + 1) (a.1 + 1) (b.0 + 1) (b.1 + 1) h);
  product_monotone = λ n a b h.
      div-le-div (n * (a.0 + 1)) (n * (b.0 + 1)) a.1 b.1
        (cross_below n (a.0 + 1) (a.1 + 1) (b.0 + 1) (b.1 + 1) h);
  quotient_back = λ x y h h'. div-le_of_le-mul (suc x - 1 + 1) (swap_back x y);
  product_back = λ x y h h'. div-le_of_le-mul (suc y - 1 + 1) (swap_back y x);
}

letterbox-Fits_example : Fits 2400 1080 (letterbox fractions 1080 2400 (pos 2400) (pos 1080))
letterbox-Fits_example =
    letterbox-Fits fractions fractions-IsRounding 1079 2399 2399 1079 (omega arith) (omega arith)

abbrev geometry : ℕ → ℤ × ℤ
geometry w = (pos 720, pos 1280)

-- The version 3 of OpenGL ES is not there.
abbrev grants : EglAnswers
grants = record {
  has_display = true;
  initializes = true;
  chooses = true;
  configs = true;
  context_es3 = false;
  context_es2 = true;
  has_surface = true;
  makes_current = true;
}

abbrev no_current : EglAnswers
no_current = record grants { makes_current = false }

abbrev names : GlAnswers
names = record {
  vertex = 1;
  vertex_compiles = true;
  fragment = 2;
  fragment_compiles = true;
  program_name = 3;
  links = true;
  vao_name = 1;
  vbo_name = 1;
  texture_name = 1;
  use_texture_at = some 0;
  time_at = some 1;
}

-- A display that is not there is refused, and any other swap succeeds.
abbrev checks : Bool → Option ℕ → Option SwapError
checks true surface = none
checks false surface = some bad_display

abbrev snapshot : Snapshot
snapshot = record { pixels = 9 ∷ 8 ∷ 7 ∷ 255 ∷ []; width = pos 1; height = pos 1 }

abbrev shown : GuestFrame
shown = record { width = 1; height = 1; pixels = 9 ∷ 8 ∷ 7 ∷ 255 ∷ [] }

abbrev one_frame : List Event
one_frame = arrives snapshot ∷ draws ∷ swaps checks ∷ []

abbrev first_frame : List Event
first_frame = binds (some 4) ∷ begins grants names ∷ one_frame

egl_balanced_example :
    (let es = binds (some 4) ∷ begins no_current names ∷ begins grants names ∷ [] in
      (gains (surfaces 4) (run fractions geometry new_screen es).1
        ≡ losses (surfaces 4) (run fractions geometry new_screen es).1
          + holds (surfaces 4) (run fractions geometry new_screen es).0.egl)
      × (inits (run fractions geometry new_screen es).1
          ≤ losses displays (run fractions geometry new_screen es).1
            + holds displays (run fractions geometry new_screen es).0.egl)
      × ((destroy (run fractions geometry new_screen es).0).0.egl ≡ closed))
egl_balanced_example =
    egl_balanced fractions geometry (surfaces 4)
      (binds (some 4) ∷ begins no_current names ∷ begins grants names ∷ [])

draw_latest_example :
    (let s = (run fractions geometry new_screen first_frame).0 in
      ((draw fractions s).1.image ≡ s.renderer.frame)
      × ((draw fractions s).1.sampler ≡ at_location s.use_texture_loc (is_there s.renderer.frame)))
unfolding init_egl
draw_latest_example =
    draw_latest fractions geometry 4 grants names one_frame refl (unfold lasts run in refl)

replaced_window_recovers_example :
    (let start = (run fractions geometry new_screen first_frame).0 in
      let p = (run fractions geometry start (drawing 5 grants names)).0 in
      let q = (swap_at p.stage checks p).0 in
      let s = (run fractions geometry start (replacing 5 grants names checks grants names)).0 in
      ((p.stage ≡ drawn) × (p.egl ≡ closed) × (p.egl_ready ≡ true))
      × ((q.stage ≡ waiting) × (q.egl ≡ closed) × (q.egl_ready ≡ false))
      × (s.stage ≡ ready_to_draw)
      × (s.renderer.window ≡ some 5)
      × (s.egl.surface ≡ some 5)
      × (s.egl.display ≡ true))
unfolding init_egl run
replaced_window_recovers_example =
    replaced_window_recovers fractions geometry 5 shown first_frame grants grants names names checks
      refl refl refl (λ x. refl) refl

frame_lost_example :
    (let s =
        (run fractions geometry
          (run fractions geometry
            (run fractions geometry new_screen first_frame).0
            (replacing 5 grants names checks grants names)).0
          (resizes (pos 10) (pos 20) ∷ draws ∷ [])).0 in
      ((draw fractions s).1.sampler ≡ at_location s.use_texture_loc true)
      × ((draw fractions s).1.image ≡ none)
      × (s.renderer.frame ≡ some shown))
unfolding init_egl run quiet
frame_lost_example =
    frame_lost fractions geometry 5 shown first_frame (resizes (pos 10) (pos 20) ∷ draws ∷ [])
      grants grants names names checks refl refl refl (λ x. refl) refl refl
