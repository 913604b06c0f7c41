-- ===== src/Host/Renderer/Letterbox.antt =====
-- The letterbox of renderLoop in core/display_renderer.cpp: the viewport of a frame in a window.
-- The arithmetic of double is not part of the repository: its operations are a parameter, with
-- what IEEE 754 says of them where it is used.
use virtualaosp.Base.{
  ℕ, zero, suc, ◌+◌, ◌-◌, ◌/◌, ◌^◌, ◌≤◌, ◌<◌, Bool, true, false, ◌≡◌, refl, ap, ◌⊎◌, inl, inr,
  arith, leb, if◌then◌else◌, Bool-cases,
}
use virtualaosp.Base.Int.{ℤ, pos, negsuc}

-- The quotient of two positive int as double, its comparison, and `static_cast<int>` of an int
-- divided or multiplied by such a quotient. All of them are positive in renderLoop.
pub record Doubles (D : Type 0) : Type 0 where
  pub ratio : ℕ → ℕ → D
  pub above : D → D → Bool
  pub quotient : ℕ → D → ℕ
  pub product : ℕ → D → ℕ

-- Division and multiplication round monotonically, and dividing by a quotient, or multiplying
-- with it, gives no int above the number it was made of.
pub record IsRounding {D : Type 0} (o : Doubles D) : Type 0 where
  pub quotient_antitone : (n : ℕ) (a b : D) → o.above a b ≡ true → o.quotient n a ≤ o.quotient n b
  pub product_monotone : (n : ℕ) (a b : D) → o.above a b ≡ false → o.product n a ≤ o.product n b
  pub quotient_back :
      (x y : ℕ)
      → suc x < 2 ^ 31
      → suc y < 2 ^ 31
      → o.quotient (suc x) (o.ratio (suc x) (suc y)) ≤ suc y
  pub product_back :
      (x y : ℕ)
      → suc x < 2 ^ 31
      → suc y < 2 ^ 31
      → o.product (suc y) (o.ratio (suc x) (suc y)) ≤ suc x

pub record Viewport : Type 0 where
  pub x : ℤ
  pub y : ℤ
  pub width : ℤ
  pub height : ℤ

abbrev pub negative : ℕ → ℤ
negative zero = pos 0
negative (suc n) = negsuc n

-- (a - b) / 2 of two int that are not negative: C divides towards 0.
abbrev pub half_gap : ℕ → ℕ → ℤ
half_gap a b = if leb b a then pos ((a - b) / 2) else negative ((b - a) / 2)

abbrev pub centred : ℕ → ℕ → ℕ → ℕ → Viewport
centred win_w win_h vp_w vp_h = record {
  x = half_gap win_w vp_w;
  y = half_gap win_h vp_h;
  width = pos vp_w;
  height = pos vp_h;
}

abbrev pub letterbox_positive : {D : Type 0} → Doubles D → ℕ → ℕ → ℕ → ℕ → Viewport
letterbox_positive o gw gh win_w win_h =
    let guest_ar = o.ratio gw gh in
    if o.above guest_ar (o.ratio win_w win_h)
    then centred win_w win_h win_w (o.quotient win_w guest_ar)
    else centred win_w win_h (o.product win_h guest_ar) win_h

-- A frame has no negative size; a window may be told one.
unfoldable pub letterbox : {D : Type 0} → Doubles D → ℕ → ℕ → ℤ → ℤ → Viewport
letterbox o (suc gw) (suc gh) (pos (suc w)) (pos (suc h)) =
    letterbox_positive o (suc gw) (suc gh) (suc w) (suc h)
letterbox o gw gh win_w win_h = record { x = pos 0; y = pos 0; width = win_w; height = win_h }

-- A viewport of `vp` pixels at `at` in a side of `win` pixels: inside, and in the middle up to a
-- pixel.
pub record Middle (win : ℕ) (at width : ℤ) : Type 0 where
  pub left : ℕ
  pub size : ℕ
  pub at_is : at ≡ pos left
  pub width_is : width ≡ pos size
  pub inside : left + size ≤ win
  pub even : (win ≡ left + size + left) ⊎ (win ≡ left + size + left + 1)

-- One of the sides is filled.
pub record Fits (w h : ℕ) (v : Viewport) : Type 0 where
  pub across : Middle w v.x v.width
  pub down : Middle h v.y v.height
  pub full : (v.width ≡ pos w) ⊎ (v.height ≡ pos h)

half_parity : (n : ℕ) → (n ≡ n / 2 + n / 2) ⊎ (n ≡ n / 2 + n / 2 + 1)
half_parity n = ground arith

half_gap-Middle : (win vp : ℕ) → vp ≤ win → Middle win (half_gap win vp) (pos vp)
half_gap-Middle win vp le = record {
  left = (win - vp) / 2;
  size = vp;
  at_is = ground arith;
  width_is = refl;
  inside = omega arith;
  even = elim (half_parity (win - vp)) [
    | inl e ↦ inl (omega (arith, e))
    | inr e ↦ inr (omega (arith, e))
  ];
}

centred-Fits :
    (w h vp_w vp_h : ℕ)
    → vp_w ≤ w
    → vp_h ≤ h
    → (vp_w ≡ w) ⊎ (vp_h ≡ h)
    → Fits w h (centred w h vp_w vp_h)
centred-Fits w h vp_w vp_h le le' full = record {
  across = half_gap-Middle w vp_w le;
  down = half_gap-Middle h vp_h le';
  full = elim full [ inl e ↦ inl (ap pos e) | inr e ↦ inr (ap pos e) ];
}

le_trans : (a b c : ℕ) → a ≤ b → b ≤ c → a ≤ c
le_trans a b c h h' = omega arith

-- With doubles that round as IEEE 754 says, the viewport of a frame in a window, both with sides
-- above 0 and the window's in the range of int, lies inside the window, fills it in one direction
-- and is in its middle, up to a pixel, in both.
pub letterbox-Fits :
    {D : Type 0} (o : Doubles D)
    → IsRounding o
    → (gw gh w h : ℕ) → suc w < 2 ^ 31
    → suc h < 2 ^ 31
    → Fits (suc w) (suc h) (letterbox o (suc gw) (suc gh) (pos (suc w)) (pos (suc h)))
unfolding letterbox
letterbox-Fits o law gw gh w h small small' =
    let guest_ar = o.ratio (suc gw) (suc gh) in
    let host_ar = o.ratio (suc w) (suc h) in
    elim (Bool-cases (o.above guest_ar host_ar)) [
      | inl wider ↦ rw wider (
          centred-Fits (suc w) (suc h) (suc w) (o.quotient (suc w) guest_ar) (omega arith)
            (le_trans _ _ _ (law.quotient_antitone (suc w) guest_ar host_ar wider)
              (law.quotient_back w h small small'))
            (inl refl))
      | inr narrower ↦ rw narrower (
          centred-Fits (suc w) (suc h) (o.product (suc h) guest_ar) (suc h)
            (le_trans _ _ _ (law.product_monotone (suc h) guest_ar host_ar narrower)
              (law.product_back w h small small'))
            (omega arith) (inr refl))
    ]
