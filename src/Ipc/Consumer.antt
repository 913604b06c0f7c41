-- ===== src/Ipc/Consumer.antt =====
-- core/input_consumer.cpp: the surface size and the batch of touch events in host pixels. The
-- arithmetic of float is a parameter. An array is a list of what stands at each index; a null
-- array, which the JNI caller turns away too, is left out.
use virtualaosp.Base.{ℕ, zero, suc, ◌^◌, ◌≤◌, ◌<◌, List, [], ◌∷◌, map, ◌≡◌, arith, length}
use virtualaosp.Base.Int.{ℤ, pos, negsuc}
use virtualaosp.Ipc.Event.{AcTouchEvent}
use virtualaosp.Ipc.Stream.{Input}
use virtualaosp.Ipc.Stream.Whole.{Arrives}
use virtualaosp.Ipc.Loop.{frames}
use virtualaosp.Ipc.Guest.{touch, AllEventsFit, packet_of, frame_loop, events_delivered}

-- Integers as float, std::clamp, division, multiplication, and the cast to uint32_t.
pub record Float : Type 1 where
  pub F : Type 0
  pub of_int : ℕ → F
  pub clamp : F → F → F → F
  pub div : F → F → F
  pub mul : F → F → F
  pub to_u32 : F → ℕ

-- mHostWidth and mHostHeight
pub record Surface : Type 0 where
  pub width : ℕ
  pub height : ℕ

abbrev pub first_surface : Surface
first_surface = record { width = 1080; height = 2400 }

-- `width > 0 ? width : 1`
abbrev pub at_least_one : ℤ → ℕ
at_least_one (pos zero) = 1
at_least_one (pos (suc n)) = suc n
at_least_one (negsuc n) = 1

unfoldable pub set_host_surface_size : ℤ → ℤ → Surface
set_host_surface_size width height = record {
  width = at_least_one width;
  height = at_least_one height;
}

unfoldable pub normalize_pixel : (R : Float) → R.F → ℕ → ℕ
normalize_pixel R px span =
    let clamped = R.clamp px (R.of_int 0) (R.of_int span) in
    R.to_u32 (R.mul (R.div clamped (R.of_int span)) (R.of_int 65535))

unfoldable pub normalize_pressure : (R : Float) → R.F → ℕ
normalize_pressure R p = R.to_u32 (R.mul (R.clamp p (R.of_int 0) (R.of_int 1)) (R.of_int 65535))

-- What stands at one index of the four arrays.
pub record Pointer (R : Float) : Type 0 where
  pub id : ℕ
  pub x : R.F
  pub y : R.F
  pub pressure : R.F

-- The events of dispatchTouchEventBatch, each broadcast in its turn.
unfoldable pub batch : (R : Float) → Surface → ℕ → List (Pointer R) → List AcTouchEvent
unfolding normalize_pixel normalize_pressure
batch R s action [] = []
batch R s action (p ∷ ps) =
    record {
      action = action;
      pointer_id = p.id;
      x_fixed = normalize_pixel R p.x s.width;
      y_fixed = normalize_pixel R p.y s.height;
      pressure = normalize_pressure R p.pressure;
    }
    ∷ batch R s action ps

-- What IEEE 754 binary32 arithmetic and std::clamp give, rounding included, on values that are not
-- NaN. The integers are ints, and those that a cast back is compared with are exact as floats.
pub record FloatLaws (R : Float) : Type 1 where
  pub le : R.F → R.F → Type 0
  pub IsNumber : R.F → Type 0
  pub le-clamp : (x lo hi : R.F) → IsNumber x → le lo hi → le lo (R.clamp x lo hi)
  pub clamp-le : (x lo hi : R.F) → IsNumber x → le lo hi → le (R.clamp x lo hi) hi
  pub of_int-le : (n m : ℕ) → n ≤ m → m < 2 ^ 31 → le (R.of_int n) (R.of_int m)
  pub le-div :
      (x : R.F) (n : ℕ)
      → 0 < n
      → n < 2 ^ 31
      → le (R.of_int 0) x
      → le (R.of_int 0) (R.div x (R.of_int n))
  pub div-le :
      (x : R.F) (n : ℕ)
      → 0 < n
      → n < 2 ^ 31
      → le x (R.of_int n)
      → le (R.div x (R.of_int n)) (R.of_int 1)
  pub le-mul :
      (x : R.F) (n : ℕ)
      → 0 < n
      → n < 2 ^ 31
      → le (R.of_int 0) x
      → le (R.of_int 0) (R.mul x (R.of_int n))
  pub mul-le :
      (x : R.F) (n : ℕ)
      → 0 < n
      → n < 2 ^ 31
      → le x (R.of_int 1)
      → le (R.mul x (R.of_int n)) (R.of_int n)
  pub to_u32-le :
      (x : R.F) (n : ℕ) → n ≤ 2 ^ 24 → le (R.of_int 0) x → le x (R.of_int n) → R.to_u32 x ≤ n

module _ (R : Float) (L : FloatLaws R) where
  open L use {
    IsNumber, le, le-clamp, clamp-le, of_int-le, le-div, div-le, le-mul, mul-le, to_u32-le,
  }

  scale-le :
      (x : R.F)
      → le (R.of_int 0) x
      → le x (R.of_int 1)
      → R.to_u32 (R.mul x (R.of_int 65535)) ≤ 65535
  scale-le x lo hi =
      to_u32-le (R.mul x (R.of_int 65535)) 65535 (omega arith)
        (le-mul x 65535 (omega arith) (omega arith) lo)
        (mul-le x 65535 (omega arith) (omega arith) hi)

  normalize_pixel-le :
      (x : R.F) (span : ℕ)
      → IsNumber x
      → 0 < span
      → span < 2 ^ 31
      → normalize_pixel R x span ≤ 65535
  unfolding normalize_pixel
  normalize_pixel-le x span v h small =
      let room = of_int-le 0 span (omega arith) small in
      let c = R.clamp x (R.of_int 0) (R.of_int span) in
      scale-le (R.div c (R.of_int span))
        (le-div c span h small (le-clamp x (R.of_int 0) (R.of_int span) v room))
        (div-le c span h small (clamp-le x (R.of_int 0) (R.of_int span) v room))

  normalize_pressure-le : (x : R.F) → IsNumber x → normalize_pressure R x ≤ 65535
  unfolding normalize_pressure
  normalize_pressure-le x v =
      let room = of_int-le 0 1 (omega arith) (omega arith) in
      scale-le (R.clamp x (R.of_int 0) (R.of_int 1)) (le-clamp x (R.of_int 0) (R.of_int 1) v room)
        (clamp-le x (R.of_int 0) (R.of_int 1) v room)

-- Coordinates and pressure of an event in a range of 65536 steps.
abbrev pub Scaled : AcTouchEvent → Type 0
Scaled ev = (ev.x_fixed ≤ 65535) × (ev.y_fixed ≤ 65535) × (ev.pressure ≤ 65535)

abbrev pub AllScaled : List AcTouchEvent → Type 0
AllScaled [] = Unit
AllScaled (ev ∷ evs) = Scaled ev × AllScaled evs

-- No coordinate is NaN, and an id is a uint32_t.
abbrev pub AllPointers : {R : Float} → FloatLaws R → List (Pointer R) → Type 0
AllPointers L [] = Unit
AllPointers L (p ∷ ps) =
    ((p.id < 2 ^ 32) × L.IsNumber p.x × L.IsNumber p.y × L.IsNumber p.pressure) × AllPointers L ps

at_least_one-pos : (z : ℤ) → 0 < at_least_one z
at_least_one-pos (pos zero) = omega arith
at_least_one-pos (pos (suc n)) = omega arith
at_least_one-pos (negsuc n) = omega arith

-- An int.
abbrev pub FitsInt : ℤ → Type 0
FitsInt (pos n) = n < 2 ^ 31
FitsInt (negsuc n) = n < 2 ^ 31

at_least_one-lt : (z : ℤ) → FitsInt z → at_least_one z < 2 ^ 31
at_least_one-lt (pos zero) h = omega arith
at_least_one-lt (pos (suc n)) h = h
at_least_one-lt (negsuc n) h = omega arith

abbrev Sized : Surface → Type 0
Sized s = (0 < s.width) × (s.width < 2 ^ 31) × (0 < s.height) × (s.height < 2 ^ 31)

batch-AllScaled :
    (R : Float) (L : FloatLaws R) (s : Surface) (action : ℕ) (ps : List (Pointer R))
    → Sized s
    → AllPointers L ps
    → AllScaled (batch R s action ps)
unfolding batch
batch-AllScaled R L s action [] sized v = tt
batch-AllScaled R L s action (p ∷ ps) sized ((i, x, y, z), v) = (
  (
    normalize_pixel-le R L p.x s.width x sized.0 sized.1,
    normalize_pixel-le R L p.y s.height y sized.2 sized.3,
    normalize_pressure-le R L p.pressure z,
  ),
  batch-AllScaled R L s action ps sized v,
)

batch-AllEventsFit :
    (R : Float) (L : FloatLaws R) (s : Surface) (action : ℕ) (ps : List (Pointer R))
    → Sized s
    → action < 2 ^ 32
    → AllPointers L ps
    → AllEventsFit (map touch (batch R s action ps))
unfolding batch
batch-AllEventsFit R L s action [] sized a v = tt
batch-AllEventsFit R L s action (p ∷ ps) sized a ((i, x, y, z), v) = (
  record {
    action = a;
    pointer_id = i;
    x_fixed = omega (arith, normalize_pixel-le R L p.x s.width x sized.0 sized.1);
    y_fixed = omega (arith, normalize_pixel-le R L p.y s.height y sized.2 sized.3);
    pressure = omega (arith, normalize_pressure-le R L p.pressure z);
  },
  batch-AllEventsFit R L s action ps sized a v,
)

-- For a surface of any reported int size, zero and negative ones included, a batch of touches without
-- NaN is normalised to coordinates and pressures of at most 65535, and a guest that gets the
-- packets of the batch, however the stream is cut and interrupted, injects exactly its events, in
-- order.
pub batch_delivered :
    (R : Float) (L : FloatLaws R) (width height : ℤ) (action : ℕ) (ps : List (Pointer R)) (fuel : ℕ)
    (inputs : List Input)
    → FitsInt width
    → FitsInt height
    → action < 2 ^ 32
    → AllPointers L ps
    → Arrives inputs (
        frames (map packet_of (map touch (batch R (set_host_surface_size width height) action ps))))
    → length (map packet_of (map touch (batch R (set_host_surface_size width height) action ps)))
      < fuel
    → AllScaled (batch R (set_host_surface_size width height) action ps)
      × (frame_loop fuel inputs
          ≡ map touch (batch R (set_host_surface_size width height) action ps))
unfolding set_host_surface_size
batch_delivered R L width height action ps fuel inputs fw fh a v arrives enough =
    let s = set_host_surface_size width height in
    let sized : Sized s = (
      at_least_one-pos width,
      at_least_one-lt width fw,
      at_least_one-pos height,
      at_least_one-lt height fh,
    ) in
    (
      batch-AllScaled R L s action ps sized v,
      events_delivered (map touch (batch R s action ps)) fuel inputs
          (batch-AllEventsFit R L s action ps sized a v) arrives enough,
    )
