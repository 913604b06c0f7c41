-- ===== src/Host/Guest/Feeder.antt =====
-- The software frame pump of core/guest_launcher.cpp: the writes of one frame into its buffer. The
-- sides are positive and the buffer's size is an int; frame_count is a uint32_t.
use virtualaosp.Base.{
  ℕ, zero, suc, ◌+◌, ◌*◌, ◌%◌, ◌^◌, List, [], ◌∷◌, ◌++◌, map, ◌≡◌, refl, ap, ap₂, ◌∙◌, arith,
}

-- The channels of the pixel at (x, y).
abbrev pub red : ℕ → ℕ → ℕ
red frame_count x = (x + frame_count * 2) % 2 ^ 32 % 256

abbrev pub green : ℕ → ℕ → ℕ
green frame_count y = (y + frame_count) % 2 ^ 32 % 256

abbrev pub blue : ℕ → ℕ → ℕ → ℕ
blue frame_count x y = (x + y + frame_count) % 2 ^ 32 % 256

-- The four stores of a pixel at an index: where, and what.
abbrev pub pixel : ℕ → ℕ → ℕ → ℕ → List (ℕ × ℕ)
pixel frame_count x y idx =
    (idx + 0, red frame_count x)
    ∷ (idx + 1, green frame_count y)
    ∷ (idx + 2, blue frame_count x y)
    ∷ (idx + 3, 255)
    ∷ []

-- The loop over x, with `k` pixels left.
unfoldable pub row : ℕ → ℕ → ℕ → ℕ → ℕ → List (ℕ × ℕ)
row frame_count width y x zero = []
row frame_count width y x (suc k) =
    pixel frame_count x y ((y * width + x) * 4) ++ row frame_count width y (x + 1) k

-- The loop over y, with `k` rows left.
unfoldable pub rows : ℕ → ℕ → ℕ → ℕ → List (ℕ × ℕ)
unfolding row
rows frame_count width y zero = []
rows frame_count width y (suc k) =
    row frame_count width y 0 width ++ rows frame_count width (y + 1) k

unfoldable pub feed_frame : ℕ → ℕ → ℕ → List (ℕ × ℕ)
unfolding rows
feed_frame frame_count width height = rows frame_count width 0 height

abbrev pub buffer_size : ℕ → ℕ → ℕ
buffer_size width height = width * height * 4

-- `n` numbers from `i` on.
pub range : ℕ → ℕ → List ℕ
range i zero = []
range i (suc n) = i ∷ range (i + 1) n

abbrev pub index_of : ℕ × ℕ → ℕ
index_of (i, value) = i

range-append : (i n m : ℕ) → range i n ++ range (i + n) m ≡ range i (n + m)
unfolding range
range-append i zero m = ap₂ range {x = i + 0} (omega arith) (omega arith)
range-append i (suc n) m =
    ap (λ l. i ∷ l)
      (ap (λ j. range (i + 1) n ++ range j m) {x = i + suc n} {y = i + 1 + n} (omega arith)
        ∙ range-append (i + 1) n m)
    ∙ ap (range i) {x = suc (n + m)} {y = suc n + m} (omega arith)

indices-append :
    (xs ys : List (ℕ × ℕ)) → map index_of (xs ++ ys) ≡ map index_of xs ++ map index_of ys
indices-append [] ys = refl
indices-append (x ∷ xs) ys = ap (λ l. index_of x ∷ l) (indices-append xs ys)

four : (i : ℕ) → (i + 0) ∷ (i + 1) ∷ (i + 2) ∷ (i + 3) ∷ [] ≡ range i 4
unfolding range
four i =
    let second : i + 2 ≡ i + 1 + 1 = omega arith in
    let third : i + 3 ≡ i + 1 + 1 + 1 = omega arith in
    let first : i + 0 ≡ i = omega arith in rw (first, second, third) refl

row_indices :
    (frame_count width y x k : ℕ)
    → map index_of (row frame_count width y x k) ≡ range ((y * width + x) * 4) (k * 4)
unfolding row
row_indices frame_count width y x zero = (unfold range in refl)
row_indices frame_count width y x (suc k) =
    let i = (y * width + x) * 4 in
    ap₂ (λ l m. l ++ m) (four i)
      (row_indices frame_count width y (x + 1) k
        ∙ ap (λ j. range j (k * 4)) {x = (y * width + (x + 1)) * 4} {y = i + 4} (omega arith))
    ∙ range-append i 4 (k * 4)
    ∙ ap (range i) {x = 4 + k * 4} {y = suc k * 4} (omega arith)

rows_indices :
    (frame_count width y k : ℕ)
    → map index_of (rows frame_count width y k) ≡ range (y * width * 4) (k * width * 4)
unfolding rows
rows_indices frame_count width y zero =
    unfold range in ap (range (y * width * 4)) {x = 0} {y = 0 * width * 4} (omega arith)
rows_indices frame_count width y (suc k) =
    indices-append (row frame_count width y 0 width) (rows frame_count width (y + 1) k)
    ∙ ap₂ (λ l m. l ++ m)
        (row_indices frame_count width y 0 width
          ∙ ap (λ j. range j (width * 4)) {x = (y * width + 0) * 4} {y = y * width * 4}
              (omega arith))
        (rows_indices frame_count width (y + 1) k
          ∙ ap (λ j. range j (k * width * 4)) {x = (y + 1) * width * 4}
              {y = y * width * 4 + width * 4} (grind arith))
    ∙ range-append (y * width * 4) (width * 4) (k * width * 4)
    ∙ ap (range (y * width * 4)) {x = width * 4 + k * width * 4} {y = suc k * width * 4}
        (grind arith)

-- For each frame of the feeder, in a buffer of width times height times four bytes, the stores go
-- to every index of the buffer exactly once, from the first to the last, and to no other.
pub feed_frame_fills :
    (frame_count width height : ℕ)
    → map index_of (feed_frame frame_count width height) ≡ range 0 (buffer_size width height)
unfolding feed_frame
feed_frame_fills frame_count width height =
    rows_indices frame_count width 0 height
    ∙ ap (λ i. range i (height * width * 4)) {x = 0 * width * 4} {y = 0} (omega arith)
    ∙ ap (range 0) {x = height * width * 4} {y = width * height * 4} (grind arith)
