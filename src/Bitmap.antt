-- ===== src/Bitmap.antt =====
-- drm-tests/bitmap_utils.c: the test picture, six stripes of colour in a buffer of 32-bit pixels.
use sys_snippets.Common.{
  ℕ, zero, suc, ◌+◌, ◌*◌, ◌/◌, ◌%◌, ◌^◌, List, [], ◌∷◌, Option, none, some, get_elem?, set, ltb,
  if◌then◌else◌,
}
mod Stripes
mod Tests

-- `color32`
abbrev pub color32 : List ℕ
color32 = 255 ∷ 65280 ∷ 16711680 ∷ 16711935 ∷ 16776960 ∷ 65535 ∷ []

-- The loop over `j`, with `n` turns left: a pixel at `i*w + j`, an index of the buffer. `j` is an `int`;
-- `draw_line` has its range.
unfoldable pub draw_row : ℕ → ℕ → ℕ → List ℕ → List ℕ
draw_row zero at color dst = dst
draw_row (suc n) at color dst = draw_row n (at + 1) color (set dst at color)

-- A row of `w` pixels; none if `j++` leaves the range of an `int`, which C leaves undefined.
unfoldable pub draw_line : ℕ → ℕ → ℕ → List ℕ → Option (List ℕ)
unfolding draw_row
draw_line w at color dst = if ltb w (2 ^ 31) then some (draw_row w at color dst) else none

-- `color32[6*i/h]`; none if `6*i` overflows an `int` or the index is out of bounds.
abbrev pub color_at : ℕ → ℕ → Option ℕ
color_at i h = if ltb (6 * i) (2 ^ 31) then get_elem? color32 (6 * i / h) else none

-- The loop over `i`, with `n` turns left; `i*w` is an `unsigned int`.
unfoldable pub draw_rows : ℕ → ℕ → ℕ → ℕ → List ℕ → Option (List ℕ)
unfolding draw_line
draw_rows zero i w h dst = some dst
draw_rows (suc n) i w h dst = elim (color_at i h) [
  | none ↦ none
  | some color ↦ elim (draw_line w (i * w % 2 ^ 32) color dst) [
    | none ↦ none
    | some dst' ↦ draw_rows n (i + 1) w h dst'
  ]
]

unfoldable pub draw_test_image : List ℕ → ℕ → ℕ → Option (List ℕ)
unfolding draw_rows
draw_test_image dst w h = draw_rows h 0 w h dst
