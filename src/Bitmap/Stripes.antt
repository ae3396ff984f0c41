-- ===== src/Bitmap/Stripes.antt =====
-- The picture that `draw_test_image` of drm-tests/bitmap_utils.c draws.
use mathlib.Core.List.{append_assoc}
use native.Mathlib.Nat.{div-lt_iff_lt-mul}
use sys_snippets.Common.{
  All, ℕ, ◌%◌, ◌^◌, lt→ltb, zero, suc, ◌+◌, ◌*◌, ◌/◌, ◌≤◌, ◌<◌, ◌≡◌, refl, ap, ◌∙◌, sym, List, [],
  ◌∷◌, ◌++◌, none, some, get_elem?, set, length, replicate, length-append, set-append,
  length-replicate, arith,
}
use sys_snippets.Bitmap.{color32, color_at, draw_row, draw_line, draw_rows, draw_test_image}

-- A row takes the place of as many pixels.
draw_row_lem :
    (row : List ℕ) (pre post : List ℕ) (at color : ℕ)
    → at ≡ length pre
    → draw_row (length row) at color (pre ++ (row ++ post))
      ≡ pre ++ (replicate (length row) color ++ post)
unfolding draw_row
draw_row_lem [] pre post at color h = refl
draw_row_lem (x ∷ row) pre post at color h =
    ap (draw_row (length row) (at + 1) color) (
      ap (λ k. set (pre ++ (x ∷ (row ++ post))) k color) h
      ∙ set-append pre x color (row ++ post)
      ∙ sym (append_assoc pre (color ∷ []) (row ++ post)))
    ∙ draw_row_lem row (pre ++ (color ∷ [])) post (at + 1) color
        (omega (arith, h, length-append pre (color ∷ [])))
    ∙ append_assoc pre (color ∷ []) (replicate (length row) color ++ post)

draw_row_wide :
    (row pre post : List ℕ) (at w color : ℕ)
    → length row ≡ w
    → at ≡ length pre
    → draw_row w at color (pre ++ (row ++ post)) ≡ pre ++ (replicate w color ++ post)
draw_row_wide row pre post at w color r h = rw (sym r) (draw_row_lem row pre post at color h)

draw_line_lem :
    (w at color : ℕ) (dst : List ℕ)
    → w < 2 ^ 31
    → draw_line w at color dst ≡ some (draw_row w at color dst)
unfolding draw_line
draw_line_lem w at color dst h = rw (lt→ltb w (2 ^ 31) h)

-- The colour of row `i` of `h`.
abbrev pub color_of : ℕ → ℕ → ℕ
color_of i h = elim (get_elem? color32 (6 * i / h)) [ none ↦ 0 | some c ↦ c ]

elem_there :
    (xs : List ℕ) (k : ℕ)
    → k < length xs
    → get_elem? xs k ≡ some (elim (get_elem? xs k) [ none ↦ 0 | some c ↦ c ])
elem_there [] k l = absurd (omega arith)
elem_there (x ∷ xs) zero l = refl
elem_there (x ∷ xs) (suc k) l = elem_there xs k (omega arith)

stripe_in : (i h : ℕ) → i < h → 6 * i / h < 6
stripe_in i h l = (div-lt_iff_lt-mul (omega arith)).1 (omega arith)

-- Rows from the `i`-th on, `n` of them, of `w` pixels each.
abbrev pub stripes : ℕ → ℕ → ℕ → ℕ → List ℕ
stripes zero i w h = []
stripes (suc n) i w h = replicate w (color_of i h) ++ stripes n (i + 1) w h

abbrev pub flatten : List (List ℕ) → List ℕ
flatten [] = []
flatten (row ∷ rows) = row ++ flatten rows

color_there : (i h : ℕ) → i < h → 6 * h ≤ 2 ^ 31 → color_at i h ≡ some (color_of i h)
color_there i h l low =
    rw (lt→ltb (6 * i) (2 ^ 31) (omega arith), color_at)
      (elem_there color32 (6 * i / h) (stripe_in i h l))

draw_rows_lem :
    (rows : List (List ℕ)) (pre post : List ℕ) (i w h : ℕ)
    → All (λ row. length row ≡ w) rows
    → i + length rows ≡ h
    → length pre ≡ i * w
    → length pre + length (flatten rows) < 2 ^ 32
    → 6 * h ≤ 2 ^ 31
    → w < 2 ^ 31
    → draw_rows (length rows) i w h (pre ++ (flatten rows ++ post))
      ≡ some (pre ++ (stripes (length rows) i w h ++ post))
unfolding draw_rows
draw_rows_lem [] pre post i w h wide count at small low fits = refl
draw_rows_lem (row ∷ rows) pre post i w h (r, wide) count at small low fits =
    rw
      (
        color_there i h (omega (arith, count)) low,
        draw_line_lem w (i * w % 2 ^ 32) (color_of i h) (pre ++ (row ++ flatten rows ++ post)) fits,
        draw_rows,
      )
      (ap (draw_rows (length rows) (i + 1) w h) (
          ap (λ t. draw_row w (i * w % 2 ^ 32) (color_of i h) (pre ++ t))
            (append_assoc row (flatten rows) post)
          ∙ draw_row_wide row pre (flatten rows ++ post) (i * w % 2 ^ 32) w (color_of i h) r
              (omega (arith, at, small))
          ∙ sym (append_assoc pre (replicate w (color_of i h)) (flatten rows ++ post)))
        ∙ draw_rows_lem rows (pre ++ replicate w (color_of i h)) post (i + 1) w h wide
            (omega (arith, count))
            (omega (
              arith,
              at,
              length-append pre (replicate w (color_of i h)),
              length-replicate w (color_of i h),
            ))
            (omega (
              arith,
              small,
              r,
              length-append row (flatten rows),
              length-append pre (replicate w (color_of i h)),
              length-replicate w (color_of i h),
            ))
            low fits
        ∙ ap some (
            append_assoc pre (replicate w (color_of i h))
              (stripes (length rows) (i + 1) w h ++ post)
            ∙ ap (pre ++◌) (
                sym (
                  append_assoc (replicate w (color_of i h)) (stripes (length rows) (i + 1) w h)
                    post))))

-- In a buffer that begins with `length rows` rows of `w` pixels, `draw_test_image` draws row `i` in
-- colour `6 * i / h` of the six, and nothing outside of the rows; it reads no colour out of bounds. The
-- buffer has fewer than 2 ^ 32 pixels in rows, and one row and 6 times the rows fit an `int`.
pub draw_test_image-stripes :
    (rows : List (List ℕ)) (post : List ℕ) (w : ℕ)
    → All (λ row. length row ≡ w) rows
    → length (flatten rows) < 2 ^ 32
    → 6 * length rows ≤ 2 ^ 31
    → w < 2 ^ 31
    → draw_test_image (flatten rows ++ post) w (length rows)
      ≡ some (stripes (length rows) 0 w (length rows) ++ post)
unfolding draw_test_image
draw_test_image-stripes rows post w wide small low fits =
    draw_rows_lem rows [] post 0 w (length rows) wide (omega arith) (omega arith)
      (omega (arith, small)) low fits
