-- ===== src/Bitmap/Tests.antt =====
-- A picture of three rows.
use sys_snippets.Common.{◌≡◌, refl, [], ◌∷◌, ◌++◌, some, arith}
use sys_snippets.Bitmap.{draw_test_image}
use sys_snippets.Bitmap.Stripes.{stripes, draw_test_image-stripes}

draw_test_image-stripes_example :
    draw_test_image (0 ∷ 0 ∷ 1 ∷ 1 ∷ 2 ∷ 2 ∷ 9 ∷ []) 2 3 ≡ some (stripes 3 0 2 3 ++ (9 ∷ []))
draw_test_image-stripes_example =
    draw_test_image-stripes ((0 ∷ 0 ∷ []) ∷ (1 ∷ 1 ∷ []) ∷ (2 ∷ 2 ∷ []) ∷ []) (9 ∷ []) 2
      (refl, (refl, (refl, tt))) (omega arith) (omega arith) (omega arith)

three_rows :
    draw_test_image (0 ∷ 0 ∷ 1 ∷ 1 ∷ 2 ∷ 2 ∷ 9 ∷ []) 2 3
    ≡ some (255 ∷ 255 ∷ 16711680 ∷ 16711680 ∷ 16776960 ∷ 16776960 ∷ 9 ∷ [])
unfolding draw_test_image sys_snippets.Bitmap.draw_rows sys_snippets.Bitmap.draw_line
    sys_snippets.Bitmap.draw_row
three_rows = refl
