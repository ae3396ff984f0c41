-- ===== src/Gst/Drmsink/Copy.antt =====
-- The copy of a frame in gst/gst-drm/drmsink.c puts every line at the start of a line of the buffer.
use mathlib.Core.List.{append_assoc}
use sys_snippets.Common.{
  ℕ, ◌+◌, ◌*◌, ◌^◌, ◌<◌, ◌≡◌, refl, ap, ◌∙◌, List, [], ◌∷◌, ◌++◌, Option, none, some, length, take,
  drop, take-append, drop-append, length-append, arith,
}
use sys_snippets.Gst.Drmsink.{u32, prepend, overwrite, copy_lines}

overwrite_lem :
    (pre old post xs : List ℕ)
    → length old ≡ length xs
    → overwrite (pre ++ (old ++ post)) (length pre) xs ≡ some (pre ++ (xs ++ post))
unfolding overwrite
overwrite_lem [] [] post [] h = refl
overwrite_lem [] [] post (x ∷ xs) h = absurd (omega (arith, h))
overwrite_lem [] (o ∷ old) post [] h = absurd (omega (arith, h))
overwrite_lem [] (o ∷ old) post (x ∷ xs) h =
    ap (prepend x) (overwrite_lem [] old post xs (omega (arith, h)))
overwrite_lem (p ∷ pre) old post xs h = ap (prepend p) (overwrite_lem pre old post xs h)

-- A line of a buffer: what can be seen, and the rest of the stride.
abbrev pub Line : Type 0
Line = List ℕ × List ℕ

abbrev pub lines : List Line → List ℕ
lines [] = []
lines ((seen, pad) ∷ ls) = seen ++ (pad ++ lines ls)

abbrev pub flatten : List (List ℕ) → List ℕ
flatten [] = []
flatten (row ∷ rows) = row ++ flatten rows

-- The lines `ls` with what is seen replaced by `rows`.
abbrev pub replace : List (List ℕ) → List Line → List Line
replace [] ls = []
replace (row ∷ rows) [] = []
replace (row ∷ rows) ((seen, pad) ∷ ls) = (row, pad) ∷ replace rows ls

-- As many lines as rows, of `w` bytes seen and `stride` in all, and rows of `w` bytes.
abbrev pub Match : ℕ → ℕ → List (List ℕ) → List Line → Type 0
Match w stride [] [] = Unit
Match w stride [] (l ∷ ls) = ⊥
Match w stride (row ∷ rows) [] = ⊥
Match w stride (row ∷ rows) ((seen, pad) ∷ ls) =
    (length row ≡ w) × (length seen ≡ w) × (w + length pad ≡ stride) × Match w stride rows ls

module _ {A : Type 0} where
  regroup_src : (a b c d : List A) → a ++ ((b ++ c) ++ d) ≡ (a ++ b) ++ (c ++ d)
  regroup_src a b c d = simp append_assoc

  regroup_dst : (a b c d e : List A) → a ++ (b ++ ((c ++ d) ++ e)) ≡ (a ++ (b ++ c)) ++ (d ++ e)
  regroup_dst a b c d e = simp append_assoc

  regroup_out : (a b c d e : List A) → (a ++ (b ++ c)) ++ (d ++ e) ≡ a ++ ((b ++ (c ++ d)) ++ e)
  regroup_out a b c d e = simp append_assoc

sliced :
    (spre row rest extra : List ℕ) (at wide : ℕ)
    → at ≡ length spre
    → wide ≡ length row
    → take wide (drop at (spre ++ ((row ++ rest) ++ extra))) ≡ row
sliced spre row rest extra at wide h k =
    rw (h, k)
      (ap (take (length row))
          (drop-append spre ((row ++ rest) ++ extra) ∙ append_assoc row rest extra)
        ∙ take-append row (rest ++ extra))

written :
    (pre seen rest post row : List ℕ) (at : ℕ)
    → at ≡ length pre
    → length seen ≡ length row
    → overwrite (pre ++ ((seen ++ rest) ++ post)) at row ≡ some (pre ++ (row ++ (rest ++ post)))
written pre seen rest post row at h k =
    rw (h, append_assoc seen rest post) (overwrite_lem pre seen (rest ++ post) row k)

-- The loop puts the rows into the lines.
pub copy_lines_lem :
    (rows : List (List ℕ)) (ls : List Line) (s width stride : ℕ) (spre extra pre post : List ℕ)
    → Match (4 * width) stride rows ls
    → length spre ≡ 4 * s * width
    → length pre ≡ s * stride
    → length spre + length (flatten rows) < 2 ^ 32
    → length pre + length (lines ls) < 2 ^ 32
    → copy_lines
        (length rows)
        s
        width
        stride
        (spre ++ (flatten rows ++ extra))
        (pre ++ (lines ls ++ post))
      ≡ some (pre ++ (lines (replace rows ls) ++ post))
unfolding copy_lines
copy_lines_lem [] [] s width stride spre extra pre post m at1 at2 small1 small2 = refl
copy_lines_lem [] (l ∷ ls) s width stride spre extra pre post m at1 at2 small1 small2 = elim m [ ]
copy_lines_lem (row ∷ rows) [] s width stride spre extra pre post m at1 at2 small1 small2 =
    elim m [ ]
copy_lines_lem (row ∷ rows) ((seen, pad) ∷ ls) s width stride spre extra pre post (r, v, p, m) at1
      at2 small1 small2 =
    ap go (
      ap (overwrite (pre ++ ((seen ++ (pad ++ lines ls)) ++ post)) (u32 (s * stride))) (
        sliced spre row (flatten rows) extra (u32 (4 * s * width)) (u32 (4 * width))
          (omega (arith, at1, small1)) (omega (arith, r, small1, length-append row (flatten rows))))
      ∙ written pre seen (pad ++ lines ls) post row (u32 (s * stride)) (omega (arith, at2, small2))
          (omega (arith, r, v)))
    ∙ ap (copy_lines (length rows) (s + 1) width stride (spre ++ ((row ++ flatten rows) ++ extra)))
        (regroup_dst pre row pad (lines ls) post)
    ∙ ap
        (λ src.
          copy_lines (length rows) (s + 1) width stride src
            ((pre ++ (row ++ pad)) ++ (lines ls ++ post)))
        (regroup_src spre row (flatten rows) extra)
    ∙ copy_lines_lem rows ls (s + 1) width stride (spre ++ row) extra (pre ++ (row ++ pad)) post m
        (omega (arith, at1, r, length-append spre row))
        (omega (arith, at2, r, p, length-append pre (row ++ pad), length-append row pad))
        (omega (arith, small1, length-append spre row, length-append row (flatten rows)))
        (omega (
          arith,
          small2,
          r,
          v,
          length-append pre (row ++ pad),
          length-append row pad,
          length-append seen (pad ++ lines ls),
          length-append pad (lines ls),
        ))
    ∙ ap some (regroup_out pre row pad (lines (replace rows ls)) post)
  where
    go : Option (List ℕ) → Option (List ℕ)
    go o = elim o [
      | none ↦ none
      | some d ↦
          copy_lines (length rows) (s + 1) width stride (spre ++ ((row ++ flatten rows) ++ extra)) d
    ]
