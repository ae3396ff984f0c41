-- ===== src/Common/Bags.antt =====
-- How often a number stands in a list, and the removal of one occurrence.
use sys_snippets.Common.Tests.{◌==◌, if◌then◌else◌}
use Prim.Native.Nat.{ℕ, ◌+◌, ◌≤◌}
use mathlib.Core.Path.{◌≡◌}
use mathlib.Core.List.{List, [], ◌∷◌}
use native.Mathlib.Omega.{arith}

abbrev pub tally : ℕ → ℕ → ℕ
tally a x = if a == x then 1 else 0

-- The library's `count` stands on the unary numbers.
abbrev pub count : ℕ → List ℕ → ℕ
count a [] = 0
count a (x ∷ xs) = tally a x + count a xs

-- The first occurrence goes; a list without one stays.
abbrev pub erase : ℕ → List ℕ → List ℕ
erase a [] = []
erase a (x ∷ xs) = if a == x then xs else x ∷ erase a xs

pub count-erase :
    (a b : ℕ) (xs : List ℕ) → 1 ≤ count b xs → count a (erase b xs) + tally a b ≡ count a xs
count-erase a b [] h = absurd (omega arith)
count-erase a b (x ∷ xs) h = ground (arith, count-erase a b xs)
