-- ===== src/Drm/Text.antt =====
-- What `snprintf` and `sscanf` do with the formats "%d:%d:…" and "%d:…:%s" of drm_server.c,
-- drm_client_crtc.c and drm_client_plane.c. A text is the list of its bytes without the final NUL,
-- and a number is the pattern of a 32-bit word, which %d reads and prints with a sign.
pub mod Laws
use sys_snippets.Common.{
  ℕ, zero, suc, ◌+◌, ◌-◌, ◌*◌, ◌/◌, ◌%◌, ◌^◌, List, [], ◌∷◌, ◌++◌, Bool, true, false, ◌&&◌, ◌||◌,
  Option, none, some, ltb, leb, ◌==◌, if◌then◌else◌,
}

abbrev pub word : ℕ
word = 2 ^ 32

-- The decimal digits of a number; ten are enough for a word.
unfoldable pub digits : ℕ → ℕ → List ℕ
digits zero n = []
digits (suc f) n =
    let rest = digits f (n / 10) in
    if ltb n 10 then (b'0' + n) ∷ [] else rest ++ (b'0' + n % 10) ∷ []

abbrev pub word_digits : ℕ
word_digits = 10

-- `%d` of `snprintf`
unfoldable pub print_int : ℕ → List ℕ
unfolding digits
print_int v = if ltb v (2 ^ 31) then digits word_digits v else b'-' ∷ digits word_digits (word - v)

abbrev pub is_digit : ℕ → Bool
is_digit c = leb b'0' c && leb c b'9'

-- `isspace`
abbrev pub is_space : ℕ → Bool
is_space c = c == 32 || (leb 9 c && leb c 13)

unfoldable pub skip_spaces : List ℕ → List ℕ
skip_spaces [] = []
skip_spaces (c ∷ cs) = let rest = skip_spaces cs in if is_space c then rest else c ∷ cs

unfoldable pub scan_digits : ℕ → List ℕ → ℕ × List ℕ
scan_digits acc [] = (acc, [])
scan_digits acc (c ∷ cs) =
    let rest = scan_digits (acc * 10 + (c - b'0')) cs in if is_digit c then rest else (acc, c ∷ cs)

-- The number behind the sign; there has to be a digit.
unfoldable pub scan_magnitude : List ℕ → Option (ℕ × List ℕ)
unfolding scan_digits
scan_magnitude [] = none
scan_magnitude (c ∷ cs) = if is_digit c then some (scan_digits 0 (c ∷ cs)) else none

abbrev pub negate : Option (ℕ × List ℕ) → Option (ℕ × List ℕ)
negate none = none
negate (some (n, rest)) = some ((word - n % word) % word, rest)

abbrev pub plain : Option (ℕ × List ℕ) → Option (ℕ × List ℕ)
plain none = none
plain (some (n, rest)) = some (n % word, rest)

unfoldable pub scan_sign : List ℕ → Option (ℕ × List ℕ)
unfolding scan_magnitude
scan_sign [] = none
scan_sign (c ∷ cs) =
    if c == b'-'
    then negate (scan_magnitude cs)
    else if c == b'+'
    then plain (scan_magnitude cs)
    else plain (scan_magnitude (c ∷ cs))

-- `%d` of `sscanf`. A number out of the range of `int`, which C leaves undefined, wraps.
unfoldable pub scan_int : List ℕ → Option (ℕ × List ℕ)
unfolding skip_spaces scan_sign
scan_int s = scan_sign (skip_spaces s)

-- The numbers that `sscanf` assigns by "%d:%d:…" with `n` conversions, and what it leaves unread.
abbrev pub with_value : ℕ → List ℕ × List ℕ → List ℕ × List ℕ
with_value v (vs, rest) = (v ∷ vs, rest)

abbrev pub colon : List ℕ → Option (List ℕ)
colon [] = none
colon (c ∷ cs) = if c == b':' then some cs else none

unfoldable pub scan_ints : ℕ → List ℕ → List ℕ × List ℕ
scan_ints zero s = ([], s)
scan_ints (suc n) s = elim (scan_int s) [
  | none ↦ ([], s)
  | some (v, rest) ↦
      if n == 0
      then (v ∷ [], rest)
      else elim (colon rest) [ none ↦ (v ∷ [], rest) | some cs ↦ with_value v (scan_ints n cs) ]
]

-- "%d:%d:…" of `snprintf`
unfoldable pub print_ints : List ℕ → List ℕ
print_ints [] = []
print_ints (v ∷ []) = print_int v
print_ints (v ∷ w ∷ vs) = print_int v ++ b':' ∷ print_ints (w ∷ vs)

-- `%s` of `sscanf`: the bytes up to a space.
unfoldable pub take_word : List ℕ → List ℕ
take_word [] = []
take_word (c ∷ cs) = if is_space c then [] else c ∷ take_word cs
