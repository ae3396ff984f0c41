-- ===== src/Drm/Text/Laws.antt =====
-- What is printed is scanned back.
use mathlib.Core.List.{append_assoc}
use native.Mathlib.Nat.{pow-suc}
use sys_snippets.Common.{
  ℕ, zero, suc, ◌+◌, ◌-◌, ◌*◌, ◌/◌, ◌%◌, ◌^◌, ◌<◌, ◌≡◌, inl, inr, refl, ap, sym, ◌∙◌, List, [], ◌∷◌,
  ◌++◌, true, false, some, length, length-append, All, Bool-cases, ltb, ◌==◌, arith,
}
use sys_snippets.Drm.Text.{
  word, digits, word_digits, print_int, is_digit, is_space, scan_digits, scan_magnitude, negate,
  plain, scan_sign, scan_int, with_value, scan_ints, print_ints,
}

abbrev pub Digits : List ℕ → Type 0
Digits = All (λ c. is_digit c ≡ true)

-- The number that digits stand for, read behind `acc`.
abbrev pub value : ℕ → List ℕ → ℕ
value acc [] = acc
value acc (c ∷ cs) = value (acc * 10 + (c - b'0')) cs

value-append : (acc : ℕ) (xs ys : List ℕ) → value acc (xs ++ ys) ≡ value (value acc xs) ys
value-append acc [] ys = refl
value-append acc (x ∷ xs) ys = value-append (acc * 10 + (x - b'0')) xs ys

All-append {ℓ} : (P : ℕ → Type ℓ) (xs ys : List ℕ) → All P xs → All P ys → All P (xs ++ ys)
All-append P [] ys p q = q
All-append P (x ∷ xs) ys p q = (p.0, All-append P xs ys p.1 q)

digits-Digits : (f n : ℕ) → Digits (digits f n)
unfolding digits
digits-Digits zero n = tt
digits-Digits (suc f) n = elim (Bool-cases (ltb n 10)) [
  | inl e ↦ rw e (ground arith)
  | inr e ↦ rw e (All-append _ (digits f (n / 10)) _ (digits-Digits f (n / 10)) (ground arith))
]

digits-value : (f n : ℕ) → n < 10 ^ f → value 0 (digits f n) ≡ n
unfolding digits
digits-value zero n h = omega arith
digits-value (suc f) n h = elim (Bool-cases (ltb n 10)) [
  | inl e ↦ rw e (ground arith)
  | inr e ↦ rw e (
      value-append 0 (digits f (n / 10)) ((b'0' + n % 10) ∷ [])
      ∙ omega (arith, digits-value f (n / 10) (omega (arith, pow-suc 10 f))))
]

-- No digit stands at the head.
abbrev pub Stops : List ℕ → Type 0
Stops [] = Unit {0}
Stops (c ∷ cs) = is_digit c ≡ false

scan_digits_lem :
    (acc : ℕ) (ds rest : List ℕ)
    → Digits ds
    → Stops rest
    → scan_digits acc (ds ++ rest) ≡ (value acc ds, rest)
unfolding scan_digits
scan_digits_lem acc [] [] d s = refl
scan_digits_lem acc [] (c ∷ rest) d s = rw s
scan_digits_lem acc (c ∷ ds) rest d s =
    rw (d.0) (scan_digits_lem (acc * 10 + (c - b'0')) ds rest d.1 s)

length-digits : (f n : ℕ) → 0 < length (digits (suc f) n)
unfolding digits
length-digits f n = elim (Bool-cases (ltb n 10)) [
  | inl e ↦ rw e (omega arith)
  | inr e ↦ rw e (omega (arith, length-append (digits f (n / 10)) ((b'0' + n % 10) ∷ [])))
]

magnitude-cons :
    (c : ℕ) (cs : List ℕ)
    → is_digit c ≡ true
    → scan_magnitude (c ∷ cs) ≡ some (scan_digits 0 (c ∷ cs))
unfolding scan_magnitude
magnitude-cons c cs e = rw e

sign-cons :
    (c : ℕ) (cs : List ℕ) → is_digit c ≡ true → scan_sign (c ∷ cs) ≡ plain (scan_magnitude (c ∷ cs))
unfolding scan_sign
sign-cons c cs e =
    let not_minus : (c == b'-') ≡ false = ground arith in
    let not_plus : (c == b'+') ≡ false = ground arith in rw (not_minus, not_plus)

sign-minus : (cs : List ℕ) → scan_sign (b'-' ∷ cs) ≡ negate (scan_magnitude cs)
unfolding scan_sign
sign-minus cs = refl

int-cons : (c : ℕ) (cs : List ℕ) → is_space c ≡ false → scan_int (c ∷ cs) ≡ scan_sign (c ∷ cs)
unfolding scan_int
int-cons c cs e = rw e

magnitude-Digits :
    (ds rest : List ℕ)
    → 0 < length ds
    → Digits ds
    → Stops rest
    → scan_magnitude (ds ++ rest) ≡ some (value 0 ds, rest)
magnitude-Digits [] rest l d s = absurd (omega arith)
magnitude-Digits (c ∷ cs) rest l d s =
    magnitude-cons c (cs ++ rest) d.0 ∙ ap some (scan_digits_lem 0 (c ∷ cs) rest d s)

-- Digits are no space and no sign.
scan_int-Digits :
    (ds rest : List ℕ)
    → 0 < length ds
    → Digits ds
    → Stops rest
    → scan_int (ds ++ rest) ≡ some (value 0 ds % word, rest)
scan_int-Digits [] rest l d s = absurd (omega arith)
scan_int-Digits (c ∷ cs) rest l d s =
    int-cons c (cs ++ rest) (ground arith)
    ∙ sign-cons c (cs ++ rest) d.0
    ∙ ap plain (magnitude-Digits (c ∷ cs) rest l d s)

scan_int_minus :
    (ds rest : List ℕ)
    → 0 < length ds
    → Digits ds
    → Stops rest
    → scan_int (b'-' ∷ ds ++ rest) ≡ some ((word - value 0 ds % word) % word, rest)
scan_int_minus ds rest l d s =
    int-cons b'-' (ds ++ rest) refl
    ∙ sign-minus (ds ++ rest)
    ∙ ap negate (magnitude-Digits ds rest l d s)

-- %d reads back what %d has printed, up to what follows, if that does not begin with a digit.
pub scan_int-print_int :
    (v : ℕ) (rest : List ℕ)
    → v < word
    → Stops rest
    → scan_int (print_int v ++ rest) ≡ some (v, rest)
unfolding print_int
scan_int-print_int v rest h s = elim (Bool-cases (ltb v (2 ^ 31))) [
  | inl e ↦ rw e (
      scan_int-Digits (digits word_digits v) rest (length-digits 9 v) (digits-Digits word_digits v)
        s
      ∙ ap (λ t. some (t, rest)) {x = value 0 (digits word_digits v) % word} {y = v}
          (omega (arith, digits-value word_digits v (omega arith))))
  | inr e ↦ rw e (
      scan_int_minus (digits word_digits (word - v)) rest (length-digits 9 (word - v))
        (digits-Digits word_digits (word - v)) s
      ∙ ap (λ t. some (t, rest))
          {x = (word - value 0 (digits word_digits (word - v)) % word) % word} {y = v}
          (ground (arith, digits-value word_digits (word - v) (omega arith))))
]

ints-last :
    (s : List ℕ) (v : ℕ) (rest : List ℕ)
    → scan_int s ≡ some (v, rest)
    → scan_ints 1 s ≡ (v ∷ [], rest)
unfolding scan_ints
ints-last s v rest e = rw (e, scan_ints)

ints-more :
    (n : ℕ) (s : List ℕ) (v : ℕ) (rest : List ℕ)
    → scan_int s ≡ some (v, b':' ∷ rest)
    → scan_ints (suc (suc n)) s ≡ with_value v (scan_ints (suc n) rest)
unfolding scan_ints
ints-more n s v rest e = let more : (suc n == 0) ≡ false = ground arith in rw (e, scan_ints, more)

abbrev pub Words : List ℕ → Type 0
Words = All (λ v. v < word)

-- A line of words that was printed by "%d:%d:…" is read back by as many conversions, whatever
-- follows it, if that does not begin with a digit.
pub scan_ints-print_ints :
    (v : ℕ) (vs rest : List ℕ)
    → Words (v ∷ vs)
    → Stops rest
    → scan_ints (length (v ∷ vs)) (print_ints (v ∷ vs) ++ rest) ≡ (v ∷ vs, rest)
unfolding print_ints
scan_ints-print_ints v [] rest h s = ints-last _ v rest (scan_int-print_int v rest h.0 s)
scan_ints-print_ints v (w ∷ vs) rest h s =
    rw (append_assoc (print_int v) (b':' ∷ print_ints (w ∷ vs)) rest) (
      ints-more (length vs) _ v (print_ints (w ∷ vs) ++ rest)
        (scan_int-print_int v (b':' ∷ (print_ints (w ∷ vs) ++ rest)) h.0 refl)
      ∙ ap (with_value v) (scan_ints-print_ints w vs rest h.1 s))

-- A longer line is a shorter one, a colon, and the rest.
pub print_ints-append :
    (v : ℕ) (vs : List ℕ) (w : ℕ) (ws : List ℕ)
    → print_ints (v ∷ vs ++ w ∷ ws) ≡ print_ints (v ∷ vs) ++ b':' ∷ print_ints (w ∷ ws)
unfolding print_ints
print_ints-append v [] w ws = refl
print_ints-append v (u ∷ vs) w ws =
    ap (λ t. print_int v ++ b':' ∷ t) (print_ints-append u vs w ws)
    ∙ sym (append_assoc (print_int v) (b':' ∷ print_ints (u ∷ vs)) (b':' ∷ print_ints (w ∷ ws)))
