-- ===== src/Minicom/Laws.antt =====
-- What pty/minicom_tty.c carries over.
use mathlib.Core.List.{append_assoc, append-nil}
use sys_snippets.Common.{
  ℕ, zero, suc, ◌<◌, ◌≡◌, refl, ap, sym, ◌∙◌, List, [], ◌∷◌, ◌++◌, none, some, ◌==◌, if◌then◌else◌,
  length, take, take_all, drop, replicate, All, inl, inr, Bool-cases, arith,
}
use sys_snippets.Minicom.{
  str_len, Side, Round, timed_out, interrupted, select_failed, no_data, ready, waiting, other,
  c_string, read_into, blank, pass_on, turn, on_end, relay,
}

-- A text up to its first zero.
abbrev pub before_zero : List ℕ → List ℕ
before_zero [] = []
before_zero (x ∷ xs) = if x == 0 then [] else x ∷ before_zero xs

-- What a round carries over, if nothing fails.
abbrev pub carried : Round → List (Side × List ℕ)
carried (ready side (some text) (some n)) = (other side, take n (before_zero text)) ∷ []
carried r = []

abbrev pub all_carried : List Round → List (Side × List ℕ)
all_carried [] = []
all_carried (r ∷ rs) = carried r ++ all_carried rs

-- Nothing fails, and a text leaves room for a zero.
abbrev pub Fits : Round → Type 0
Fits select_failed = ⊥
Fits (ready side none taken) = ⊥
Fits (ready side (some text) none) = ⊥
Fits (ready side (some text) (some n)) = length text < str_len
Fits r = Unit

pub c_string-zeros : (k n : ℕ) → k < n → c_string (drop k (replicate n 0)) ≡ some []
unfolding c_string
c_string-zeros k zero h = absurd (omega (arith, h))
c_string-zeros zero (suc n) h = refl
c_string-zeros (suc k) (suc n) h = c_string-zeros k n (omega (arith, h))

pub c_string-append :
    (text rest : List ℕ)
    → c_string rest ≡ some []
    → c_string (text ++ rest) ≡ some (before_zero text)
unfolding c_string
c_string-append [] rest h = h
c_string-append (x ∷ xs) rest h = elim (Bool-cases (x == 0)) [
  | inl e ↦ rw e refl
  | inr e ↦ rw (e, c_string-append xs rest h) refl
]

turn-Fits :
    (r : Round) (ws : List (Side × List ℕ))
    → Fits r
    → turn r (record { line = blank; written = ws })
      ≡ waiting (record { line = blank; written = ws ++ carried r })
unfolding turn
turn-Fits timed_out ws h =
    ap (λ v. waiting (record { line = blank; written = v })) (sym (append-nil ws))
turn-Fits interrupted ws h =
    ap (λ v. waiting (record { line = blank; written = v })) (sym (append-nil ws))
turn-Fits no_data ws h =
    ap (λ v. waiting (record { line = blank; written = v })) (sym (append-nil ws))
turn-Fits select_failed ws h = absurd h
turn-Fits (ready side none taken) ws h = absurd h
turn-Fits (ready side (some text) none) ws h = absurd h
turn-Fits (ready side (some text) (some n)) ws h =
    ap (λ o. pass_on side (read_into text blank) o (some n) ws)
      (ap (λ t. c_string (t ++ drop (length t) blank)) (take_all str_len text (omega (arith, h)))
        ∙ c_string-append text (drop (length text) blank) (c_string-zeros (length text) str_len h))

-- From a cleared line on, over any rounds in which nothing fails and each text has fewer than 100 bytes,
-- the loop goes on and never reads behind `line`: it writes to the other side, in order, each text up to
-- its first zero byte, as far as write takes it, and nothing else.
pub relay_lem :
    (rs : List Round) (ws : List (Side × List ℕ))
    → All Fits rs
    → relay rs (record { line = blank; written = ws })
      ≡ waiting (record { line = blank; written = ws ++ all_carried rs })
unfolding relay
relay_lem [] ws h = ap (λ v. waiting (record { line = blank; written = v })) (sym (append-nil ws))
relay_lem (r ∷ rs) ws (h, hs) =
    ap (λ e. on_end e (λ t. relay rs t)) (turn-Fits r ws h)
    ∙ relay_lem rs (ws ++ carried r) hs
    ∙ ap (λ v. waiting (record { line = blank; written = v }))
        (append_assoc ws (carried r) (all_carried rs))
