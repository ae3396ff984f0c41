-- ===== src/Kms/Search.antt =====
-- The loops of drm-tests/drm_utils.c, which fetch objects one by one and free those that do not fit.
use sys_snippets.Common.{
  ℕ, ◌+◌, ◌-◌, ◌≡◌, refl, ap, ◌∙◌, List, [], ◌∷◌, Bool, true, false, Option, none, some, ◌==◌, inl,
  inr, Bool-cases, Option-cases, if◌then◌else◌, arith,
}
use sys_snippets.Kms.{Encoder, Crtc, is_possible}

-- The `for` loop over the ids of connectors, encoders or CRTCs: what it breaks off with, if it does,
-- and how many objects of the kind are then held.
unfoldable pub search : {A : Type 0} → (ℕ → Option A) → (A → Bool) → List ℕ → ℕ → Option A × ℕ
search get fits [] held = (none, held)
search get fits (id ∷ ids) held = elim (get id) [
  | none ↦ search get fits ids held
  | some x ↦ elim (fits x) [
    | true ↦ (some x, held + 1)
    | false ↦ search get fits ids (held + 1 - 1)
  ]
]

-- The `for` loop over the modes of a connector.
unfoldable pub first : {A : Type 0} → (A → Bool) → List A → Option A
first fits [] = none
first fits (x ∷ xs) = let rest = first fits xs in if fits x then some x else rest

abbrev pub or_else : {A : Type 0} → Option A → Option A → Option A
or_else none o = o
or_else (some x) o = some x

abbrev pub only_if : {A : Type 0} → Bool → A → Option A
only_if true x = some x
only_if false x = none

-- The loop over the CRTCs in `drm_autoconf`, from the `i`-th on, with its variable `c`, and
-- `crtc = c` after it: a CRTC that is not taken is not freed.
unfoldable pub pick_crtc :
    (ℕ → Option Crtc) → Encoder → List ℕ → ℕ → Option Crtc → ℕ → Option Crtc × ℕ
pick_crtc get e [] i c held = (c, held)
pick_crtc get e (id ∷ ids) i c held = elim (get id) [
  | none ↦ pick_crtc get e ids (i + 1) c held
  | some x ↦ elim (x.crtc_id == e.current_crtc) [
    | true ↦ (some x, held + 1)
    | false ↦ pick_crtc get e ids (i + 1) (or_else c (only_if (is_possible e i) x)) (held + 1)
  ]
]

-- The objects that the ids of a list stand for.
abbrev pub fetched : {A : Type 0} → (ℕ → Option A) → List ℕ → List A
fetched get [] = []
fetched get (id ∷ ids) = elim (get id) [ none ↦ fetched get ids | some x ↦ x ∷ fetched get ids ]

-- The first CRTC of the list that the encoder can drive, the list beginning at position `i`.
abbrev pub first_possible : (ℕ → Option Crtc) → Encoder → List ℕ → ℕ → Option Crtc
first_possible get e [] i = none
first_possible get e (id ∷ ids) i = elim (get id) [
  | none ↦ first_possible get e ids (i + 1)
  | some x ↦ or_else (only_if (is_possible e i) x) (first_possible get e ids (i + 1))
]

abbrev pub is_current : Encoder → Crtc → Bool
is_current e x = x.crtc_id == e.current_crtc

abbrev pub one : {A : Type 0} → Option A → ℕ
one none = 0
one (some x) = 1

got_freed : (held : ℕ) → held + 1 - 1 ≡ held
got_freed held = omega arith

-- A search finds the first object that fits, holds that one, and no other that it fetched.
pub search_lem :
    {A : Type 0} (get : ℕ → Option A) (fits : A → Bool) (ids : List ℕ) (held : ℕ)
    → search get fits ids held
      ≡ (first fits (fetched get ids), held + one (first fits (fetched get ids)))
unfolding search first
search_lem get fits [] held = ap (λ n. (none, n)) (omega arith)
search_lem get fits (id ∷ ids) held = elim (Option-cases (get id)) [
  | inl e ↦ rw (e, search, fetched) (search_lem get fits ids held)
  | inr (x, e) ↦ elim (Bool-cases (fits x)) [
    | inl f ↦ rw (e, search, fetched, f) refl
    | inr f ↦
        rw (e, search, fetched, f)
          (ap (search get fits ids) (got_freed held) ∙ search_lem get fits ids held)
  ]
]

or_else_assoc : {A : Type 0} (a b c : Option A) → or_else (or_else a b) c ≡ or_else a (or_else b c)
or_else_assoc none b c = refl
or_else_assoc (some x) b c = refl

-- The CRTC that the encoder has, else the candidate so far, else the first one that it can drive.
pub pick_crtc_lem :
    (get : ℕ → Option Crtc) (e : Encoder) (ids : List ℕ) (i : ℕ) (c : Option Crtc) (held : ℕ)
    → (pick_crtc get e ids i c held).0
      ≡ or_else (first (is_current e) (fetched get ids)) (or_else c (first_possible get e ids i))
unfolding pick_crtc first
pick_crtc_lem get e [] i none held = refl
pick_crtc_lem get e [] i (some c) held = refl
pick_crtc_lem get e (id ∷ ids) i c held = elim (Option-cases (get id)) [
  | inl k ↦ rw (k, pick_crtc, fetched, first_possible) (pick_crtc_lem get e ids (i + 1) c held)
  | inr (x, k) ↦ elim (Bool-cases (x.crtc_id == e.current_crtc)) [
    | inl f ↦ rw (k, pick_crtc, fetched, first_possible, f) refl
    | inr f ↦
        rw (k, pick_crtc, fetched, first_possible, f)
          (pick_crtc_lem get e ids (i + 1) (or_else c (only_if (is_possible e i) x)) (held + 1)
            ∙ ap (or_else (first (is_current e) (fetched get ids)))
                (or_else_assoc c (only_if (is_possible e i) x) (first_possible get e ids (i + 1))))
  ]
]

-- The objects that the loop over the CRTCs fetched, which all stay held.
abbrev pub tried : {A : Type 0} → (A → Bool) → List A → ℕ
tried fits [] = 0
tried fits (x ∷ xs) = if fits x then 1 else 1 + tried fits xs

pub pick_crtc-held :
    (get : ℕ → Option Crtc) (e : Encoder) (ids : List ℕ) (i : ℕ) (c : Option Crtc) (held : ℕ)
    → (pick_crtc get e ids i c held).1 ≡ held + tried (is_current e) (fetched get ids)
unfolding pick_crtc
pick_crtc-held get e [] i c held = omega arith
pick_crtc-held get e (id ∷ ids) i c held = elim (Option-cases (get id)) [
  | inl k ↦ rw (k, pick_crtc, fetched) (pick_crtc-held get e ids (i + 1) c held)
  | inr (x, k) ↦ elim (Bool-cases (x.crtc_id == e.current_crtc)) [
    | inl f ↦ rw (k, pick_crtc, fetched, f) refl
    | inr f ↦
        rw (k, pick_crtc, fetched, f)
          (omega (
            arith,
            pick_crtc-held get e ids (i + 1) (or_else c (only_if (is_possible e i) x)) (held + 1),
          ))
  ]
]
