-- ===== src/Gst/Drmsink/Pair.antt =====
-- The two buffers of gst/gst-drm/drmsink.c as lines, the frames that it gets, and what they show.
use sys_snippets.Common.{
  ℕ, suc, ◌+◌, ◌*◌, ◌^◌, ◌<◌, ◌≡◌, refl, ap, List, [], ◌∷◌, ◌++◌, Bool, true, false, not, Option,
  none, some, length, map, length-append, All, if◌then◌else◌, arith,
}
use sys_snippets.Gst.Drmsink.{Sink, Flow, ok, error, undefined, render}
use sys_snippets.Gst.Drmsink.Copy.{Line, lines, flatten, replace, Match}

-- The two buffers as lines and what follows them, which is next, and which is shown.
pub record Pair : Type 0 where
  pub first : List Line
  pub second : List Line
  pub behind_first : List ℕ
  pub behind_second : List ℕ
  pub next : Bool
  pub visible : Option Bool

abbrev pub index : Bool → ℕ
index false = 0
index true = 1

abbrev pub screen_of : Option Bool → Option ℕ
screen_of none = none
screen_of (some b) = some (index b)

-- A frame of `h` rows of `w` pixels with what follows, and whether drmModeSetCrtc takes it.
pub record Shot : Type 0 where
  pub rows : List (List ℕ)
  pub extra : List ℕ
  pub works : Bool

-- The sink goes on after an error.
abbrev pub next_sink : Flow → Option Sink
next_sink (ok s) = some s
next_sink (error s) = some s
next_sink undefined = none

unfoldable pub play : List Shot → Sink → Option Sink
unfolding render
play [] s = some s
play (x ∷ xs) s = elim (next_sink (render (flatten x.rows ++ x.extra) x.works s)) [
  | none ↦ none
  | some t ↦ play xs t
]

-- Lines of `w` bytes seen and `stride` in all.
abbrev pub IsShaped : ℕ → ℕ → List Line → Type 0
IsShaped w stride ls = All (λ (l : Line). (length l.0 ≡ w) × (w + length l.1 ≡ stride)) ls

abbrev pub seen : List Line → List (List ℕ)
seen ls = map (λ l. l.0) ls

-- What the last frame that was taken shows.
abbrev pub last_shown : List Shot → Option (List (List ℕ)) → Option (List (List ℕ))
last_shown [] o = o
last_shown (x ∷ xs) o = last_shown xs (if x.works then some x.rows else o)

abbrev pub picture : Pair → Option (List (List ℕ))
picture p = elim p.visible [
  | none ↦ none
  | some false ↦ some (seen p.first)
  | some true ↦ some (seen p.second)
]

-- The buffer that is next is not the one that is shown.
abbrev pub Alternates : Option Bool → Bool → Type 0
Alternates none next = Unit
Alternates (some b) next = b ≡ not next

pub shaped-Match :
    (w stride : ℕ) (rows : List (List ℕ)) (ls : List Line)
    → All (λ row. length row ≡ w) rows
    → IsShaped w stride ls
    → length rows ≡ length ls
    → Match w stride rows ls
shaped-Match w stride [] [] r s h = tt
shaped-Match w stride [] (l ∷ ls) r s h = absurd (omega (arith, h))
shaped-Match w stride (row ∷ rows) [] r s h = absurd (omega (arith, h))
shaped-Match w stride (row ∷ rows) ((v, p) ∷ ls) (r, rs) ((s, t), ss) h =
    (r, s, t, shaped-Match w stride rows ls rs ss (omega (arith, h)))

pub replace-IsShaped :
    (w stride : ℕ) (rows : List (List ℕ)) (ls : List Line)
    → Match w stride rows ls
    → IsShaped w stride (replace rows ls)
      × (length (replace rows ls) ≡ length ls)
      × (seen (replace rows ls) ≡ rows)
      × (length (lines (replace rows ls)) ≡ length (lines ls))
      × (length (flatten rows) ≡ length rows * w)
replace-IsShaped w stride [] [] m = (tt, refl, refl, refl, omega arith)
replace-IsShaped w stride [] (l ∷ ls) m = elim m [ ]
replace-IsShaped w stride (row ∷ rows) [] m = elim m [ ]
replace-IsShaped w stride (row ∷ rows) ((v, p) ∷ ls) (r, s, t, m) =
    let ih = replace-IsShaped w stride rows ls m in
    (
      ((r, t), ih.0),
      ap suc ih.1,
      ap (row ∷◌) ih.2,
      omega (
        arith,
        ih.3,
        r,
        s,
        length-append row (p ++ lines (replace rows ls)),
        length-append v (p ++ lines ls),
        length-append p (lines (replace rows ls)),
        length-append p (lines ls),
      ),
      omega (arith, ih.4, r, length-append row (flatten rows)),
    )

module _ (w h s0 s1 : ℕ) where
  -- The sink, set up for frames of `w` times `h` pixels.
  abbrev pub sink : Pair → Sink
  sink p = record {
    enabled = true;
    frame = some ((lines p.first ++ p.behind_first) ∷ (lines p.second ++ p.behind_second) ∷ []);
    stride = s0 ∷ s1 ∷ [];
    current = index p.next;
    width = w;
    height = h;
    screen = screen_of p.visible;
    saved = true;
  }

  -- Each buffer has room for a frame, and the one that is next is not the one that is shown.
  pub record IsPair (p : Pair) : Type 0 where
    pub first_shaped : IsShaped (4 * w) s0 p.first
    pub second_shaped : IsShaped (4 * w) s1 p.second
    pub first_count : length p.first ≡ h
    pub second_count : length p.second ≡ h
    pub first_small : length (lines p.first) < 2 ^ 32
    pub second_small : length (lines p.second) < 2 ^ 32
    pub alternates : Alternates p.visible p.next

  -- A frame of the size that was set up.
  abbrev pub IsShot : Shot → Type 0
  IsShot x = All (λ row. length row ≡ 4 * w) x.rows × (length x.rows ≡ h)
