-- ===== src/Gst/Drmsink/Frames.antt =====
-- What gst/gst-drm/drmsink.c shows over any frames: the last one that drmModeSetCrtc took, whole.
use native.Mathlib.Nat.{mul_comm}
use sys_snippets.Common.{
  ℕ, ◌*◌, ◌^◌, ◌<◌, ◌≡◌, refl, sym, ap, ◌∙◌, List, [], ◌∷◌, ◌++◌, Bool, true, false, not, Option,
  none, some, ltb, length, length-append, All, if◌then◌else◌, arith, Bool-cases, ltb→lt, inl, inr,
}
use sys_snippets.Gst.Drmsink.{u32, copy_lines, show, render}
use sys_snippets.Gst.Drmsink.Copy.{Line, lines, flatten, replace, Match, copy_lines_lem}
use sys_snippets.Gst.Drmsink.Pair.{
  Pair, Shot, next_sink, play, last_shown, picture, Alternates, shaped-Match, replace-IsShaped,
  sink, IsPair, IsShot,
}

module _ (w h s0 s1 : ℕ) (small : h * (4 * w) < 2 ^ 32) where
  full_size :
      (x : Shot) (ls : List Line) (stride : ℕ)
      → Match (4 * w) stride x.rows ls
      → length x.rows ≡ h
      → length (flatten x.rows) ≡ h * (4 * w)
  full_size x ls stride m c =
      (replace-IsShaped (4 * w) stride x.rows ls m).4 ∙ ap (λ n. n * (4 * w)) c

  fits :
      (x : Shot) (ls : List Line) (stride : ℕ) (behind : List ℕ)
      → Match (4 * w) stride x.rows ls
      → length x.rows ≡ h
      → length (lines ls) < 2 ^ 32
      → copy_lines h 0 w stride (flatten x.rows ++ x.extra) (lines ls ++ behind)
        ≡ some (lines (replace x.rows ls) ++ behind)
  fits x ls stride behind m c l =
      ap (λ n. copy_lines n 0 w stride (flatten x.rows ++ x.extra) (lines ls ++ behind)) (sym c)
      ∙ copy_lines_lem x.rows ls 0 w stride [] x.extra [] behind m (omega arith) (omega arith)
          (omega (arith, full_size x ls stride m c, small)) (omega (arith, l))

  large_enough :
      (x : Shot) (ls : List Line) (stride : ℕ)
      → Match (4 * w) stride x.rows ls
      → length x.rows ≡ h
      → ltb (length (flatten x.rows ++ x.extra)) (u32 (4 * w * h)) ≡ false
  large_enough x ls stride m c =
      elim (Bool-cases (ltb (length (flatten x.rows ++ x.extra)) (u32 (4 * w * h)))) [
        | inl e ↦ absurd (
            omega (
              arith,
              ltb→lt (length (flatten x.rows ++ x.extra)) (u32 (4 * w * h)) e,
              mul_comm (4 * w) h,
              full_size x ls stride m c,
              small,
              length-append (flatten x.rows) x.extra,
            ))
        | inr e ↦ e
      ]

  -- The pair with the frame in the buffer that is next.
  abbrev drawn : Shot → Pair → Pair
  drawn x p =
      if p.next
      then record p { second = replace x.rows p.second }
      else record p { first = replace x.rows p.first }

  abbrev pub after : Shot → Pair → Pair
  after x p =
      if x.works then record (drawn x p) { next = not p.next; visible = some p.next } else drawn x p

  copied_first :
      (x : Shot) (p : Pair)
      → IsPair w h s0 s1 p
      → IsShot w h s0 s1 x
      → p.next ≡ false
      → render (flatten x.rows ++ x.extra) x.works (sink w h s0 s1 p)
        ≡ show x.works (sink w h s0 s1 (record p { first = replace x.rows p.first; next = false }))
  unfolding render
  copied_first x p g f e =
      let m : Match (4 * w) s0 x.rows p.first =
        shaped-Match (4 * w) s0 x.rows p.first f.0 g.first_shaped
          (omega (arith, f.1, g.first_count)) in
      rw (e, large_enough x p.first s0 m f.1, render)
        (rw (fits x p.first s0 p.behind_first m f.1 g.first_small) refl)

  copied_second :
      (x : Shot) (p : Pair)
      → IsPair w h s0 s1 p
      → IsShot w h s0 s1 x
      → p.next ≡ true
      → render (flatten x.rows ++ x.extra) x.works (sink w h s0 s1 p)
        ≡ show x.works (sink w h s0 s1 (record p { second = replace x.rows p.second; next = true }))
  unfolding render
  copied_second x p g f e =
      let m : Match (4 * w) s1 x.rows p.second =
        shaped-Match (4 * w) s1 x.rows p.second f.0 g.second_shaped
          (omega (arith, f.1, g.second_count)) in
      rw (e, large_enough x p.second s1 m f.1, render)
        (rw (fits x p.second s1 p.behind_second m f.1 g.second_small) refl)

  abbrev pub pair : (a b : List Line) (ba bb : List ℕ) → Bool → Option Bool → Pair
  pair a b ba bb next visible = record {
    first = a;
    second = b;
    behind_first = ba;
    behind_second = bb;
    next = next;
    visible = visible;
  }

  abbrev pub shot : List (List ℕ) → List ℕ → Bool → Shot
  shot rows extra works = record { rows = rows; extra = extra; works = works }

  -- A frame in a buffer leaves a pair, whichever is next and shown then.
  drawn_first :
      (rows : List (List ℕ)) (a b : List Line) (ba bb : List ℕ) (next next' : Bool)
      (visible visible' : Option Bool)
      → IsPair w h s0 s1 (pair a b ba bb next visible)
      → Match (4 * w) s0 rows a
      → Alternates visible' next'
      → IsPair w h s0 s1 (pair (replace rows a) b ba bb next' visible')
  drawn_first rows a b ba bb next next' visible visible' g m alt =
      let r = replace-IsShaped (4 * w) s0 rows a m in
      record {
        first_shaped = r.0;
        second_shaped = g.second_shaped;
        first_count = r.1 ∙ g.first_count;
        second_count = g.second_count;
        first_small = omega (arith, r.3, g.first_small);
        second_small = g.second_small;
        alternates = alt;
      }

  drawn_second :
      (rows : List (List ℕ)) (a b : List Line) (ba bb : List ℕ) (next next' : Bool)
      (visible visible' : Option Bool)
      → IsPair w h s0 s1 (pair a b ba bb next visible)
      → Match (4 * w) s1 rows b
      → Alternates visible' next'
      → IsPair w h s0 s1 (pair a (replace rows b) ba bb next' visible')
  drawn_second rows a b ba bb next next' visible visible' g m alt =
      let r = replace-IsShaped (4 * w) s1 rows b m in
      record {
        first_shaped = g.first_shaped;
        second_shaped = r.0;
        first_count = g.first_count;
        second_count = r.1 ∙ g.second_count;
        first_small = g.first_small;
        second_small = omega (arith, r.3, g.second_small);
        alternates = alt;
      }

  same_second :
      (a a' b : List Line) (ba bb : List ℕ) (visible : Option Bool)
      → Alternates visible false
      → picture (pair a' b ba bb false visible) ≡ picture (pair a b ba bb false visible)
  same_second a a' b ba bb none h = refl
  same_second a a' b ba bb (some true) h = refl
  same_second a a' b ba bb (some false) h = absurd (ground arith)

  same_first :
      (a b b' : List Line) (ba bb : List ℕ) (visible : Option Bool)
      → Alternates visible true
      → picture (pair a b' ba bb true visible) ≡ picture (pair a b ba bb true visible)
  same_first a b b' ba bb none h = refl
  same_first a b b' ba bb (some false) h = refl
  same_first a b b' ba bb (some true) h = absurd (ground arith)

  -- What a call of `render` comes to.
  abbrev pub Keeps : Shot → Pair → Type 0
  Keeps x p =
      (next_sink (render (flatten x.rows ++ x.extra) x.works (sink w h s0 s1 p))
        ≡ some (sink w h s0 s1 (after x p)))
      × IsPair w h s0 s1 (after x p)
      × (picture (after x p) ≡ (if x.works then some x.rows else picture p))

  pub render-Keeps :
      (rows : List (List ℕ)) (extra : List ℕ) (works : Bool) (a b : List Line) (ba bb : List ℕ)
      (next : Bool) (visible : Option Bool)
      → IsPair w h s0 s1 (pair a b ba bb next visible)
      → IsShot w h s0 s1 (shot rows extra works)
      → Keeps (shot rows extra works) (pair a b ba bb next visible)
  render-Keeps rows extra true a b ba bb false visible g f =
      let m : Match (4 * w) s0 rows a =
        shaped-Match (4 * w) s0 rows a f.0 g.first_shaped (omega (arith, f.1, g.first_count)) in
      (
        ap next_sink (copied_first (shot rows extra true) (pair a b ba bb false visible) g f refl),
        drawn_first rows a b ba bb false true visible (some false) g m refl,
        ap some (replace-IsShaped (4 * w) s0 rows a m).2,
      )
  render-Keeps rows extra false a b ba bb false visible g f =
      let m : Match (4 * w) s0 rows a =
        shaped-Match (4 * w) s0 rows a f.0 g.first_shaped (omega (arith, f.1, g.first_count)) in
      (
        ap next_sink (copied_first (shot rows extra false) (pair a b ba bb false visible) g f refl),
        drawn_first rows a b ba bb false false visible visible g m g.alternates,
        same_second a (replace rows a) b ba bb visible g.alternates,
      )
  render-Keeps rows extra true a b ba bb true visible g f =
      let m : Match (4 * w) s1 rows b =
        shaped-Match (4 * w) s1 rows b f.0 g.second_shaped (omega (arith, f.1, g.second_count)) in
      (
        ap next_sink (copied_second (shot rows extra true) (pair a b ba bb true visible) g f refl),
        drawn_second rows a b ba bb true false visible (some true) g m refl,
        ap some (replace-IsShaped (4 * w) s1 rows b m).2,
      )
  render-Keeps rows extra false a b ba bb true visible g f =
      let m : Match (4 * w) s1 rows b =
        shaped-Match (4 * w) s1 rows b f.0 g.second_shaped (omega (arith, f.1, g.second_count)) in
      (
        ap next_sink (copied_second (shot rows extra false) (pair a b ba bb true visible) g f refl),
        drawn_second rows a b ba bb true true visible visible g m g.alternates,
        same_first a b (replace rows b) ba bb visible g.alternates,
      )

  -- Over any frames of the right size, with any answers of drmModeSetCrtc, `render` never goes out of a
  -- buffer, and the crtc shows the whole last frame that drmModeSetCrtc took (or what it showed before):
  -- the buffer that is written is not the one that is shown.
  pub play_lem :
      (xs : List Shot) (p : Pair)
      → IsPair w h s0 s1 p
      → All (IsShot w h s0 s1) xs
      → (q : Pair) × (play xs (sink w h s0 s1 p) ≡ some (sink w h s0 s1 q))
        × IsPair w h s0 s1 q
        × (picture q ≡ last_shown xs (picture p))
  unfolding play
  play_lem [] p g f = (p, refl, g, refl)
  play_lem (x ∷ xs) p g (f, fs) =
      let k : Keeps x p =
        render-Keeps x.rows x.extra x.works p.first p.second p.behind_first p.behind_second p.next
          p.visible g f in
      let r = play_lem xs (after x p) k.1 fs in
      (r.0, rw (k.0, play) r.1, r.2, r.3 ∙ ap (last_shown xs) k.2)
