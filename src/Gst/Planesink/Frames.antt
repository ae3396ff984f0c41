-- ===== src/Gst/Planesink/Frames.antt =====
-- What gst/gst-drm/drmplanesink.c shows over any frames.
use sys_snippets.Common.{
  ℕ, ◌*◌, ◌^◌, ◌<◌, ◌≡◌, refl, ap, ◌∙◌, List, [], ◌∷◌, ◌++◌, Bool, true, false, Option, none, some,
  ltb, length, All, if◌then◌else◌, arith,
}
use sys_snippets.Gst.Drmsink
use sys_snippets.Gst.Drmsink.{Flow, u32}
use sys_snippets.Gst.Drmsink.Copy.{flatten}
use sys_snippets.Gst.Drmsink.Pair.{Pair, Shot, next_sink, last_shown, picture, sink, IsPair, IsShot}
use sys_snippets.Gst.Drmsink.Frames.{Keeps, render-Keeps, after}
use sys_snippets.Gst.Planesink.{
  Planesink, SetPlane, Outcome, ok, error, undefined, with_sink, set_plane, render,
}

-- The sink goes on after an error.
abbrev next_plane : Outcome → Option Planesink
next_plane (ok s) = some s
next_plane (error s) = some s
next_plane undefined = none

-- A frame after the other.
unfoldable pub play_plane : List Shot → Planesink → Option Planesink
unfolding render
play_plane [] s = some s
play_plane (x ∷ xs) s = elim (next_plane (render (flatten x.rows ++ x.extra) x.works s)) [
  | none ↦ none
  | some t ↦ play_plane xs t
]

next-with_sink :
    (s : Planesink) (r : Flow) (t : Drmsink.Sink)
    → next_sink r ≡ some t
    → next_plane (with_sink s r) ≡ some (record s { sink = t })
next-with_sink s (Drmsink.ok t') t e = ground (arith, e)
next-with_sink s (Drmsink.error t') t e = ground (arith, e)
next-with_sink s Drmsink.undefined t e = ground (arith, e)

-- The call shows the plane of `s` on its crtc at its place, in full size.
abbrev pub IsOwn : ℕ → ℕ → Planesink → SetPlane → Type 0
IsOwn w h s c =
    (c.plane_id ≡ s.plane_id)
    × (c.crtc_id ≡ s.crtc_id)
    × (c.posx ≡ s.posx)
    × (c.posy ≡ s.posy)
    × (c.width ≡ w)
    × (c.height ≡ h)
    × (c.src_width ≡ u32 (w * 65536))
    × (c.src_height ≡ u32 (h * 65536))

All-append-one :
    {A : Type 0} (P : A → Type 0) (xs : List A) (x : A) → All P xs → P x → All P (xs ++ (x ∷ []))
All-append-one P [] x f p = (p, tt)
All-append-one P (y ∷ ys) x (f, fs) p = (f, All-append-one P ys x fs p)

module _ (w h s0 s1 : ℕ) (small : h * (4 * w) < 2 ^ 32) where
  -- One frame: the sink is as that of drmsink.c, with calls of its own.
  Steps : Shot → Pair → Planesink → Type 0
  Steps x p s =
      (cs : List SetPlane) × (next_plane (render (flatten x.rows ++ x.extra) x.works s)
        ≡ some (record s { sink = sink w h s0 s1 (after w h s0 s1 small x p); calls = cs }))
      × All (IsOwn w h s) cs

  render-Steps :
      (x : Shot) (p : Pair) (s : Planesink)
      → s.sink ≡ sink w h s0 s1 p
      → Keeps w h s0 s1 small x p
      → All (IsOwn w h s) s.calls
      → Steps x p s
  unfolding render Steps
  render-Steps x p s e k own =
      go (ltb (length (flatten x.rows ++ x.extra)) (u32 (4 * s.sink.width * s.sink.height)))
    where
      same :
          next_sink (Drmsink.render (flatten x.rows ++ x.extra) x.works s.sink)
          ≡ some (sink w h s0 s1 (after w h s0 s1 small x p))
      same = ap (λ z. next_sink (Drmsink.render (flatten x.rows ++ x.extra) x.works z)) e ∙ k.0

      full : IsOwn w h s (set_plane s)
      full = (
        refl,
        refl,
        refl,
        refl,
        ap (λ z. z.width) e,
        ap (λ z. z.height) e,
        ap (λ z. u32 (z.width * 65536)) e,
        ap (λ z. u32 (z.height * 65536)) e,
      )

      go :
          (small_frame : Bool)
          → (cs : List SetPlane) × (next_plane (
                with_sink
                  (if small_frame then s else record s { calls = s.calls ++ (set_plane s ∷ []) })
                  (Drmsink.render (flatten x.rows ++ x.extra) x.works s.sink))
              ≡ some (record s { sink = sink w h s0 s1 (after w h s0 s1 small x p); calls = cs }))
            × All (IsOwn w h s) cs
      go true = (s.calls, next-with_sink s _ _ same, own)
      go false = (
        s.calls ++ (set_plane s ∷ []),
        next-with_sink (record s { calls = s.calls ++ (set_plane s ∷ []) }) _ _ same,
        All-append-one (IsOwn w h s) s.calls (set_plane s) own full,
      )

  -- What the frames come to.
  abbrev pub Plays : List Shot → Pair → Planesink → Type 0
  Plays xs p s =
      (q : Pair) × (u : Planesink) × (play_plane xs s ≡ some u)
      × (u.sink ≡ sink w h s0 s1 q)
      × (picture q ≡ last_shown xs (picture p))
      × All (IsOwn w h s) u.calls

  pub play_plane_lem :
      (xs : List Shot) (p : Pair) (s : Planesink)
      → s.sink ≡ sink w h s0 s1 p
      → IsPair w h s0 s1 p
      → All (IsShot w h s0 s1) xs
      → All (IsOwn w h s) s.calls
      → Plays xs p s
  unfolding play_plane Steps
  play_plane_lem [] p s e g f own = (p, s, refl, e, refl, own)
  play_plane_lem (x ∷ xs) p s e g (f, fs) own =
      let k : Keeps w h s0 s1 small x p =
        render-Keeps w h s0 s1 small x.rows x.extra x.works p.first p.second p.behind_first
          p.behind_second p.next p.visible g f in
      let t = render-Steps x p s e k own in
      let r =
        play_plane_lem xs (after w h s0 s1 small x p)
          (record s { sink = sink w h s0 s1 (after w h s0 s1 small x p); calls = t.0 }) refl k.1 fs
          t.2 in
      (r.0, r.1, rw (t.1, play_plane) r.2, r.3, r.4 ∙ ap (last_shown xs) k.2, r.5)
