-- ===== src/Drm/Client/Sessions.antt =====
-- A client and the server in turn: whole sessions, and what they make of the display.
use mathlib.Core.List.{append-nil}
use sys_snippets.Common.{
  ℕ, ◌<◌, ◌≡◌, refl, ap, sym, ◌∙◌, List, [], ◌∷◌, ◌++◌, Bool, true, false, ◌==◌, if◌then◌else◌,
  arith,
}
use sys_snippets.Drm.Text.{word, scan_ints}
use sys_snippets.Drm.Text.Laws.{Words, scan_ints-print_ints}
use sys_snippets.Drm.Proto.{drm_ok, drm_error}
use sys_snippets.Drm.Server.{
  auth_magic, set_plane, Answers, State, handle, Reply, replied, undefined_reply, shl_16,
}
use sys_snippets.Drm.Server.Requests.{
  answer, handle-auth, handle-plane, handle-plane_stop, after_auth, after_plane, after_plane_stop,
}
use sys_snippets.Drm.Client.{
  Stage, asked_auth, asked_show, asked_stop, Client, auth_line, plane_client, Next, send, wait,
  give_up, quit, advance, on_values, on_response,
}

-- What a session comes to: the client is at the end, has given up or waits for an answer that does
-- not come, or the server is undefined; `open` says that no answers of libdrm are left.
pub data Session : Type 0 where
  complete : State → Session
  abandoned : State → Session
  silent : State → Session
  broken : Session
  unfinished : State → Session

-- The client's next step; `k` is the exchange that follows.
abbrev pub proceed : Next → State → (Stage → List ℕ → State → Session) → Session
proceed (send next line) s k = k next line s
proceed wait s k = silent s
proceed give_up s k = abandoned s
proceed quit s k = complete s

abbrev pub react : Client → Stage → Reply → (Stage → List ℕ → State → Session) → Session
react c stage undefined_reply k = broken
react c stage (replied s text) k = proceed (on_response c stage text) s k

-- The client's message goes to the server, and the reply back, with one record of answers of libdrm
-- for each message.
unfoldable pub exchange : List Answers → Client → Stage → List ℕ → State → Session
exchange [] c stage line s = unfinished s
exchange (a ∷ more) c stage line s =
    react c stage (handle a line s) λ next line' s'. exchange more c next line' s'

same_magic :
    (m v : ℕ)
    → v < 2
    → (c : Client) (stage : Stage) → c.magic ≡ m
    → on_values c stage (m ∷ v ∷ []) ≡ (if v == 0 then advance c stage else give_up)
same_magic m v h c stage e = let same : (m == c.magic) ≡ true = ground arith in rw same

-- A reply is read by the client as what the server meant.
pub on_response-answer :
    (c : Client) (stage : Stage) (works : Bool)
    → c.magic < word
    → on_response c stage (answer c.magic works) ≡ (if works then advance c stage else give_up)
unfolding on_response
on_response-answer c stage works h =
    ap (λ t. on_values c stage (scan_ints 2 t).0) (sym (append-nil (answer c.magic works)))
    ∙ ap (λ t. on_values c stage t.0)
        (scan_ints-print_ints c.magic ((if works then drm_ok else drm_error) ∷ []) []
          (h, (small works, tt)) tt)
    ∙ means works
  where
    small : (b : Bool) → (if b then drm_ok else drm_error) < word
    small true = omega arith
    small false = omega arith

    means :
        (b : Bool)
        → on_values c stage (c.magic ∷ (if b then drm_ok else drm_error) ∷ [])
          ≡ (if b then advance c stage else give_up)
    means true = same_magic c.magic drm_ok (omega arith) c stage refl
    means false = same_magic c.magic drm_error (omega arith) c stage refl

exchange-step :
    (a : Answers) (more : List Answers) (c : Client) (stage : Stage) (line : List ℕ) (s t : State)
    (works : Bool)
    → c.magic < word
    → handle a line s ≡ replied t (answer c.magic works)
    → works ≡ true
    → exchange (a ∷ more) c stage line s ≡ proceed (advance c stage) t (exchange more c)
unfolding exchange
exchange-step a more c stage line s t works h e fine =
    ap (λ r. react c stage r (exchange more c)) e
    ∙ ap (λ n. proceed n t (exchange more c))
        (on_response-answer c stage works h
          ∙ ap (λ (b : Bool). if b then advance c stage else give_up) fine)

-- A session of drm_client_plane.c with the server, in which every call of libdrm works, runs to its
-- end, and the server has asked for the authentication of the client's magic, shown the plane as the
-- client wanted it, and switched that plane off, and nothing else.
pub plane_session :
    (a b d : Answers) (magic crtc plane fb w h x y : ℕ) (s : State)
    → Words (magic ∷ crtc ∷ plane ∷ fb ∷ w ∷ h ∷ x ∷ y ∷ [])
    → a.authenticated ≡ true
    → b.plane_set ≡ true
    → d.plane_set ≡ true
    → (t : State) × (exchange
          (a ∷ b ∷ d ∷ [])
          (plane_client magic crtc plane fb w h x y)
          asked_auth
          (auth_line magic)
          s
        ≡ complete t)
      × (t.calls
          ≡ s.calls
            ++ (auth_magic magic ∷ [])
            ++ (set_plane plane crtc fb x y w h (shl_16 w) (shl_16 h) ∷ [])
            ++ (set_plane plane 0 0 0 0 0 0 0 0 ∷ []))
plane_session a b d magic crtc plane fb w h x y s k e1 e2 e3 =
    let c = plane_client magic crtc plane fb w h x y in
    let s1 = after_auth a magic s in
    let s2 = after_plane magic crtc plane fb w h x y s1 in
    (
      after_plane_stop magic s2,
      exchange-step a (b ∷ d ∷ []) c asked_auth (auth_line magic) s s1 _ k.0
            (handle-auth a magic s k.0) e1
          ∙ exchange-step b (d ∷ []) c asked_show c.show_line s1 s2 _ k.0
              (handle-plane b magic crtc plane fb w h x y s1 k) e2
          ∙ exchange-step d [] c asked_stop c.stop_line s2 _ _ k.0
              (handle-plane_stop d magic s2 k.0) e3,
      refl,
    )
