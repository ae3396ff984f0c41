-- ===== src/Drm/Server/Requests.antt =====
-- What each request that a client prints makes drm_server.c do.
use mathlib.Core.List.{append-nil}
use sys_snippets.Common.{
  ℕ, ◌<◌, ◌≡◌, refl, ap, sym, ◌∙◌, List, [], ◌∷◌, Bool, true, false, if◌then◌else◌, inl, inr,
  Bool-cases, arith,
}
use sys_snippets.Drm.Text.{word, scan_ints, print_ints}
use sys_snippets.Drm.Text.Laws.{Words, scan_ints-print_ints, print_ints-append}
use sys_snippets.Drm.Proto.{cmd_auth, cmd_plane, cmd_plane_stop, drm_ok, drm_error, Info}
use sys_snippets.Drm.Server.{
  Call, auth_magic, set_plane, Answers, State, fine, failed, call, blank_info, shl_16, dispatch,
  handle, replied, reply,
}

abbrev pub answer : ℕ → Bool → List ℕ
answer magic works = print_ints (magic ∷ (if works then drm_ok else drm_error) ∷ [])

-- The first two numbers of a printed line.
pub scan_two :
    (a b : ℕ) → Words (a ∷ b ∷ []) → (scan_ints 2 (print_ints (a ∷ b ∷ []))).0 ≡ a ∷ b ∷ []
scan_two a b h =
    ap (λ t. (scan_ints 2 t).0) (sym (append-nil (print_ints (a ∷ b ∷ []))))
    ∙ ap (λ t. t.0) (scan_ints-print_ints a (b ∷ []) [] h tt)

scan_two_more :
    (a b c : ℕ) (cs : List ℕ)
    → Words (a ∷ b ∷ [])
    → (scan_ints 2 (print_ints (a ∷ b ∷ c ∷ cs))).0 ≡ a ∷ b ∷ []
scan_two_more a b c cs h =
    ap (λ t. (scan_ints 2 t).0) (print_ints-append a (b ∷ []) c cs)
    ∙ ap (λ t. t.0) (scan_ints-print_ints a (b ∷ []) (b':' ∷ print_ints (c ∷ cs)) h refl)

-- The state in which a request of a client is dispatched.
abbrev pub heard : ℕ → ℕ → State → State
heard magic command s = record s { magic = magic; command = command }

handle-two :
    (a : Answers) (magic command : ℕ) (s : State)
    → Words (magic ∷ command ∷ [])
    → handle a (print_ints (magic ∷ command ∷ [])) s
      ≡ reply (dispatch a (print_ints (magic ∷ command ∷ [])) (heard magic command s))
unfolding handle
handle-two a magic command s h = rw (scan_two magic command h)

-- The state behind CMD_AUTH.
abbrev pub after_auth : Answers → ℕ → State → State
after_auth a magic s = record (call (auth_magic magic) (heard magic cmd_auth s)) {
  info = if a.authenticated then record blank_info { magic = magic } else s.info;
}

dispatch-auth :
    (a : Answers) (rx : List ℕ) (magic : ℕ) (s : State)
    → reply (dispatch a rx (heard magic cmd_auth s))
      ≡ replied (after_auth a magic s) (answer magic a.authenticated)
unfolding dispatch
dispatch-auth a rx magic s = elim (Bool-cases a.authenticated) [ inl e ↦ rw e | inr e ↦ rw e ]

-- A request CMD_AUTH asks drmAuthMagic for its magic; if that works, the slot of the client is
-- blank but for the magic, and else the slot stays as it was.
pub handle-auth :
    (a : Answers) (magic : ℕ) (s : State)
    → magic < word
    → handle a (print_ints (magic ∷ cmd_auth ∷ [])) s
      ≡ replied (after_auth a magic s) (answer magic a.authenticated)
handle-auth a magic s h =
    handle-two a magic cmd_auth s (h, omega arith)
    ∙ dispatch-auth a (print_ints (magic ∷ cmd_auth ∷ [])) magic s

try-reply :
    (works : Bool) (c : Call) (s : State)
    → reply (if works then fine (call c s) else failed (call c s))
      ≡ replied (call c s) (answer s.magic works)
try-reply true c s = refl
try-reply false c s = refl

-- The slot of a client behind CMD_PLANE.
abbrev pub plane_info : (crtc plane fb w h x y : ℕ) → Info → Info
plane_info crtc plane fb w h x y i = record i {
  crtc_id = crtc;
  plane_id = plane;
  w = w;
  h = h;
  x = x;
  y = y;
  fb = fb;
}

-- The states behind CMD_PLANE and behind CMD_PLANE_STOP.
abbrev pub after_plane : (magic crtc plane fb w h x y : ℕ) → State → State
after_plane magic crtc plane fb w h x y s =
    call (set_plane plane crtc fb x y w h (shl_16 w) (shl_16 h))
      (record (heard magic cmd_plane s) { info = plane_info crtc plane fb w h x y s.info })

abbrev pub after_plane_stop : ℕ → State → State
after_plane_stop magic s =
    call (set_plane s.info.plane_id 0 0 0 0 0 0 0 0) (heard magic cmd_plane_stop s)

scan_plane :
    (magic crtc plane fb w h x y : ℕ)
    → Words (magic ∷ crtc ∷ plane ∷ fb ∷ w ∷ h ∷ x ∷ y ∷ [])
    → (scan_ints 9 (print_ints (magic ∷ cmd_plane ∷ crtc ∷ plane ∷ fb ∷ w ∷ h ∷ x ∷ y ∷ []))).0
      ≡ magic ∷ cmd_plane ∷ crtc ∷ plane ∷ fb ∷ w ∷ h ∷ x ∷ y ∷ []
scan_plane magic crtc plane fb w h x y k =
    let line = print_ints (magic ∷ cmd_plane ∷ crtc ∷ plane ∷ fb ∷ w ∷ h ∷ x ∷ y ∷ []) in
    ap (λ t. (scan_ints 9 t).0) (sym (append-nil line))
    ∙ ap (λ t. t.0)
        (scan_ints-print_ints magic (cmd_plane ∷ crtc ∷ plane ∷ fb ∷ w ∷ h ∷ x ∷ y ∷ []) []
          (k.0, (omega arith, k.1)) tt)

-- A request CMD_PLANE, as drm_client_plane.c prints it, hands the client's numbers to
-- drmModeSetPlane, the size also as the 16.16 size of the source, and keeps them in the slot.
pub handle-plane :
    (a : Answers) (magic crtc plane fb w h x y : ℕ) (s : State)
    → Words (magic ∷ crtc ∷ plane ∷ fb ∷ w ∷ h ∷ x ∷ y ∷ [])
    → handle a (print_ints (magic ∷ cmd_plane ∷ crtc ∷ plane ∷ fb ∷ w ∷ h ∷ x ∷ y ∷ [])) s
      ≡ replied (after_plane magic crtc plane fb w h x y s) (answer magic a.plane_set)
unfolding handle
handle-plane a magic crtc plane fb w h x y s k =
    rw
      (
        scan_two_more magic cmd_plane crtc (plane ∷ fb ∷ w ∷ h ∷ x ∷ y ∷ []) (k.0, omega arith),
        scan_plane magic crtc plane fb w h x y k,
      )
      (try-reply a.plane_set _ _)

-- CMD_PLANE_STOP switches the plane of the slot off.
pub handle-plane_stop :
    (a : Answers) (magic : ℕ) (s : State)
    → magic < word
    → handle a (print_ints (magic ∷ cmd_plane_stop ∷ [])) s
      ≡ replied (after_plane_stop magic s) (answer magic a.plane_set)
unfolding handle
handle-plane_stop a magic s h =
    rw (scan_two magic cmd_plane_stop (h, omega arith)) (try-reply a.plane_set _ _)
