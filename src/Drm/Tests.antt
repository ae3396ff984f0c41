-- ===== src/Drm/Tests.antt =====
-- Messages and sessions of the DRM server.
use sys_snippets.Common.{ℕ, ◌≡◌, refl, [], ◌∷◌, ◌++◌, true, some, arith}
use sys_snippets.Drm.Text.{scan_int, print_int, print_ints}
use sys_snippets.Drm.Text.Laws.{scan_int-print_int}
use sys_snippets.Drm.Proto.{Crtc}
use sys_snippets.Drm.Server.{
  auth_magic, set_plane, Answers, State, blank_info, shl_16, handle, replied,
}
use sys_snippets.Drm.Server.Requests.{answer, after_plane, handle-plane, heard}
use sys_snippets.Drm.Server.CrtcOutcomes.{crtc_outcome, answered}
use sys_snippets.Drm.Server.CrtcRequests.{crtc_line, handle-crtc}
use sys_snippets.Drm.Client.{asked_auth, plane_client, auth_line}
use sys_snippets.Drm.Client.Sessions.{exchange, complete, plane_session}

-- The pattern of -5.
abbrev minus_five : ℕ
minus_five = 4294967291

scan_int-print_int_run : scan_int (print_int minus_five ++ b':' ∷ []) ≡ some (minus_five, b':' ∷ [])
scan_int-print_int_run = scan_int-print_int minus_five (b':' ∷ []) (omega arith) refl

minus_five_text : print_int minus_five ≡ b'-' ∷ b'5' ∷ []
unfolding print_int
minus_five_text = refl

abbrev fresh : State
fresh = record { magic = 0; command = 0; info = blank_info; calls = [] }

abbrev old_crtc : Crtc
old_crtc = record { crtc_id = 10; buffer_id = 4; x = 0; y = 0; mode_valid = 1; mode = 120 ∷ [] }

abbrev new_crtc : Crtc
new_crtc = record old_crtc { buffer_id = 9 }

abbrev works : Answers
works = record {
  authenticated = true;
  found_mode = some (121 ∷ []);
  before = some old_crtc;
  crtc_set = true;
  after = some new_crtc;
  plane_set = true;
}

plane_at_once :
    handle works (print_ints (7 ∷ 2 ∷ 10 ∷ 3 ∷ 9 ∷ 64 ∷ 32 ∷ 1 ∷ 2 ∷ [])) fresh
    ≡ replied (after_plane 7 10 3 9 64 32 1 2 fresh) (answer 7 true)
plane_at_once = handle-plane works 7 10 3 9 64 32 1 2 fresh (omega arith)

handle-crtc_example :
    handle works (crtc_line 7 10 3 9 (121 ∷ [])) fresh
    ≡ answered 7 (crtc_outcome works 10 3 9 (121 ∷ []) (heard 7 1 fresh))
handle-crtc_example = handle-crtc works 7 10 3 9 121 [] fresh (omega arith) (refl, tt)

plane_session_example :
    (t : State) × (exchange
        (works ∷ works ∷ works ∷ [])
        (plane_client 7 10 3 9 64 32 1 2)
        asked_auth
        (auth_line 7)
        fresh
      ≡ complete t)
    × (t.calls
        ≡ []
          ++ (auth_magic 7 ∷ [])
          ++ (set_plane 3 10 9 1 2 64 32 (shl_16 64) (shl_16 32) ∷ [])
          ++ (set_plane 3 0 0 0 0 0 0 0 0 ∷ []))
plane_session_example =
    plane_session works works works 7 10 3 9 64 32 1 2 fresh (omega arith) refl refl refl
