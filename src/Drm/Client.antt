-- ===== src/Drm/Client.antt =====
-- The communication loop of drm-tests/drm_client_plane.c and drm-tests/drm_client_crtc.c, which
-- differ in the messages that they send.
pub mod Sessions
pub mod Talk
pub mod Mains
pub mod Cleanup
mod Tests
use sys_snippets.Common.{ℕ, List, [], ◌∷◌, ◌++◌, ◌==◌, if◌then◌else◌}
use sys_snippets.Drm.Text.{scan_ints, print_ints}
use sys_snippets.Drm.Proto.{cmd_auth, cmd_crtc, cmd_plane, cmd_crtc_stop, cmd_plane_stop, drm_ok}

-- The variable `command`: what was asked last.
pub data Stage : Type 0 where
  asked_auth asked_show asked_stop : Stage

-- The messages of a client.
pub record Client : Type 0 where
  pub magic : ℕ
  pub show_line : List ℕ
  pub stop_line : List ℕ

abbrev pub auth_line : ℕ → List ℕ
auth_line magic = print_ints (magic ∷ cmd_auth ∷ [])

-- drm_client_plane.c
abbrev pub plane_client : (magic crtc plane fb w h x y : ℕ) → Client
plane_client magic crtc plane fb w h x y = record {
  magic = magic;
  show_line = print_ints (magic ∷ cmd_plane ∷ crtc ∷ plane ∷ fb ∷ w ∷ h ∷ x ∷ y ∷ []);
  stop_line = print_ints (magic ∷ cmd_plane_stop ∷ []);
}

-- drm_client_crtc.c
abbrev pub crtc_client : (magic crtc conn fb : ℕ) → List ℕ → Client
crtc_client magic crtc conn fb name = record {
  magic = magic;
  show_line = print_ints (magic ∷ cmd_crtc ∷ crtc ∷ conn ∷ fb ∷ []) ++ b':' ∷ name;
  stop_line = print_ints (magic ∷ cmd_crtc_stop ∷ []);
}

-- What a response makes the client do: send the next message, wait on, or leave the loop with an
-- error or at the end.
pub data Next : Type 0 where
  send : Stage → List ℕ → Next
  wait : Next
  give_up : Next
  quit : Next

-- `switch (command)`. Behind the show message the image is drawn, and a key is waited for.
abbrev pub advance : Client → Stage → Next
advance c asked_auth = send asked_show c.show_line
advance c asked_show = send asked_stop c.stop_line
advance c asked_stop = quit

-- The tests on the two numbers of the response.
abbrev pub on_values : Client → Stage → List ℕ → Next
on_values c stage [] = give_up
on_values c stage (mag ∷ []) = give_up
on_values c stage (mag ∷ val ∷ _) =
    if mag == c.magic then if val == drm_ok then advance c stage else give_up else wait

-- From `sscanf(rx_buf, "%d:%d", &mag, &val)` on.
unfoldable pub on_response : Client → Stage → List ℕ → Next
on_response c stage rx = on_values c stage (scan_ints 2 rx).0
