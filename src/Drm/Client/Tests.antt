-- ===== src/Drm/Client/Tests.antt =====
-- Clients that meet a failure.
use sys_snippets.Common.{◌≡◌, refl, List, [], ◌∷◌, true, false}
use sys_snippets.Drm.Text.{print_ints}
use sys_snippets.Drm.Client.{Client, plane_client, crtc_client, asked_auth, on_response}
use sys_snippets.Drm.Client.Talk.{
  Round, not_ready, received, timed_out, wrote, client_loop, accepts, allowed, IsPrefix,
  client_loop-IsPrefix,
}
use sys_snippets.Drm.Client.Mains.{Answers}

abbrev plane_nine : Client
plane_nine = plane_client 9 10 3 4 64 32 1 2

abbrev crtc_nine : Client
crtc_nine = crtc_client 9 10 3 4 (121 ∷ [])

-- An answer to someone else, an acceptance, and then nothing for five seconds.
abbrev one_acceptance : List Round
one_acceptance =
    not_ready
    ∷ received (print_ints (8 ∷ 0 ∷ [])) true
    ∷ received (print_ints (9 ∷ 0 ∷ [])) true
    ∷ timed_out
    ∷ []

one_acceptance_acts :
    (client_loop plane_nine asked_auth one_acceptance).acts ≡ wrote plane_nine.show_line ∷ []
unfolding client_loop on_response sys_snippets.Drm.Text.scan_ints sys_snippets.Drm.Text.scan_int
    print_ints sys_snippets.Drm.Text.print_int
one_acceptance_acts = refl

client_loop-IsPrefix_example :
    IsPrefix
      (client_loop plane_nine asked_auth one_acceptance).acts
      (allowed plane_nine asked_auth (accepts plane_nine one_acceptance))
client_loop-IsPrefix_example = client_loop-IsPrefix plane_nine asked_auth one_acceptance

-- The message with the magic cannot be sent.
abbrev not_sent : Answers
not_sent = record {
  socket_made = true;
  connected = true;
  opened = true;
  got_magic = true;
  driver_created = true;
  object_created = true;
  got_pitch = true;
  got_handle = true;
  mapped = true;
  fb_added = true;
  auth_sent = false;
  rounds = [];
  unmapped = true;
  object_destroyed = true;
  driver_destroyed = true;
}
