-- ===== src/Drm/Loop/Tests.antt =====
-- Two clients in two slots.
use sys_snippets.Common.{ℕ, refl, List, [], ◌∷◌, true, none, some}
use sys_snippets.Drm.Server.{Answers, blank_info}
use sys_snippets.Drm.Text.{print_ints}
use sys_snippets.Drm.Proto.{cmd_auth}
use sys_snippets.Drm.Loop.{
  Seat, Main, quiet, gone, says, serve_seats, calls_in, idle, Polled, timed_out, ready,
  serve_rounds,
}
use sys_snippets.Drm.Loop.Sound.{EndSound, serve_rounds-IsSound}
use sys_snippets.Drm.Loop.Setup
use sys_snippets.Drm.Loop.Isolation.{ServedOwn, serve_seats-ServedOwn}

abbrev works : Answers
works = record {
  authenticated = true;
  found_mode = none;
  before = none;
  crtc_set = true;
  after = none;
  plane_set = true;
}

abbrev free_seat : Seat
free_seat = record { fd = none; info = blank_info }

abbrev two_seats : List Seat
two_seats = free_seat ∷ free_seat ∷ []

abbrev begun : Main
begun = record { magic = 0; command = 0; calls = []; open_fds = []; sent = [] }

-- "7:" and the number of CMD_AUTH
abbrev auth : List ℕ
auth = print_ints (7 ∷ cmd_auth ∷ [])

abbrev visits : List Polled
visits =
    timed_out
    ∷ ready 1 (calls_in 5) []
    ∷ ready 2 (calls_in 6) (says auth works ∷ [])
    ∷ ready 1 (calls_in 9) []
    ∷ ready 1 idle (gone ∷ quiet ∷ [])
    ∷ []

abbrev all_made : Setup.Answers
all_made = record { opened = true; socket_made = true; bound = true }

serve_rounds-IsSound_example : EndSound (serve_rounds visits two_seats begun)
serve_rounds-IsSound_example = serve_rounds-IsSound visits two_seats begun (λ a. refl)

serve_seats-ServedOwn_example :
    ServedOwn (says auth works ∷ quiet ∷ []) (record free_seat { fd = some 5 } ∷ free_seat ∷ []) (
      serve_seats 1
        (says auth works ∷ quiet ∷ [])
        (record free_seat { fd = some 5 } ∷ free_seat ∷ [])
        begun)
serve_seats-ServedOwn_example =
    serve_seats-ServedOwn 1 (says auth works ∷ quiet ∷ [])
      (record free_seat { fd = some 5 } ∷ free_seat ∷ []) begun
