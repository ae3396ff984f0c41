-- ===== src/Timers/Tests.antt =====
-- A round of each descriptor.
use sys_snippets.Common.{◌≡◌, refl, List, [], ◌∷◌, true, false, some, arith}
use sys_snippets.Timers.{Round, timed_out, ready, Ready, running, new_timers, turn, serve}
use sys_snippets.Timers.Laws.{IsFair, serve-IsFair}

abbrev expires : Ready
expires = record {
  tfd_ready = true;
  pfd_ready = true;
  tfd_read = some 1;
  now = some 20;
  tfd_set = true;
  efd_written = true;
  efd_read = true;
  pfd_read = some 2;
}

abbrev three : List Round
three =
    ready expires
    ∷ timed_out
    ∷ ready (record expires { tfd_ready = false })
    ∷ ready (record expires { tfd_ready = false })
    ∷ []

serve-IsFair_example : IsFair (serve three (new_timers 15))
serve-IsFair_example = serve-IsFair three (new_timers 15) (omega arith)

-- The eventfd comes before the periodic timer.
three_rounds :
    serve three (new_timers 15)
    ≡ running (record {
      counter = 0;
      deadline = 25;
      single = 1 ∷ [];
      forwarded = 1 ∷ [];
      periodic = 2 ∷ [];
    })
unfolding serve turn
three_rounds = refl
