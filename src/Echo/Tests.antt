-- ===== src/Echo/Tests.antt =====
-- Sessions of the echo servers.
use sys_snippets.Common.{
  ℕ, ◌+◌, ◌≤◌, ◌≡◌, ◌↔◌, refl, List, [], ◌∷◌, ◌++◌, map, true, false, none, some, replicate, length,
  count, tally, get_elem?, All, arith,
}
use sys_snippets.Echo.Line.{
  maxlen, newline, Read, eof, got, undefined, plus_one, minus_one, returned, handle_echo, serve,
}
use sys_snippets.Echo.Line.Laws.{
  IsText, padded, Overlong, handle_echo-line, handle_echo-undefined, lines, serve-answered,
}
use sys_snippets.Echo.Host.{accepted, Talk, serve_client, uses}
use sys_snippets.Echo.Poll
use sys_snippets.Echo.Select
use sys_snippets.Echo.Poll.Rounds.{rounds-IsSound}
use sys_snippets.Echo.Poll.Seats.{IsUsed, last_used_lem, seat-full}
use sys_snippets.Echo.Select.Laws.{watch_lem}
use sys_snippets.Echo.Select.Rounds.{round-IsSound}

-- "hi"
abbrev hi : List ℕ
hi = 104 ∷ 105 ∷ []

hi_echoed :
    (handle_echo true (map got hi ++ got newline ∷ eof ∷ []) ≡ returned plus_one (padded hi))
    × (length (padded hi) ≡ maxlen)
hi_echoed = handle_echo-line true hi (eof ∷ []) (omega arith) (omega arith)

abbrev flood : List Read
flood = map got (replicate maxlen 120) ++ got 120 ∷ []

flood-IsText : IsText (replicate maxlen 120)
flood-IsText = omega arith

handle_echo-undefined_example : (handle_echo true flood ≡ undefined) ↔ Overlong 0 flood
handle_echo-undefined_example = handle_echo-undefined true flood

-- The second write fails.
serve-answered_example :
    serve (true ∷ false ∷ []) (lines (hi ∷ hi ∷ hi ∷ [])) []
    ≡ returned minus_one (padded hi ++ padded hi)
serve-answered_example = serve-answered (true ∷ false ∷ []) (hi ∷ hi ∷ hi ∷ []) [] (omega arith)

abbrev talk_hi : ℕ → Talk
talk_hi i = record { named = true; wrote = true; reads = map got hi ++ got newline ∷ [] }

abbrev talk_bye : ℕ → Talk
talk_bye i = record { named = true; wrote = true; reads = eof ∷ [] }

abbrev input : Poll.Revents
input = record { pollin = true; pollerr = false; other = false }

abbrev empty : Poll.Slot
empty = record { fd = none; asked = false; revents = Poll.quiet }

abbrev idle : Poll.Server
idle = record { slots = empty ∷ empty ∷ []; host = record { open_fds = []; sent = [] } }

-- A client connects; then it says hi and another connects; then a third finds no slot.
abbrev joins : ℕ → List Poll.Revents → ℕ → Poll.Answers
joins n rs fd = record {
  polled = Poll.counted n input rs;
  accept = accepted fd;
  named = true;
  talk = talk_hi;
}

abbrev session : List Poll.Answers
session = joins 1 [] 7 ∷ joins 2 (input ∷ []) 8 ∷ joins 1 (Poll.quiet ∷ Poll.quiet ∷ []) 9 ∷ []

abbrev busy_server : Poll.Server
busy_server = record {
  slots =
      record { fd = some 7; asked = true; revents = Poll.quiet }
      ∷ record { fd = some 8; asked = true; revents = Poll.quiet }
      ∷ [];
  host = record { open_fds = 8 ∷ 7 ∷ []; sent = (7, padded hi) ∷ [] };
}

session_runs : Poll.rounds session idle ≡ Poll.next busy_server
unfolding Poll.rounds serve_client handle_echo
session_runs = refl

rounds-IsSound_example : Poll.Rounds.IsSound busy_server
rounds-IsSound_example = rounds-IsSound session idle busy_server (λ a. refl) session_runs

last_used_lem_example :
    ((k fd : ℕ) (s : Poll.Slot)
      → get_elem? busy_server.slots k ≡ some s
      → s.fd ≡ some fd
      → 1 + k ≤ Poll.last_used 1 busy_server.slots 0)
    × (Poll.last_used 1 busy_server.slots 0 ≤ 2)
last_used_lem_example = last_used_lem busy_server.slots

busy_server-full : (Poll.seat true 9 busy_server.slots ≡ Poll.full) ↔ All IsUsed busy_server.slots
busy_server-full = seat-full true 9 busy_server.slots

abbrev select_idle : Select.Server
select_idle = record {
  listenfd = 3;
  clients = some 7 ∷ none ∷ [];
  host = record { open_fds = 7 ∷ []; sent = [] };
}

abbrev select_answers : Select.Answers
select_answers = record {
  selected = Select.ready (3 ∷ 7 ∷ []);
  accept = accepted 8;
  named = true;
  talk = talk_bye;
}

-- A second client connects while the first one leaves.
abbrev select_after : Select.Server
select_after = record {
  listenfd = 3;
  clients = none ∷ some 8 ∷ [];
  host = record { open_fds = 8 ∷ []; sent = [] };
}

select_runs : Select.round select_answers select_idle ≡ Select.next select_after
unfolding Select.round serve_client handle_echo
select_runs = refl

round-IsSound_example : Select.Rounds.IsSound select_after
round-IsSound_example =
    round-IsSound select_answers select_idle select_after (λ a. refl) select_runs

idle_watch :
    ((a : ℕ)
      → count a (Select.watch select_idle).rset
        ≡ tally a select_idle.listenfd + uses a select_idle.clients)
    × All (λ fd. fd ≤ (Select.watch select_idle).max) (Select.watch select_idle).rset
idle_watch = watch_lem select_idle
