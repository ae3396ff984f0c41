-- ===== src/Drm/Loop/Setup.antt =====
-- `main` of drm-tests/drm_server.c around its poll loop: the card, the listening socket and its path, and
-- what is left of them when it returns.
use sys_snippets.Common.{◌≡◌, List, Bool, true, false, not, ◌&&◌, none, map, if◌then◌else◌}
use sys_snippets.Drm.Proto.{Info}
use sys_snippets.Drm.Loop.{Seat, Main, Polled, End, waits, leaves, crashes, serve_rounds}
use sys_snippets.Drm.Loop.Sound.{IsSound}

-- Which calls of the set-up go through.
pub record Answers : Type 0 where
  pub opened : Bool
  pub socket_made : Bool
  pub bound : Bool

-- What `main` itself has made: the descriptor of the card, the listening socket, and its path.
pub record Left : Type 0 where
  pub card : Bool
  pub sockfd : Bool
  pub path : Bool

-- exit(-1); the loop still runs; `main` returned, before the loop or behind it; or its behaviour is
-- undefined.
pub data Run : Type 0 where
  exited : Run
  serving : List Seat → Main → Left → Run
  returned_early : Left → Run
  returned : List Seat → Main → Left → Run
  faulty : Run

-- The loop over `clients`; `drm_clients` is not set, and the argument has what stands there.
abbrev pub empty_seats : List Info → List Seat
empty_seats = map (λ i. record { fd = none; info = i })

-- Behind `err_close`
abbrev pub err_close : Left → Left
err_close l = record l { card = false }

-- Behind the loop
abbrev pub clean_up : Left → Left
clean_up l = err_close (record l { sockfd = false; path = false })

abbrev pub all_made : Left
all_made = record { card = true; sockfd = true; path = true }

-- `stopped`: SIGINT came in the last round.
abbrev pub on_loop : Bool → End → Run
on_loop stopped (waits ss m) =
    if stopped then returned ss m (clean_up all_made) else serving ss m all_made
on_loop stopped (leaves ss m) = returned ss m (clean_up all_made)
on_loop stopped crashes = faulty

unfoldable pub drm_server : Answers → List Polled → Bool → List Info → Main → Run
drm_server a ps stopped infos m =
    if not a.opened
    then exited
    else if not a.socket_made
    then returned_early (err_close (record { card = true; sockfd = false; path = false }))
    else if not a.bound
    then returned_early (err_close (record { card = true; sockfd = true; path = false }))
    else on_loop stopped (serve_rounds ps (empty_seats infos) m)

-- What holds of the ways it comes to an end.
abbrev pub Tidy : Answers → Run → Type 0
Tidy a exited = a.opened ≡ false
Tidy a (serving ss m l) = IsSound ss m × (l.card ≡ true) × (l.sockfd ≡ true) × (l.path ≡ true)
Tidy a (returned_early l) =
    (l.card ≡ false) × (l.sockfd ≡ (a.socket_made && not a.bound)) × (l.path ≡ false)
Tidy a (returned ss m l) = IsSound ss m × (l.card ≡ false) × (l.sockfd ≡ false) × (l.path ≡ false)
Tidy a faulty = Unit

abbrev works : Answers
works = record { opened = true; socket_made = true; bound = true }
