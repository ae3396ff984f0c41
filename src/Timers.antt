-- ===== src/Timers.antt =====
-- timers/c/timerfd.c: a single-shot timer that hands its expirations on to an eventfd, and a periodic one.
-- Times are in seconds; the answers of the calls are arguments.
use sys_snippets.Common.{
  ℕ, ◌+◌, List, [], ◌∷◌, ◌++◌, Bool, true, false, not, Option, none, some, ltb, if◌then◌else◌,
}
pub mod Laws
mod Tests

-- The counter of the eventfd, when the single-shot timer is to expire, and the counts that were printed,
-- oldest first: of the single-shot timer, of the eventfd, and of the periodic timer.
pub record Timers : Type 0 where
  pub counter : ℕ
  pub deadline : ℕ
  pub single : List ℕ
  pub forwarded : List ℕ
  pub periodic : List ℕ

-- What the calls of the set-up answer: which go through, and the two times of clock_gettime.
pub record Start : Type 0 where
  pub efd_made : Bool
  pub tfd_made : Bool
  pub tfd_now : Option ℕ
  pub tfd_set : Bool
  pub tfd_get : Bool
  pub pfd_made : Bool
  pub pfd_now : Option ℕ
  pub pfd_set : Bool
  pub pfd_get : Bool

abbrev pub new_timers : ℕ → Timers
new_timers deadline = record {
  counter = 0;
  deadline = deadline;
  single = [];
  forwarded = [];
  periodic = [];
}

-- Behind the single-shot timer, with the first expiration of the periodic one.
abbrev pub with_pfd : Start → ℕ → Option ℕ → Option (Timers × ℕ)
with_pfd a deadline none = none
with_pfd a deadline (some now) =
    if not a.pfd_set
    then none
    else if not a.pfd_get
    then none
    else some (new_timers deadline, now + 3)

abbrev pub with_tfd : Start → Option ℕ → Option (Timers × ℕ)
with_tfd a none = none
with_tfd a (some now) =
    if not a.tfd_set
    then none
    else if not a.tfd_get
    then none
    else if not a.pfd_made
    then none
    else with_pfd a (now + 5) a.pfd_now

-- `main` up to its loop; none for exit(-1).
unfoldable pub set_up : Start → Option (Timers × ℕ)
set_up a = if not a.efd_made then none else if not a.tfd_made then none else with_tfd a a.tfd_now

-- What select says, and what the calls that follow answer: the expirations that the timers give to `read`
-- (none if it fails), clock_gettime, and whether the others go through. The eventfd is readable when its
-- counter is not 0.
pub record Ready : Type 0 where
  pub tfd_ready : Bool
  pub pfd_ready : Bool
  pub tfd_read : Option ℕ
  pub now : Option ℕ
  pub tfd_set : Bool
  pub efd_written : Bool
  pub efd_read : Bool
  pub pfd_read : Option ℕ

pub data Round : Type 0 where
  timed_out interrupted select_failed : Round
  ready : Ready → Round

-- The loop goes on, the process exits, or `assert(0)` stops it.
pub data End : Type 0 where
  running : Timers → End
  exited : Timers → End
  asserted : Timers → End

-- From the `printf` of the single-shot timer on.
abbrev pub hand_on : Bool → ℕ → Timers → End
hand_on true exp s =
    running (record s { counter = s.counter + exp; single = s.single ++ (exp ∷ []) })
hand_on false exp s = exited (record s { single = s.single ++ (exp ∷ []) })

abbrev pub set_again : Ready → Option ℕ → ℕ → Timers → End
set_again r none exp s = exited s
set_again r (some now) exp s =
    if r.tfd_set then hand_on r.efd_written exp (record s { deadline = now + 5 }) else exited s

abbrev pub on_tfd : Ready → Option ℕ → Timers → End
on_tfd r none s = exited s
on_tfd r (some exp) s = set_again r r.now exp s

-- A read of an eventfd gives its counter, and clears it.
abbrev pub on_efd : Bool → Timers → End
on_efd true s = running (record s { counter = 0; forwarded = s.forwarded ++ (s.counter ∷ []) })
on_efd false s = exited s

abbrev pub on_pfd : Option ℕ → Timers → End
on_pfd none s = exited s
on_pfd (some exp) s = running (record s { periodic = s.periodic ++ (exp ∷ []) })

-- One turn of `for (;;)`.
unfoldable pub turn : Round → Timers → End
turn timed_out s = running s
turn interrupted s = running s
turn select_failed s = exited s
turn (ready r) s =
    if r.tfd_ready
    then on_tfd r r.tfd_read s
    else if ltb 0 s.counter
    then on_efd r.efd_read s
    else if r.pfd_ready
    then on_pfd r.pfd_read s
    else asserted s

abbrev pub on_end : End → (Timers → End) → End
on_end (running s) go = go s
on_end (exited s) go = exited s
on_end (asserted s) go = asserted s

unfoldable pub serve : List Round → Timers → End
unfolding turn
serve [] s = running s
serve (r ∷ rs) s = on_end (turn r s) λ t. serve rs t
