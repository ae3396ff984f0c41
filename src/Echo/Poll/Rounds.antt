-- ===== src/Echo/Poll/Rounds.antt =====
-- The rounds of s_poll.c.
use sys_snippets.Common.{
  ℕ, zero, suc, ◌+◌, ◌-◌, ◌≡◌, refl, sym, ◌∙◌, ap, List, [], ◌∷◌, Bool, some, map, inl, inr, ◌==◌,
  Bool-cases, Option-cases, tally, arith,
}
use sys_snippets.Echo.Host.{opened, close, Accept, interrupted, refused, accepted, uses, Accounts}
use sys_snippets.Echo.Poll.{
  Revents, Slot, fd_of, Server, last_used, report, Polled, signalled, error, counted, Seat, no_name,
  seated, full, behind, seat, Pass, exit_pass, undefined_pass, waiting_pass, done, service, Answers,
  Round, next, exit, undefined_round, waiting_round, close_round, serve_rest, count_down, take_seat,
  new_client, on_poll, go_on, round, rounds,
}
use sys_snippets.Echo.Poll.Laws.{service-Keeps}

-- The open descriptors are those of the slots, each as often as it stands there.
abbrev pub IsSound : Server → Type 0
IsSound s = Accounts s.host (map fd_of s.slots)

report-fds :
    (n : ℕ) (rs : List Revents) (ss : List Slot) → map fd_of (report n rs ss) ≡ map fd_of ss
unfolding report
report-fds zero rs ss = refl
report-fds (suc n) [] ss = refl
report-fds (suc n) (r ∷ rs) [] = refl
report-fds (suc n) (r ∷ rs) (s ∷ ss) = ap (λ t. s.fd ∷ t) (report-fds n rs ss)

behind-seated :
    (s : Slot) (r : Seat) {ss' : List Slot}
    → behind s r ≡ seated ss'
    → (ss1 : List Slot) × (r ≡ seated ss1) × (ss' ≡ s ∷ ss1)
behind-seated s no_name e = cc
behind-seated s (seated ss1) e = (ss1, refl, cc)
behind-seated s full e = cc

seat-taken :
    (named : Bool) (fd used : ℕ) (s : Slot) (ss : List Slot)
    → s.fd ≡ some used
    → seat named fd (s ∷ ss) ≡ behind s (seat named fd ss)
unfolding seat
seat-taken named fd used s ss f = ground arith

-- A seated client takes one free place, and the others stay.
seat-uses :
    (named : Bool) (fd a : ℕ) (ss : List Slot) {ss' : List Slot}
    → seat named fd ss ≡ seated ss'
    → uses a (map fd_of ss') ≡ tally a fd + uses a (map fd_of ss)
unfolding seat
seat-uses named fd a [] e = cc
seat-uses named fd a (s ∷ ss) e = elim (Option-cases s.fd) [
  | inl free ↦ ground arith
  | inr (used, f) ↦
      let (ss1, p, q) =
        behind-seated s (seat named fd ss) (sym (seat-taken named fd used s ss f) ∙ e) in
      ground (arith, seat-uses named fd a ss p)
]

close_round-next : (p : Pass) {s' : Server} → close_round p ≡ next s' → p ≡ done s'.slots s'.host
close_round-next exit_pass e = cc
close_round-next undefined_pass e = cc
close_round-next waiting_pass e = cc
close_round-next (done ss h) e = ground arith

next-IsSound : (s : Server) {s' : Server} → IsSound s → next s ≡ next s' → IsSound s'
next-IsSound s h e a = ground (arith, h a)

serve_rest-IsSound :
    (w : Answers) (n : ℕ) (s : Server) {s' : Server}
    → IsSound s
    → serve_rest w n s ≡ next s'
    → IsSound s'
unfolding serve_rest
serve_rest-IsSound w n s {s'} h e a = omega (
  arith,
  h a,
  service-Keeps w.talk 1 n s.slots s.host (λ b. omega (arith, h b)) s'.slots s'.host a
      (close_round-next (service w.talk 1 n s.slots s.host) e),
)

count_down-IsSound :
    (w : Answers) (n : ℕ) (s : Server) {s' : Server}
    → IsSound s
    → count_down w n s ≡ next s'
    → IsSound s'
unfolding count_down
count_down-IsSound w n s h e = elim (Bool-cases (n - 1 == 0)) [
  | inl z ↦ next-IsSound s h (rw z at e)
  | inr z ↦ serve_rest-IsSound w (n - 1) s h (rw z at e)
]

-- A client that finds no slot is closed again: the descriptors stay as they were.
drop-IsSound :
    (fd : ℕ) (s : Server) → IsSound s → IsSound (record s { host = close fd (opened fd s.host) })
drop-IsSound fd s h a = ground (arith, h a)

take_seat-IsSound :
    (w : Answers) (n fd : ℕ) (s : Server) (r : Seat) {s' : Server}
    → seat w.named fd s.slots ≡ r
    → IsSound s
    → take_seat w n fd s r ≡ next s'
    → IsSound s'
take_seat-IsSound w n fd s no_name q h e = cc
take_seat-IsSound w n fd s (seated ss) q h e =
    count_down-IsSound w n (record { slots = ss; host = opened fd s.host })
      (λ a. omega (arith, h a, seat-uses w.named fd a s.slots q)) e
take_seat-IsSound w n fd s full q h e = count_down-IsSound w n _ (drop-IsSound fd s h) e

new_client-IsSound :
    (w : Answers) (n : ℕ) (s : Server) {s' : Server}
    → IsSound s
    → new_client w n s ≡ next s'
    → IsSound s'
unfolding new_client
new_client-IsSound w n s {s'} h e = by_accept w.accept e
  where
    by_accept :
        (c : Accept)
        → (elim c [
          | interrupted ↦ next s
          | refused ↦ exit
          | accepted fd ↦ take_seat w n fd s (seat w.named fd s.slots)
        ])
          ≡ next s'
        → IsSound s'
    by_accept interrupted q = next-IsSound s h q
    by_accept refused q = cc
    by_accept (accepted fd) q = take_seat-IsSound w n fd s _ refl h q

on_poll-IsSound :
    (w : Answers) (s : Server) (p : Polled) {s' : Server}
    → IsSound s
    → on_poll w s p ≡ next s'
    → IsSound s'
on_poll-IsSound w s signalled h e = next-IsSound s h e
on_poll-IsSound w s error h e = cc
on_poll-IsSound w s (counted n listener answers) {s'} h e =
    let t : Server = record s { slots = report (last_used 1 s.slots 0) answers s.slots } in
    let k : IsSound t =
      λ a. h a ∙ ap (uses a) (sym (report-fds (last_used 1 s.slots 0) answers s.slots)) in
    elim (Bool-cases (n == 0)) [
      | inl z ↦ next-IsSound t k (rw z at e)
      | inr z ↦ elim (Bool-cases listener.pollin) [
        | inl l ↦ new_client-IsSound w n t k (rw (z, l) at e)
        | inr l ↦ serve_rest-IsSound w n t k (rw (z, l) at e)
      ]
    ]

round-IsSound :
    (w : Answers) (s : Server) {s' : Server} → IsSound s → round w s ≡ next s' → IsSound s'
unfolding round
round-IsSound w s h e = on_poll-IsSound w s w.polled h e

go_on-next :
    (r : Round) (k : Server → Round) {s' : Server}
    → go_on r k ≡ next s'
    → (s : Server) × (r ≡ next s) × (k s ≡ next s')
go_on-next (next s) k e = (s, refl, e)
go_on-next exit k e = cc
go_on-next undefined_round k e = cc
go_on-next waiting_round k e = cc

-- Over any number of rounds of s_poll.c, whatever the kernel answers: if every descriptor in the
-- slots is open and every open one stands in exactly one slot, then it is so again whenever the
-- loop goes on. So no accepted connection leaks, and none is closed that is still in a slot.
pub rounds-IsSound :
    (ws : List Answers) (s s' : Server) → IsSound s → rounds ws s ≡ next s' → IsSound s'
unfolding rounds
rounds-IsSound [] s s' h e = next-IsSound s h e
rounds-IsSound (w ∷ ws) s s' h e =
    let (s1, p, q) = go_on-next (round w s) (rounds ws) e in
    rounds-IsSound ws s1 s' (round-IsSound w s h p) q
