-- ===== src/Echo/Select/Rounds.antt =====
-- The rounds of s_select.c.
use sys_snippets.Common.{
  ℕ, ◌+◌, ◌≡◌, refl, List, [], ◌∷◌, Bool, true, false, none, some, inl, inr, Bool-cases, tally,
  arith,
}
use sys_snippets.Echo.Host.{opened, close, Accept, interrupted, refused, accepted, uses, Accounts}
use sys_snippets.Echo.Select.{
  Clients, Server, is_set, Selected, signalled, error, timeout, ready, Seat, no_name, seated, full,
  behind, seat, Pass, exit_pass, undefined_pass, waiting_pass, done, service, Answers, next,
  close_round, serve_clients, take_seat, on_accept, on_select, round,
}
use sys_snippets.Echo.Select.Laws.{service-Keeps}

-- The open descriptors are those of the array, each as often as it stands there.
abbrev pub IsSound : Server → Type 0
IsSound s = Accounts s.host s.clients

behind-seated :
    (u : ℕ) (r : Seat) {cs' : Clients}
    → behind u r ≡ seated cs'
    → (cs1 : Clients) × (r ≡ seated cs1) × (cs' ≡ some u ∷ cs1)
behind-seated u no_name e = cc
behind-seated u (seated cs1) e = (cs1, refl, cc)
behind-seated u full e = cc

-- A seated client takes one free place, and the others stay.
pub seat-uses :
    (named : Bool) (fd a : ℕ) (cs : Clients) {cs' : Clients}
    → seat named fd cs ≡ seated cs'
    → uses a cs' ≡ tally a fd + uses a cs
unfolding seat
seat-uses named fd a [] e = cc
seat-uses true fd a (none ∷ cs) e = ground arith
seat-uses false fd a (none ∷ cs) e = cc
seat-uses named fd a (some u ∷ cs) e =
    let (cs1, p, q) = behind-seated u (seat named fd cs) e in
    ground (arith, seat-uses named fd a cs p)

close_round-next :
    (s : Server) (p : Pass) {s' : Server} → close_round s p ≡ next s' → p ≡ done s'.clients s'.host
close_round-next s exit_pass e = cc
close_round-next s undefined_pass e = cc
close_round-next s waiting_pass e = cc
close_round-next s (done cs h) e = ground arith

next-IsSound : (s : Server) {s' : Server} → IsSound s → next s ≡ next s' → IsSound s'
next-IsSound s h e a = ground (arith, h a)

serve_clients-IsSound :
    (w : Answers) (rset : List ℕ) (s : Server) {s' : Server}
    → IsSound s
    → serve_clients w rset s ≡ next s'
    → IsSound s'
unfolding serve_clients
serve_clients-IsSound w rset s {s'} h e a = omega (
  arith,
  h a,
  service-Keeps rset w.talk 0 s.clients s.host (λ b. omega (arith, h b)) s'.clients s'.host a
      (close_round-next s (service rset w.talk 0 s.clients s.host) e),
)

take_seat-IsSound :
    (w : Answers) (rset : List ℕ) (fd : ℕ) (s : Server) (r : Seat) {s' : Server}
    → seat w.named fd s.clients ≡ r
    → IsSound s
    → take_seat w rset fd s r ≡ next s'
    → IsSound s'
take_seat-IsSound w rset fd s no_name q h e = cc
take_seat-IsSound w rset fd s (seated cs) q h e =
    serve_clients-IsSound w rset (record s { clients = cs; host = opened fd s.host })
      (λ a. omega (arith, h a, seat-uses w.named fd a s.clients q)) e
take_seat-IsSound w rset fd s full q h e =
    serve_clients-IsSound w rset (record s { host = close fd (opened fd s.host) })
      (λ a. ground (arith, h a)) e

on_accept-IsSound :
    (w : Answers) (rset : List ℕ) (s : Server) (c : Accept) {s' : Server}
    → IsSound s
    → on_accept w rset s c ≡ next s'
    → IsSound s'
on_accept-IsSound w rset s interrupted h e = next-IsSound s h e
on_accept-IsSound w rset s refused h e = cc
on_accept-IsSound w rset s (accepted fd) h e = take_seat-IsSound w rset fd s _ refl h e

on_select-IsSound :
    (w : Answers) (s : Server) (r : Selected) {s' : Server}
    → IsSound s
    → on_select w s r ≡ next s'
    → IsSound s'
on_select-IsSound w s signalled h e = next-IsSound s h e
on_select-IsSound w s error h e = cc
on_select-IsSound w s timeout h e = next-IsSound s h e
on_select-IsSound w s (ready rset) h e = elim (Bool-cases (is_set s.listenfd rset)) [
  | inl l ↦ on_accept-IsSound w rset s w.accept h (rw l at e)
  | inr l ↦ serve_clients-IsSound w rset s h (rw l at e)
]

-- A round of s_select.c after which the loop goes on, whatever the kernel answers, keeps the
-- balance of descriptors: if each open descriptor stands in exactly one place of `clients`, and
-- each of `clients` is open, then this holds after the round.
pub round-IsSound : (w : Answers) (s s' : Server) → IsSound s → round w s ≡ next s' → IsSound s'
unfolding round
round-IsSound w s s' h e = on_select-IsSound w s w.selected h e
