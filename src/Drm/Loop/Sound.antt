-- ===== src/Drm/Loop/Sound.antt =====
-- The `poll` loop of drm-tests/drm_server.c holds open exactly the sockets of its slots.
use sys_snippets.Common.{
  ℕ, ◌+◌, ◌-◌, ◌≤◌, ◌≡◌, refl, List, [], ◌∷◌, Option, none, some, ◌==◌, tally, count, count-erase,
  inl, inr, Bool-cases, arith,
}
use sys_snippets.Drm.Server.{Reply, replied, undefined_reply, handle}
use sys_snippets.Drm.Loop.{
  Seat, Main, Talk, quiet, broken, gone, says, floods, Served, goes, faults, behind, hang_up,
  state_of, heard_seat, heard_main, on_reply, serve_client, serve_seats, put_behind, seat_at, seat,
  admitted, admit, idle, refused, calls_in, Polled, timed_out, failed, ready, End, waits, leaves,
  crashes, served_end, welcome, round, serve_rounds,
}

abbrev pub holds : ℕ → Option ℕ → ℕ
holds a none = 0
holds a (some fd) = tally a fd

-- How often a socket stands in the slots.
abbrev pub uses : ℕ → List Seat → ℕ
uses a [] = 0
uses a (s ∷ ss) = holds a s.fd + uses a ss

-- Every open socket has its slot, and every slot an open socket.
abbrev pub IsSound : List Seat → Main → Type 0
IsSound ss m = (a : ℕ) → count a m.open_fds ≡ uses a ss

-- The slots from `ss` on have open sockets.
abbrev Covered : List Seat → Main → Type 0
Covered ss m = (a : ℕ) → uses a ss ≤ count a m.open_fds

-- What is served keeps the difference of open sockets and slots.
abbrev Keeps : List Seat → Main → Served → Type 0
Keeps ss m (goes ss' m') =
    (a : ℕ) → count a m'.open_fds + uses a ss ≡ count a m.open_fds + uses a ss'
Keeps ss m faults = Unit

behind-Keeps :
    (s : Seat) (ss : List Seat) (m : Main) (r : Served)
    → Keeps ss m r
    → Keeps (s ∷ ss) m (behind s r)
behind-Keeps s ss m (goes ss' m') k = λ a. omega (arith, k a)
behind-Keeps s ss m faults k = tt

hang_up-Keeps :
    (s : Seat) (fd : ℕ) (ss : List Seat) (m : Main) (r : Served)
    → s.fd ≡ some fd
    → 1 ≤ count fd m.open_fds
    → Keeps ss (hang_up fd m) r
    → Keeps (s ∷ ss) m (behind (record s { fd = none }) r)
hang_up-Keeps s fd ss m (goes ss' m') e h k =
    λ a. rw e (omega (arith, k a, count-erase a fd m.open_fds h))
hang_up-Keeps s fd ss m faults e h k = tt

-- What the loop does for the slots behind one keeps the difference.
abbrev KeepsAll : List Seat → (ℕ → Main → Served) → Type 0
KeepsAll ss rest = (rc : ℕ) (m : Main) → Covered ss m → Keeps ss m (rest rc m)

behind-Covered : (s : Seat) (ss : List Seat) (m : Main) → Covered (s ∷ ss) m → Covered ss m
behind-Covered s ss m h a = omega (arith, h a)

hung_up-Covered :
    (s : Seat) (fd : ℕ) (ss : List Seat) (m : Main)
    → s.fd ≡ some fd
    → Covered (s ∷ ss) m
    → (1 ≤ count fd m.open_fds) × Covered ss (hang_up fd m)
hung_up-Covered s fd ss m e h = (held, λ a. omega (arith, here a, count-erase a fd m.open_fds held))
  where
    here : (a : ℕ) → tally a fd + uses a ss ≤ count a m.open_fds
    here a = rw e at (h a)

    held : 1 ≤ count fd m.open_fds
    held = ground (arith, here fd)

hang_up-Served :
    (s : Seat) (fd rc : ℕ) (ss : List Seat) (m : Main) (rest : ℕ → Main → Served)
    → s.fd ≡ some fd
    → Covered (s ∷ ss) m
    → KeepsAll ss rest
    → Keeps (s ∷ ss) m (behind (record s { fd = none }) (rest rc (hang_up fd m)))
hang_up-Served s fd rc ss m rest e h k =
    let c = hung_up-Covered s fd ss m e h in
    hang_up-Keeps s fd ss m (rest rc (hang_up fd m)) e c.0 (k rc (hang_up fd m) c.1)

on_reply-Keeps :
    (fd rc : ℕ) (s : Seat) (ss : List Seat) (m : Main) (rest : ℕ → Main → Served) (r : Reply)
    → Covered (s ∷ ss) m
    → KeepsAll ss rest
    → Keeps (s ∷ ss) m (on_reply fd rc s ss m rest r)
on_reply-Keeps fd rc s ss m rest undefined_reply h k = tt
on_reply-Keeps fd rc s ss m rest (replied u out) h k = elim (Bool-cases (rc == 1)) [
  | inl e ↦ rw (e, on_reply) (λ a. refl)
  | inr e ↦
      rw (e, on_reply)
        (relabel (heard_seat u s) (rest (rc - 1) (heard_main fd u out m))
          (k (rc - 1) (heard_main fd u out m) (behind-Covered s ss m h)))
]
  where
    relabel : (s' : Seat) (r : Served) → Keeps ss m r → Keeps (s ∷ ss) m (behind (heard_seat u s) r)
    relabel s' (goes ss' m') k' = λ a. omega (arith, k' a)
    relabel s' faults k' = tt

serve_client-Keeps :
    (o : Option ℕ) (rc : ℕ) (t : Talk) (s : Seat) (ss : List Seat) (m : Main)
    (rest : ℕ → Main → Served)
    → s.fd ≡ o
    → Covered (s ∷ ss) m
    → KeepsAll ss rest
    → Keeps (s ∷ ss) m (serve_client o rc t s ss m rest)
unfolding serve_client
serve_client-Keeps none rc t s ss m rest e h k =
    behind-Keeps s ss m (rest rc m) (k rc m (behind-Covered s ss m h))
serve_client-Keeps (some fd) rc quiet s ss m rest e h k =
    behind-Keeps s ss m (rest rc m) (k rc m (behind-Covered s ss m h))
serve_client-Keeps (some fd) rc broken s ss m rest e h k = hang_up-Served s fd rc ss m rest e h k
serve_client-Keeps (some fd) rc gone s ss m rest e h k = hang_up-Served s fd rc ss m rest e h k
serve_client-Keeps (some fd) rc (says rx a) s ss m rest e h k =
    on_reply-Keeps fd rc s ss m rest (handle a rx (state_of s m)) h k
serve_client-Keeps (some fd) rc floods s ss m rest e h k = tt

serve_seats-Keeps :
    (rc : ℕ) (ts : List Talk) (ss : List Seat) (m : Main)
    → Covered ss m
    → Keeps ss m (serve_seats rc ts ss m)
unfolding serve_seats
serve_seats-Keeps rc ts [] m h = λ a. refl
serve_seats-Keeps rc [] (s ∷ ss) m h = λ a. refl
serve_seats-Keeps rc (t ∷ ts) (s ∷ ss) m h =
    serve_client-Keeps s.fd rc t s ss m (λ rc' m'. serve_seats rc' ts ss m') refl h
      (λ rc' m' c. serve_seats-Keeps rc' ts ss m' c)

abbrev Seated : ℕ → ℕ → List Seat → Option (List Seat) → Type 0
Seated a fd ss none = Unit
Seated a fd ss (some ss') = uses a ss' ≡ tally a fd + uses a ss

put_behind-Seated :
    (a fd : ℕ) (s : Seat) (ss : List Seat) (r : Option (List Seat))
    → Seated a fd ss r
    → Seated a fd (s ∷ ss) (put_behind s r)
put_behind-Seated a fd s ss none h = tt
put_behind-Seated a fd s ss (some ss') h = omega (arith, h)

seat_at-Seated :
    (a fd : ℕ) (o : Option ℕ) (s : Seat) (ss : List Seat) (r : Option (List Seat))
    → s.fd ≡ o
    → Seated a fd ss r
    → Seated a fd (s ∷ ss) (seat_at o fd s ss r)
seat_at-Seated a fd none s ss r e h = rw e (omega arith)
seat_at-Seated a fd (some old) s ss r e h = put_behind-Seated a fd s ss r h

seat-Seated : (a fd : ℕ) (ss : List Seat) → Seated a fd ss (seat fd ss)
seat-Seated a fd [] = tt
seat-Seated a fd (s ∷ ss) = seat_at-Seated a fd s.fd s ss (seat fd ss) refl (seat-Seated a fd ss)

abbrev ServedSound : Served → Type 0
ServedSound (goes ss m) = IsSound ss m
ServedSound faults = Unit

-- The state that a round or a run ends in.
abbrev pub EndSound : End → Type 0
EndSound (waits ss m) = IsSound ss m
EndSound (leaves ss m) = IsSound ss m
EndSound crashes = Unit

served_sound :
    (ss : List Seat) (m : Main) (r : Served) → IsSound ss m → Keeps ss m r → EndSound (served_end r)
served_sound ss m (goes ss' m') h k = λ a. omega (arith, h a, k a)
served_sound ss m faults h k = tt

serve_seats-EndSound :
    (rc : ℕ) (ts : List Talk) (ss : List Seat) (m : Main)
    → IsSound ss m
    → EndSound (served_end (serve_seats rc ts ss m))
serve_seats-EndSound rc ts ss m h =
    served_sound ss m (serve_seats rc ts ss m) h
      (serve_seats-Keeps rc ts ss m (λ a. omega (arith, h a)))

admitted-ServedSound :
    (fd : ℕ) (ss : List Seat) (m : Main) (r : Option (List Seat))
    → IsSound ss m
    → ((a : ℕ) → Seated a fd ss r)
    → ServedSound (admitted fd ss m r)
admitted-ServedSound fd ss m none h k = h
admitted-ServedSound fd ss m (some ss') h k = λ a. omega (arith, h a, k a)

admit-ServedSound :
    (fd : ℕ) (ss : List Seat) (m : Main) → IsSound ss m → ServedSound (admit fd ss m)
unfolding admit
admit-ServedSound fd ss m h = admitted-ServedSound fd ss m (seat fd ss) h (λ a. seat-Seated a fd ss)

welcome-EndSound :
    (rc : ℕ) (ts : List Talk) (r : Served) → ServedSound r → EndSound (welcome rc ts r)
welcome-EndSound rc ts faults h = tt
welcome-EndSound rc ts (goes ss m) h = elim (Bool-cases (rc == 1)) [
  | inl e ↦ rw (e, welcome) h
  | inr e ↦ rw (e, welcome) (serve_seats-EndSound (rc - 1) ts ss m h)
]

round-EndSound : (p : Polled) (ss : List Seat) (m : Main) → IsSound ss m → EndSound (round p ss m)
unfolding round
round-EndSound timed_out ss m h = h
round-EndSound failed ss m h = h
round-EndSound (ready rc idle ts) ss m h = serve_seats-EndSound rc ts ss m h
round-EndSound (ready rc refused ts) ss m h = h
round-EndSound (ready rc (calls_in fd) ts) ss m h =
    welcome-EndSound rc ts (admit fd ss m) (admit-ServedSound fd ss m h)

-- Over any rounds of the DRM server the open sockets are those of the slots, each as often as it stands
-- there: none is lost when a client goes or the queue is full, and no slot names one that is closed.
pub serve_rounds-IsSound :
    (ps : List Polled) (ss : List Seat) (m : Main) → IsSound ss m → EndSound (serve_rounds ps ss m)
unfolding serve_rounds
serve_rounds-IsSound [] ss m h = h
serve_rounds-IsSound (p ∷ ps) ss m h =
    next (round p ss m) (round-EndSound p ss m h) (λ ss' m' k. serve_rounds-IsSound ps ss' m' k)
  where
    next :
        (e : End)
        → EndSound e
        → ((ss' : List Seat) (m' : Main) → IsSound ss' m' → EndSound (serve_rounds ps ss' m'))
        → EndSound (elim e [
          | waits ss' m' ↦ serve_rounds ps ss' m'
          | leaves ss' m' ↦ leaves ss' m'
          | crashes ↦ crashes
        ])
    next (waits ss' m') k more = more ss' m' k
    next (leaves ss' m') k more = k
    next crashes k more = k
