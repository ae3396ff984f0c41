-- ===== src/Multicast/Server/Laws.antt =====
-- Runs of `mcast_server` of multicast/c/mcast4.c.
use mathlib.Core.List.{append-nil, append_assoc}
use sys_snippets.Common.{
  ℕ, zero, suc, ◌+◌, ◌≤◌, ◌<◌, ◌≡◌, refl, sym, ap, ◌∙◌, List, [], ◌∷◌, ◌++◌, true, some, ltb, ◌==◌,
  length, take, All, take_all, arith, lt→ltb, Bool-cases, inl, inr,
}
use sys_snippets.Multicast.Server.{
  Round, timed_out, interrupted, select_failed, unready, read_failed, datagram, Server, waiting,
  stopped, overrun, buffer_size, serve_round, serve, new_server, mcast_server, got,
}

-- A round that the server survives.
abbrev pub Benign : Round → Type 0
Benign timed_out = Unit
Benign interrupted = Unit
Benign select_failed = ⊥
Benign unready = Unit
Benign read_failed = ⊥
Benign (datagram d) = length d < buffer_size

abbrev pub fault_of : Round → ℕ
fault_of interrupted = 1
fault_of unready = 1
fault_of (datagram []) = 1
fault_of r = 0

abbrev pub printed : Round → List (List ℕ)
printed (datagram (b ∷ bs)) = (b ∷ bs) ∷ []
printed r = []

abbrev pub faults_in : List Round → ℕ
faults_in [] = 0
faults_in (r ∷ rs) = fault_of r + faults_in rs

abbrev pub all_printed : List Round → List (List ℕ)
all_printed [] = []
all_printed (r ∷ rs) = printed r ++ all_printed rs

abbrev pub after : Round → Server → Server
after r s = record { faults = fault_of r + s.faults; received = s.received ++ printed r }

-- The state once the rounds are over.
abbrev pub after_all : List Round → Server → Server
after_all rs s = record {
  faults = faults_in rs + s.faults;
  received = s.received ++ all_printed rs;
}

same :
    (f g : ℕ) (ps qs : List (List ℕ))
    → f ≡ g
    → ps ≡ qs
    → waiting (record { faults = f; received = ps })
      ≡ waiting (record { faults = g; received = qs })
same f g ps qs p q i = waiting (record { faults = p i; received = q i })

got_lem :
    (b : ℕ) (bs : List ℕ) (s : Server)
    → length (b ∷ bs) < buffer_size
    → got (b ∷ bs) s ≡ waiting (after (datagram (b ∷ bs)) s)
got_lem b bs s h = elim (Bool-cases (ltb (length (b ∷ bs)) buffer_size)) [
  | inl e ↦
      rw (e, got)
        (elim (Bool-cases (length (b ∷ bs) == 0)) [
          | inl f ↦ absurd (ground arith)
          | inr f ↦ rw f (same _ _ _ _ (omega arith) refl)
        ])
  | inr e ↦ absurd (ground arith)
]

serve_round-after : (r : Round) (s : Server) → Benign r → serve_round r s ≡ waiting (after r s)
unfolding serve_round
serve_round-after timed_out s h = same _ _ _ _ (omega arith) (sym (append-nil s.received))
serve_round-after interrupted s h = same _ _ _ _ (omega arith) (sym (append-nil s.received))
serve_round-after unready s h = same _ _ _ _ (omega arith) (sym (append-nil s.received))
serve_round-after select_failed s h = elim h [ ]
serve_round-after read_failed s h = elim h [ ]
serve_round-after (datagram []) s h = same _ _ _ _ (omega arith) (sym (append-nil s.received))
serve_round-after (datagram (b ∷ bs)) s h =
    ap (λ d. got d s) (take_all buffer_size (b ∷ bs) (omega (arith, h))) ∙ got_lem b bs s h

add_swap : (a b c : ℕ) → a + (b + c) ≡ b + a + c
add_swap a b c = omega arith

-- Benign rounds with fewer than five faults are served to the end, and the rest from there.
add_zero : (n : ℕ) → n ≡ 0 + n
add_zero n = omega arith

pub serve-append :
    (rs more : List Round) (s : Server)
    → All Benign rs
    → faults_in rs + s.faults < 5
    → serve (rs ++ more) s ≡ serve more (after_all rs s)
unfolding serve
serve-append [] more s h few =
    ap (serve more)
      (λ i. record { faults = add_zero s.faults i; received = sym (append-nil s.received) i })
serve-append (r ∷ rs) more s (h, hs) few =
    rw (lt→ltb s.faults 5 (omega (arith, few)), serve)
      (rw (serve_round-after r s h) (
        serve-append rs more (after r s) hs (omega (arith, few))
        ∙ ap (serve more) (λ i. record {
          faults = add_swap (faults_in rs) (fault_of r) s.faults i;
          received = append_assoc s.received (printed r) (all_printed rs) i;
        })))

read_overlong : (n : ℕ) (d : List ℕ) → n ≤ length d → length (take n d) ≡ n
read_overlong zero d h = refl
read_overlong (suc n) [] h = absurd (omega arith)
read_overlong (suc n) (x ∷ d) h = ap suc (read_overlong n d (omega arith))

-- The round after the benign ones leaves the loop.
serve-stopped :
    (rs post : List Round) (r : Round) (t : Server)
    → All Benign rs
    → faults_in rs < 5
    → serve_round r (after_all rs new_server) ≡ stopped t
    → serve (rs ++ (r ∷ post)) new_server ≡ stopped t
unfolding serve
serve-stopped rs post r t hs few k =
    serve-append rs (r ∷ post) new_server hs (omega (arith, few))
    ∙ rw (lt→ltb (faults_in rs + 0) 5 (omega (arith, few)), serve) (rw k refl)

serve-overrun :
    (rs post : List Round) (r : Round)
    → All Benign rs
    → faults_in rs < 5
    → serve_round r (after_all rs new_server) ≡ overrun
    → serve (rs ++ (r ∷ post)) new_server ≡ overrun
unfolding serve
serve-overrun rs post r hs few k =
    serve-append rs (r ∷ post) new_server hs (omega (arith, few))
    ∙ rw (lt→ltb (faults_in rs + 0) 5 (omega (arith, few)), serve) (rw k refl)

got-overlong :
    (d : List ℕ) (s : Server) → buffer_size ≤ length d → got (take buffer_size d) s ≡ overrun
got-overlong d s h = rw (ap (λ n. ltb n buffer_size) (read_overlong buffer_size d h), got) refl

pub mcast_server-waiting :
    (rs : List Round)
    → All Benign rs
    → faults_in rs < 5
    → mcast_server true true rs ≡ some (waiting (after_all rs new_server))
unfolding mcast_server serve
mcast_server-waiting rs hs few = ap some (
    ap (λ xs. serve xs new_server) (sym (append-nil rs))
    ∙ serve-append rs [] new_server hs (omega (arith, few))
    ∙ rw (lt→ltb (faults_in rs + 0) 5 (omega (arith, few)), serve) refl)

-- In rounds that the server survives and that have fewer than five faults, it reads every datagram
-- in order and waits on. A failure of `select` ends it then, and a failed `read` or a datagram of 256
-- bytes or more writes past the buffer.
pub mcast_server-Benign :
    (rs post : List Round) (d : List ℕ)
    → All Benign rs
    → faults_in rs < 5
    → buffer_size ≤ length d
    → (mcast_server true true rs ≡ some (waiting (after_all rs new_server)))
      × (mcast_server true true (rs ++ (select_failed ∷ post))
          ≡ some (stopped (after_all rs new_server)))
      × (mcast_server true true (rs ++ (read_failed ∷ post)) ≡ some overrun)
      × (mcast_server true true (rs ++ (datagram d ∷ post)) ≡ some overrun)
unfolding mcast_server serve serve_round
mcast_server-Benign rs post d hs few long = (
  mcast_server-waiting rs hs few,
  ap some (serve-stopped rs post select_failed (after_all rs new_server) hs few refl),
  ap some (serve-overrun rs post read_failed hs few refl),
  ap some
      (serve-overrun rs post (datagram d) hs few (got-overlong d (after_all rs new_server) long)),
)

serve-full :
    (rs : List Round) (ps : List (List ℕ))
    → serve rs (record { faults = 5; received = ps })
      ≡ stopped (record { faults = 5; received = ps })
unfolding serve
serve-full [] ps = refl
serve-full (r ∷ rs) ps = refl

fault-printed : (r : Round) → fault_of r ≡ 1 → printed r ≡ []
fault-printed timed_out h = refl
fault-printed interrupted h = refl
fault-printed select_failed h = refl
fault-printed unready h = refl
fault-printed read_failed h = refl
fault-printed (datagram []) h = refl
fault-printed (datagram (b ∷ bs)) h = absurd (omega (arith, h))

-- The fifth fault ends the server, which has read every datagram before it.
pub mcast_server-fifth :
    (rs post : List Round) (r : Round)
    → All Benign rs
    → Benign r
    → faults_in rs ≡ 4
    → fault_of r ≡ 1
    → mcast_server true true (rs ++ (r ∷ post))
      ≡ some (stopped (record { faults = 5; received = all_printed rs }))
unfolding mcast_server serve serve_round
mcast_server-fifth rs post r hs h four fifth = ap some (
    serve-append rs (r ∷ post) new_server hs (omega (arith, four))
    ∙ rw (lt→ltb (faults_in rs + 0) 5 (omega (arith, four)), serve)
        (rw (serve_round-after r (after_all rs new_server) h) (
          ap (serve post) (λ i. record {
            faults = five i;
            received =
                (ap (all_printed rs ++◌) (fault-printed r fifth) ∙ append-nil (all_printed rs)) i;
          })
          ∙ serve-full post (all_printed rs))))
  where
    five : fault_of r + (faults_in rs + 0) ≡ 5
    five = omega (arith, four, fifth)
