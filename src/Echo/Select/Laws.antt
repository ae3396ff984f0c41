-- ===== src/Echo/Select/Laws.antt =====
-- What s_select.c asks `select` about, and what its rounds do to the descriptors.
use sys_snippets.Common.{
  ℕ, ◌+◌, ◌≤◌, ◌≡◌, refl, List, [], ◌∷◌, Option, none, some, inl, inr, Bool-cases, if◌then◌else◌,
  ltb, count, erase, tally, count-erase, All, arith, ap,
}
use sys_snippets.Echo.Host.{
  Host, Talk, Served, exits, faults, waits, stays, leaves, serve_client, holds, uses,
  serve_client-stays, serve_client-leaves,
}
use sys_snippets.Echo.Select.{
  Clients, Server, is_set, Watch, watch_clients, watch, Pass, exit_pass, undefined_pass,
  waiting_pass, done, before, turn, service,
}

watch_clients_lem :
    (cs : Clients) (w : Watch) (a : ℕ)
    → (count a (watch_clients cs w).rset ≡ count a w.rset + uses a cs)
      × (w.max ≤ (watch_clients cs w).max)
unfolding watch_clients
watch_clients_lem [] w a = (omega arith, omega arith)
watch_clients_lem (none ∷ cs) w a = let (p, q) = watch_clients_lem cs w a in (omega (arith, p), q)
watch_clients_lem (some fd ∷ cs) w a =
    let (p, q) =
      watch_clients_lem cs (record { rset = fd ∷ w.rset; max = if ltb w.max fd then fd else w.max })
        a in
    (omega (arith, p), ground (arith, q))

abbrev Bounded : Watch → Type 0
Bounded w = All (λ fd. fd ≤ w.max) w.rset

All-le : (xs : List ℕ) (m n : ℕ) → m ≤ n → All (λ fd. fd ≤ m) xs → All (λ fd. fd ≤ n) xs
All-le [] m n h k = tt
All-le (x ∷ xs) m n h k = (omega (arith, k.0), All-le xs m n h k.1)

watch_clients-Bounded : (cs : Clients) (w : Watch) → Bounded w → Bounded (watch_clients cs w)
unfolding watch_clients
watch_clients-Bounded [] w b = b
watch_clients-Bounded (none ∷ cs) w b = watch_clients-Bounded cs w b
watch_clients-Bounded (some fd ∷ cs) w b =
    let m = if ltb w.max fd then fd else w.max in
    watch_clients-Bounded cs (record { rset = fd ∷ w.rset; max = m })
      (ground arith, All-le w.rset w.max m (ground arith) b)

-- The set that s_select.c hands to `select` holds the listening socket once, and every client as
-- often as it stands in the array, and nothing else; and `max + 1`, its `nfds`, is above them all.
pub watch_lem :
    (s : Server)
    → ((a : ℕ) → count a (watch s).rset ≡ tally a s.listenfd + uses a s.clients)
      × All (λ fd. fd ≤ (watch s).max) (watch s).rset
unfolding watch
watch_lem s =
    let w : Watch = record { rset = s.listenfd ∷ []; max = s.listenfd } in
    (
      λ a. omega (arith, (watch_clients_lem s.clients w a).0),
      watch_clients-Bounded s.clients w (omega arith),
    )

-- Every descriptor of the array is open.
abbrev pub Held : Host → Clients → Type 0
Held h cs = (a : ℕ) → uses a cs ≤ count a h.open_fds

-- A pass that ends changes the open descriptors by what it changes in the array.
abbrev pub Keeps : Clients → Host → Pass → Type 0
Keeps cs h p =
    (cs' : Clients) (h' : Host) (a : ℕ)
    → p ≡ done cs' h'
    → count a h'.open_fds + uses a cs ≡ count a h.open_fds + uses a cs'

Keeps-before :
    (c c' : Option ℕ) (cs : Clients) (h h' : Host) (p : Pass)
    → ((a : ℕ) → count a h'.open_fds + holds a c ≡ count a h.open_fds + holds a c')
    → Keeps cs h' p
    → Keeps (c ∷ cs) h (before c' p)
Keeps-before c c' cs h h' exit_pass m k cs2 h2 a e = cc
Keeps-before c c' cs h h' undefined_pass m k cs2 h2 a e = cc
Keeps-before c c' cs h h' waiting_pass m k cs2 h2 a e = cc
Keeps-before c c' cs h h' (done cs1 h1) m k cs2 h2 a e = ground (arith, m a, k cs1 h1 a refl)

-- The descriptor of a client that left is open no more.
erase-moves :
    (a fd : ℕ) (xs : List ℕ) → 1 ≤ count fd xs → count a (erase fd xs) + tally a fd ≡ count a xs + 0
erase-moves a fd xs h = omega (arith, count-erase a fd xs h)

Keeps-turn :
    (t : Talk) (fd : ℕ) (cs : Clients) (h : Host) (rest : Host → Pass) (v : Served)
    → serve_client t fd h ≡ v
    → Held h (some fd ∷ cs)
    → ((h' : Host) → Held h' cs → Keeps cs h' (rest h'))
    → Keeps (some fd ∷ cs) h (turn fd v rest)
Keeps-turn t fd cs h rest exits e held k = λ cs2 h2 a q. cc
Keeps-turn t fd cs h rest faults e held k = λ cs2 h2 a q. cc
Keeps-turn t fd cs h rest waits e held k = λ cs2 h2 a q. cc
Keeps-turn t fd cs h rest (stays h') e held k =
    let same = serve_client-stays t fd h e in
    Keeps-before (some fd) (some fd) cs h h' (rest h') (λ a. ground (arith, ap (count a) same))
      (k h' (λ a. ground (arith, held a, ap (count a) same)))
Keeps-turn t fd cs h rest (leaves h') e held k =
    let gone = serve_client-leaves t fd h e in
    let open_once : 1 ≤ count fd h.open_fds = ground (arith, held fd) in
    Keeps-before (some fd) none cs h h' (rest h')
      (λ a. ground (arith, ap (count a) gone, erase-moves a fd h.open_fds open_once))
      (k h' (λ a. ground (arith, held a, ap (count a) gone, erase-moves a fd h.open_fds open_once)))

pub service-Keeps :
    (rset : List ℕ) (talk : ℕ → Talk) (i : ℕ) (cs : Clients) (h : Host)
    → Held h cs
    → Keeps cs h (service rset talk i cs h)
unfolding service
service-Keeps rset talk i [] h held = λ cs' h' a e. ground arith
service-Keeps rset talk i (none ∷ cs) h held =
    Keeps-before none none cs h h _ (λ a. refl)
      (service-Keeps rset talk (i + 1) cs h (λ a. omega (arith, held a)))
service-Keeps rset talk i (some fd ∷ cs) h held =
    let later = λ (h' : Host) (k : Held h' cs). service-Keeps rset talk (i + 1) cs h' k in
    elim (Bool-cases (is_set fd rset)) [
      | inl r ↦ rw r (Keeps-turn (talk i) fd cs h (service rset talk (i + 1) cs) _ refl held later)
      | inr r ↦ rw r (
          Keeps-before (some fd) (some fd) cs h h _ (λ a. refl)
            (later h (λ a. omega (arith, held a))))
    ]
