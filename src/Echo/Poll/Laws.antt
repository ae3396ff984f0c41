-- ===== src/Echo/Poll/Laws.antt =====
-- The descriptors of s_poll.c: what a pass over the slots does to them.
use sys_snippets.Common.{
  ℕ, ◌+◌, ◌-◌, ◌≤◌, ◌≡◌, ◌⊎◌, refl, sym, ◌∙◌, ap, List, [], ◌∷◌, true, false, none, some, map, inl,
  inr, ◌==◌, if◌then◌else◌, Bool-cases, Option-cases, count, erase, count-erase, arith,
}
use sys_snippets.Echo.Host.{
  Host, Talk, Served, exits, faults, waits, stays, leaves, serve_client, holds, uses,
  serve_client-stays, serve_client-leaves,
}
use sys_snippets.Echo.Poll.{
  Slot, fd_of, Pass, exit_pass, undefined_pass, waiting_pass, done, before, is_ready, turn, service,
}

-- Every descriptor of the slots is open, as often as it stands there.
abbrev pub Held : Host → List Slot → Type 0
Held h ss = (a : ℕ) → uses a (map fd_of ss) ≤ count a h.open_fds

-- A pass that ends changes the open descriptors by what it changes in the slots.
abbrev pub Keeps : List Slot → Host → Pass → Type 0
Keeps ss h p =
    (ss' : List Slot) (h' : Host) (a : ℕ)
    → p ≡ done ss' h'
    → count a h'.open_fds + uses a (map fd_of ss) ≡ count a h.open_fds + uses a (map fd_of ss')

-- One slot changes from `s` to `s'` as the host does from `h` to `h'`.
abbrev Moves : Slot → Host → Slot → Host → Type 0
Moves s h s' h' = (a : ℕ) → count a h'.open_fds + holds a s.fd ≡ count a h.open_fds + holds a s'.fd

Keeps-before :
    (s s' : Slot) (ss : List Slot) (h h' : Host) (p : Pass)
    → Moves s h s' h'
    → Keeps ss h' p
    → Keeps (s ∷ ss) h (before s' p)
Keeps-before s s' ss h h' exit_pass m k ss2 h2 a e = cc
Keeps-before s s' ss h h' undefined_pass m k ss2 h2 a e = cc
Keeps-before s s' ss h h' waiting_pass m k ss2 h2 a e = cc
Keeps-before s s' ss h h' (done ss1 h1) m k ss2 h2 a e = ground (arith, m a, k ss1 h1 a refl)

Keeps-done :
    (s s' : Slot) (ss : List Slot) (h h' : Host)
    → Moves s h s' h'
    → Keeps (s ∷ ss) h (done (s' ∷ ss) h')
Keeps-done s s' ss h h' m ss2 h2 a e = ground (arith, m a)

Keeps-go :
    (n : ℕ) (s s' : Slot) (ss : List Slot) (h h' : Host) (p : Pass)
    → Moves s h s' h'
    → Keeps ss h' p
    → Keeps (s ∷ ss) h (if n == 0 then done (s' ∷ ss) h' else before s' p)
Keeps-go n s s' ss h h' p m k = elim (Bool-cases (n == 0)) [
  | inl e ↦ rw e (Keeps-done s s' ss h h' m)
  | inr e ↦ rw e (Keeps-before s s' ss h h' p m k)
]

Held-tail : (h : Host) (s : Slot) (ss : List Slot) → Held h (s ∷ ss) → Held h ss
Held-tail h s ss held a = omega (arith, held a)

Held-erase :
    (h h' : Host) (fd : ℕ) (s : Slot) (ss : List Slot)
    → s.fd ≡ some fd
    → h'.open_fds ≡ erase fd h.open_fds
    → Held h (s ∷ ss)
    → Held h' ss × Moves s h (record s { fd = none }) h'
Held-erase h h' fd s ss f e held = (
  λ a. ground (arith, held a, held fd, count-erase a fd h.open_fds),
  λ a. ground (arith, held a, held fd, count-erase a fd h.open_fds),
)

-- The tests on a client's turn, where `rest` is the pass over the slots behind.
Keeps-turn :
    (t : Talk) (n fd : ℕ) (s : Slot) (ss : List Slot) (h : Host) (rest : Host → Pass) (v : Served)
    → serve_client t fd h ≡ v
    → s.fd ≡ some fd
    → Held h (s ∷ ss)
    → ((h' : Host) → Held h' ss → Keeps ss h' (rest h'))
    → Keeps
        (s ∷ ss)
        h
        (turn s v (λ s' h'. if n == 0 then done (s' ∷ ss) h' else before s' (rest h')))
Keeps-turn t n fd s ss h rest exits e f held k = λ ss2 h2 a q. cc
Keeps-turn t n fd s ss h rest faults e f held k = λ ss2 h2 a q. cc
Keeps-turn t n fd s ss h rest waits e f held k = λ ss2 h2 a q. cc
Keeps-turn t n fd s ss h rest (stays h') e f held k =
    let same = serve_client-stays t fd h e in
    Keeps-go n s s ss h h' (rest h') (λ a. ground (arith, ap (count a) same))
      (k h' (λ a. ground (arith, held a, ap (count a) same)))
Keeps-turn t n fd s ss h rest (leaves h') e f held k =
    let (held', moved) = Held-erase h h' fd s ss f (serve_client-leaves t fd h e) held in
    Keeps-go n s (record s { fd = none }) ss h h' (rest h') moved (k h' held')

-- A slot with no descriptor, and one that is not ready, is passed over.
service-skip :
    (talk : ℕ → Talk) (i n : ℕ) (s : Slot) (ss : List Slot) (h : Host)
    → (s.fd ≡ none) ⊎ (is_ready s ≡ false)
    → service talk i n (s ∷ ss) h ≡ before s (service talk (i + 1) n ss h)
unfolding service
service-skip talk i n s ss h c = ground arith

service-turn :
    (talk : ℕ → Talk) (i n fd : ℕ) (s : Slot) (ss : List Slot) (h : Host)
    → s.fd ≡ some fd
    → is_ready s ≡ true
    → service talk i n (s ∷ ss) h
      ≡ turn s (serve_client (talk i) fd h) (λ s' h'.
        if n - 1 == 0 then done (s' ∷ ss) h' else before s' (service talk (i + 1) (n - 1) ss h'))
unfolding service
service-turn talk i n fd s ss h f r = ground arith

service-nil : (talk : ℕ → Talk) (i n : ℕ) (h : Host) → service talk i n [] h ≡ done [] h
unfolding service
service-nil talk i n h = refl

Keeps-eq : (ss : List Slot) (h : Host) (p q : Pass) → p ≡ q → Keeps ss h q → Keeps ss h p
Keeps-eq ss h p q e k ss' h' a d = k ss' h' a (sym e ∙ d)

pub service-Keeps :
    (talk : ℕ → Talk) (i n : ℕ) (ss : List Slot) (h : Host)
    → Held h ss
    → Keeps ss h (service talk i n ss h)
service-Keeps talk i n [] h held =
    Keeps-eq [] h _ _ (service-nil talk i n h) (λ ss' h' a e. ground arith)
service-Keeps talk i n (s ∷ ss) h held =
    let skip : Keeps (s ∷ ss) h (before s (service talk (i + 1) n ss h)) =
      Keeps-before s s ss h h _ (λ a. refl)
        (service-Keeps talk (i + 1) n ss h (Held-tail h s ss held)) in
    let skipped = λ (c : (s.fd ≡ none) ⊎ (is_ready s ≡ false)).
      Keeps-eq (s ∷ ss) h _ _ (service-skip talk i n s ss h c) skip in
    let later = λ (h' : Host) (k : Held h' ss). service-Keeps talk (i + 1) (n - 1) ss h' k in
    elim (Option-cases s.fd) [
      | inl e ↦ skipped (inl e)
      | inr (fd, e) ↦ elim (Bool-cases (is_ready s)) [
        | inl r ↦ Keeps-eq (s ∷ ss) h _ _ (service-turn talk i n fd s ss h e r) (
            Keeps-turn (talk i) (n - 1) fd s ss h (service talk (i + 1) (n - 1) ss) _ refl e held
              later)
        | inr r ↦ skipped (inr r)
      ]
    ]
