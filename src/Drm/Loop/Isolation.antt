-- ===== src/Drm/Loop/Isolation.antt =====
-- A client of drm-tests/drm_server.c changes no slot but its own.
use sys_snippets.Common.{
  ℕ, ◌-◌, ◌≡◌, refl, List, [], ◌∷◌, Option, none, some, ◌==◌, inl, inr, Bool-cases,
}
use sys_snippets.Drm.Server.{Answers, State, Reply, replied, undefined_reply, handle}
use sys_snippets.Drm.Loop.{
  Seat, Main, Talk, quiet, broken, gone, says, floods, Served, goes, faults, behind, hang_up,
  state_of, heard_seat, heard_main, on_reply, serve_client, serve_seats,
}

-- How a slot changes when its client says `rx`: not at all, or as `handle` says of that message and
-- of what the slot held.
pub data Heard (a : Answers) (rx : List ℕ) (s s' : Seat) : Type 0 where
  unheard : s' ≡ s → Heard a rx s s'
  by_message :
      (v u : State) (out : List ℕ)
      → v.info ≡ s.info
      → handle a rx v ≡ replied u out
      → s' ≡ heard_seat u s
      → Heard a rx s s'

-- What may become of a slot by what its own client does.
abbrev pub Own : Talk → Seat → Seat → Type 0
Own quiet s s' = s' ≡ s
Own broken s s' = s'.info ≡ s.info
Own gone s s' = s'.info ≡ s.info
Own (says rx a) s s' = Heard a rx s s'
Own floods s s' = s' ≡ s

-- The same of all slots; where there is no talk nothing changes.
abbrev pub AllOwn : List Talk → List Seat → List Seat → Type 0
AllOwn ts [] ss' = ss' ≡ []
AllOwn [] (s ∷ ss) ss' = ss' ≡ s ∷ ss
AllOwn (t ∷ ts) (s ∷ ss) [] = ⊥
AllOwn (t ∷ ts) (s ∷ ss) (s' ∷ ss') = Own t s s' × AllOwn ts ss ss'

abbrev pub ServedOwn : List Talk → List Seat → Served → Type 0
ServedOwn ts ss (goes ss' m) = AllOwn ts ss ss'
ServedOwn ts ss faults = Unit

same-Own : (t : Talk) (s : Seat) → Own t s s
same-Own quiet s = refl
same-Own broken s = refl
same-Own gone s = refl
same-Own (says rx a) s = unheard refl
same-Own floods s = refl

same-AllOwn : (ts : List Talk) (ss : List Seat) → AllOwn ts ss ss
same-AllOwn ts [] = refl
same-AllOwn [] (s ∷ ss) = refl
same-AllOwn (t ∷ ts) (s ∷ ss) = (same-Own t s, same-AllOwn ts ss)

behind-ServedOwn :
    (t : Talk) (ts : List Talk) (s s' : Seat) (ss : List Seat) (r : Served)
    → Own t s s'
    → ServedOwn ts ss r
    → ServedOwn (t ∷ ts) (s ∷ ss) (behind s' r)
behind-ServedOwn t ts s s' ss (goes ss' m) o h = (o, h)
behind-ServedOwn t ts s s' ss faults o h = tt

on_reply-ServedOwn :
    (fd rc : ℕ) (rx : List ℕ) (a : Answers) (ts : List Talk) (s : Seat) (ss : List Seat) (m : Main)
    (rest : ℕ → Main → Served) (r : Reply)
    → handle a rx (state_of s m) ≡ r
    → ((rc' : ℕ) (m' : Main) → ServedOwn ts ss (rest rc' m'))
    → ServedOwn (says rx a ∷ ts) (s ∷ ss) (on_reply fd rc s ss m rest r)
on_reply-ServedOwn fd rc rx a ts s ss m rest undefined_reply e h = tt
on_reply-ServedOwn fd rc rx a ts s ss m rest (replied u out) e h = elim (Bool-cases (rc == 1)) [
  | inl f ↦ rw (f, on_reply) (by_message (state_of s m) u out refl e refl, same-AllOwn ts ss)
  | inr f ↦
      rw (f, on_reply)
        (behind-ServedOwn (says rx a) ts s (heard_seat u s) ss
          (rest (rc - 1) (heard_main fd u out m)) (by_message (state_of s m) u out refl e refl)
          (h (rc - 1) (heard_main fd u out m)))
]

serve_client-ServedOwn :
    (o : Option ℕ) (rc : ℕ) (t : Talk) (ts : List Talk) (s : Seat) (ss : List Seat) (m : Main)
    (rest : ℕ → Main → Served)
    → ((rc' : ℕ) (m' : Main) → ServedOwn ts ss (rest rc' m'))
    → ServedOwn (t ∷ ts) (s ∷ ss) (serve_client o rc t s ss m rest)
unfolding serve_client
serve_client-ServedOwn none rc t ts s ss m rest h =
    behind-ServedOwn t ts s s ss (rest rc m) (same-Own t s) (h rc m)
serve_client-ServedOwn (some fd) rc quiet ts s ss m rest h =
    behind-ServedOwn quiet ts s s ss (rest rc m) refl (h rc m)
serve_client-ServedOwn (some fd) rc broken ts s ss m rest h =
    behind-ServedOwn broken ts s (record s { fd = none }) ss (rest rc (hang_up fd m)) refl
      (h rc (hang_up fd m))
serve_client-ServedOwn (some fd) rc gone ts s ss m rest h =
    behind-ServedOwn gone ts s (record s { fd = none }) ss (rest rc (hang_up fd m)) refl
      (h rc (hang_up fd m))
serve_client-ServedOwn (some fd) rc (says rx a) ts s ss m rest h =
    on_reply-ServedOwn fd rc rx a ts s ss m rest (handle a rx (state_of s m)) refl h
serve_client-ServedOwn (some fd) rc floods ts s ss m rest h = tt

-- A round of messages leaves the slot of a client that is silent as it was, changes the slot of one that
-- says something by `handle` of that message and of what the slot held, if at all, and keeps the
-- `drm_clients` entry of one that goes.
pub serve_seats-ServedOwn :
    (rc : ℕ) (ts : List Talk) (ss : List Seat) (m : Main) → ServedOwn ts ss (serve_seats rc ts ss m)
unfolding serve_seats
serve_seats-ServedOwn rc ts [] m = refl
serve_seats-ServedOwn rc [] (s ∷ ss) m = refl
serve_seats-ServedOwn rc (t ∷ ts) (s ∷ ss) m =
    serve_client-ServedOwn s.fd rc t ts s ss m (λ rc' m'. serve_seats rc' ts ss m')
      (λ rc' m'. serve_seats-ServedOwn rc' ts ss m')
