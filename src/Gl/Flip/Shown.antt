-- ===== src/Gl/Flip/Shown.antt =====
-- Whether drm_gl_test3.c keeps the buffer on the screen locked.
use mathlib.Core.Path.{subst}
use sys_snippets.Common.{
  ℕ, zero, suc, ◌≤◌, ◌≡◌, refl, ap, sym, List, [], ◌∷◌, ◌++◌, Bool, true, false, Option, none, some,
  All, count, tally, arith,
}
use sys_snippets.Gl.Flip.{
  DrmFb, Output, page_flip_handler, lookup, with_user_data, Select, interrupted, select_failed,
  fine, Answers, complete, Turn, goes_on, leaves, undefined, with_fb, lock_front, set_crtc,
  page_flip, draw, input, on_select, round, on_turn, render_loop,
}
use sys_snippets.Gl.Flip.Owned.{bos, IsOwned, IsAllocated, Keeps, render_loop-Keeps}

-- A buffer on the screen is among those of the list.
abbrev pub IsAmong : Option ℕ → List ℕ → Type 0
IsAmong none xs = Unit
IsAmong (some bo) xs = 1 ≤ count bo xs

-- The buffer on the screen is that of `current` or `next`.
abbrev pub IsKept : Output → Type 0
IsKept o = IsAmong o.shown (bos o.next ++ bos o.current)

abbrev first_of : Option DrmFb → DrmFb → DrmFb
first_of none f = f
first_of (some c) f = c

-- A flip to `f` that is queued, or done with its event to be read; then what is on the screen.
abbrev Flipping : Option DrmFb → DrmFb → Option ℕ → Option ℕ → ℕ → Type 0
Flipping c f shown (some bo) zero = (bo ≡ f.bo) × (shown ≡ some (first_of c f).bo)
Flipping c f shown (some bo) (suc n) = ⊥
Flipping c f shown none zero = ⊥
Flipping c f shown none (suc zero) = shown ≡ some f.bo
Flipping c f shown none (suc (suc n)) = ⊥

abbrev Stage : Option DrmFb → Option DrmFb → Option ℕ → Option ℕ → ℕ → Type 0
Stage c (some f) shown queued events = Flipping c f shown queued events
Stage none none shown none zero = shown ≡ none
Stage (some c) none shown none zero = shown ≡ some c.bo
Stage c none shown queued events = ⊥

-- How the program and the kernel stand between two rounds.
abbrev pub IsSettled : Output → Type 0
IsSettled o = Stage o.current o.next o.shown o.queued o.events

abbrev pub Safe : Turn → Type 0
Safe (goes_on o) = IsSettled o × IsKept o
Safe (leaves o) = IsKept o
Safe undefined = ⊥

abbrev at : Option DrmFb → Option DrmFb → Option ℕ → Option ℕ → ℕ → Output → Output
at c n shown queued events o = record o {
  current = c;
  next = n;
  shown = shown;
  queued = queued;
  events = events;
}

complete-IsSettled :
    (b : Bool) (c n : Option DrmFb) (sh q : Option ℕ) (ev : ℕ) (o : Output)
    → Stage c n sh q ev
    → IsSettled (complete b (at c n sh q ev o))
complete-IsSettled false c n sh q ev o h = h
complete-IsSettled true c (some f) sh (some bo) zero o h = ap some h.0
complete-IsSettled true c (some f) sh (some bo) (suc ev) o h = absurd h
complete-IsSettled true c (some f) sh none ev o h = h
complete-IsSettled true none none sh none ev o h = h
complete-IsSettled true (some c) none sh none ev o h = h
complete-IsSettled true none none sh (some bo) ev o h = absurd h
complete-IsSettled true (some c) none sh (some bo) ev o h = absurd h

-- What is on the screen is the first buffer, or the second.
shows_first : (sh : Option ℕ) (a : ℕ) (xs : List ℕ) → sh ≡ some a → IsAmong sh (a ∷ xs)
shows_first sh a xs e = rw e (omega (arith, tally_self a))
  where
    tally_self : (b : ℕ) → tally b b ≡ 1
    tally_self b = ground arith

shows_second : (sh : Option ℕ) (a b : ℕ) → sh ≡ some b → IsAmong sh (a ∷ b ∷ [])
shows_second sh a b e = rw e (ground arith)

shows_none : (sh : Option ℕ) (xs : List ℕ) → sh ≡ none → IsAmong sh xs
shows_none sh xs e = rw e tt

page_flip-Safe :
    (c : Option DrmFb) (f : DrmFb) (sh : Option ℕ) (flipped : Bool) (o : Output)
    → sh ≡ some (first_of c f).bo
    → Safe (page_flip (some f) flipped (at c (some f) sh none zero o))
page_flip-Safe none f sh true o e = ((refl, e), shows_first sh f.bo [] e)
page_flip-Safe (some c) f sh true o e = ((refl, e), shows_second sh f.bo c.bo e)
page_flip-Safe none f sh false o e = shows_first sh f.bo [] e
page_flip-Safe (some c) f sh false o e = shows_second sh f.bo c.bo e

-- While a flip is queued the kernel takes no other.
busy-Safe :
    (c : Option DrmFb) (f : DrmFb) (sh : Option ℕ) (bo : ℕ) (flipped : Bool) (o : Output)
    → sh ≡ some (first_of c f).bo
    → Safe (page_flip (some f) flipped (at c (some f) sh (some bo) zero o))
busy-Safe none f sh bo true o e = shows_first sh f.bo [] e
busy-Safe (some c) f sh bo true o e = shows_second sh f.bo c.bo e
busy-Safe none f sh bo false o e = shows_first sh f.bo [] e
busy-Safe (some c) f sh bo false o e = shows_second sh f.bo c.bo e

-- A new buffer is presented.
present-Safe :
    (a : Answers) (c : Option DrmFb) (f : DrmFb) (sh : Option ℕ) (o : Output)
    → Stage c none sh none zero
    → Safe (
        set_crtc c
          (some f)
          a.crtc_set
          (at c (some f) sh none zero o)
          λ q. page_flip q.next a.flipped q)
present-Safe a (some c) f sh o e = page_flip-Safe (some c) f sh a.flipped o e
present-Safe a none f sh o e = go a.crtc_set
  where
    go :
        (crtc_set : Bool)
        → Safe (
            set_crtc none
              (some f)
              crtc_set
              (at none (some f) sh none zero o)
              λ q. page_flip q.next a.flipped q)
    go true = page_flip-Safe none f (some f.bo) a.flipped o refl
    go false = shows_none sh (f.bo ∷ []) e

same_screen : (c : Option DrmFb) (sh : Option ℕ) → Stage c none sh none zero → IsAmong sh (bos c)
same_screen none sh e = shows_none sh [] e
same_screen (some c) sh e = shows_first sh c.bo [] e

new_fb-Safe :
    (a : Answers) (c : Option DrmFb) (sh : Option ℕ) (bo : ℕ) (data_of : Option ℕ)
    (allocated : Bool) (added : Option ℕ) (o : Output)
    → allocated ≡ true
    → Stage c none sh none zero
    → Safe (
        with_fb bo
          (with_user_data bo data_of allocated added (at c none sh none zero o))
          λ p. set_crtc p.current p.next a.crtc_set p λ q. page_flip q.next a.flipped q)
new_fb-Safe a c sh bo (some fbid) allocated added o works e =
    present-Safe a c (record { bo = bo; fbid = fbid }) sh o e
new_fb-Safe a c sh bo none false added o works e = cc
new_fb-Safe a c sh bo none true (some fbid) o works e =
    present-Safe a c (record { bo = bo; fbid = fbid }) sh
      (record o { user_data = (bo, fbid) ∷ o.user_data }) e
new_fb-Safe a c sh bo none true none o works e = same_screen c sh e

draw-Safe :
    (a : Answers) (c n : Option DrmFb) (sh q : Option ℕ) (o : Output)
    → IsAllocated a
    → Stage c n sh q zero
    → Safe (draw a (at c n sh q zero o))
draw-Safe a c (some f) sh none o works h = absurd h
draw-Safe a (some c) (some f) sh (some bo) o works h = busy-Safe (some c) f sh bo a.flipped o h.1
draw-Safe a none (some f) sh (some bo) o works h = go a.crtc_set
  where
    go :
        (crtc_set : Bool)
        → Safe (
            set_crtc none
              (some f)
              crtc_set
              (at none (some f) sh (some bo) zero o)
              λ q. page_flip q.next a.flipped q)
    go true = busy-Safe none f (some f.bo) bo a.flipped o refl
    go false = shows_first sh f.bo [] h.1
draw-Safe a none none sh (some bo) o works h = absurd h
draw-Safe a (some c) none sh (some bo) o works h = absurd h
draw-Safe a c none sh none o works h = go a.front
  where
    go :
        (front : Option ℕ)
        → Safe (
            lock_front front a.allocated a.added
              (at c none sh none zero o)
              λ p. set_crtc p.current p.next a.crtc_set p λ q. page_flip q.next a.flipped q)
    go none = same_screen c sh h
    go (some bo) =
        new_fb-Safe a c sh bo (lookup bo o.user_data) a.allocated a.added
          (record o { locked = bo ∷ o.locked }) works h

-- The event of a flip is read, if there is one.
input-Safe :
    (a : Answers) (c n : Option DrmFb) (sh q : Option ℕ) (ev : ℕ) (o : Output)
    → IsAllocated a
    → Stage c n sh q ev
    → Safe (draw a (input ev (at c n sh q ev o)))
input-Safe a c n sh q zero o works h = draw-Safe a c n sh q o works h
input-Safe a c (some f) sh none (suc zero) o works h =
    draw-Safe a (some f) none sh none (page_flip_handler (at c (some f) sh none zero o)) works h
input-Safe a c (some f) sh none (suc (suc n)) o works h = absurd h
input-Safe a c (some f) sh (some bo) (suc n) o works h = absurd h
input-Safe a none none sh none (suc n) o works h = absurd h
input-Safe a (some c) none sh none (suc n) o works h = absurd h
input-Safe a none none sh (some bo) (suc n) o works h = absurd h
input-Safe a (some c) none sh (some bo) (suc n) o works h = absurd h

settled-IsKept :
    (c n : Option DrmFb) (sh q : Option ℕ) (ev : ℕ)
    → Stage c n sh q ev
    → IsAmong sh (bos n ++ bos c)
settled-IsKept none none sh none zero h = shows_none sh [] h
settled-IsKept (some c) none sh none zero h = shows_first sh c.bo [] h
settled-IsKept none (some f) sh (some bo) zero h = shows_first sh f.bo [] h.1
settled-IsKept (some c) (some f) sh (some bo) zero h = shows_second sh f.bo c.bo h.1
settled-IsKept c (some f) sh none (suc zero) h = shows_first sh f.bo (bos c) h
settled-IsKept c (some f) sh none zero h = absurd h
settled-IsKept c (some f) sh none (suc (suc n)) h = absurd h
settled-IsKept c (some f) sh (some bo) (suc n) h = absurd h
settled-IsKept none none sh none (suc n) h = absurd h
settled-IsKept (some c) none sh none (suc n) h = absurd h
settled-IsKept none none sh (some bo) ev h = absurd h
settled-IsKept (some c) none sh (some bo) ev h = absurd h

abbrev kept : (o : Output) → IsSettled o → IsKept o
kept o h = settled-IsKept o.current o.next o.shown o.queued o.events h

-- The kernel does a flip only before `select`.
abbrev pub IsPrompt : Answers → Type 0
IsPrompt a = a.late ≡ false

round-Safe :
    (a : Answers) (o : Output) → IsPrompt a → IsAllocated a → IsSettled o → Safe (round a o)
unfolding round
round-Safe a o prompt works h =
    go a.select (complete a.early o)
      (complete-IsSettled a.early o.current o.next o.shown o.queued o.events o h)
  where
    go : (s : Select) (p : Output) → IsSettled p → Safe (on_select s a p)
    go interrupted p e = (e, kept p e)
    go select_failed p e = kept p e
    go fine p e =
        subst (λ b. Safe (draw a (complete b (input p.events p)))) (sym prompt)
          (input-Safe a p.current p.next p.shown p.queued p.events p works e)

loop-Safe :
    (rs : List Answers) (o : Output)
    → All IsPrompt rs
    → All IsAllocated rs
    → IsSettled o
    → Safe (render_loop rs o)
unfolding render_loop
loop-Safe [] o prompt works h = (h, kept o h)
loop-Safe (a ∷ more) o (now, later) (here, there) h =
    go (λ p e. loop-Safe more p later there e) (round a o) (round-Safe a o now here h)
  where
    go :
        ((p : Output) → IsSettled p → Safe (render_loop more p))
        → (t : Turn) → Safe t
        → Safe (on_turn t λ p. render_loop more p)
    go ih (goes_on p) e = ih p e.0
    go ih (leaves p) e = e
    go ih undefined e = e

-- The buffer on the screen is locked; NULL is not followed.
abbrev pub IsLocked : Turn → Type 0
IsLocked (goes_on o) = IsAmong o.shown o.locked
IsLocked (leaves o) = IsAmong o.shown o.locked
IsLocked undefined = ⊥

shown-IsLocked : (t : Turn) → Safe t → Keeps t → IsLocked t
shown-IsLocked (goes_on o) s k = subst (λ bs. IsAmong o.shown bs) (sym k) s.1
shown-IsLocked (leaves o) s k = subst (λ bs. IsAmong o.shown bs) (sym k) s
shown-IsLocked undefined s k = s

-- As long as the kernel does each flip while the program is not between `select` and the look at its
-- buffers, and `calloc` works, the buffer on the screen is that of `current` or `next`, it is locked, and
-- NULL is not followed. At the start the locked buffers are those of `next` and `current`, as they are
-- before the first round.
pub render_loop-Safe :
    (rs : List Answers) (o : Output)
    → All IsPrompt rs
    → All IsAllocated rs
    → IsSettled o
    → IsOwned o
    → Safe (render_loop rs o) × IsLocked (render_loop rs o)
render_loop-Safe rs o prompt works h owned =
    let safe = loop-Safe rs o prompt works h in
    (safe, shown-IsLocked (render_loop rs o) safe (render_loop-Keeps rs o works owned))
