-- ===== src/Gl/Flip/Owned.antt =====
-- Which buffers drm_gl_test3.c keeps locked, whatever its calls answer and whenever flips are done.
use sys_snippets.Common.{
  ℕ, zero, suc, ◌≡◌, refl, ap, ◌∙◌, List, [], ◌∷◌, ◌++◌, Bool, true, false, ◌&&◌, Option, none,
  some, All, erase, inl, inr, Bool-cases, arith,
}
use sys_snippets.Gl.Flip.{
  DrmFb, Output, release_bo, page_flip_handler, handle_events, lookup, with_user_data, Select,
  interrupted, select_failed, fine, Answers, finish, complete, Turn, goes_on, leaves, undefined,
  with_fb, lock_front, swap, set_crtc, is_free, page_flip, draw, input, on_select, round, on_turn,
  render_loop,
}

abbrev pub bos : Option DrmFb → List ℕ
bos none = []
bos (some f) = f.bo ∷ []

-- The buffers that are locked are those of `next` and `current`.
abbrev pub IsOwned : Output → Type 0
IsOwned o = o.locked ≡ bos o.next ++ bos o.current

-- The `calloc` of the round works.
abbrev pub IsAllocated : Answers → Type 0
IsAllocated a = a.allocated ≡ true

-- No way of the loop follows NULL, or loses a buffer.
abbrev pub Keeps : Turn → Type 0
Keeps (goes_on o) = IsOwned o
Keeps (leaves o) = IsOwned o
Keeps undefined = ⊥

erase-first : (a : ℕ) (xs : List ℕ) → erase a (a ∷ xs) ≡ xs
erase-first a xs = ground arith

erase-second : (a b : ℕ) → erase a (b ∷ a ∷ []) ≡ b ∷ []
erase-second a b = ground arith

release_bo-bos : (c n : Option DrmFb) → release_bo c (bos n ++ bos c) ≡ bos n ++ []
release_bo-bos none n = refl
release_bo-bos (some f) none = erase-first f.bo []
release_bo-bos (some f) (some g) = erase-second f.bo g.bo

page_flip_handler-IsOwned : (o : Output) → IsOwned o → IsOwned (page_flip_handler o)
page_flip_handler-IsOwned o h = ap (release_bo o.current) h ∙ go o.next
  where
    go : (n : Option DrmFb) → release_bo o.current (bos n ++ bos o.current) ≡ bos n
    go none = release_bo-bos o.current none
    go (some f) = release_bo-bos o.current (some f)

handle_events-IsOwned : (n : ℕ) (o : Output) → IsOwned o → IsOwned (handle_events n o)
handle_events-IsOwned zero o h = h
handle_events-IsOwned (suc n) o h =
    handle_events-IsOwned n (page_flip_handler o) (page_flip_handler-IsOwned o h)

input-IsOwned : (n : ℕ) (o : Output) → IsOwned o → IsOwned (input n o)
input-IsOwned zero o h = h
input-IsOwned (suc n) o h = handle_events-IsOwned o.events (record o { events = 0 }) h

complete-IsOwned : (b : Bool) (o : Output) → IsOwned o → IsOwned (complete b o)
complete-IsOwned false o h = h
complete-IsOwned true o h = go o.queued
  where
    go : (q : Option ℕ) → IsOwned (finish q o)
    go none = h
    go (some bo) = h

page_flip-Keeps :
    (f : DrmFb) (flipped : Bool) (o : Output) → IsOwned o → Keeps (page_flip (some f) flipped o)
page_flip-Keeps f flipped o h = elim (Bool-cases (flipped && is_free o.queued)) [
  | inl e ↦ rw e h
  | inr e ↦ rw e h
]

-- From the test of `output.current` on.
present-Keeps :
    (a : Answers) (c : Option DrmFb) (f : DrmFb) (o : Output)
    → IsOwned (record o { current = c; next = some f })
    → Keeps (
        set_crtc c
          (some f)
          a.crtc_set
          (record o { current = c; next = some f })
          (λ q. page_flip q.next a.flipped q))
present-Keeps a (some c) f o h =
    page_flip-Keeps f a.flipped (record o { current = some c; next = some f }) h
present-Keeps a none f o h = go a.crtc_set
  where
    go :
        (crtc_set : Bool)
        → Keeps (
            set_crtc none
              (some f)
              crtc_set
              (record o { current = none; next = some f })
              (λ q. page_flip q.next a.flipped q))
    go true =
        page_flip-Keeps f a.flipped (record o { current = none; next = some f; shown = some f.bo })
          h
    go false = h

-- A new DrmFb for the buffer that was locked.
with_user_data-Keeps :
    (a : Answers) (bo : ℕ) (data_of : Option ℕ) (allocated : Bool) (added : Option ℕ) (o : Output)
    → allocated ≡ true
    → o.locked ≡ bos o.current
    → Keeps (
        with_fb bo
          (with_user_data bo data_of allocated added (record o { locked = bo ∷ o.locked }))
          λ p. set_crtc p.current p.next a.crtc_set p λ q. page_flip q.next a.flipped q)
with_user_data-Keeps a bo (some fbid) allocated added o e h =
    present-Keeps a o.current (record { bo = bo; fbid = fbid })
      (record o { locked = bo ∷ o.locked }) (ap (bo ∷◌) h)
with_user_data-Keeps a bo none false added o e h = cc
with_user_data-Keeps a bo none true (some fbid) o e h =
    present-Keeps a o.current (record { bo = bo; fbid = fbid })
      (record o { locked = bo ∷ o.locked; user_data = (bo, fbid) ∷ o.user_data }) (ap (bo ∷◌) h)
with_user_data-Keeps a bo none true none o e h = erase-first bo o.locked ∙ h

draw-Keeps : (a : Answers) (o : Output) → IsAllocated a → IsOwned o → Keeps (draw a o)
draw-Keeps a o works h = go o.next h
  where
    lock :
        (front : Option ℕ)
        → o.locked ≡ bos o.current
        → Keeps (
            lock_front front a.allocated a.added
              (record o { next = none })
              λ p. set_crtc p.current p.next a.crtc_set p λ q. page_flip q.next a.flipped q)
    lock none e = e
    lock (some bo) e =
        with_user_data-Keeps a bo (lookup bo o.user_data) a.allocated a.added
          (record o { next = none }) works e

    go :
        (n : Option DrmFb)
        → IsOwned (record o { next = n })
        → Keeps (
            swap n a
              (record o { next = n })
              λ p. set_crtc p.current p.next a.crtc_set p λ q. page_flip q.next a.flipped q)
    go (some f) e = present-Keeps a o.current f o e
    go none e = lock a.front e

round-Keeps : (a : Answers) (o : Output) → IsAllocated a → IsOwned o → Keeps (round a o)
unfolding round
round-Keeps a o works h = go a.select (complete a.early o) (complete-IsOwned a.early o h)
  where
    go : (s : Select) (p : Output) → IsOwned p → Keeps (on_select s a p)
    go interrupted p e = e
    go select_failed p e = e
    go fine p e =
        draw-Keeps a (complete a.late (input p.events p)) works
          (complete-IsOwned a.late (input p.events p) (input-IsOwned p.events p e))

-- Over any rounds in which `calloc` works, whatever the other calls answer and whenever the kernel does its
-- flips, the loop follows no NULL, and the buffers that are locked are those of `next` and `current`: at
-- most two, and none is lost.
pub render_loop-Keeps :
    (rs : List Answers) (o : Output) → All IsAllocated rs → IsOwned o → Keeps (render_loop rs o)
unfolding render_loop
render_loop-Keeps [] o works h = h
render_loop-Keeps (a ∷ more) o (now, later) h =
    go (λ p e. render_loop-Keeps more p later e) (round a o) (round-Keeps a o now h)
  where
    go :
        ((p : Output) → IsOwned p → Keeps (render_loop more p))
        → (t : Turn) → Keeps t
        → Keeps (on_turn t λ p. render_loop more p)
    go ih (goes_on p) e = ih p e
    go ih (leaves p) e = e
    go ih undefined e = e
