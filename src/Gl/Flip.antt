-- ===== src/Gl/Flip.antt =====
-- The render loop of drm-tests/drm_gl_test3.c, its frame buffers and its page flips. What gbm, libdrm and
-- the kernel answer is an argument; the kernel's part of a page flip stands beside the program's state.
use sys_snippets.Common.{
  ℕ, zero, suc, ◌+◌, List, [], ◌∷◌, Bool, true, false, ◌&&◌, Option, none, some, erase, ◌==◌,
  if◌then◌else◌,
}
pub mod Owned
pub mod Shown
pub mod Early

-- `struct DrmFb`, of which `output` is the one output.
pub record DrmFb : Type 0 where
  pub bo : ℕ
  pub fbid : ℕ

-- `struct DrmOutput`, with the buffers that gbm_surface_lock_front_buffer gave and that were not given
-- back (newest first), the user data of each buffer object, and how many DrmFb nobody points to. Then
-- the screen: the buffer that the crtc shows, none for another program's picture, the flip that the
-- kernel has yet to do, and the completions that nobody has read.
pub record Output : Type 0 where
  pub current : Option DrmFb
  pub next : Option DrmFb
  pub page_flip_pending : Bool
  pub locked : List ℕ
  pub user_data : List (ℕ × ℕ)
  pub leaked : ℕ
  pub shown : Option ℕ
  pub queued : Option ℕ
  pub events : ℕ

-- `struct DrmOutput output = { 0 }`, on another program's picture.
abbrev pub new_output : Output
new_output = record {
  current = none;
  next = none;
  page_flip_pending = false;
  locked = [];
  user_data = [];
  leaked = 0;
  shown = none;
  queued = none;
  events = 0;
}

abbrev pub release_bo : Option DrmFb → List ℕ → List ℕ
release_bo none bos = bos
release_bo (some f) bos = erase f.bo bos

-- `pageFlipHandler`
abbrev pub page_flip_handler : Output → Output
page_flip_handler o = record o {
  page_flip_pending = false;
  locked = release_bo o.current o.locked;
  current = o.next;
  next = none;
}

-- drmHandleEvent calls the handler for each event that is there.
abbrev pub handle_events : ℕ → Output → Output
handle_events zero o = o
handle_events (suc n) o = handle_events n (page_flip_handler o)

-- `onDrmInput`
abbrev pub on_drm_input : Output → Output
on_drm_input o = handle_events o.events (record o { events = 0 })

abbrev pub lookup : ℕ → List (ℕ × ℕ) → Option ℕ
lookup bo [] = none
lookup bo (x ∷ xs) = if bo == x.0 then some x.1 else lookup bo xs

-- What `drmFbGetFromBo` comes to: a DrmFb, or NULL, or `fb->bo = bo` of a NULL that `calloc` returned.
pub data Got : Type 0 where
  got : DrmFb → Output → Got
  no_fb : Output → Got
  no_memory : Got

-- With the user data of `bo`, whether `calloc` works, and the id that drmModeAddFB makes (none if it fails).
abbrev pub with_user_data : ℕ → Option ℕ → Bool → Option ℕ → Output → Got
with_user_data bo (some fbid) allocated added o = got (record { bo = bo; fbid = fbid }) o
with_user_data bo none false added o = no_memory
with_user_data bo none true (some fbid) o =
    got (record { bo = bo; fbid = fbid }) (record o { user_data = (bo, fbid) ∷ o.user_data })
with_user_data bo none true none o = no_fb (record o { leaked = o.leaked + 1 })

abbrev pub drm_fb_get_from_bo : ℕ → Bool → Option ℕ → Output → Got
drm_fb_get_from_bo bo allocated added o =
    with_user_data bo (lookup bo o.user_data) allocated added o

pub data Select : Type 0 where
  interrupted select_failed fine : Select

-- What the calls of a round answer, and when the kernel does a flip that is queued: `early` says before
-- `select` (or at all before this round's calls), `late` behind it, before the buffers are looked at.
pub record Answers : Type 0 where
  pub select : Select
  pub early : Bool
  pub late : Bool
  pub front : Option ℕ
  pub allocated : Bool
  pub added : Option ℕ
  pub crtc_set : Bool
  pub flipped : Bool

-- The kernel does the flip that is queued: it shows the buffer and has an event for the program.
abbrev pub finish : Option ℕ → Output → Output
finish none o = o
finish (some bo) o = record o { shown = some bo; queued = none; events = o.events + 1 }

abbrev pub complete : Bool → Output → Output
complete false o = o
complete true o = finish o.queued o

-- The loop goes on, or `break` leaves it, or NULL is followed.
pub data Turn : Type 0 where
  goes_on : Output → Turn
  leaves : Output → Turn
  undefined : Turn

-- `if (!output.next)`; `k` is what follows.
abbrev pub with_fb : ℕ → Got → (Output → Turn) → Turn
with_fb bo (got f o) k = k (record o { next = some f })
with_fb bo (no_fb o) k = leaves (record o { next = none; locked = erase bo o.locked })
with_fb bo no_memory k = undefined

abbrev pub lock_front : Option ℕ → Bool → Option ℕ → Output → (Output → Turn) → Turn
lock_front none allocated added o k = leaves o
lock_front (some bo) allocated added o k =
    with_fb bo (drm_fb_get_from_bo bo allocated added (record o { locked = bo ∷ o.locked })) k

abbrev pub swap : Option DrmFb → Answers → Output → (Output → Turn) → Turn
swap (some f) a o k = k o
swap none a o k = lock_front a.front a.allocated a.added o k

-- `if (!output.current)`, with `output.next`.
abbrev pub set_crtc : Option DrmFb → Option DrmFb → Bool → Output → (Output → Turn) → Turn
set_crtc (some c) next crtc_set o k = k o
set_crtc none none crtc_set o k = undefined
set_crtc none (some f) crtc_set o k =
    if crtc_set then k (record o { shown = some f.bo }) else leaves o

-- The kernel takes no flip while one is queued (EBUSY).
abbrev pub is_free : Option ℕ → Bool
is_free none = true
is_free (some bo) = false

abbrev pub page_flip : Option DrmFb → Bool → Output → Turn
page_flip none flipped o = undefined
page_flip (some f) flipped o =
    if flipped && is_free o.queued
    then goes_on (record o { queued = some f.bo; page_flip_pending = true })
    else leaves o

-- From `render_stuff` on.
abbrev pub draw : Answers → Output → Turn
draw a o =
    swap o.next a o λ p. set_crtc p.current p.next a.crtc_set p λ q. page_flip q.next a.flipped q

-- FD_ISSET holds if there are events.
abbrev pub input : ℕ → Output → Output
input zero o = o
input (suc n) o = on_drm_input o

abbrev pub on_select : Select → Answers → Output → Turn
on_select interrupted a o = goes_on o
on_select select_failed a o = leaves o
on_select fine a o = draw a (complete a.late (input o.events o))

-- The body of the `for` loop.
unfoldable pub round : Answers → Output → Turn
round a o = on_select a.select a (complete a.early o)

abbrev pub on_turn : Turn → (Output → Turn) → Turn
on_turn (goes_on o) k = k o
on_turn (leaves o) k = leaves o
on_turn undefined k = undefined

-- The `for` loop, of which `main` has ten rounds.
unfoldable pub render_loop : List Answers → Output → Turn
unfolding round
render_loop [] o = goes_on o
render_loop (a ∷ more) o = on_turn (round a o) λ p. render_loop more p
