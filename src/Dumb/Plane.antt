-- ===== src/Dumb/Plane.antt =====
-- drm-tests/drm_dumb_bo_plane.c, from the opening of the card on.
use sys_snippets.Common.{
  ℕ, suc, ◌+◌, ◌≡◌, List, [], ◌∷◌, Bool, true, false, Option, none, some, not, ◌&&◌, ◌==◌,
  if◌then◌else◌, arith,
}
use sys_snippets.Dumb.{card, dumb, mapping, frame_buffer, Ledger, fresh, acquire, release, fails}

-- Which calls and checks go through, in the order of the code. `planes` is the answer of
-- drmModeGetPlaneResources: none for NULL, else what drmModeGetPlane answers for each of its planes (`none`
-- for NULL, else the `plane_id`).
pub record Answers : Type 0 where
  pub opened : Bool
  pub got_cap : Bool
  pub has_dumb : Bool
  pub planes : Option (List (Option ℕ))
  pub created : Bool
  pub fb_added : Bool
  pub map_ready : Bool
  pub mapped : Bool
  pub plane_set : Bool
  pub plane_unset : Bool
  pub destroyed : Bool

-- The loop over the planes leaves a `plane`.
unfoldable pub find_plane : ℕ → List (Option ℕ) → Bool
find_plane plane_id [] = false
find_plane plane_id (none ∷ ps) = find_plane plane_id ps
find_plane plane_id (some p ∷ ps) =
    let rest = find_plane plane_id ps in if p == plane_id then true else rest

-- How many planes that loop fetches. Its drmModeFreePlane frees `plane`, which is NULL there, so that they
-- all stay.
unfoldable pub fetched : ℕ → List (Option ℕ) → ℕ
fetched plane_id [] = 0
fetched plane_id (none ∷ ps) = fetched plane_id ps
fetched plane_id (some p ∷ ps) =
    let rest = fetched plane_id ps in if p == plane_id then 1 else suc rest

unfoldable pub has_plane : ℕ → Option (List (Option ℕ)) → Bool
unfolding find_plane
has_plane plane_id none = false
has_plane plane_id (some ps) = find_plane plane_id ps

-- The resources, if there are any, and the planes that are fetched.
unfoldable pub queries : ℕ → Option (List (Option ℕ)) → ℕ
unfolding fetched
queries plane_id none = 0
queries plane_id (some ps) = suc (fetched plane_id ps)

-- The search for the plane; neither the resources nor a plane is ever freed.
abbrev pub look_for : ℕ → Option (List (Option ℕ)) → Ledger → Ledger
look_for plane_id planes l = record l { queried = l.queried + queries plane_id planes }

abbrev pub err_close : Ledger → Ledger
err_close l = release card l

abbrev pub err_destroy_dumb : Answers → Ledger → Ledger
err_destroy_dumb a l = err_close (record (release dumb l) { fine = a.destroyed })

abbrev pub err_destroy_fb : Answers → Ledger → Ledger
err_destroy_fb a l = err_destroy_dumb a (release frame_buffer l)

abbrev pub err_unmap : Answers → Ledger → Ledger
err_unmap a l = err_destroy_fb a (release mapping l)

-- From DRM_IOCTL_MODE_CREATE_DUMB on.
unfoldable pub show : Answers → Ledger → Ledger
show a l =
    if not a.created
    then err_close (fails l)
    else if not a.fb_added
    then err_destroy_dumb a (fails (acquire dumb l))
    else if not a.map_ready
    then err_destroy_fb a (fails (acquire frame_buffer (acquire dumb l)))
    else if not a.mapped
    then err_destroy_fb a (acquire frame_buffer (acquire dumb l))
    else if not a.plane_set
    then err_unmap a (fails (acquire mapping (acquire frame_buffer (acquire dumb l))))
    else err_unmap a (record (acquire mapping (acquire frame_buffer (acquire dumb l))) {
      plane = not a.plane_unset;
    })

unfoldable pub drm_dumb_bo_plane : ℕ → Answers → Ledger
unfolding has_plane queries show
drm_dumb_bo_plane plane_id a =
    if not a.opened
    then fails fresh
    else if not a.got_cap
    then err_close (fails (acquire card fresh))
    else if not a.has_dumb
    then err_close (fails (acquire card fresh))
    else if not (has_plane plane_id a.planes)
    then err_close (fails (look_for plane_id a.planes (acquire card fresh)))
    else show a (look_for plane_id a.planes (acquire card fresh))

abbrev pub reaches_dumb : ℕ → Answers → Bool
reaches_dumb plane_id a =
    a.opened && a.got_cap && a.has_dumb && has_plane plane_id a.planes && a.created

-- `drm_dumb_bo_plane` gives the card, the dumb buffer, its mapping and its frame buffer back, and nothing
-- that it does not have, whichever call fails; the plane resources and planes that it got it keeps. It
-- does not take the plane away exactly if that was set and the second drmModeSetPlane fails. Once the dumb
-- buffer is made, `ret` at the end tells only whether that was destroyed.
pub drm_dumb_bo_plane_lem :
    (plane_id : ℕ) (a : Answers)
    → ((drm_dumb_bo_plane plane_id a).held ≡ [])
      × ((drm_dumb_bo_plane plane_id a).stray ≡ [])
      × ((drm_dumb_bo_plane plane_id a).plane ≡ (
          reaches_dumb plane_id a
          && a.fb_added
          && a.map_ready
          && a.mapped
          && a.plane_set
          && not a.plane_unset))
      × ((drm_dumb_bo_plane plane_id a).fine ≡ (reaches_dumb plane_id a && a.destroyed))
      × ((drm_dumb_bo_plane plane_id a).queried
          ≡ (if a.opened && a.got_cap && a.has_dumb then queries plane_id a.planes else 0))
unfolding drm_dumb_bo_plane show
drm_dumb_bo_plane_lem plane_id a = ground arith
