-- ===== src/Dumb/Mult.antt =====
-- drm-tests/drm_dumb_bo_mult.c, from the opening of the card on: a picture on a crtc and one on a plane.
use sys_snippets.Common.{ℕ, List, Bool, true, Option, not, ◌&&◌, if◌then◌else◌}
use sys_snippets.Dumb.{
  card, mapping, frame_buffer, driver, object, plane_object, plane_mapping, plane_buffer, Ledger,
  fresh, acquire, release, fails, restore,
}
use sys_snippets.Dumb.Plane.{has_plane, queries, look_for}

-- Which calls of the first picture go through, in the order of the code, and the releases. `ret` has
-- no value before `kms_create`: `garbage` says whether it is 0.
pub record Answers : Type 0 where
  pub garbage : Bool
  pub opened : Bool
  pub driver_created : Bool
  pub mode_found : Bool
  pub object_created : Bool
  pub got_pitch : Bool
  pub got_handle : Bool
  pub mapped : Bool
  pub fb_added : Bool
  pub crtc_got : Bool
  pub crtc_set : Bool
  pub mode_valid : Bool
  pub restored : Bool
  pub unmapped : Bool
  pub object_destroyed : Bool
  pub driver_destroyed : Bool

-- The same of the second picture; `planes` as for drm_dumb_bo_plane.c.
pub record PlaneAnswers : Type 0 where
  pub planes : Option (List (Option ℕ))
  pub created : Bool
  pub got_pitch : Bool
  pub got_handle : Bool
  pub mapped : Bool
  pub fb_added : Bool
  pub plane_set : Bool
  pub plane_unset : Bool
  pub unmapped : Bool
  pub destroyed : Bool

abbrev pub err_close_drm : Ledger → Ledger
err_close_drm l = release card l

abbrev pub err_driver_destroy : Answers → Ledger → Ledger
err_driver_destroy a l = err_close_drm (record (release driver l) { fine = a.driver_destroyed })

abbrev pub err_crtc_buffer_destroy : Answers → Ledger → Ledger
err_crtc_buffer_destroy a l =
    err_driver_destroy a (record (release object l) { fine = a.object_destroyed })

abbrev pub err_crtc_buffer_unmap : Answers → Ledger → Ledger
err_crtc_buffer_unmap a l =
    err_crtc_buffer_destroy a (record (release mapping l) { fine = a.unmapped })

abbrev pub err_crtc_rm_fb : Answers → Ledger → Ledger
err_crtc_rm_fb a l = err_crtc_buffer_unmap a (release frame_buffer l)

abbrev pub err_crtc_exit : Answers → Ledger → Ledger
err_crtc_exit a l = err_crtc_rm_fb a (restore a.mode_valid a.restored l)

-- The labels of the plane, down to `err_crtc_exit`.
abbrev pub err_plane_buffer_destroy : PlaneAnswers → Ledger → Ledger
err_plane_buffer_destroy b l = record (release plane_object l) { fine = b.destroyed }

abbrev pub err_plane_buffer_unmap : PlaneAnswers → Ledger → Ledger
err_plane_buffer_unmap b l =
    err_plane_buffer_destroy b (record (release plane_mapping l) { fine = b.unmapped })

abbrev pub err_plane_rm_fb : PlaneAnswers → Ledger → Ledger
err_plane_rm_fb b l = err_plane_buffer_unmap b (release plane_buffer l)

-- From the search for the plane to `err_crtc_exit`.
unfoldable pub show_plane : ℕ → PlaneAnswers → Ledger → Ledger
unfolding has_plane queries
show_plane plane_id b before =
    let l = look_for plane_id b.planes before in
    if not (has_plane plane_id b.planes)
    then fails l
    else if not b.created
    then fails l
    else if not b.got_pitch
    then err_plane_buffer_destroy b (fails (acquire plane_object l))
    else if not b.got_handle
    then err_plane_buffer_destroy b (fails (acquire plane_object l))
    else if not b.mapped
    then err_plane_buffer_destroy b (fails (acquire plane_object l))
    else if not b.fb_added
    then err_plane_buffer_unmap b (fails (acquire plane_mapping (acquire plane_object l)))
    else if not b.plane_set
    then err_plane_rm_fb b
        (fails (acquire plane_buffer (acquire plane_mapping (acquire plane_object l))))
    else err_plane_rm_fb b
        (record (acquire plane_buffer (acquire plane_mapping (acquire plane_object l))) {
          plane = not b.plane_unset;
        })

-- From drmModeGetCrtc on.
unfoldable pub show : ℕ → Answers → PlaneAnswers → Ledger → Ledger
unfolding show_plane
show plane_id a b l =
    if not a.crtc_got
    then err_crtc_rm_fb a l
    else if not a.crtc_set
    then err_crtc_rm_fb a (fails l)
    else err_crtc_exit a (show_plane plane_id b (record l { replaced = true }))

-- From `drm_get_mode_by_name` on.
unfoldable pub create : ℕ → Answers → PlaneAnswers → Ledger → Ledger
unfolding show
create plane_id a b l =
    if not a.mode_found
    then err_driver_destroy a l
    else if not a.object_created
    then err_driver_destroy a (fails l)
    else if not a.got_pitch
    then err_crtc_buffer_destroy a (fails (acquire object l))
    else if not a.got_handle
    then err_crtc_buffer_destroy a (fails (acquire object l))
    else if not a.mapped
    then err_crtc_buffer_destroy a (fails (acquire object l))
    else if not a.fb_added
    then err_crtc_buffer_unmap a (fails (acquire mapping (acquire object l)))
    else show plane_id a b (acquire frame_buffer (acquire mapping (acquire object l)))

unfoldable pub drm_dumb_bo_mult : ℕ → Answers → PlaneAnswers → Ledger
unfolding create
drm_dumb_bo_mult plane_id a b =
    if not a.opened
    then record fresh { fine = a.garbage }
    else if not a.driver_created
    then err_close_drm (fails (acquire card fresh))
    else create plane_id a b (acquire driver (acquire card fresh))

-- The first picture is set on the crtc.
abbrev pub shows_first : Answers → Bool
shows_first a =
    a.opened && a.driver_created && a.mode_found && a.object_created && a.got_pitch && a.got_handle
    && a.mapped && a.fb_added && a.crtc_got && a.crtc_set

-- The second picture is set on the plane.
abbrev pub shows_second : ℕ → PlaneAnswers → Bool
shows_second plane_id b =
    has_plane plane_id b.planes
    && b.created
    && b.got_pitch
    && b.got_handle
    && b.mapped
    && b.fb_added
    && b.plane_set
