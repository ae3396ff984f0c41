-- ===== src/Dumb/Libkms.antt =====
-- drm-tests/drm_dumb_bo_libkms.c
use sys_snippets.Common.{◌≡◌, [], ◌∷◌, Bool, true, not, ◌&&◌, if◌then◌else◌, arith}
use sys_snippets.Dumb.{
  card, mapping, frame_buffer, driver, object, Ledger, fresh, acquire, release, fails, restore,
}

-- Which calls go through, in the order of the code; the last three are the releases of libkms. The
-- configuration, if there is one, is taken to come with a crtc.
pub record Answers : Type 0 where
  pub opened : Bool
  pub configured : Bool
  pub driver_created : Bool
  pub object_created : Bool
  pub got_pitch : Bool
  pub got_handle : Bool
  pub mapped : Bool
  pub fb_added : Bool
  pub crtc_got : Bool
  pub crtc_set : Bool
  pub mode_valid : Bool
  pub restored : Bool
  pub unmapped : Bool
  pub object_destroyed : Bool
  pub driver_destroyed : Bool

abbrev pub err_close : Ledger → Ledger
err_close l = release card l

abbrev pub err_driver_destroy : Answers → Ledger → Ledger
err_driver_destroy a l = err_close (record (release driver l) { fine = a.driver_destroyed })

abbrev pub err_buffer_destroy : Answers → Ledger → Ledger
err_buffer_destroy a l =
    err_driver_destroy a (record (release object l) { fine = a.object_destroyed })

abbrev pub err_buffer_unmap : Answers → Ledger → Ledger
err_buffer_unmap a l = err_buffer_destroy a (record (release mapping l) { fine = a.unmapped })

-- From drmModeAddFB on.
unfoldable pub show : Answers → Ledger → Ledger
show a l =
    if not a.fb_added
    then err_buffer_unmap a (fails l)
    else if not a.crtc_got
    then err_buffer_unmap a (acquire frame_buffer l)
    else if not a.crtc_set
    then err_buffer_unmap a (fails (acquire frame_buffer l))
    else err_buffer_unmap a (
        release frame_buffer
          (restore a.mode_valid a.restored (record (acquire frame_buffer l) { replaced = true })))

-- From `kms_create` on.
unfoldable pub create : Answers → Ledger → Ledger
unfolding show
create a l =
    if not a.driver_created
    then err_close (fails l)
    else if not a.object_created
    then err_driver_destroy a (fails (acquire driver l))
    else if not a.got_pitch
    then err_buffer_destroy a (fails (acquire object (acquire driver l)))
    else if not a.got_handle
    then err_buffer_destroy a (fails (acquire object (acquire driver l)))
    else if not a.mapped
    then err_buffer_destroy a (fails (acquire object (acquire driver l)))
    else show a (acquire mapping (acquire object (acquire driver l)))

unfoldable pub drm_dumb_bo_libkms : Answers → Ledger
unfolding create
drm_dumb_bo_libkms a =
    if not a.opened
    then fails fresh
    else if not a.configured
    then err_close (fails (acquire card fresh))
    else create a (acquire card fresh)

abbrev pub reaches_fb : Answers → Bool
reaches_fb a =
    a.opened && a.configured && a.driver_created && a.object_created && a.got_pitch && a.got_handle
    && a.mapped && a.fb_added

-- `drm_dumb_bo_libkms` gives all that is in the ledger back, and nothing that it does not have, but for the
-- frame buffer, which it keeps exactly if the crtc cannot be read or set. It does not set the old
-- picture back exactly if its own was set and the old crtc is not restored. Once the driver is made, `ret` at the end
-- tells only whether that was destroyed.
pub drm_dumb_bo_libkms_lem :
    (a : Answers)
    → ((drm_dumb_bo_libkms a).held
        ≡ (if reaches_fb a && not (a.crtc_got && a.crtc_set) then frame_buffer ∷ [] else []))
      × ((drm_dumb_bo_libkms a).stray ≡ [])
      × ((drm_dumb_bo_libkms a).replaced
          ≡ (reaches_fb a && a.crtc_got && a.crtc_set && not (a.mode_valid && a.restored)))
      × ((drm_dumb_bo_libkms a).fine
          ≡ (a.opened && a.configured && a.driver_created && a.driver_destroyed))
unfolding drm_dumb_bo_libkms create show
drm_dumb_bo_libkms_lem a = ground arith
