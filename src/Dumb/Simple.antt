-- ===== src/Dumb/Simple.antt =====
-- drm-tests/drm_dumb_bo.c
use sys_snippets.Common.{◌≡◌, [], ◌∷◌, Bool, true, not, ◌&&◌, if◌then◌else◌, arith}
use sys_snippets.Dumb.{
  card, dumb, mapping, frame_buffer, Ledger, fresh, acquire, release, fails, restore,
}

-- Which calls and checks go through, in the order of the code; `destroyed` is
-- DRM_IOCTL_MODE_DESTROY_DUMB. The configuration, if there is one, is taken to come with a crtc.
pub record Answers : Type 0 where
  pub opened : Bool
  pub configured : Bool
  pub got_cap : Bool
  pub has_dumb : Bool
  pub created : Bool
  pub map_ready : Bool
  pub mapped : Bool
  pub fb_added : Bool
  pub crtc_got : Bool
  pub crtc_set : Bool
  pub mode_valid : Bool
  pub restored : Bool
  pub destroyed : Bool

abbrev pub err_close : Ledger → Ledger
err_close l = release card l

abbrev pub err_destroy : Answers → Ledger → Ledger
err_destroy a l = err_close (record (release dumb l) { fine = a.destroyed })

abbrev pub err_fb : Answers → Ledger → Ledger
err_fb a l = err_destroy a (release frame_buffer l)

abbrev pub err_unmap : Answers → Ledger → Ledger
err_unmap a l = err_fb a (release mapping l)

-- From drmModeAddFB on.
unfoldable pub show : Answers → Ledger → Ledger
show a l =
    if not a.fb_added
    then err_destroy a (fails l)
    else if not a.crtc_got
    then err_unmap a (acquire frame_buffer l)
    else if not a.crtc_set
    then err_unmap a (fails (acquire frame_buffer l))
    else err_unmap a
        (restore a.mode_valid a.restored (record (acquire frame_buffer l) { replaced = true }))

unfoldable pub drm_dumb_bo : Answers → Ledger
unfolding show
drm_dumb_bo a =
    if not a.opened
    then fails fresh
    else if not a.configured
    then err_close (fails (acquire card fresh))
    else if not a.got_cap
    then err_close (fails (acquire card fresh))
    else if not a.has_dumb
    then err_close (fails (acquire card fresh))
    else if not a.created
    then err_close (fails (acquire card fresh))
    else if not a.map_ready
    then err_fb a (fails (acquire dumb (acquire card fresh)))
    else if not a.mapped
    then err_fb a (fails (acquire dumb (acquire card fresh)))
    else show a (acquire mapping (acquire dumb (acquire card fresh)))

-- The dumb buffer is made.
abbrev pub reaches_dumb : Answers → Bool
reaches_dumb a = a.opened && a.configured && a.got_cap && a.has_dumb && a.created

-- `drm_dumb_bo` gives all that is in the ledger back but for the mapping, which it keeps exactly if drmModeAddFB
-- fails. It removes a frame buffer that it does not have exactly if the dumb buffer cannot be mapped. It
-- does not set the old picture back exactly if its own was set and the old crtc is not restored. Once the
-- dumb buffer is made, `ret` at the end tells only whether that was destroyed.
pub drm_dumb_bo_lem :
    (a : Answers)
    → ((drm_dumb_bo a).held ≡ (
        if reaches_dumb a && a.map_ready && a.mapped && not a.fb_added then mapping ∷ [] else []))
      × ((drm_dumb_bo a).stray
          ≡ (if reaches_dumb a && not (a.map_ready && a.mapped) then frame_buffer ∷ [] else []))
      × ((drm_dumb_bo a).replaced ≡ (
          reaches_dumb a
          && a.map_ready
          && a.mapped
          && a.fb_added
          && a.crtc_got
          && a.crtc_set
          && not (a.mode_valid && a.restored)))
      × ((drm_dumb_bo a).fine ≡ (reaches_dumb a && a.destroyed))
unfolding drm_dumb_bo show
drm_dumb_bo_lem a = ground arith
