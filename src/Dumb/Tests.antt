-- ===== src/Dumb/Tests.antt =====
-- Runs in which a call fails.
use sys_snippets.Common.{◌≡◌, [], ◌∷◌, true, false, none, some}
use sys_snippets.Dumb.{mapping, frame_buffer}
use sys_snippets.Dumb.Simple
use sys_snippets.Dumb.Libkms
use sys_snippets.Dumb.Plane
use sys_snippets.Dumb.Mult
use sys_snippets.Dumb.Simple.{drm_dumb_bo, drm_dumb_bo_lem}
use sys_snippets.Dumb.Libkms.{drm_dumb_bo_libkms, drm_dumb_bo_libkms_lem}
use sys_snippets.Dumb.Plane.{drm_dumb_bo_plane, drm_dumb_bo_plane_lem}

-- drmModeAddFB fails.
abbrev no_fb : Simple.Answers
no_fb = record {
  opened = true;
  configured = true;
  got_cap = true;
  has_dumb = true;
  created = true;
  map_ready = true;
  mapped = true;
  fb_added = false;
  crtc_got = true;
  crtc_set = true;
  mode_valid = true;
  restored = true;
  destroyed = true;
}

drm_dumb_bo_lem_run :
    ((drm_dumb_bo no_fb).held ≡ mapping ∷ [])
    × ((drm_dumb_bo no_fb).stray ≡ [])
    × ((drm_dumb_bo no_fb).replaced ≡ false)
    × ((drm_dumb_bo no_fb).fine ≡ true)
drm_dumb_bo_lem_run = drm_dumb_bo_lem no_fb

-- drmModeSetCrtc fails.
abbrev no_crtc : Libkms.Answers
no_crtc = record {
  opened = true;
  configured = true;
  driver_created = true;
  object_created = true;
  got_pitch = true;
  got_handle = true;
  mapped = true;
  fb_added = true;
  crtc_got = true;
  crtc_set = false;
  mode_valid = true;
  restored = true;
  unmapped = true;
  object_destroyed = true;
  driver_destroyed = true;
}

drm_dumb_bo_libkms_lem_run :
    ((drm_dumb_bo_libkms no_crtc).held ≡ frame_buffer ∷ [])
    × ((drm_dumb_bo_libkms no_crtc).stray ≡ [])
    × ((drm_dumb_bo_libkms no_crtc).replaced ≡ false)
    × ((drm_dumb_bo_libkms no_crtc).fine ≡ true)
drm_dumb_bo_libkms_lem_run = drm_dumb_bo_libkms_lem no_crtc

-- Every call works but the last drmModeSetPlane.
abbrev stuck_plane : Plane.Answers
stuck_plane = record {
  opened = true;
  got_cap = true;
  has_dumb = true;
  planes = some (none ∷ some 4 ∷ some 7 ∷ []);
  created = true;
  fb_added = true;
  map_ready = true;
  mapped = true;
  plane_set = true;
  plane_unset = false;
  destroyed = true;
}

drm_dumb_bo_plane_lem_run :
    ((drm_dumb_bo_plane 7 stuck_plane).held ≡ [])
    × ((drm_dumb_bo_plane 7 stuck_plane).stray ≡ [])
    × ((drm_dumb_bo_plane 7 stuck_plane).plane ≡ true)
    × ((drm_dumb_bo_plane 7 stuck_plane).fine ≡ true)
    × ((drm_dumb_bo_plane 7 stuck_plane).queried ≡ 3)
unfolding Plane.has_plane Plane.queries
drm_dumb_bo_plane_lem_run = drm_dumb_bo_plane_lem 7 stuck_plane

-- The first picture is shown, and a plane of the id is not there.
abbrev all_fine : Mult.Answers
all_fine = record {
  garbage = false;
  opened = true;
  driver_created = true;
  mode_found = true;
  object_created = true;
  got_pitch = true;
  got_handle = true;
  mapped = true;
  fb_added = true;
  crtc_got = true;
  crtc_set = true;
  mode_valid = true;
  restored = true;
  unmapped = true;
  object_destroyed = true;
  driver_destroyed = true;
}

abbrev second : Mult.PlaneAnswers
second = record {
  planes = some (some 4 ∷ []);
  created = true;
  got_pitch = true;
  got_handle = true;
  mapped = true;
  fb_added = true;
  plane_set = true;
  plane_unset = true;
  unmapped = true;
  destroyed = true;
}
