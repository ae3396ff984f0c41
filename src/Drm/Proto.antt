-- ===== src/Drm/Proto.antt =====
-- drm-tests/drm_proto.h: the requests of the clients and the answers of the server.
use sys_snippets.Common.{ℕ, List, Option}

abbrev pub cmd_auth : ℕ
cmd_auth = 0

abbrev pub cmd_crtc : ℕ
cmd_crtc = 1

abbrev pub cmd_plane : ℕ
cmd_plane = 2

abbrev pub cmd_crtc_stop : ℕ
cmd_crtc_stop = 3

abbrev pub cmd_plane_stop : ℕ
cmd_plane_stop = 4

abbrev pub drm_ok : ℕ
drm_ok = 0

abbrev pub drm_error : ℕ
drm_error = 1

-- `drmModeCrtc` of libdrm, as far as the server reads it; `mode` is the name of its mode.
pub record Crtc : Type 0 where
  pub crtc_id : ℕ
  pub buffer_id : ℕ
  pub x : ℕ
  pub y : ℕ
  pub mode_valid : ℕ
  pub mode : List ℕ

-- A `drmModeCrtcPtr`: never written, NULL, or a crtc.
pub data CrtcPtr : Type 0 where
  wild : CrtcPtr
  null : CrtcPtr
  to_crtc : Crtc → CrtcPtr

-- `struct drm_client_info`; `mode` is the name of the mode that it points to, if it is not NULL.
pub record Info : Type 0 where
  pub magic : ℕ
  pub saved_crtc : CrtcPtr
  pub current_crtc : CrtcPtr
  pub crtc_id : ℕ
  pub conn_id : ℕ
  pub plane_id : ℕ
  pub w : ℕ
  pub h : ℕ
  pub x : ℕ
  pub y : ℕ
  pub fb : ℕ
  pub mode_name : List ℕ
  pub mode : Option (List ℕ)
