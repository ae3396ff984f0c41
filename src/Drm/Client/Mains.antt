-- ===== src/Drm/Client/Mains.antt =====
-- `main` of drm_client_plane.c and drm_client_crtc.c behind the reading of the options: what a client
-- holds when it ends, whichever of its calls fails.
use sys_snippets.Common.{ℕ, List, [], ◌∷◌, Bool, Option, not, if◌then◌else◌}
use sys_snippets.Dumb.{
  card, mapping, frame_buffer, driver, object, Ledger, fresh, acquire, release, fails,
}
use sys_snippets.Dumb.Plane.{has_plane, queries, look_for}
use sys_snippets.Drm.Client.{Client, asked_auth, auth_line}
use sys_snippets.Drm.Client.Talk.{Round, Act, wrote, Talk, first, client_loop}

-- The socket, beside what the programs with a dumb buffer hold.
abbrev pub net : ℕ
net = 9

-- Which calls go through, in the order of the code, what comes on the socket, and the releases of libkms.
pub record Answers : Type 0 where
  pub socket_made : Bool
  pub connected : Bool
  pub opened : Bool
  pub got_magic : Bool
  pub driver_created : Bool
  pub object_created : Bool
  pub got_pitch : Bool
  pub got_handle : Bool
  pub mapped : Bool
  pub fb_added : Bool
  pub auth_sent : Bool
  pub rounds : List Round
  pub unmapped : Bool
  pub object_destroyed : Bool
  pub driver_destroyed : Bool

-- The program returns `ret`, or returns a `ret` that was never assigned, or waits in the loop. Each
-- with what it did for the display.
pub data Ending : Type 0 where
  returned : Ledger → List Act → Ending
  returned_unset : Ledger → Ending
  waiting : Ledger → List Act → Ending

abbrev pub err_close_net : Ledger → Ledger
err_close_net l = release net l

abbrev pub err_close_drm : Ledger → Ledger
err_close_drm l = err_close_net (release card l)

abbrev pub err_driver_destroy : Answers → Ledger → Ledger
err_driver_destroy a l = err_close_drm (record (release driver l) { fine = a.driver_destroyed })

abbrev pub err_buffer_destroy : Answers → Ledger → Ledger
err_buffer_destroy a l =
    err_driver_destroy a (record (release object l) { fine = a.object_destroyed })

abbrev pub err_buffer_unmap : Answers → Ledger → Ledger
err_buffer_unmap a l = err_buffer_destroy a (record (release mapping l) { fine = a.unmapped })

abbrev pub err_fb : Answers → Ledger → Ledger
err_fb a l = err_buffer_unmap a (release frame_buffer l)

-- The loop and what is behind it.
abbrev pub after_loop : Answers → Ledger → Talk → Ending
after_loop a l t = if t.over then returned (err_fb a l) t.acts else waiting l t.acts

-- From drmModeAddFB on.
unfoldable pub converse : Answers → Client → Ledger → Ending
converse a c l =
    if not a.fb_added
    then returned (err_buffer_unmap a (fails l)) []
    else if not a.auth_sent
    then returned (err_buffer_unmap a (fails (acquire frame_buffer l))) []
    else after_loop a (acquire frame_buffer l)
        (first (wrote (auth_line c.magic) ∷ []) (client_loop c asked_auth a.rounds))

-- From `kms_create` on.
unfoldable pub create : Answers → Client → Ledger → Ending
unfolding converse
create a c l =
    if not a.driver_created
    then returned (err_close_drm (fails l)) []
    else if not a.object_created
    then returned (err_driver_destroy a (fails (acquire driver l))) []
    else if not a.got_pitch
    then returned (err_buffer_destroy a (fails (acquire object (acquire driver l)))) []
    else if not a.got_handle
    then returned (err_buffer_destroy a (fails (acquire object (acquire driver l)))) []
    else if not a.mapped
    then returned (err_buffer_destroy a (fails (acquire object (acquire driver l)))) []
    else converse a c (acquire mapping (acquire object (acquire driver l)))

-- From `socket` to drmGetMagic, the same in both; `go` is what follows.
unfoldable pub connect : Answers → (Ledger → Ending) → Ending
connect a go =
    if not a.socket_made
    then returned (fails fresh) []
    else if not a.connected
    then returned (err_close_net (fails (acquire net fresh))) []
    else if not a.opened
    then returned_unset (err_close_net (acquire net fresh))
    else if not a.got_magic
    then returned (err_close_drm (fails (acquire card (acquire net fresh)))) []
    else go (acquire card (acquire net fresh))

-- drm_client_plane.c, with the answer of drmModeGetPlaneResources as in drm_dumb_bo_plane.c.
unfoldable pub drm_client_plane : Answers → ℕ → Option (List (Option ℕ)) → Client → Ending
unfolding connect create has_plane queries
drm_client_plane a plane_id planes c = connect a λ l.
    if has_plane plane_id planes
    then create a c (look_for plane_id planes l)
    else returned (err_close_drm (fails (look_for plane_id planes l))) []

-- drm_client_crtc.c; without a mode `ret` is still that of drmGetMagic.
unfoldable pub drm_client_crtc : Answers → Bool → Client → Ending
unfolding connect create
drm_client_crtc a mode_found c =
    connect a λ l. if mode_found then create a c l else returned (err_close_drm l) []
