-- ===== src/Drm/Client/Cleanup.antt =====
-- How the clients of drm-tests end.
use sys_snippets.Common.{ℕ, ◌≡◌, List, [], ◌∷◌, Bool, not, ◌&&◌, if◌then◌else◌}
use sys_snippets.Dumb.{card, mapping, frame_buffer, driver, object, Ledger}
use sys_snippets.Dumb.Plane.{queries}
use sys_snippets.Drm.Client.{Client, asked_auth, auth_line}
use sys_snippets.Drm.Client.Talk.{Act, wrote, client_loop}
use sys_snippets.Drm.Client.Mains.{net, Answers, Ending, returned, returned_unset, waiting}

abbrev pub ledger : Ending → Ledger
ledger (returned l acts) = l
ledger (returned_unset l) = l
ledger (waiting l acts) = l

abbrev pub acts_of : Ending → List Act
acts_of (returned l acts) = acts
acts_of (returned_unset l) = []
acts_of (waiting l acts) = acts

-- The exit status, if the program ends.
pub data Exit : Type 0 where
  success failure anything running : Exit

abbrev pub exit_of : Ending → Exit
exit_of (returned l acts) = if l.fine then success else failure
exit_of (returned_unset l) = anything
exit_of (waiting l acts) = running

abbrev pub everything : List ℕ
everything = frame_buffer ∷ mapping ∷ object ∷ driver ∷ card ∷ net ∷ []

-- The calls up to kms_create, and up to drmModeAddFB.
abbrev pub reaches_driver : Bool → Answers → Bool
reaches_driver found a =
    a.socket_made && a.connected && a.opened && a.got_magic && found && a.driver_created

abbrev pub reaches_fb : Bool → Answers → Bool
reaches_fb found a =
    reaches_driver found a
    && a.object_created
    && a.got_pitch
    && a.got_handle
    && a.mapped
    && a.fb_added

abbrev pub stays : Bool → Answers → Client → Bool
stays found a c = reaches_fb found a && a.auth_sent && not (client_loop c asked_auth a.rounds).over

-- What a client does for the display: after the message with its magic, what its loop does.
abbrev pub done : Bool → Answers → Client → List Act
done found a c =
    if reaches_fb found a && a.auth_sent
    then wrote (auth_line c.magic) ∷ (client_loop c asked_auth a.rounds).acts
    else []

-- It gives all of `everything` back, and nothing that it does not have, but for two things: while it waits in its
-- loop it has all, and it keeps the frame buffer exactly if the message with its magic is not sent.
-- `found` says that it has its plane or mode, and `unfound` how it exits if it has not; `queries` counts the
-- plane resources and planes that libdrm gave it, which it keeps.
pub IsTidy : Bool → ℕ → Exit → Answers → Client → Ending → Type 0
IsTidy found queries unfound a c e =
    ((ledger e).held ≡ (
      if stays found a c
      then everything
      else if reaches_fb found a && not a.auth_sent
      then frame_buffer ∷ []
      else []))
    × ((ledger e).stray ≡ [])
    × ((ledger e).queried
        ≡ (if a.socket_made && a.connected && a.opened && a.got_magic then queries else 0))
    × (acts_of e ≡ done found a c)
    × (exit_of e ≡ (
        if not (a.socket_made && a.connected)
        then failure
        else if not a.opened
        then anything
        else if not a.got_magic
        then failure
        else if not found
        then unfound
        else if stays found a c
        then running
        else if a.driver_created && a.driver_destroyed
        then success
        else failure))
