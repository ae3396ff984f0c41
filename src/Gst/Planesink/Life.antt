-- ===== src/Gst/Planesink/Life.antt =====
-- The life of gst/gst-drm/drmplanesink.c: `start`, `setcaps`, frames, `stop`.
use sys_snippets.Common.{
  ℕ, ◌≡◌, List, [], ◌∷◌, ◌++◌, Bool, true, false, not, ◌&&◌, Option, none, some, if◌then◌else◌,
  arith,
}
use sys_snippets.Dumb
use sys_snippets.Dumb.{card, Ledger, acquire}
use sys_snippets.Dumb.Plane.{has_plane, queries}
use sys_snippets.Gst.Drmsink.Copy.{Line, lines}
use sys_snippets.Gst.Drmsink.Pair.{Pair, sink}
use sys_snippets.Gst.Planesink.{
  Planesink, Outcome, bo, frame, fb, ok, error, undefined, open_device, start, Buffer, setcaps,
  setup, stop,
}

-- `stop` comes whether `setcaps` went through or not.
abbrev stopped : Bool → Outcome → Outcome
stopped off (ok s) = stop off s
stopped off (error s) = stop off s
stopped off undefined = undefined

-- A sink that cannot `start` gets neither `setcaps` nor `stop`.
abbrev started : ℕ → ℕ → Buffer → Buffer → Bool → Outcome → Outcome
started width height b0 b1 off (ok s) = stopped off (setcaps width height b0 b1 s)
started width height b0 b1 off (error s) = error s
started width height b0 b1 off undefined = undefined

unfoldable pub life :
    (List ℕ → Bool)
    → Option (List (Option ℕ))
    → Bool
    → ℕ
    → ℕ
    → Buffer
    → Buffer
    → Bool
    → Planesink
    → Outcome
unfolding start setcaps stop
life opens planes driver_created width height b0 b1 off s =
    started width height b0 b1 off (start opens planes driver_created s)

abbrev pub is_made : Buffer → Bool
is_made b = b.created && b.got_pitch && b.got_handle && b.mapped && b.fb_added

-- What is held in the end, none for undefined behaviour.
abbrev pub ledger_of : Outcome → Option Ledger
ledger_of (ok s) = some s.ledger
ledger_of (error s) = some s.ledger
ledger_of undefined = none

-- What `stop` releases of a buffer object that was made but has no frame buffer, newest first.
abbrev pub missing : Buffer → List ℕ
missing b =
    if is_made b
    then []
    else if b.got_pitch && b.got_handle && b.mapped
    then fb 1 ∷ []
    else frame 1 ∷ fb 1 ∷ []

-- The ledger at the end, by whether the card was opened and the sink started.
abbrev pub at_end : Bool → Bool → ℕ → Buffer → Ledger
at_end opened starts queries b1 = record Dumb.fresh {
  held = if opened && not starts then card ∷ [] else [];
  stray = if starts then missing b1 else [];
  queried = if opened then queries else 0;
}

abbrev pub starts : (List ℕ → Bool) → Option (List (Option ℕ)) → Bool → Planesink → Bool
starts opens planes driver_created s =
    open_device opens s.device && has_plane s.plane_id planes && driver_created

-- Whichever call fails between `start` and `stop`: the behaviour of a new sink is undefined exactly if it
-- starts and its first buffer is not made whole or its second buffer object not at all. Else it keeps
-- nothing at the end but the plane resources and the planes that it got, which it never frees, and the
-- card, which it keeps exactly if that was opened and the plane is not there or the driver cannot be made.
-- It releases something that it does not have exactly if it starts and its second buffer object does not get
-- a mapping or a frame buffer.
pub life_lem :
    (opens : List ℕ → Bool) (planes : Option (List (Option ℕ))) (driver_created : Bool)
    (width height : ℕ) (b0 b1 : Buffer) (off : Bool) (s : Planesink)
    → s.sink.enabled ≡ false
    → s.ledger ≡ Dumb.fresh
    → ledger_of (life opens planes driver_created width height b0 b1 off s) ≡ (
        if starts opens planes driver_created s && not (is_made b0 && b1.created)
        then none
        else some (
            at_end
              (open_device opens s.device)
              (starts opens planes driver_created s)
              (queries s.plane_id planes)
              b1))
unfolding life start setcaps setup stop
life_lem opens planes driver_created width height b0 b1 off s off_yet clean = ground arith

-- Both buffers, with the mappings and the frame buffers.
abbrev both_made : Ledger → Ledger
both_made l =
    acquire (fb 1)
      (acquire (frame 1) (acquire (bo 1) (acquire (fb 0) (acquire (frame 0) (acquire (bo 0) l)))))

abbrev pub mapped_plane : ℕ → List Line → List ℕ → Buffer
mapped_plane pitch ls behind = record {
  created = true;
  got_pitch = true;
  got_handle = true;
  mapped = true;
  fb_added = true;
  pitch = pitch;
  bytes = lines ls ++ behind;
}
