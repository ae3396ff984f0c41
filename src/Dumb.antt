-- ===== src/Dumb.antt =====
-- The programs of drm-tests that show a picture in a dumb buffer: what each holds and which picture it
-- set when it ends, whichever of its calls fails. The calls of libdrm and libkms are arguments.
use sys_snippets.Common.{ℕ, List, [], ◌∷◌, Bool, true, false, erase, ◌==◌, if◌then◌else◌}
pub mod Simple
pub mod Libkms
pub mod Plane
pub mod Mult
mod Tests

-- What a program can hold: the card's file, a dumb buffer, its mapping, a frame buffer, the driver of
-- libkms, a buffer object of libkms and its mapping, and the last three once more for a plane.
abbrev pub card : ℕ
card = 0

abbrev pub dumb : ℕ
dumb = 1

abbrev pub mapping : ℕ
mapping = 2

abbrev pub frame_buffer : ℕ
frame_buffer = 3

abbrev pub driver : ℕ
driver = 4

abbrev pub object : ℕ
object = 5

abbrev pub plane_object : ℕ
plane_object = 6

abbrev pub plane_mapping : ℕ
plane_mapping = 7

abbrev pub plane_buffer : ℕ
plane_buffer = 8

-- `held` is newest first; `stray` are releases of what was not held; `fine` says that `ret` is 0. `replaced`
-- says that drmModeSetCrtc gave the crtc the program's frame buffer and has not set the old picture back,
-- `plane` that drmModeSetPlane put a frame buffer on the plane and has not taken it away: they are about
-- these calls, not about the screen (the kernel turns a crtc or a plane off when its frame buffer is
-- removed). `queried` counts the plane resources and the planes that libdrm has allocated for the search for
-- a plane. The other objects that libdrm allocates for queries (resources, connectors, encoders, crtcs)
-- are not in the ledger; the programs keep many of them to the end.
pub record Ledger : Type 0 where
  pub held : List ℕ
  pub stray : List ℕ
  pub fine : Bool
  pub replaced : Bool
  pub plane : Bool
  pub queried : ℕ

abbrev pub fresh : Ledger
fresh = record { held = []; stray = []; fine = true; replaced = false; plane = false; queried = 0 }

abbrev pub has : ℕ → List ℕ → Bool
has r [] = false
has r (x ∷ xs) = if r == x then true else has r xs

abbrev pub acquire : ℕ → Ledger → Ledger
acquire r l = record l { held = r ∷ l.held; fine = true }

abbrev pub release : ℕ → Ledger → Ledger
release r l = record l {
  held = erase r l.held;
  stray = if has r l.held then l.stray else r ∷ l.stray;
}

-- A failed call or check, which sets `ret`.
abbrev pub fails : Ledger → Ledger
fails l = record l { fine = false }

-- `if (saved_crtc->mode_valid)` with its drmModeSetCrtc.
abbrev pub restore : Bool → Bool → Ledger → Ledger
restore mode_valid restored l =
    if mode_valid
    then record l { fine = restored; replaced = if restored then false else l.replaced }
    else l
