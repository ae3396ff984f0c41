-- ===== src/Gst/Planesink/Tests.antt =====
-- A plane of one pixel in two rows, and a sink whose second buffer cannot be made.
use sys_snippets.Common.{ℕ, ◌≡◌, refl, List, [], ◌∷◌, Bool, true, false, none, some}
use sys_snippets.Dumb
use sys_snippets.Gst.Drmsink.Copy.{Line}
use sys_snippets.Gst.Drmsink.Pair.{Pair, Shot, sink}
use sys_snippets.Gst.Planesink.{Planesink, error, Buffer, frame, fb, start}
use sys_snippets.Gst.Planesink.Life.{life, ledger_of, life_lem, mapped_plane}

abbrev new_plane : Planesink
new_plane = record {
  sink = record {
    enabled = false;
    frame = none;
    stride = [];
    current = 0;
    width = 0;
    height = 0;
    screen = none;
    saved = true;
  };
  device = some (47 ∷ []);
  plane_id = 3;
  crtc_id = 7;
  posx = 10;
  posy = 20;
  ledger = Dumb.fresh;
  calls = [];
}

abbrev blank : List Line
blank = (0 ∷ 0 ∷ 0 ∷ 0 ∷ [], 0 ∷ 0 ∷ []) ∷ (0 ∷ 0 ∷ 0 ∷ 0 ∷ [], 0 ∷ 0 ∷ []) ∷ []

abbrev rows : ℕ → List (List ℕ)
rows n = (n ∷ n ∷ n ∷ n ∷ []) ∷ (n ∷ n ∷ n ∷ 0 ∷ []) ∷ []

abbrev taken : Shot
taken = record { rows = rows 1; extra = 9 ∷ []; works = true }

abbrev refused : Shot
refused = record { rows = rows 2; extra = []; works = false }

abbrev unmapped : Buffer
unmapped = record (mapped_plane 6 blank []) { mapped = false }

abbrev always : List ℕ → Bool
always name = true

-- `stop` removes and unmaps what the second buffer does not have.
life_lem_example :
    ledger_of
      (life always (some (some 3 ∷ [])) true 1 2 (mapped_plane 6 blank []) unmapped true new_plane)
    ≡ some (record Dumb.fresh { stray = frame 1 ∷ fb 1 ∷ []; queried = 2 })
unfolding sys_snippets.Dumb.Plane.has_plane sys_snippets.Dumb.Plane.queries
life_lem_example =
    life_lem always (some (some 3 ∷ [])) true 1 2 (mapped_plane 6 blank []) unmapped true new_plane
      refl refl

-- Without a "device" property the default is not used.
no_device :
    start always (some (some 3 ∷ [])) true (record new_plane { device = none })
    ≡ error (record new_plane { device = none })
unfolding start
no_device = refl
