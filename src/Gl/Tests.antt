-- ===== src/Gl/Tests.antt =====
-- Runs of the drawing programs.
use sys_snippets.Common.{◌≡◌, refl, List, [], ◌∷◌, true, false, none, some, count, arith}
use sys_snippets.Dumb.{fresh}
use sys_snippets.Gl.Setup.{Start, surface}
use sys_snippets.Gl.Single
use sys_snippets.Gl.Double
use sys_snippets.Gl.Surface
use sys_snippets.Gl.Flips
use sys_snippets.Gl.Flip.{new_output, Answers, leaves, render_loop}
use sys_snippets.Gl.Flip.Owned.{Keeps, render_loop-Keeps}
use sys_snippets.Gl.Flip.Shown.{Safe, IsLocked, render_loop-Safe}
use sys_snippets.Gl.Flip.Early.{good, late_rounds, too_early, released_early}

render_loop-Keeps_example : Keeps (render_loop (late_rounds 1 2 3 7 8 9) new_output)
render_loop-Keeps_example =
    render_loop-Keeps (late_rounds 1 2 3 7 8 9) new_output (refl, (refl, (refl, (refl, tt)))) refl

-- Flips that are done before each `select`.
abbrev prompt_rounds : List Answers
prompt_rounds =
    good false 1 7
    ∷ record (good false 2 8) { early = true }
    ∷ record (good false 1 7) { early = true }
    ∷ []

render_loop-Safe_example :
    Safe (render_loop prompt_rounds new_output) × IsLocked (render_loop prompt_rounds new_output)
render_loop-Safe_example =
    render_loop-Safe prompt_rounds new_output (refl, (refl, (refl, tt))) (refl, (refl, (refl, tt)))
      refl refl

released_early_example :
    (render_loop (late_rounds 1 2 3 7 8 9) new_output ≡ leaves (too_early 1 2 3 7 8 9))
    × (count 1 (too_early 1 2 3 7 8 9).locked ≡ 0)
released_early_example = released_early 1 2 3 7 8 9 (omega arith) (omega arith) (omega arith)

abbrev all_start : Start
all_start = record {
  opened = true;
  configured = true;
  crtc_found = true;
  gbm_made = true;
  display_got = true;
  initialized = true;
  surfaceless = true;
  chosen = true;
  context_made = true;
  made_current = true;
}

-- drmModeAddFB fails.
abbrev no_fb : Single.Answers
no_fb = record {
  begin = all_start;
  bo_made = true;
  image_made = true;
  fb_added = false;
  crtc_got = true;
  crtc_set = true;
  mode_valid = true;
  restored = true;
}

no_fb_undefined : Single.drm_gl_test1a no_fb ≡ none
no_fb_undefined = Single.drm_gl_test1a_lem no_fb

-- The second buffer object cannot be made.
abbrev no_second : Double.Answers
no_second = record {
  begin = all_start;
  first = record { bo_made = true; image_made = true; fb_added = true };
  second = record { bo_made = false; image_made = true; fb_added = true };
  crtc_got = true;
  crtc_set = true;
  restored = true;
}

-- Every call works.
abbrev all_work : Surface.Answers
all_work = record {
  begin = all_start;
  surface_made = true;
  egl_surface_made = true;
  surface_current = true;
  front_locked = true;
  fb_added = true;
  crtc_got = true;
  crtc_set = true;
  restored = true;
}

surface_kept : Surface.drm_gl_test2 all_work ≡ some (record fresh { held = surface ∷ [] })
surface_kept = Surface.drm_gl_test2_lem all_work

abbrev early_run : Flips.Answers
early_run = record {
  begin = all_start;
  surface_made = true;
  egl_surface_made = true;
  surface_current = true;
  crtc_got = true;
  rounds = late_rounds 1 2 3 7 8 9;
  restored = true;
}
