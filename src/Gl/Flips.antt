-- ===== src/Gl/Flips.antt =====
-- drm-tests/drm_gl_test3.c as a whole, around the render loop of Gl.Flip.
use sys_snippets.Common.{
  ℕ, zero, suc, List, [], ◌∷◌, Bool, true, false, not, ◌&&◌, Option, none, some, take,
  if◌then◌else◌,
}
use sys_snippets.Dumb.{Ledger, release, fails, fresh}
use sys_snippets.Gl.Setup.{
  surface, egl_surface, hold, sets_ret, Start, unmake_current, start, starts,
}
use sys_snippets.Gl.Flip
use sys_snippets.Gl.Flip.{Turn, goes_on, leaves, undefined, new_output, render_loop}

-- `rounds` has the answers of the loop, of which it takes ten.
pub record Answers : Type 0 where
  pub begin : Start
  pub surface_made : Bool
  pub egl_surface_made : Bool
  pub surface_current : Bool
  pub crtc_got : Bool
  pub rounds : List Flip.Answers
  pub restored : Bool

-- gbm_surface_destroy frees the buffers of the surface, and by drmFbDestroyCallback their frame buffers.
abbrev pub destroy_gbm_surface : Ledger → Ledger
destroy_gbm_surface l = unmake_current (release surface l)

abbrev pub destroy_egl_surface : Ledger → Ledger
destroy_egl_surface l = destroy_gbm_surface (release egl_surface l)

abbrev pub is_shown : Option ℕ → Bool
is_shown none = false
is_shown (some bo) = true

-- Whether drmModeSetCrtc or a page flip was taken in the loop, or whether `drm_fb` was lost there.
abbrev pub pictured : Turn → Bool
pictured (goes_on o) = is_shown o.shown
pictured (leaves o) = is_shown o.shown
pictured undefined = false

abbrev pub is_lost : ℕ → Bool
is_lost zero = false
is_lost (suc n) = true

-- A DrmFb without a frame buffer was lost; the loop ends with the first.
abbrev pub loses_fb : Turn → Bool
loses_fb (goes_on o) = is_lost o.leaked
loses_fb (leaves o) = is_lost o.leaked
loses_fb undefined = false

abbrev pub follows_null : Turn → Bool
follows_null (goes_on o) = false
follows_null (leaves o) = false
follows_null undefined = true

abbrev pub loop : Answers → Turn
loop a = render_loop (take 10 a.rounds) new_output

-- A DrmFb of which drmModeAddFB failed.
abbrev pub drm_fb : ℕ
drm_fb = 45

abbrev pub with_lost : Bool → Ledger → Ledger
with_lost lost l = if lost then hold drm_fb l else l

-- Behind the loop.
abbrev pub restore_crtc : Answers → Ledger → Ledger
restore_crtc a l = destroy_egl_surface (
    with_lost (loses_fb (loop a))
      (record (sets_ret a.restored l) { replaced = pictured (loop a) && not a.restored }))

-- When drmModeGetCrtc fails, `ret` is still `true` from the configuration. none where the loop follows NULL.
unfoldable pub draw : Answers → Ledger → Option Ledger
draw a l =
    if not a.surface_made
    then some (unmake_current (fails l))
    else if not a.egl_surface_made
    then some (destroy_gbm_surface (fails (hold surface l)))
    else if not a.surface_current
    then some (destroy_egl_surface (fails (hold egl_surface (hold surface l))))
    else if not a.crtc_got
    then some (destroy_egl_surface (hold egl_surface (hold surface l)))
    else if follows_null (loop a)
    then none
    else some (restore_crtc a (hold egl_surface (hold surface l)))

abbrev pub reaches_loop : Answers → Bool
reaches_loop a =
    starts a.begin && a.surface_made && a.egl_surface_made && a.surface_current && a.crtc_got

unfoldable pub drm_gl_test3 : Answers → Option Ledger
unfolding draw start
drm_gl_test3 a = start a.begin false (λ l. draw a l)

-- The ledger in which it ends.
abbrev pub at_end : Answers → Ledger
at_end a = record fresh {
  held = if reaches_loop a && loses_fb (loop a) then drm_fb ∷ [] else [];
  fine = reaches_loop a && a.restored;
  replaced = reaches_loop a && pictured (loop a) && not a.restored;
}
