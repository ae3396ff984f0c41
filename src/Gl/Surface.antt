-- ===== src/Gl/Surface.antt =====
-- drm-tests/drm_gl_test2.c: one buffer of a gbm surface.
use sys_snippets.Common.{
  ◌≡◌, ◌∙◌, [], ◌∷◌, Bool, true, false, not, ◌&&◌, ◌||◌, Option, none, some, if◌then◌else◌, arith,
}
use sys_snippets.Dumb.{Ledger, release, fails, fresh}
use sys_snippets.Gl.Setup.{
  bo, fb, surface, egl_surface, hold, sets_ret, Start, unmake_current, start, starts, start_lem,
  no_crtc,
}

pub record Answers : Type 0 where
  pub begin : Start
  pub surface_made : Bool
  pub egl_surface_made : Bool
  pub surface_current : Bool
  pub front_locked : Bool
  pub fb_added : Bool
  pub crtc_got : Bool
  pub crtc_set : Bool
  pub restored : Bool

abbrev pub rm_fb : Ledger → Ledger
rm_fb l = unmake_current (release (fb 0) l)

-- From drmModeAddFB on, which is followed by gbm_surface_release_buffer.
abbrev pub show : Answers → Ledger → Ledger
show a l =
    if not a.fb_added
    then unmake_current (fails l)
    else if not a.crtc_got
    then rm_fb (sets_ret true (hold (fb 0) (release (bo 0) l)))
    else if not a.crtc_set
    then rm_fb (fails (hold (fb 0) (release (bo 0) l)))
    else rm_fb (record (sets_ret a.restored (hold (fb 0) (release (bo 0) l))) {
      replaced = not a.restored;
    })

unfoldable pub draw : Answers → Ledger → Ledger
draw a l =
    if not a.surface_made
    then unmake_current (fails l)
    else if not a.egl_surface_made
    then unmake_current (fails (hold surface l))
    else if not (a.surface_current && a.front_locked)
    then unmake_current (fails (hold egl_surface (hold surface l)))
    else show a (hold (bo 0) (hold egl_surface (hold surface l)))

-- `ret` is `true` behind the configuration; none where that comes without a crtc.
unfoldable pub drm_gl_test2 : Answers → Option Ledger
unfolding draw start
drm_gl_test2 a = start a.begin false (λ l. some (draw a l))

abbrev pub locks : Answers → Bool
locks a =
    starts a.begin && a.surface_made && a.egl_surface_made && a.surface_current && a.front_locked

-- The ledger in which it ends.
abbrev pub at_end : Answers → Ledger
at_end a = record fresh {
  held =
      if locks a && not a.fb_added
      then bo 0 ∷ surface ∷ []
      else if starts a.begin && a.surface_made
      then surface ∷ []
      else [];
  replaced = locks a && a.fb_added && a.crtc_got && a.crtc_set && not a.restored;
  fine = locks a && a.fb_added && (not a.crtc_got || (a.crtc_set && a.restored));
}

-- If the configuration does not come without a crtc, `drm_gl_test2` always keeps its gbm surface, and the
-- buffer that it locked if drmModeAddFB fails, and gives nothing back that it does not have. It sets its
-- picture and not the old one back exactly if the first drmModeSetCrtc is taken and the second is not. It
-- returns 0 exactly if the frame buffer is there, and then either drmModeGetCrtc fails or the new crtc is
-- set and the old one restored.
pub drm_gl_test2_lem :
    (a : Answers) → drm_gl_test2 a ≡ (if no_crtc a.begin then none else some (at_end a))
unfolding drm_gl_test2 draw
drm_gl_test2_lem a = start_lem a.begin false (λ l. some (draw a l)) ∙ ground arith
