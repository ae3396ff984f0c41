-- ===== src/Gl/Single.antt =====
-- drm-tests/drm_gl_test1a.c: one buffer object, drawn into while it is shown.
use sys_snippets.Common.{
  ◌≡◌, ◌∙◌, Bool, true, not, ◌&&◌, ◌||◌, Option, none, some, if◌then◌else◌, arith,
}
use sys_snippets.Dumb.{Ledger, release, fails, restore, fresh}
use sys_snippets.Gl.Setup.{
  bo, image, fb, hold, sets_ret, Start, unmake_current, start, starts, start_lem, all_chosen,
  no_crtc,
}

pub record Answers : Type 0 where
  pub begin : Start
  pub bo_made : Bool
  pub image_made : Bool
  pub fb_added : Bool
  pub crtc_got : Bool
  pub crtc_set : Bool
  pub mode_valid : Bool
  pub restored : Bool

abbrev pub destroy_gbm_bo : Ledger → Ledger
destroy_gbm_bo l = unmake_current (release (bo 0) l)

abbrev pub rm_fb : Ledger → Ledger
rm_fb l = destroy_gbm_bo (release (image 0) (release (fb 0) l))

-- free_saved_crtc and rm_rb, whose objects are not in the ledger, fall through to rm_fb. none where the
-- frame buffer was not added: rm_rb falls through to drmModeRmFB of an `fb_id` that has no value.
unfoldable pub draw : Answers → Ledger → Option Ledger
draw a l =
    if not a.bo_made
    then some (unmake_current (fails l))
    else if not a.image_made
    then some (destroy_gbm_bo (fails (hold (bo 0) l)))
    else if not a.fb_added
    then none
    else if not a.crtc_got
    then some (rm_fb (sets_ret true (hold (fb 0) (hold (image 0) (hold (bo 0) l)))))
    else if not a.crtc_set
    then some (rm_fb (fails (hold (fb 0) (hold (image 0) (hold (bo 0) l)))))
    else some (
        rm_fb (
          restore a.mode_valid a.restored
            (record (sets_ret true (hold (fb 0) (hold (image 0) (hold (bo 0) l)))) {
              replaced = true;
            })))

unfoldable pub drm_gl_test1a : Answers → Option Ledger
unfolding start draw
drm_gl_test1a a = start (all_chosen a.begin) true (λ l. draw a l)

abbrev pub is_undefined : Answers → Bool
is_undefined a =
    no_crtc (all_chosen a.begin)
    || (starts (all_chosen a.begin) && a.bo_made && a.image_made && not a.fb_added)

abbrev pub adds_fb : Answers → Bool
adds_fb a = starts (all_chosen a.begin) && a.bo_made && a.image_made && a.fb_added

-- The ledger in which it ends.
abbrev pub at_end : Answers → Ledger
at_end a = record fresh {
  replaced = adds_fb a && a.crtc_got && a.crtc_set && not (a.mode_valid && a.restored);
  fine =
      adds_fb a
      && (if a.crtc_got then a.crtc_set && (if a.mode_valid then a.restored else true) else true);
}

-- The behaviour of `drm_gl_test1a` is undefined exactly if the configuration comes without a crtc or
-- drmModeAddFB fails. Else it gives back all that is in the ledger, and nothing that it does not have; it
-- sets its picture on the crtc and not the old one back exactly if drmModeSetCrtc takes the first and not
-- the second, or the old crtc has no mode; and it returns 0 exactly if it comes to drmModeGetCrtc, and then
-- either that fails or the new crtc is set and the old one, if it has a mode, restored.
pub drm_gl_test1a_lem :
    (a : Answers) → drm_gl_test1a a ≡ (if is_undefined a then none else some (at_end a))
unfolding drm_gl_test1a draw
drm_gl_test1a_lem a = start_lem (all_chosen a.begin) true (λ l. draw a l) ∙ ground arith
