-- ===== src/Gl/Double.antt =====
-- drm-tests/drm_gl_test1b.c: two buffer objects, shown in turn.
use sys_snippets.Common.{
  ℕ, List, [], ◌∷◌, ◌++◌, Bool, true, not, ◌&&◌, ◌||◌, Option, none, some, if◌then◌else◌,
}
use sys_snippets.Dumb.{Ledger, release, fails, fresh}
use sys_snippets.Gl.Setup.{
  bo, image, fb, hold, sets_ret, Start, unmake_current, start, starts, ready, no_crtc, all_chosen,
}

-- What is made for a buffer object.
pub record Buffer : Type 0 where
  pub bo_made : Bool
  pub image_made : Bool
  pub fb_added : Bool

pub record Answers : Type 0 where
  pub begin : Start
  pub first : Buffer
  pub second : Buffer
  pub crtc_got : Bool
  pub crtc_set : Bool
  pub restored : Bool

abbrev pub destroy_gbm_bo : Ledger → Ledger
destroy_gbm_bo l = unmake_current (release (bo 1) (release (bo 0) l))

abbrev pub rm_fb : Ledger → Ledger
rm_fb l = destroy_gbm_bo (release (image 1) (release (image 0) (release (fb 1) (release (fb 0) l))))

-- The test of the image compares the array `image` with EGL_NO_IMAGE_KHR, and is never true.
abbrev pub with_image : ℕ → Bool → Ledger → Ledger
with_image i image_made l = if image_made then hold (image i) l else l

-- The body of the `for` loop; `go` is what follows. none where drmModeAddFB fails: the labels from rm_rb on
-- release what has no value yet, `fb_id[i]`, and in the first turn the second image and buffer object too.
abbrev pub make_buffer : ℕ → Buffer → (Ledger → Option Ledger) → Ledger → Option Ledger
make_buffer i b go l =
    if not b.bo_made
    then some (unmake_current (fails l))
    else if not b.fb_added
    then none
    else go (sets_ret true (hold (fb i) (with_image i b.image_made (hold (bo i) l))))

-- From drmModeGetCrtc on. The flips of the loop may fail, which the code only reports; free_saved_crtc and
-- rm_rb, whose objects are not in the ledger, fall through to rm_fb.
unfoldable pub show : Answers → Ledger → Ledger
show a l =
    if not a.crtc_got
    then rm_fb l
    else if not a.crtc_set
    then rm_fb (fails l)
    else rm_fb (record (sets_ret a.restored l) { replaced = not a.restored })

unfoldable pub draw : Answers → Ledger → Option Ledger
unfolding show
draw a l = make_buffer 0 a.first (λ m. make_buffer 1 a.second (λ n. some (show a n)) m) l

unfoldable pub drm_gl_test1b : Answers → Option Ledger
unfolding draw start
drm_gl_test1b a = start (all_chosen a.begin) true (λ l. draw a l)

-- The first buffer object has its frame buffer.
abbrev pub has_first : Answers → Bool
has_first a = a.first.bo_made && a.first.fb_added

abbrev pub has_both : Answers → Bool
has_both a = has_first a && a.second.bo_made && a.second.fb_added

-- The first or the second drmModeAddFB fails.
abbrev pub fb_fails : Answers → Bool
fb_fails a =
    (a.first.bo_made && not a.first.fb_added)
    || (has_first a && a.second.bo_made && not a.second.fb_added)

-- The configuration comes without a crtc, or a drmModeAddFB fails.
abbrev pub is_undefined : Answers → Bool
is_undefined a = no_crtc (all_chosen a.begin) || (starts (all_chosen a.begin) && fb_fails a)

-- The images that were not made, which it destroys all the same.
abbrev pub no_images : Bool → Bool → List ℕ
no_images first second =
    (if second then [] else image 1 ∷ []) ++ (if first then [] else image 0 ∷ [])

-- The ledger in which it ends, by whether the set-up goes through.
abbrev pub drawn : Answers → Ledger
drawn a = record fresh {
  held = if has_first a && not a.second.bo_made then fb 0 ∷ bo 0 ∷ [] else [];
  stray = if has_both a then no_images a.first.image_made a.second.image_made else [];
  replaced = has_both a && a.crtc_got && a.crtc_set && not a.restored;
  fine = has_both a && (not a.crtc_got || (a.crtc_set && a.restored));
}

abbrev pub at_end : Answers → Ledger
at_end a = if starts (all_chosen a.begin) then drawn a else fails fresh

-- With both frame buffers, by which images were made.
abbrev both_made : Bool → Bool → Ledger
both_made first second = sets_ret true (
    hold (fb 1) (
      with_image 1 second (
        hold (bo 1) (sets_ret true (hold (fb 0) (with_image 0 first (hold (bo 0) (ready true))))))))

abbrev shown : Answers → Bool → Bool → Ledger
shown a first second = record fresh {
  stray = no_images first second;
  replaced = a.crtc_got && a.crtc_set && not a.restored;
  fine = not a.crtc_got || (a.crtc_set && a.restored);
}
