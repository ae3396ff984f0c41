-- ===== src/Gl/Setup.antt =====
-- The set-up that the programs drm_gl_test*.c of drm-tests share, and the labels that undo it. A `Ledger`
-- says what a program holds and whether it replaced the picture of the crtc; the OpenGL objects of a
-- context die with it.
use sys_snippets.Common.{
  ℕ, ◌+◌, ◌≡◌, ◌∷◌, Bool, true, not, ◌&&◌, Option, none, some, erase, if◌then◌else◌, arith,
}
use sys_snippets.Dumb.{card, Ledger, fresh, release, fails}

-- What a program can hold beside the card: the gbm device, the initialized display, the context, one or
-- two buffer objects with their EGL images and frame buffers, a gbm surface and its EGL surface.
abbrev pub gbm : ℕ
gbm = 40

abbrev pub display : ℕ
display = 41

abbrev pub context : ℕ
context = 42

abbrev pub bo : ℕ → ℕ
bo i = 50 + i

abbrev pub image : ℕ → ℕ
image i = 60 + i

abbrev pub fb : ℕ → ℕ
fb i = 70 + i

abbrev pub surface : ℕ
surface = 43

abbrev pub egl_surface : ℕ
egl_surface = 44

-- A call that does not touch `ret` makes something.
abbrev pub hold : ℕ → Ledger → Ledger
hold r l = record l { held = r ∷ l.held }

abbrev pub sets_ret : Bool → Ledger → Ledger
sets_ret fine l = record l { fine = fine }

-- Which calls of the set-up go through. `configured` is the answer of drm_utils.c, and `crtc_found` says
-- that it came with a crtc: drm_autoconf also returns true without one. `chosen` is eglChooseConfig, which
-- the first two programs do not call.
pub record Start : Type 0 where
  pub opened : Bool
  pub configured : Bool
  pub crtc_found : Bool
  pub gbm_made : Bool
  pub display_got : Bool
  pub initialized : Bool
  pub surfaceless : Bool
  pub chosen : Bool
  pub context_made : Bool
  pub made_current : Bool

abbrev pub close_fd : Ledger → Ledger
close_fd l = release card l

abbrev pub destroy_gbm_device : Ledger → Ledger
destroy_gbm_device l = close_fd (release gbm l)

-- eglTerminate, which also frees the images and surfaces of the display, and has no effect on one that is
-- not initialized.
abbrev pub egl_terminate : Ledger → Ledger
egl_terminate l = destroy_gbm_device (record l {
  held = erase (image 1) (erase (image 0) (erase egl_surface (erase display l.held)));
})

abbrev pub destroy_context : Ledger → Ledger
destroy_context l = egl_terminate (release context l)

-- With eglMakeCurrent of nothing.
abbrev pub unmake_current : Ledger → Ledger
unmake_current l = destroy_context l

-- From `open` to eglMakeCurrent. `ret` says whether it is 0 behind the configuration of the display; `go`
-- is what follows. none where dump_drm_configuration follows a crtc that is NULL.
unfoldable pub start : Start → Bool → (Ledger → Option Ledger) → Option Ledger
start a ret go =
    if not a.opened
    then some (fails fresh)
    else if not a.configured
    then some (close_fd (fails (hold card fresh)))
    else if not a.crtc_found
    then none
    else if not a.gbm_made
    then some (close_fd (fails (hold card (sets_ret ret fresh))))
    else if not a.display_got
    then some (destroy_gbm_device (fails (hold gbm (hold card (sets_ret ret fresh)))))
    else if not a.initialized
    then some (egl_terminate (fails (hold gbm (hold card (sets_ret ret fresh)))))
    else if not (a.surfaceless && a.chosen && a.context_made)
    then some (egl_terminate (fails (hold display (hold gbm (hold card (sets_ret ret fresh))))))
    else if not a.made_current
    then some (
        destroy_context
          (fails (hold context (hold display (hold gbm (hold card (sets_ret ret fresh)))))))
    else go (hold context (hold display (hold gbm (hold card (sets_ret ret fresh)))))

abbrev pub starts : Start → Bool
starts a =
    a.opened && a.configured && a.crtc_found && a.gbm_made && a.display_got && a.initialized
    && a.surfaceless && a.chosen && a.context_made && a.made_current

-- The configuration goes through without a crtc.
abbrev pub no_crtc : Start → Bool
no_crtc a = a.opened && a.configured && not a.crtc_found

-- For a program without eglChooseConfig.
abbrev pub all_chosen : Start → Start
all_chosen a = record a { chosen = true }

-- All that is held when a program starts to draw.
abbrev pub ready : Bool → Ledger
ready ret = hold context (hold display (hold gbm (hold card (sets_ret ret fresh))))

-- Either the set-up goes through, or all of it is undone, or NULL is followed.
pub start_lem :
    (a : Start) (ret : Bool) (go : Ledger → Option Ledger)
    → start a ret go
      ≡ (if no_crtc a then none else if starts a then go (ready ret) else some (fails fresh))
unfolding start
start_lem a ret go = ground arith
