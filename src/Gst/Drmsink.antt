-- ===== src/Gst/Drmsink.antt =====
-- gst/gst-drm/drmsink.c: a GStreamer sink that shows frames from two buffers in turn. The answers of
-- libdrm and libkms are arguments.
use sys_snippets.Common.{
  ℕ, zero, suc, ◌+◌, ◌*◌, ◌%◌, ◌^◌, List, [], ◌∷◌, Bool, true, false, not, ◌||◌, Option, none, some,
  ltb, ◌==◌, length, take, drop, get_elem?, set, if◌then◌else◌,
}
pub mod Copy
pub mod Pair
pub mod Frames
pub mod Life
pub mod Start
pub mod Properties
mod Tests

-- `struct gst_drm_sink`: whether it is enabled, the two mapped buffers with their strides (if they are
-- there), which one is next, and the size of a frame. `screen` is the buffer that the crtc shows, none
-- for another program's picture; `saved` says that `saved_crtc` is set.
pub record Sink : Type 0 where
  pub enabled : Bool
  pub frame : Option (List (List ℕ))
  pub stride : List ℕ
  pub current : ℕ
  pub width : ℕ
  pub height : ℕ
  pub screen : Option ℕ
  pub saved : Bool

-- GST_FLOW_OK or true, GST_FLOW_ERROR or false, or behaviour that C leaves undefined.
pub data Flow : Type 0 where
  ok : Sink → Flow
  error : Sink → Flow
  undefined : Flow

abbrev pub u32 : ℕ → ℕ
u32 n = n % 2 ^ 32

abbrev pub prepend : ℕ → Option (List ℕ) → Option (List ℕ)
prepend x none = none
prepend x (some xs) = some (x ∷ xs)

-- `memcpy` into a buffer, at a position; none if it goes out of bounds.
unfoldable pub overwrite : List ℕ → ℕ → List ℕ → Option (List ℕ)
overwrite dst zero [] = some dst
overwrite [] zero (x ∷ xs) = none
overwrite (d ∷ dst) zero (x ∷ xs) = prepend x (overwrite dst zero xs)
overwrite [] (suc n) xs = none
overwrite (d ∷ dst) (suc n) xs = prepend d (overwrite dst n xs)

-- The loop over the lines of a frame, from line `s` on with `n` of them left.
unfoldable pub copy_lines : ℕ → ℕ → ℕ → ℕ → List ℕ → List ℕ → Option (List ℕ)
unfolding overwrite
copy_lines zero s width stride src dst = some dst
copy_lines (suc n) s width stride src dst =
    elim (overwrite dst (u32 (s * stride))
      (take (u32 (4 * width)) (drop (u32 (4 * s * width)) src))) [
        | none ↦ none
        | some d ↦ copy_lines n (s + 1) width stride src d
      ]

-- `current ^ 1`, of 0 and 1.
abbrev pub other : ℕ → ℕ
other n = if n == 0 then 1 else 0

-- Behind the copy, with what drmModeSetCrtc answers.
abbrev pub show : Bool → Sink → Flow
show works s =
    if works then ok (record s { screen = some s.current; current = other s.current }) else error s

-- The frame with the lines of `buffer` in the buffer that is next.
abbrev pub copied : List (List ℕ) → Sink → Option (List ℕ) → Option Sink
copied frames s none = none
copied frames s (some f) = some (record s { frame = some (set frames s.current f) })

abbrev pub target : List (List ℕ) → Sink → List ℕ → Option (List ℕ)
target frames s buffer = elim (get_elem? frames s.current) [
  | none ↦ none
  | some dst ↦ elim (get_elem? s.stride s.current) [
    | none ↦ none
    | some stride ↦ copy_lines s.height 0 s.width stride buffer dst
  ]
]

abbrev pub shown : Bool → Option Sink → Flow
shown works none = undefined
shown works (some s) = show works s

unfoldable pub render : List ℕ → Bool → Sink → Flow
unfolding copy_lines
render buffer works s =
    if ltb (length buffer) (u32 (4 * s.width * s.height)) then error s else elim s.frame [
      | none ↦ undefined
      | some frames ↦ shown works (copied frames s (target frames s buffer))
    ]

-- How `kms_bo_create`, KMS_PITCH, KMS_HANDLE, `kms_bo_map` and drmModeAddFB go for a buffer, with the
-- stride and the bytes of the mapping.
pub record Buffer : Type 0 where
  pub works : Bool
  pub pitch : ℕ
  pub bytes : List ℕ

-- `setup`, for a mode and a frame of the caps.
unfoldable pub setup : ℕ → ℕ → ℕ → ℕ → Buffer → Buffer → Bool → Sink → Flow
setup hdisplay vdisplay width height b0 b1 crtc_got s =
    if ltb hdisplay width || ltb vdisplay height
    then error s
    else if not b0.works
    then error (record s { width = width; height = height })
    else if not b1.works
    then error (record s { width = width; height = height })
    else if not crtc_got
    then error (record s { width = width; height = height; saved = false })
    else ok (record s {
      enabled = true;
      frame = some (b0.bytes ∷ b1.bytes ∷ []);
      stride = b0.pitch ∷ b1.pitch ∷ [];
      current = 0;
      width = width;
      height = height;
      saved = true;
    })

unfoldable pub setcaps : ℕ → ℕ → ℕ → ℕ → Buffer → Buffer → Bool → Sink → Flow
unfolding setup
setcaps hdisplay vdisplay width height b0 b1 crtc_got s =
    if s.enabled then ok s else setup hdisplay vdisplay width height b0 b1 crtc_got s

-- `stop` follows `saved_crtc`, and unmaps and destroys the buffers.
unfoldable pub stop : Bool → Bool → Sink → Flow
stop mode_valid restored s =
    if s.saved then ok (record s { frame = none; screen = none }) else undefined
