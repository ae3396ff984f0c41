-- ===== src/Gst/Handshake.antt =====
-- The frame buffer `img_ptr` that two threads share by `gles2_sem`: the streaming thread in `render` of
-- gst/gst-simple/gles2.c, and the OpenGL thread in `main_loop` of gst/gst-simple/gles2util.c. A turn is
-- one atomic operation or one copied element, and any thread may have it.
use sys_snippets.Common.{
  ℕ, ◌+◌, List, [], ◌∷◌, ◌++◌, Option, none, some, ◌==◌, get_elem?, set, length, if◌then◌else◌,
}
pub mod Whole
mod Tests

-- `render`: outside, or in its `memcpy` with one part of the buffer copied and one to go.
pub data Streaming : Type 0 where
  outside : Streaming
  copying : (copied todo : List ℕ) → Streaming

-- The OpenGL thread: in the `glTexImage2D` of the `update_texture` that `gles2_thread` calls before
-- `main_loop`, with a part of the buffer read; then elsewhere in `main_loop`, or in the `glTexImage2D` of
-- its `update_texture`.
pub data Drawing : Type 0 where
  starting : List ℕ → Drawing
  elsewhere : Drawing
  uploading : List ℕ → Drawing

-- `gles2_sem`, `img_ptr`, the two threads, the texture that was made before `main_loop`, once it is, and
-- those that `main_loop` made so far, oldest first.
pub record Shared : Type 0 where
  pub gles2_sem : ℕ
  pub img : List ℕ
  pub streaming : Streaming
  pub drawing : Drawing
  pub first_texture : Option (List ℕ)
  pub textures : List (List ℕ)

-- A turn of `render`, which `GST_BUFFER_DATA` comes to if it is outside: a frame that finds
-- `gles2_sem` other than 0 is dropped.
unfoldable pub render : List ℕ → Shared → Streaming → Shared
render frame s outside =
    if s.gles2_sem == 0 then record s { gles2_sem = 1; streaming = copying [] frame } else s
render frame s (copying copied []) = record s { gles2_sem = 2; streaming = outside }
render frame s (copying copied (x ∷ todo)) = record s {
  img = set s.img (length copied) x;
  streaming = copying (copied ++ (x ∷ [])) todo;
}

-- A turn of the OpenGL thread. The first texture is made whatever `gles2_sem` is.
unfoldable pub update_texture : Shared → Drawing → Shared
update_texture s (starting got) = elim (get_elem? s.img (length got)) [
  | some x ↦ record s { drawing = starting (got ++ (x ∷ [])) }
  | none ↦ record s { drawing = elsewhere; first_texture = some got }
]
update_texture s elsewhere =
    if s.gles2_sem == 2 then record s { gles2_sem = 3; drawing = uploading [] } else s
update_texture s (uploading got) = elim (get_elem? s.img (length got)) [
  | some x ↦ record s { drawing = uploading (got ++ (x ∷ [])) }
  | none ↦ record s { gles2_sem = 0; drawing = elsewhere; textures = s.textures ++ (got ∷ []) }
]

-- Whose turn it is, with the frame that `render` gets if it is called.
pub data Turn : Type 0 where
  streams : List ℕ → Turn
  draws : Turn

abbrev pub turn : Turn → Shared → Shared
turn (streams frame) s = render frame s s.streaming
turn draws s = update_texture s s.drawing

unfoldable pub run : List Turn → Shared → Shared
unfolding render update_texture
run [] s = s
run (t ∷ ts) s = run ts (turn t s)

-- Behind `setup`: `posix_memalign` of the frame buffer, whatever is in it, and `gles2_sem = 0`. The OpenGL
-- thread stands at its first `update_texture`.
abbrev pub setup : List ℕ → Shared
setup img = record {
  gles2_sem = 0;
  img = img;
  streaming = outside;
  drawing = starting [];
  first_texture = none;
  textures = [];
}
