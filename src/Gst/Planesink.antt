-- ===== src/Gst/Planesink.antt =====
-- gst/gst-drm/drmplanesink.c: a GStreamer sink that shows frames on a plane. It copies frames into its two
-- buffers as drmsink.c does (Gst.Drmsink); the plane, the properties and the life cycle are its own.
use sys_snippets.Common.{
  ℕ, ◌+◌, ◌*◌, List, [], ◌∷◌, ◌++◌, Bool, true, false, not, ◌&&◌, Option, none, some, ltb, length,
  if◌then◌else◌,
}
use sys_snippets.Dumb.{card, driver, Ledger, acquire, release, has}
use sys_snippets.Dumb.Plane.{has_plane, queries, look_for}
use sys_snippets.Gst.Drmsink
use sys_snippets.Gst.Drmsink.{Sink, Flow, u32}
pub mod Frames
pub mod Life
pub mod Properties
mod Tests

-- A call of drmModeSetPlane with the plane, the crtc, the buffer, the place and the size on the screen and
-- the size of the source, in 16.16.
pub record SetPlane : Type 0 where
  pub plane_id : ℕ
  pub crtc_id : ℕ
  pub fb : ℕ
  pub posx : ℕ
  pub posy : ℕ
  pub width : ℕ
  pub height : ℕ
  pub src_width : ℕ
  pub src_height : ℕ

-- `struct gst_drm_sink`. `sink` has the fields that drmsink.c has too; its `screen` is the buffer that the
-- plane shows, and its `saved`, of which this program has nothing, stays true. `ledger` says what is
-- held, and `calls` has the calls of drmModeSetPlane in `render`, oldest first.
pub record Planesink : Type 0 where
  pub sink : Sink
  pub device : Option (List ℕ)
  pub plane_id : ℕ
  pub crtc_id : ℕ
  pub posx : ℕ
  pub posy : ℕ
  pub ledger : Ledger
  pub calls : List SetPlane

-- true or GST_FLOW_OK, false or GST_FLOW_ERROR, or behaviour that C leaves undefined.
pub data Outcome : Type 0 where
  ok : Planesink → Outcome
  error : Planesink → Outcome
  undefined : Outcome

-- A property with its value, of which an integer is not negative (g_param_spec_int).
pub data Property : Type 0 where
  plane : ℕ → Property
  crtc : ℕ → Property
  position_x : ℕ → Property
  position_y : ℕ → Property
  file : Option (List ℕ) → Property

pub data Name : Type 0 where
  prop_plane prop_crtc prop_posx prop_posy prop_file : Name

-- DEFAULT_PROP_FILE is the argument.
unfoldable pub set_property : List ℕ → Property → Planesink → Planesink
set_property default_file (plane v) s = record s { plane_id = v }
set_property default_file (crtc v) s = record s { crtc_id = v }
set_property default_file (position_x v) s = record s { posx = v }
set_property default_file (position_y v) s = record s { posy = v }
set_property default_file (file none) s = record s { device = some default_file }
set_property default_file (file (some name)) s = record s { device = some name }

unfoldable pub get_property : Name → Planesink → Property
get_property prop_plane s = plane s.plane_id
get_property prop_crtc s = crtc s.crtc_id
get_property prop_posx s = position_x s.posx
get_property prop_posy s = position_y s.posy
get_property prop_file s = file s.device

-- `open`, of NULL too, which fails.
abbrev pub open_device : (List ℕ → Bool) → Option (List ℕ) → Bool
open_device opens none = false
open_device opens (some name) = opens name

-- With the planes as in drm_dumb_bo_plane.c: neither the resources nor a plane is ever freed.
unfoldable pub start : (List ℕ → Bool) → Option (List (Option ℕ)) → Bool → Planesink → Outcome
unfolding has_plane queries
start opens planes driver_created s =
    let opened = look_for s.plane_id planes (acquire card s.ledger) in
    if not (open_device opens s.device)
    then error s
    else if not (has_plane s.plane_id planes)
    then error (record s { ledger = opened })
    else if not driver_created
    then error (record s { ledger = opened })
    else ok (record s { ledger = acquire driver opened })

-- What buffer `i` (0 or 1) has.
abbrev pub bo : ℕ → ℕ
bo i = 10 + i

abbrev pub frame : ℕ → ℕ
frame i = 20 + i

abbrev pub fb : ℕ → ℕ
fb i = 30 + i

-- Which calls go through for a buffer, with its stride and the bytes of its mapping.
pub record Buffer : Type 0 where
  pub created : Bool
  pub got_pitch : Bool
  pub got_handle : Bool
  pub mapped : Bool
  pub fb_added : Bool
  pub pitch : ℕ
  pub bytes : List ℕ

-- The body of the loop in `setup`; `go` is what follows, `stop_at` the return of false.
abbrev pub make_buffer : ℕ → Buffer → Ledger → (Ledger → Outcome) → (Ledger → Outcome) → Outcome
make_buffer i b l stop_at go =
    if not b.created
    then stop_at l
    else if not b.got_pitch
    then stop_at (acquire (bo i) l)
    else if not b.got_handle
    then stop_at (acquire (bo i) l)
    else if not b.mapped
    then stop_at (acquire (bo i) l)
    else if not b.fb_added
    then stop_at (acquire (frame i) (acquire (bo i) l))
    else go (acquire (fb i) (acquire (frame i) (acquire (bo i) l)))

-- For a size of the caps. The frames of a set-up that fails are left out: nothing is rendered then.
unfoldable pub setup : ℕ → ℕ → Buffer → Buffer → Planesink → Outcome
setup width height b0 b1 s =
    let sized = record s { sink = record s.sink { width = width; height = height } } in
    let fail : Ledger → Outcome = λ l. error (record sized { ledger = l }) in
    make_buffer 0 b0 s.ledger fail λ l0. make_buffer 1 b1 l0 fail λ l1. ok (record s {
      sink = record s.sink {
        enabled = true;
        frame = some (b0.bytes ∷ b1.bytes ∷ []);
        stride = b0.pitch ∷ b1.pitch ∷ [];
        current = 0;
        width = width;
        height = height;
      };
      ledger = l1;
    })

unfoldable pub setcaps : ℕ → ℕ → Buffer → Buffer → Planesink → Outcome
unfolding setup
setcaps width height b0 b1 s = if s.sink.enabled then ok s else setup width height b0 b1 s

abbrev pub set_plane : Planesink → SetPlane
set_plane s = record {
  plane_id = s.plane_id;
  crtc_id = s.crtc_id;
  fb = s.sink.current;
  posx = s.posx;
  posy = s.posy;
  width = s.sink.width;
  height = s.sink.height;
  src_width = u32 (s.sink.width * 65536);
  src_height = u32 (s.sink.height * 65536);
}

abbrev pub with_sink : Planesink → Flow → Outcome
with_sink s (Drmsink.ok t) = ok (record s { sink = t })
with_sink s (Drmsink.error t) = error (record s { sink = t })
with_sink s Drmsink.undefined = undefined

-- The size check, the copy and the exchange of the buffers are those of drmsink.c, with the answer of
-- drmModeSetPlane; a buffer that is too small comes to no call.
unfoldable pub render : List ℕ → Bool → Planesink → Outcome
unfolding Drmsink.render
render buffer works s =
    with_sink
      (if ltb (length buffer) (u32 (4 * s.sink.width * s.sink.height))
        then s
        else record s { calls = s.calls ++ (set_plane s ∷ []) })
      (Drmsink.render buffer works s.sink)

-- The body of the loop in `stop`.
abbrev pub drop_buffer : ℕ → Ledger → Ledger
drop_buffer i l = release (bo i) (release (frame i) (release (fb i) l))

-- `off` says whether drmModeSetPlane takes the plane away; its answer is not looked at. kms_bo_unmap
-- follows the pointer of a buffer object, which is NULL if that was not made.
unfoldable pub stop : Bool → Planesink → Outcome
stop off s =
    if has (bo 0) s.ledger.held && has (bo 1) s.ledger.held
    then ok (record s {
      sink = record s.sink { frame = none; screen = if off then none else s.sink.screen };
      ledger = release card (release driver (drop_buffer 1 (drop_buffer 0 s.ledger)));
    })
    else undefined
