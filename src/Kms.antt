-- ===== src/Kms.antt =====
-- drm-tests/drm_utils.c: the choice of a connector, an encoder, a mode and a CRTC of a graphics card.
-- libdrm is a parameter (`Card`); the objects that it hands out and takes back are counted (`Held`).
use sys_snippets.Common.{
  ℕ, ◌+◌, ◌-◌, ◌/◌, ◌%◌, ◌^◌, List, [], ◌∷◌, Bool, true, false, ◌&&◌, Option, none, some, ltb, ◌==◌,
  length, if◌then◌else◌, arith,
}
pub mod Search
pub mod Autoconf
pub mod Named
mod Tests

-- `drmModeModeInfo`; `clock` stands for all that the code does not look at.
pub record Mode : Type 0 where
  pub name : List ℕ
  pub clock : ℕ

-- `drmModeConnector`; `connected` says whether `connection` is DRM_MODE_CONNECTED.
pub record Connector : Type 0 where
  pub connector_id : ℕ
  pub current_encoder : ℕ
  pub connected : Bool
  pub modes : List Mode
  pub encoders : List ℕ

pub record Encoder : Type 0 where
  pub encoder_id : ℕ
  pub current_crtc : ℕ
  pub possible_crtcs : ℕ

pub record Crtc : Type 0 where
  pub crtc_id : ℕ
  pub buffer_id : ℕ

pub record Resources : Type 0 where
  pub connector_ids : List ℕ
  pub encoder_ids : List ℕ
  pub crtc_ids : List ℕ

-- What `drmModeGetResources`, `drmModeGetConnector`, `drmModeGetEncoder` and `drmModeGetCrtc` of
-- libdrm return, none for NULL; the card does not change meanwhile.
pub record Card : Type 0 where
  pub get_resources : Option Resources
  pub get_connector : ℕ → Option Connector
  pub get_encoder : ℕ → Option Encoder
  pub get_crtc : ℕ → Option Crtc

-- How many objects of each kind libdrm has allocated and not freed.
pub record Held : Type 0 where
  pub resources : ℕ
  pub connectors : ℕ
  pub encoders : ℕ
  pub crtcs : ℕ

-- `struct kms_display`; the last two are pointers that may be NULL.
pub record KmsDisplay : Type 0 where
  pub connector : Connector
  pub encoder : Encoder
  pub mode : Option Mode
  pub crtc : Option Crtc

-- What a function of the file comes to: true with a display, false, a behaviour that C leaves
-- undefined, or the end of the process.
pub data Outcome : Type 0 where
  configured : KmsDisplay → Outcome
  refused : Outcome
  undefined : Outcome
  exited : Outcome

-- `strcmp` gives 0.
abbrev pub same_text : List ℕ → List ℕ → Bool
same_text [] [] = true
same_text [] (y ∷ ys) = false
same_text (x ∷ xs) [] = false
same_text (x ∷ xs) (y ∷ ys) = x == y && same_text xs ys

abbrev pub is_named : List ℕ → Mode → Bool
is_named name m = same_text m.name name

-- `connector->connection == DRM_MODE_CONNECTED && connector->count_modes > 0`
abbrev pub is_usable : Connector → Bool
is_usable c = c.connected && ltb 0 (length c.modes)

-- PREFERRED_MODE
abbrev pub preferred : List ℕ
preferred = b'p' ∷ b'r' ∷ b'e' ∷ b'f' ∷ b'e' ∷ b'r' ∷ b'r' ∷ b'e' ∷ b'd' ∷ []

-- `possible_crtcs & (1 << i)`, of an `i` below 32.
abbrev pub is_possible : Encoder → ℕ → Bool
is_possible e i = (e.possible_crtcs / 2 ^ i) % 2 == 1
