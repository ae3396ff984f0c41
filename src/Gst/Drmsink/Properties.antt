-- ===== src/Gst/Drmsink/Properties.antt =====
-- The properties of gst/gst-drm/drmsink.c.
use sys_snippets.Common.{ℕ, ◌==◌, ◌≡◌, List, Option, none, some, if◌then◌else◌, arith}

-- The fields of `struct gst_drm_sink` that the properties are.
pub record Choice : Type 0 where
  pub conn_id : ℕ
  pub crtc_id : ℕ
  pub mode_name : Option (List ℕ)
  pub device : Option (List ℕ)

-- A property with its value, of which an integer is not negative (g_param_spec_int).
pub data Property : Type 0 where
  connector : ℕ → Property
  crtc : ℕ → Property
  mode : Option (List ℕ) → Property
  file : Option (List ℕ) → Property

pub data Name : Type 0 where
  prop_conn prop_crtc prop_mode prop_file : Name

-- DEFAULT_PROP_MODE or DEFAULT_PROP_FILE for NULL.
abbrev pub or_default : List ℕ → Option (List ℕ) → Option (List ℕ)
or_default default none = some default
or_default default (some text) = some text

-- The first two arguments are the defaults of the mode and of the file.
unfoldable pub set_property : List ℕ → List ℕ → Property → Choice → Choice
set_property default_mode default_file (connector v) s = record s { conn_id = v }
set_property default_mode default_file (crtc v) s = record s { crtc_id = v }
set_property default_mode default_file (mode v) s = record s {
  mode_name = or_default default_mode v;
}
set_property default_mode default_file (file v) s = record s { device = or_default default_file v }

unfoldable pub get_property : Name → Choice → Property
get_property prop_conn s = connector s.conn_id
get_property prop_crtc s = crtc s.crtc_id
get_property prop_mode s = mode s.mode_name
get_property prop_file s = file s.device

abbrev pub number : Name → ℕ
number prop_conn = 0
number prop_crtc = 1
number prop_mode = 2
number prop_file = 3

abbrev pub name_of : Property → Name
name_of (connector v) = prop_conn
name_of (crtc v) = prop_crtc
name_of (mode v) = prop_mode
name_of (file v) = prop_file

abbrev pub stored : List ℕ → List ℕ → Property → Property
stored default_mode default_file (mode none) = mode (some default_mode)
stored default_mode default_file (file none) = file (some default_file)
stored default_mode default_file v = v

-- A property that is set has its value, or its default for NULL, and the others keep theirs.
pub get_property-set_sink :
    (n : Name) (default_mode default_file : List ℕ) (v : Property) (s : Choice)
    → get_property n (set_property default_mode default_file v s) ≡ (
        if number n == number (name_of v)
        then stored default_mode default_file v
        else get_property n s)
unfolding get_property set_property
get_property-set_sink n default_mode default_file v s = ground arith
