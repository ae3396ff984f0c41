-- ===== src/Gst/Planesink/Properties.antt =====
-- The properties of gst/gst-drm/drmplanesink.c.
use sys_snippets.Common.{ℕ, ◌==◌, ◌≡◌, List, none, some, if◌then◌else◌, arith}
use sys_snippets.Gst.Planesink.{
  Planesink, Property, plane, crtc, position_x, position_y, file, Name, prop_plane, prop_crtc,
  prop_posx, prop_posy, prop_file, set_property, get_property,
}

abbrev pub number : Name → ℕ
number prop_plane = 0
number prop_crtc = 1
number prop_posx = 2
number prop_posy = 3
number prop_file = 4

abbrev pub name_of : Property → Name
name_of (plane v) = prop_plane
name_of (crtc v) = prop_crtc
name_of (position_x v) = prop_posx
name_of (position_y v) = prop_posy
name_of (file f) = prop_file

abbrev pub stored : List ℕ → Property → Property
stored default_file (file none) = file (some default_file)
stored default_file v = v

pub get_property-set_property :
    (n : Name) (default_file : List ℕ) (v : Property) (s : Planesink)
    → get_property n (set_property default_file v s)
      ≡ (if number n == number (name_of v) then stored default_file v else get_property n s)
unfolding get_property set_property
get_property-set_property n default_file v s = ground arith
