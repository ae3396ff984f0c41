-- ===== src/Wii/Input.antt =====
-- wiid-tests/wii_input.c: button reports of the wiimote as key strokes.
pub mod Laws
use sys_snippets.Common.{
  ℕ, ◌+◌, ◌%◌, List, [], ◌∷◌, ◌++◌, Bool, true, false, ltb, ◌==◌, if◌then◌else◌,
}
use sys_snippets.Wii.Device.{Event, Device, Codes, put_event}

-- The key codes of linux/input.h that the buttons stand for, and the constants of the events.
pub record Keys : Type 0 where
  pub codes : Codes
  pub key_9 : ℕ
  pub key_0 : ℕ
  pub key_home : ℕ
  pub key_backspace : ℕ
  pub key_enter : ℕ
  pub key_right : ℕ
  pub key_left : ℕ
  pub key_down : ℕ
  pub key_up : ℕ

-- `uinput_write`: 0 is `true`, -1 is `false`.
abbrev pub uinput_write : (ℕ → Bool) → ℕ → ℕ → ℕ → Device → Bool × Device
uinput_write takes kind code value d =
    put_event takes (record { kind = kind; code = code; value = value }) d

abbrev pub and_then : Bool × Device → (Device → Bool × Device) → Bool × Device
and_then (true, d) k = k d
and_then (false, d) k = (false, d)

abbrev pub uinput_write_syn : (ℕ → Bool) → Codes → ℕ → ℕ → ℕ → Device → Bool × Device
uinput_write_syn takes c kind code value d =
    and_then (uinput_write takes kind code value d)
      λ d'. uinput_write takes c.ev_syn c.syn_report 0 d'

unfoldable pub uinput_press : (ℕ → Bool) → Codes → ℕ → Device → Bool × Device
unfolding put_event
uinput_press takes c code d = uinput_write_syn takes c c.ev_key code 1 d

unfoldable pub uinput_release : (ℕ → Bool) → Codes → ℕ → Device → Bool × Device
unfolding put_event
uinput_release takes c code d = uinput_write_syn takes c c.ev_key code 0 d

unfoldable pub uinput_click : (ℕ → Bool) → Codes → ℕ → Device → Bool × Device
unfolding uinput_press uinput_release
uinput_click takes c code d =
    and_then (uinput_press takes c code d) λ d'. uinput_release takes c code d'

-- The `switch` of `wii_handle_buttons` as it is built for Linux; the last branch is `default`.
unfoldable pub key_of : Keys → ℕ → ℕ
key_of k btn =
    if btn == 0x0010
    then k.key_9
    else if btn == 0x1000
    then k.key_0
    else if btn == 0x0080
    then k.key_home
    else if btn == 0x0008
    then k.key_backspace
    else if btn == 0x0004
    then k.key_enter
    else if btn == 0x0200
    then k.key_right
    else if btn == 0x0100
    then k.key_left
    else if btn == 0x0400
    then k.key_down
    else if btn == 0x0800
    then k.key_up
    else 0

-- The same `switch` as it is built for Android.
unfoldable pub android_key_of : ℕ → ℕ
android_key_of btn =
    if btn == 0x0010
    then 10
    else if btn == 0x1000
    then 11
    else if btn == 0x0080
    then 12
    else if btn == 0x0008
    then 13
    else if btn == 0x0004
    then 14
    else if btn == 0x0200
    then 15
    else if btn == 0x0100
    then 16
    else if btn == 0x0400
    then 17
    else if btn == 0x0800
    then 18
    else 0

-- `char key`, a signed byte, as the `uint16_t code` of `uinput_click`.
abbrev pub through_char : ℕ → ℕ
through_char k = let b = k % 256 in if ltb b 128 then b else b + 65280

-- The result of `uinput_click` is not looked at.
unfoldable pub wii_handle_buttons : (ℕ → Bool) → Keys → ℕ → Device → Device
unfolding uinput_click key_of
wii_handle_buttons takes k btn d = (uinput_click takes k.codes (through_char (key_of k btn)) d).1
