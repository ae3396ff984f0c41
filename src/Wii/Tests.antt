-- ===== src/Wii/Tests.antt =====
-- Reports of a wiimote.
use sys_snippets.Common.{
  ℕ, ◌*◌, ◌<◌, ◌≡◌, ◌↔◌, refl, List, [], ◌∷◌, ◌++◌, Bool, true, false, some, ltb, ◌==◌, arith,
}
use sys_snippets.Wii.Device.{Device, Codes}
use sys_snippets.Wii.Input.{Keys, uinput_click, key_of, android_key_of, wii_handle_buttons}
use sys_snippets.Wii.Input.Laws.{
  Proper, stroke, first, run_length, uinput_click_lem, key_of-android_key_of,
  wii_handle_buttons-stroke,
}
use sys_snippets.Wii.Setup.{Answers, wii_input_init, wii_acc_init, NoLeak, all_fine, init-NoLeak}
use sys_snippets.Wii.Accel.{Sample, Accel, handle_all, Thins, handle_all-Thins}
use sys_snippets.Wii.Leds
use sys_snippets.Wii.Main
use sys_snippets.Wii.Callback.{Mesg, btn, acc, ir, Daemon}

abbrev linux_codes : Codes
linux_codes = record {
  ev_syn = 0;
  ev_key = 1;
  ev_rel = 2;
  syn_report = 0;
  rel_x = 0;
  rel_y = 1;
  rel_z = 2;
}

abbrev linux_keys : Keys
linux_keys = record {
  codes = linux_codes;
  key_9 = 10;
  key_0 = 11;
  key_home = 102;
  key_backspace = 14;
  key_enter = 28;
  key_right = 106;
  key_left = 105;
  key_down = 108;
  key_up = 103;
}

abbrev pad : Device
pad = record { events = []; tries = 0 }

-- Only the first two writes go through.
abbrev flaky : ℕ → Bool
flaky n = ltb n 2

uinput_click_lem_run :
    ((uinput_click flaky linux_codes 28 pad).1.events
      ≡ [] ++ first (run_length flaky 0) (stroke linux_codes 28))
    × ((uinput_click flaky linux_codes 28 pad).0 ≡ (run_length flaky 0 == 4))
uinput_click_lem_run = uinput_click_lem flaky linux_codes 28 pad

linux_keys-Proper : Proper linux_keys
linux_keys-Proper = omega arith

home_keys : (key_of linux_keys 0x0018 ≡ 0) ↔ (android_key_of 0x0018 ≡ 0)
home_keys = key_of-android_key_of linux_keys 0x0018 linux_keys-Proper

linux_keys-small : (b : ℕ) → key_of linux_keys b < 128
unfolding key_of
linux_keys-small b = ground arith

wii_handle_buttons-stroke_example :
    (wii_handle_buttons (λ i. true) linux_keys 0x0004 pad).events
    ≡ [] ++ stroke linux_codes (key_of linux_keys 0x0004)
wii_handle_buttons-stroke_example =
    wii_handle_buttons-stroke (λ i. true) linux_keys 0x0004 pad (λ i. refl)
      (linux_keys-small 0x0004)

-- The device takes everything but REL_Z.
abbrev no_z : Answers
no_z = record {
  opened = some 5;
  set_rel = true;
  set_x = true;
  set_y = true;
  set_z = false;
  described = true;
  created = true;
}

init-NoLeak_run :
    NoLeak (wii_input_init no_z (4 ∷ [])) (4 ∷ [])
    × NoLeak (wii_acc_init no_z (4 ∷ [])) (4 ∷ [])
    × ((wii_acc_init no_z (4 ∷ [])).fine ≡ all_fine no_z)
    × ((wii_input_init no_z (4 ∷ [])).fine ≡ true)
init-NoLeak_run = init-NoLeak no_z (4 ∷ [])

abbrev at_msec : ℕ → ℕ → Sample
at_msec sec ms = record { tv_sec = sec; tv_nsec = ms * 1000000; x = 1; y = 2; z = 3 }

abbrev shakes : List Sample
shakes = at_msec 1 0 ∷ at_msec 1 40 ∷ at_msec 1 100 ∷ []

abbrev still : Accel
still = record { acc_time_msec = 0; events = [] }

handle_all-Thins_example : Thins linux_codes shakes still (handle_all linux_codes shakes still)
handle_all-Thins_example = handle_all-Thins linux_codes shakes still (omega arith) (omega arith)

two_waves :
    (Leds.blink (Leds.times 2 Leds.eight []) Leds.first Leds.dark ≡ Leds.times 2 Leds.wave [])
    × (Leds.blink (Leds.times 2 Leds.eight (false ∷ [])) Leds.first Leds.dark
        ≡ Leds.times 2 Leds.wave (Leds.leds true false false false ∷ []))
two_waves = Leds.blink-wave 2

abbrev batch : List Mesg
batch = btn 0x0004 ∷ acc (at_msec 1 0) ∷ ir ∷ btn 0 ∷ []

abbrev daemon : Daemon
daemon = record { keypad = pad; accel = still }

-- On Android the second connection goes on from the mask of the first.
two_connections :
    Main.connections true
      (record { tries = 1; led_calls = false ∷ [] }
        ∷ record { tries = 0; led_calls = true ∷ [] }
        ∷ [])
      false
      false
      Leds.dark
    ≡ Main.searched
      ∷ Main.connected
      ∷ Main.reporting true false
      ∷ Main.reporting true true
      ∷ Main.lights (Leds.leds true false false false)
      ∷ Main.closed
      ∷ Main.connected
      ∷ Main.reporting true true
      ∷ Main.reporting true true
      ∷ Main.lights Leds.dark
      ∷ []
unfolding Main.connections Main.blink_on
two_connections = refl
