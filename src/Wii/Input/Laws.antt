-- ===== src/Wii/Input/Laws.antt =====
-- What reaches the keypad device.
use mathlib.Core.List.{append_assoc, append-nil}
use sys_snippets.Common.{
  ℕ, zero, suc, ◌+◌, ◌<◌, ◌≡◌, ◌↔◌, inl, inr, ◌∙◌, List, [], ◌∷◌, ◌++◌, Bool, true, ◌==◌,
  if◌then◌else◌, Bool-cases, arith,
}
use sys_snippets.Wii.Device.{Event, Device, Codes}
use sys_snippets.Wii.Input.{
  Keys, uinput_click, key_of, android_key_of, through_char, wii_handle_buttons,
}

abbrev pub press_event : Codes → ℕ → Event
press_event c code = record { kind = c.ev_key; code = code; value = 1 }

abbrev pub release_event : Codes → ℕ → Event
release_event c code = record { kind = c.ev_key; code = code; value = 0 }

abbrev pub syn_event : Codes → Event
syn_event c = record { kind = c.ev_syn; code = c.syn_report; value = 0 }

-- A key stroke as the input layer wants it.
abbrev pub stroke : Codes → ℕ → List Event
stroke c code = press_event c code ∷ syn_event c ∷ release_event c code ∷ syn_event c ∷ []

-- The first `n` events of a list.
abbrev pub first : ℕ → List Event → List Event
first zero es = []
first (suc n) [] = []
first (suc n) (e ∷ es) = e ∷ first n es

-- How many of four writes from the n-th on go through before the first that does not.
abbrev pub run_length : (ℕ → Bool) → ℕ → ℕ
run_length takes n =
    if takes n
    then if takes (n + 1)
      then if takes (n + 1 + 1) then if takes (n + 1 + 1 + 1) then 4 else 3 else 2
      else 1
    else 0

-- `uinput_click` writes press, SYN, release and SYN up to the first write that fails, tries none
-- behind it, and returns 0 exactly when all four went through.
pub uinput_click_lem :
    (takes : ℕ → Bool) (c : Codes) (code : ℕ) (d : Device)
    → ((uinput_click takes c code d).1.events
        ≡ d.events ++ first (run_length takes d.tries) (stroke c code))
      × ((uinput_click takes c code d).0 ≡ (run_length takes d.tries == 4))
unfolding uinput_click
uinput_click_lem takes c code d = elim (Bool-cases (takes d.tries)) [
  | inl a ↦ elim (Bool-cases (takes (d.tries + 1))) [
    | inl b ↦ elim (Bool-cases (takes (d.tries + 1 + 1))) [
      | inl e ↦ elim (Bool-cases (takes (d.tries + 1 + 1 + 1))) [
        | inl f ↦ (simp (a, b, e, f, append_assoc), simp (a, b, e, f))
        | inr f ↦ (simp (a, b, e, f, append_assoc), simp (a, b, e, f))
      ]
      | inr e ↦ (simp (a, b, e, append_assoc), simp (a, b, e))
    ]
    | inr b ↦ (simp (a, b, append_assoc), simp (a, b))
  ]
  | inr a ↦ (simp (a, append-nil), simp a)
]

-- No key that a button stands for is 0, which is KEY_RESERVED.
pub record Proper (k : Keys) : Type 0 where
  pub key_9_pos : 0 < k.key_9
  pub key_0_pos : 0 < k.key_0
  pub key_home_pos : 0 < k.key_home
  pub key_backspace_pos : 0 < k.key_backspace
  pub key_enter_pos : 0 < k.key_enter
  pub key_right_pos : 0 < k.key_right
  pub key_left_pos : 0 < k.key_left
  pub key_down_pos : 0 < k.key_down
  pub key_up_pos : 0 < k.key_up

-- The Linux and the Android build know the same buttons: with no key code of 0, a report has the
-- key 0 in the one exactly if it has the key 0 in the other.
pub key_of-android_key_of :
    (k : Keys) (btn : ℕ) → Proper k → (key_of k btn ≡ 0) ↔ (android_key_of btn ≡ 0)
unfolding key_of android_key_of
key_of-android_key_of k btn p = ground arith

run_length_all : (takes : ℕ → Bool) (n : ℕ) → ((i : ℕ) → takes i ≡ true) → run_length takes n ≡ 4
run_length_all takes n h = simp (h n, h (n + 1), h (n + 1 + 1), h (n + 1 + 1 + 1))

-- On a device that takes every write, a report is one whole stroke of its key, also a report of no
-- button or of two at once, whose key is 0, where the codes of the keys are below 128.
pub wii_handle_buttons-stroke :
    (takes : ℕ → Bool) (k : Keys) (btn : ℕ) (d : Device)
    → ((i : ℕ) → takes i ≡ true)
    → key_of k btn < 128
    → (wii_handle_buttons takes k btn d).events ≡ d.events ++ stroke k.codes (key_of k btn)
unfolding wii_handle_buttons
wii_handle_buttons-stroke takes k btn d h small =
    let e : through_char (key_of k btn) ≡ key_of k btn = ground arith in
    (uinput_click_lem takes k.codes (through_char (key_of k btn)) d).0
    ∙ rw (run_length_all takes d.tries h, e)
