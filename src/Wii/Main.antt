-- ===== src/Wii/Main.antt =====
-- `main` of wiid-tests/wiid.c: the set-up of the devices, and the connections one after the other.
use sys_snippets.Common.{
  ℕ, zero, suc, ◌≡◌, refl, List, [], ◌∷◌, Bool, true, false, not, Option, none, some, if◌then◌else◌,
}
use sys_snippets.Wii.Setup
use sys_snippets.Wii.Setup.{wii_input_init, wii_acc_init}
use sys_snippets.Wii.Leds.{Led, first, successor, Leds, toggle_bit, dark}

-- How often cwiid_open fails before it works, and which calls of cwiid_set_led then go through; the other
-- calls of cwiid are only reported when they fail.
pub record Connection : Type 0 where
  pub tries : ℕ
  pub led_calls : List Bool

-- What the daemon does with cwiid: a cwiid_open that fails and one that works, the report mode with
-- CWIID_RPT_BTN and CWIID_RPT_ACC, a LED mask, and cwiid_close.
pub data Act : Type 0 where
  searched connected closed : Act
  reporting : Bool → Bool → Act
  lights : Leds → Act

-- `do … while (1)`; `k` is what follows behind the break, with the mask.
unfoldable pub blink_on : List Bool → Led → Leds → (Leds → List Act) → List Act
blink_on [] l s k = []
blink_on (fine ∷ more) l s k =
    let s' = toggle_bit l s in
    let rest = blink_on more (successor l) s' k in lights s' ∷ (if fine then rest else k s')

abbrev pub search : ℕ → List Act → List Act
search zero rest = rest
search (suc n) rest = searched ∷ search n rest

-- From `start:` on, with the two bits of `rpt_mode` and `led_state`, which a new connection does not
-- clear. `android` is the `goto start`.
unfoldable pub connections : Bool → List Connection → Bool → Bool → Leds → List Act
unfolding blink_on
connections android [] btn acc s = []
connections android (c ∷ cs) btn acc s = search c.tries (
    connected
    ∷ reporting true acc
    ∷ reporting true true
    ∷ blink_on c.led_calls first s λ s'.
      let rest = connections android cs true true s' in closed ∷ (if android then rest else []))

-- none for exit(-1).
unfoldable pub main : Bool → Setup.Answers → Setup.Answers → List Connection → Option (List Act)
unfolding wii_input_init wii_acc_init connections
main android a b cs =
    let input = wii_input_init a [] in
    let acc = wii_acc_init b input.open_fds in
    if not input.fine
    then none
    else if not acc.fine
    then none
    else some (connections android cs false false dark)

-- Whether the acts fit a daemon that is connected or not: it searches and connects when it is not, and
-- it sets the mode and the lights and closes when it is.
abbrev pub in_turn : Bool → List Act → Bool
in_turn c [] = true
in_turn false (searched ∷ xs) = in_turn false xs
in_turn false (connected ∷ xs) = in_turn true xs
in_turn true (reporting btn acc ∷ xs) = in_turn true xs
in_turn true (lights s ∷ xs) = in_turn true xs
in_turn true (closed ∷ xs) = in_turn false xs
in_turn c (x ∷ xs) = false

blink_on-in_turn :
    (calls : List Bool) (l : Led) (s : Leds) (k : Leds → List Act)
    → ((t : Leds) → in_turn true (k t) ≡ true)
    → in_turn true (blink_on calls l s k) ≡ true
unfolding blink_on
blink_on-in_turn [] l s k h = refl
blink_on-in_turn (true ∷ more) l s k h = blink_on-in_turn more (successor l) (toggle_bit l s) k h
blink_on-in_turn (false ∷ more) l s k h = h (toggle_bit l s)

search-in_turn : (n : ℕ) (rest : List Act) → in_turn false (search n rest) ≡ in_turn false rest
search-in_turn zero rest = refl
search-in_turn (suc n) rest = search-in_turn n rest

-- Whatever cwiid answers, the daemon has one connection at a time, which it closes before it looks for
-- another, and sets modes and lights only while it has one.
connections-in_turn :
    (android : Bool) (cs : List Connection) (btn acc : Bool) (s : Leds)
    → in_turn false (connections android cs btn acc s) ≡ true
unfolding connections
connections-in_turn android [] btn acc s = refl
connections-in_turn android (c ∷ cs) btn acc s = rw (search-in_turn c.tries) (
    blink_on-in_turn c.led_calls first s _
      (λ t. next android t (connections-in_turn android cs true true t)))
  where
    next :
        (again : Bool) (t : Leds)
        → in_turn false (connections android cs true true t) ≡ true
        → in_turn false (if again then connections android cs true true t else []) ≡ true
    next true t ih = ih
    next false t ih = refl
