-- ===== src/Wii/Leds.antt =====
-- The LED loop of `main` in wiid-tests/wiid.c. The mask `led_state` is one Boolean for each of
-- CWIID_LED1_ON to CWIID_LED4_ON, which cwiid.h defines as four different bits.
use sys_snippets.Common.{
  ℕ, zero, suc, ◌≡◌, refl, ap, List, [], ◌∷◌, Bool, true, false, not, if◌then◌else◌,
}

pub record Leds : Type 0 where
  pub led_1 : Bool
  pub led_2 : Bool
  pub led_3 : Bool
  pub led_4 : Bool

pub data Led : Type 0 where
  first second third fourth : Led

-- `toggle_bit(led_state, CWIID_LEDn_ON)`
abbrev pub toggle_bit : Led → Leds → Leds
toggle_bit first s = record s { led_1 = not s.led_1 }
toggle_bit second s = record s { led_2 = not s.led_2 }
toggle_bit third s = record s { led_3 = not s.led_3 }
toggle_bit fourth s = record s { led_4 = not s.led_4 }

-- The order of the statements in the body of `do … while (1)`, round and round.
abbrev pub successor : Led → Led
successor first = second
successor second = third
successor third = fourth
successor fourth = first

-- The masks that the loop hands to `set_led_state`, where the list says which calls return 0. The
-- loop breaks at the first that does not.
unfoldable pub blink : List Bool → Led → Leds → List Leds
blink [] l s = []
blink (fine ∷ more) l s =
    let s' = toggle_bit l s in
    let rest = blink more (successor l) s' in s' ∷ (if fine then rest else [])

abbrev pub leds : Bool → Bool → Bool → Bool → Leds
leds a b c d = record { led_1 = a; led_2 = b; led_3 = c; led_4 = d }

abbrev pub dark : Leds
dark = leds false false false false

-- The LEDs go on one by one, and off again in the same order.
abbrev pub wave : List Leds → List Leds
wave rest =
    leds true false false false
    ∷ leds true true false false
    ∷ leds true true true false
    ∷ leds true true true true
    ∷ leds false true true true
    ∷ leds false false true true
    ∷ leds false false false true
    ∷ dark
    ∷ rest

abbrev pub eight : List Bool → List Bool
eight rest = true ∷ true ∷ true ∷ true ∷ true ∷ true ∷ true ∷ true ∷ rest

abbrev pub times {ℓ} : {A : Type ℓ} → ℕ → (A → A) → A → A
times zero f a = a
times (suc n) f a = f (times n f a)

-- From dark LEDs, as long as `set_led_state` succeeds, the loop shows the wave of eight masks over
-- and over; and where a call fails, its mask is the last.
pub blink-wave :
    (n : ℕ)
    → (blink (times n eight []) first dark ≡ times n wave [])
      × (blink (times n eight (false ∷ [])) first dark
          ≡ times n wave (leds true false false false ∷ []))
unfolding blink
blink-wave zero = (refl, refl)
blink-wave (suc n) = (ap wave (blink-wave n).0, ap wave (blink-wave n).1)
