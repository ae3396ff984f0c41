-- ===== src/Wii/Callback.antt =====
-- `cwiid_callback` of wiid-tests/wiid.c: the messages of the wiimote, handed to the key pad and to
-- the accelerometer.
use sys_snippets.Common.{ℕ, List, [], ◌∷◌, ◌++◌, Bool}
use sys_snippets.Wii.Device.{Event, Device}
use sys_snippets.Wii.Input.{Keys, key_of, wii_handle_buttons}
use sys_snippets.Wii.Input.Laws.{stroke}
use sys_snippets.Wii.Accel.{Sample, Accel, wii_handle_accelerometer}

-- `union cwiid_mesg`. Of the kinds that are only logged the contents are left out.
pub data Mesg : Type 0 where
  btn : ℕ → Mesg
  acc : Sample → Mesg
  status ir nunchuk classic balance motionplus error unknown : Mesg

pub record Daemon : Type 0 where
  pub keypad : Device
  pub accel : Accel

module _ (takes : ℕ → Bool) (k : Keys) where
  abbrev pub dispatch : Mesg → Daemon → Daemon
  dispatch (btn b) s = record s { keypad = wii_handle_buttons takes k b s.keypad }
  dispatch (acc a) s = record s { accel = wii_handle_accelerometer k.codes a s.accel }
  dispatch status s = s
  dispatch ir s = s
  dispatch nunchuk s = s
  dispatch classic s = s
  dispatch balance s = s
  dispatch motionplus s = s
  dispatch error s = s
  dispatch unknown s = s

  -- `for (i=0; i < mesg_count; i++)`
  unfoldable pub cwiid_callback : List Mesg → Daemon → Daemon
  cwiid_callback [] s = s
  cwiid_callback (e ∷ es) s = cwiid_callback es (dispatch e s)

-- The buttons and the samples of a batch of messages.
abbrev pub buttons : List Mesg → List ℕ
buttons [] = []
buttons (btn b ∷ es) = b ∷ buttons es
buttons (_ ∷ es) = buttons es

abbrev pub samples : List Mesg → List Sample
samples [] = []
samples (acc a ∷ es) = a ∷ samples es
samples (_ ∷ es) = samples es

abbrev pub strokes : Keys → List ℕ → List Event
strokes k [] = []
strokes k (b ∷ bs) = stroke k.codes (key_of k b) ++ strokes k bs
