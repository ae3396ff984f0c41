-- ===== src/Wii/Setup.antt =====
-- The set-up of the two uinput devices: `wii_input_init` of wiid-tests/wii_input.c and
-- `wii_acc_init` of wiid-tests/wii_acc.c. The answers of their calls are arguments.
use sys_snippets.Common.{
  ℕ, ◌≡◌, List, ◌∷◌, Bool, true, false, ◌&&◌, Option, none, some, erase, if◌then◌else◌, arith,
}

-- Which calls go through; `opened` is the descriptor that `open` returns, if it is not negative.
pub record Answers : Type 0 where
  pub opened : Option ℕ
  pub set_rel : Bool
  pub set_x : Bool
  pub set_y : Bool
  pub set_z : Bool
  pub described : Bool
  pub created : Bool

-- What an init leaves: whether it returned 0 (else -EINVAL), its variable `uinput_fd`, and the
-- descriptors that the process holds open.
pub record Setup : Type 0 where
  pub fine : Bool
  pub uinput_fd : Option ℕ
  pub open_fds : List ℕ

-- UI_DEV_DESTROY and `close` on the error paths.
abbrev pub give_up : ℕ → List ℕ → Setup
give_up fd fds = record { fine = false; uinput_fd = some fd; open_fds = erase fd fds }

-- `wii_input_init`, which looks only at `open` and UI_DEV_CREATE.
unfoldable pub wii_input_init : Answers → List ℕ → Setup
wii_input_init a fds = elim a.opened [
  | none ↦ record { fine = false; uinput_fd = none; open_fds = fds }
  | some fd ↦
      if a.created
      then record { fine = true; uinput_fd = some fd; open_fds = fd ∷ fds }
      else give_up fd (fd ∷ fds)
]

unfoldable pub wii_acc_init : Answers → List ℕ → Setup
wii_acc_init a fds = elim a.opened [
  | none ↦ record { fine = false; uinput_fd = none; open_fds = fds }
  | some fd ↦
      if a.set_rel
      then if a.set_x
        then if a.set_y
          then if a.set_z
            then if a.described
              then if a.created
                then record { fine = true; uinput_fd = some fd; open_fds = fd ∷ fds }
                else give_up fd (fd ∷ fds)
              else give_up fd (fd ∷ fds)
            else give_up fd (fd ∷ fds)
          else give_up fd (fd ∷ fds)
        else give_up fd (fd ∷ fds)
      else give_up fd (fd ∷ fds)
]

abbrev is_some : Option ℕ → Bool
is_some none = false
is_some (some fd) = true

abbrev pub push : Option ℕ → List ℕ → List ℕ
push none fds = fds
push (some fd) fds = fd ∷ fds

-- The init leaves exactly one more descriptor open, the one in `uinput_fd`, if it is fine, and none
-- more if it fails.
abbrev pub NoLeak : Setup → List ℕ → Type 0
NoLeak s fds = s.open_fds ≡ (if s.fine then push s.uinput_fd fds else fds)

abbrev pub all_fine : Answers → Bool
all_fine a =
    is_some a.opened && a.set_rel && a.set_x && a.set_y && a.set_z && a.described && a.created

-- `wii_input_init` and `wii_acc_init` leak no descriptor, whichever of their calls fails: one that
-- fails has closed what it opened. `wii_acc_init` returns 0 exactly if every call goes through, and
-- `wii_input_init` exactly if `open` and UI_DEV_CREATE do.
pub init-NoLeak :
    (a : Answers) (fds : List ℕ)
    → NoLeak (wii_input_init a fds) fds
      × NoLeak (wii_acc_init a fds) fds
      × ((wii_acc_init a fds).fine ≡ all_fine a)
      × ((wii_input_init a fds).fine ≡ (is_some a.opened && a.created))
unfolding wii_input_init wii_acc_init
init-NoLeak a fds = ground arith
