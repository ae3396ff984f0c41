-- ===== src/Wii/Device.antt =====
-- The uinput devices of wiid-tests: what is written to one, and the descriptor that it is open by.
use sys_snippets.Common.{ℕ, ◌+◌, List, [], ◌∷◌, ◌++◌, Bool, true, false, if◌then◌else◌}

-- `struct input_event` without its time. `value` is the pattern of the `int32_t`.
pub record Event : Type 0 where
  pub kind : ℕ
  pub code : ℕ
  pub value : ℕ

-- The events that the device took, oldest first, and how many writes were tried.
pub record Device : Type 0 where
  pub events : List Event
  pub tries : ℕ

-- The constants of linux/input.h, which is not part of the repository.
pub record Codes : Type 0 where
  pub ev_syn : ℕ
  pub ev_key : ℕ
  pub ev_rel : ℕ
  pub syn_report : ℕ
  pub rel_x : ℕ
  pub rel_y : ℕ
  pub rel_z : ℕ

-- `write(fd, &event, sizeof(event))`: `takes n` says whether the n-th write goes through whole.
-- The result is whether it did.
unfoldable pub put_event : (ℕ → Bool) → Event → Device → Bool × Device
put_event takes e d =
    if takes d.tries
    then (true, record { events = d.events ++ (e ∷ []); tries = d.tries + 1 })
    else (false, record d { tries = d.tries + 1 })
