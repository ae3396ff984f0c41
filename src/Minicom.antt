-- ===== src/Minicom.antt =====
-- pty/minicom_tty.c: the loop that carries bytes between a pseudo terminal and a serial port.
use sys_snippets.Common.{
  ℕ, List, [], ◌∷◌, ◌++◌, Option, none, some, ◌==◌, if◌then◌else◌, length, take, drop, replicate,
}
pub mod Laws
mod Tests

-- STR_LEN
abbrev pub str_len : ℕ
str_len = 100

-- The two descriptors, `fdm` and `tty`.
pub data Side : Type 0 where
  fdm tty : Side

-- One turn of `while (1)`: what select says, and for the descriptor that is looked at what read gives
-- (none if it fails), and how many bytes write takes (none if it fails).
pub data Round : Type 0 where
  timed_out interrupted select_failed no_data : Round
  ready : Side → Option (List ℕ) → Option ℕ → Round

-- The bytes of `line`, and what was written to which side, oldest first.
pub record Relay : Type 0 where
  pub line : List ℕ
  pub written : List (Side × List ℕ)

-- The loop waits for more, or the process exits, or reads behind the end of `line`.
pub data End : Type 0 where
  waiting : Relay → End
  exited : Relay → End
  overread : End

abbrev pub other : Side → Side
other fdm = tty
other tty = fdm

abbrev pub with_byte : ℕ → Option (List ℕ) → Option (List ℕ)
with_byte x none = none
with_byte x (some xs) = some (x ∷ xs)

-- The bytes that strlen counts; none if no byte is zero.
unfoldable pub c_string : List ℕ → Option (List ℕ)
c_string [] = none
c_string (x ∷ xs) = let rest = c_string xs in if x == 0 then some [] else with_byte x rest

-- `read` into `line`, of at most its size.
abbrev pub read_into : List ℕ → List ℕ → List ℕ
read_into text line = take str_len text ++ drop (length {A = ℕ} (take str_len text)) line

-- `bzero(line, sizeof(line))`
abbrev pub blank : List ℕ
blank = replicate str_len 0

-- write, with what it takes, and the clearing of the line.
abbrev pub pass_on : Side → List ℕ → Option (List ℕ) → Option ℕ → List (Side × List ℕ) → End
pass_on side line none taken written = overread
pass_on side line (some text) none written = exited (record { line = line; written = written })
pass_on side line (some text) (some n) written =
    waiting (record { line = blank; written = written ++ ((other side, take n text) ∷ []) })

-- The body of the loop.
unfoldable pub turn : Round → Relay → End
unfolding c_string
turn timed_out s = waiting s
turn interrupted s = waiting s
turn select_failed s = exited s
turn no_data s = waiting s
turn (ready side none taken) s = exited s
turn (ready side (some text) taken) s =
    pass_on side (read_into text s.line) (c_string (read_into text s.line)) taken s.written

abbrev pub on_end : End → (Relay → End) → End
on_end (waiting s) go = go s
on_end (exited s) go = exited s
on_end overread go = overread

unfoldable pub relay : List Round → Relay → End
unfolding turn
relay [] s = waiting s
relay (r ∷ rs) s = on_end (turn r s) λ t. relay rs t
