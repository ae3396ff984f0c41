-- ===== src/Echo/Line.antt =====
-- `handle_echo` of tcp/c/echo/s_poll.c and s_select.c: read one line a byte at a time into a
-- buffer of MAXLEN bytes, and send the whole buffer back.
-- The answers of `read` come as a list, oldest first; where the list ends, the call still blocks.
pub mod Laws
use sys_snippets.Common.{
  ℕ, ◌+◌, List, [], ◌∷◌, ◌++◌, Bool, set, replicate, ltb, ◌==◌, if◌then◌else◌,
}

abbrev pub maxlen : ℕ
maxlen = 100

abbrev pub newline : ℕ
newline = 10

-- What `read(sock, &c, 1)` returns: below 0, 0 at the end of the stream, or one byte.
pub data Read : Type 0 where
  broken : Read
  eof : Read
  got : ℕ → Read

-- Where the reading loop stops: `overrun` is a store behind `line[MAXLEN - 1]`, which C leaves
-- undefined; `waiting` is a `read` that has no answer yet.
pub data Fill : Type 0 where
  overrun : Fill
  waiting : Fill
  failed : Fill
  closed : Fill
  line_read : List ℕ → List Read → Fill

-- The inner loop: `n` is `ptr - line`, and `line` the buffer.
unfoldable pub fill : List Read → ℕ → List ℕ → Fill
fill [] n line = waiting
fill (broken ∷ rs) n line = failed
fill (eof ∷ rs) n line = closed
fill (got c ∷ rs) n line =
    let line' = set line n c in
    let rest = fill rs (n + 1) line' in
    if ltb n maxlen then if c == newline then line_read line' rs else rest else overrun

-- `memset(line, 0x0, sizeof(line))`
abbrev pub blank : List ℕ
blank = replicate maxlen 0

-- What a call of `handle_echo` comes to. `returned ret sent`: the C return value is 1, 0 or -1,
-- and `sent` are the bytes that went to `write`.
pub data Ret : Type 0 where
  plus_one zero_ret minus_one : Ret

pub data Echoed : Type 0 where
  undefined : Echoed
  blocks : Echoed
  returned : Ret → List ℕ → Echoed

-- The early returns of the reading loop; `sent` went out before, `k` is the code behind the loop.
abbrev pub after : Fill → List ℕ → (List ℕ → List Read → Echoed) → Echoed
after overrun sent k = undefined
after waiting sent k = blocks
after failed sent k = returned minus_one sent
after closed sent k = returned zero_ret sent
after (line_read line rest) sent k = k line rest

-- `write(sock, line, MAXLEN)` fails if `wrote` is false.
unfoldable pub handle_echo : Bool → List Read → Echoed
unfolding fill
handle_echo wrote rs =
    after (fill rs 0 blank) []
      λ line rest. if wrote then returned plus_one line else returned minus_one line

-- `handle_echo` of tcp/c/echo/s_fork.c serves line after line. There is one answer of `write` a
-- line; where they end, that call still blocks.
unfoldable pub serve : List Bool → List Read → List ℕ → Echoed
unfolding fill
serve [] rs sent = after (fill rs 0 blank) sent λ line rest. blocks
serve (wrote ∷ ws) rs sent =
    after (fill rs 0 blank) sent
      λ line rest. if wrote then serve ws rest (sent ++ line) else returned minus_one (sent ++ line)
