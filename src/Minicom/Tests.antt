-- ===== src/Minicom/Tests.antt =====
-- Rounds of the relay.
use sys_snippets.Common.{◌≡◌, refl, List, [], ◌∷◌, none, some, replicate, arith}
use sys_snippets.Minicom.{
  fdm, tty, Round, timed_out, ready, waiting, overread, c_string, blank, turn, relay,
}
use sys_snippets.Minicom.Laws.{relay_lem}

-- The byte behind a zero is lost.
abbrev talk : List Round
talk =
    ready fdm (some (65 ∷ 66 ∷ [])) (some 2)
    ∷ timed_out
    ∷ ready tty (some (67 ∷ 0 ∷ 68 ∷ [])) (some 1)
    ∷ []

relay_lem_example :
    relay talk (record { line = blank; written = [] })
    ≡ waiting (record { line = blank; written = (tty, 65 ∷ 66 ∷ []) ∷ (fdm, 67 ∷ []) ∷ [] })
relay_lem_example = relay_lem talk [] (omega arith, (tt, (omega arith, tt)))

-- Before the first `bzero` the line is not cleared: what was in it is written behind the text.
first_text :
    turn (ready fdm (some (65 ∷ [])) (some 3)) (record { line = 1 ∷ 2 ∷ 3 ∷ 0 ∷ []; written = [] })
    ≡ waiting (record { line = blank; written = (tty, 65 ∷ 2 ∷ 3 ∷ []) ∷ [] })
unfolding turn c_string
first_text = refl

-- 100 bytes without a zero.
full_line :
    turn (ready tty (some (replicate 100 7)) none) (record { line = blank; written = [] })
    ≡ overread
unfolding turn c_string
full_line = refl
