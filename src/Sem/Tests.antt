-- ===== src/Sem/Tests.antt =====
-- Runs of exec_fd.c.
use sys_snippets.Common.{ℕ, zero, suc, ◌+◌, ◌*◌, ◌≤◌, ◌≡◌, refl, List, [], ◌∷◌, false, some}
use sys_snippets.Sem.{cycle, Who, child, parent, gone, System, start, run, Reach, here}
use sys_snippets.Sem.Turns.{busy, turns, Reach-turns}
use sys_snippets.Sem.Progress.{work, steps, steps-add-work, Reach-finished, run-Reach}

abbrev file : List ℕ
file = 35 ∷ 105 ∷ 110 ∷ []

-- Both processes in turn, five rounds of three steps each, and then their exits.
abbrev schedule : List Who
schedule = rounds cycle
  where
    rounds : ℕ → List Who
    rounds zero = child ∷ parent ∷ []
    rounds (suc n) = child ∷ child ∷ child ∷ parent ∷ parent ∷ parent ∷ rounds n

-- The child alone: it reads one byte, and then waits for the parent.
abbrev alone : List Who
alone = child ∷ child ∷ child ∷ child ∷ child ∷ []

abbrev stuck : System
stuck = run file alone start

alone-Reach : Reach file stuck
alone-Reach = run-Reach file alone start here

alone_log : stuck.log ≡ (child, some 35) ∷ []
unfolding run
alone_log = refl

Reach-turns_example :
    (busy stuck.child_pc + busy stuck.parent_pc ≤ 1)
    × (stuck.log ≡ turns file stuck.offset)
    × (stuck.offset ≤ 2 * cycle)
Reach-turns_example = Reach-turns file stuck alone-Reach

steps-add-work_example : steps alone-Reach + work stuck ≡ 32
steps-add-work_example = steps-add-work file stuck alone-Reach

abbrev finished : System
finished = run file schedule start

Reach-finished_example :
    (finished.child_pc ≡ gone)
    × (finished.parent_pc ≡ gone)
    × (finished.i ≡ cycle)
    × (finished.j ≡ cycle)
    × (finished.names ≡ false)
    × (finished.log ≡ turns file (2 * cycle))
unfolding run
Reach-finished_example = Reach-finished file finished (run-Reach file schedule start here) refl refl
