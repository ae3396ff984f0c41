-- ===== src/Sem/Progress.antt =====
-- That every schedule of exec_fd.c ends, with both loops run to the end.
use mathlib.Core.Path.{subst}
use sys_snippets.Common.{
  ℕ, suc, ◌+◌, ◌-◌, ◌*◌, ◌≡◌, inl, inr, refl, ap, sym, ◌∙◌, List, [], ◌∷◌, false, none, some,
  Option-cases, arith,
}
use sys_snippets.Sem.{
  cycle, Who, child, parent, Pc, at_wait, at_read, at_post, behind, gone, System, step, run, Reach,
  here, onward,
}
use sys_snippets.Sem.Turns.{turns, Inv, Reach-Inv}

-- The steps that a process has still to make, where its loop has run `n` times.
abbrev pub left : Pc → ℕ → ℕ
left at_wait n = 3 * (cycle - n) + 1
left at_read n = 3 * (cycle - n)
left at_post n = 3 * (cycle - n) - 1
left behind n = 1
left gone n = 0

abbrev pub work : System → ℕ
work s = left s.child_pc s.i + left s.parent_pc s.j

-- How many steps an interleaving has made.
abbrev pub steps : {file : List ℕ} {s : System} → Reach file s → ℕ
steps here = 0
steps (onward w r e) = suc (steps r)

step-work :
    (file : List ℕ) (w : Who) (s : System) {t : System}
    → Inv file s
    → step file w s ≡ some t
    → work s ≡ suc (work t)
unfolding step
step-work file child s h e = ground arith
step-work file parent s h e = ground arith

-- Every interleaving of exec_fd.c ends: the steps that it has made and those that the two processes
-- have still to make are 32 together.
pub steps-add-work : (file : List ℕ) (s : System) (r : Reach file s) → steps r + work s ≡ 32
steps-add-work file s here = refl
steps-add-work file t (onward {s = s} w r e) =
    omega (arith, steps-add-work file s r, step-work file w s (Reach-Inv file r) e)

-- One process can run, unless both are gone.
enabled :
    (file : List ℕ) (s : System)
    → Inv file s
    → step file child s ≡ none
    → step file parent s ≡ none
    → (s.child_pc ≡ gone) × (s.parent_pc ≡ gone)
unfolding step
enabled file s h c p = ground arith

-- exec_fd.c has no deadlock: where neither process can make a step, both have exited, each has read
-- CYCLE bytes, the names of the semaphores are gone, and the log is that of 2 * CYCLE turns.
pub Reach-finished :
    (file : List ℕ) (s : System)
    → Reach file s
    → step file child s ≡ none
    → step file parent s ≡ none
    → (s.child_pc ≡ gone)
      × (s.parent_pc ≡ gone)
      × (s.i ≡ cycle)
      × (s.j ≡ cycle)
      × (s.names ≡ false)
      × (s.log ≡ turns file (2 * cycle))
Reach-finished file s r c p =
    let h = Reach-Inv file r in
    let (g1, g2) = enabled file s h c p in
    (
      g1,
      g2,
      ground arith,
      ground arith,
      ground arith,
      h.logged ∙ ap (turns file) {x = s.offset} {y = 2 * cycle} (ground arith),
    )

-- A turn of a schedule is a step, or none.
pub run-Reach :
    (file : List ℕ) (ws : List Who) (s : System) → Reach file s → Reach file (run file ws s)
unfolding run
run-Reach file [] s r = r
run-Reach file (w ∷ ws) s r = elim (Option-cases (step file w s)) [
  | inl e ↦
      subst (λ o. Reach file (run file ws (elim o [ none ↦ s | some t ↦ t ]))) (sym e)
        (run-Reach file ws s r)
  | inr (t, e) ↦
      subst (λ o. Reach file (run file ws (elim o [ none ↦ s | some t ↦ t ]))) (sym e)
        (run-Reach file ws t (onward w r e))
]
