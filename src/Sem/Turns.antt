-- ===== src/Sem/Turns.antt =====
-- The turns that the two semaphores of exec_fd.c enforce.
use native.Mathlib.Numerals.{add-one}
use sys_snippets.Common.{
  ℕ, zero, suc, ◌+◌, ◌*◌, ◌%◌, ◌≤◌, ◌<◌, ◌≡◌, List, [], ◌∷◌, ◌++◌, Bool, true, false, Option, some,
  get_elem?, ◌==◌, if◌then◌else◌, arith,
}
use sys_snippets.Sem.{
  cycle, Who, child, parent, Pc, at_wait, at_read, at_post, behind, gone, System, start, step,
  Reach, here, onward,
}

-- A process holds the turn between its `sem_wait` and its `sem_post`.
abbrev pub busy : Pc → ℕ
busy at_wait = 0
busy at_read = 1
busy at_post = 1
busy behind = 0
busy gone = 0

-- The read of the round under way is done.
abbrev pub has_read : Pc → ℕ
has_read at_wait = 0
has_read at_read = 0
has_read at_post = 1
has_read behind = 0
has_read gone = 0

-- Whose turn the k-th read is.
abbrev pub reader : ℕ → Who
reader k = if k % 2 == 0 then child else parent

-- The reads from the k-th on, as `n` turns of child and parent make them.
abbrev pub turns : List ℕ → ℕ → List (Who × Option ℕ)
turns file zero = []
turns file (suc n) = turns file n ++ ((reader n, get_elem? file n) ∷ [])

abbrev AtLoop : Pc → ℕ → Type 0
AtLoop at_wait n = n < cycle
AtLoop at_read n = n < cycle
AtLoop at_post n = n < cycle
AtLoop behind n = n ≡ cycle
AtLoop gone n = n ≡ cycle

abbrev named : Pc → Bool
named gone = false
named _ = true

-- What holds in every state of every interleaving.
pub record Inv (file : List ℕ) (s : System) : Type 0 where
  pub one_turn : s.lock_a + s.lock_b + busy s.child_pc + busy s.parent_pc ≡ 1
  pub order : s.i ≡ s.j + s.lock_b + busy s.parent_pc
  pub reads : s.offset ≡ s.i + has_read s.child_pc + s.j + has_read s.parent_pc
  pub child_loop : AtLoop s.child_pc s.i
  pub parent_loop : AtLoop s.parent_pc s.j
  pub logged : s.log ≡ turns file s.offset
  pub names_kept : s.names ≡ named s.parent_pc

start-Inv : (file : List ℕ) → Inv file start
start-Inv file = ground arith

turns-child :
    (file : List ℕ) (n : ℕ)
    → n % 2 ≡ 0
    → turns file (n + 1) ≡ turns file n ++ ((child, get_elem? file n) ∷ [])
turns-child file n h = rw add-one (ground arith)

turns-parent :
    (file : List ℕ) (n : ℕ)
    → n % 2 ≡ 1
    → turns file (n + 1) ≡ turns file n ++ ((parent, get_elem? file n) ∷ [])
turns-parent file n h = rw add-one (ground arith)

step_child-Inv :
    (file : List ℕ) (s : System) {t : System} → Inv file s → step file child s ≡ some t → Inv file t
unfolding step
step_child-Inv file s h e = ground (arith, turns-child file s.offset)

step_parent-Inv :
    (file : List ℕ) (s : System) {t : System}
    → Inv file s
    → step file parent s ≡ some t
    → Inv file t
unfolding step
step_parent-Inv file s h e = ground (arith, turns-parent file s.offset)

pub Reach-Inv : (file : List ℕ) {s : System} → Reach file s → Inv file s
Reach-Inv file here = start-Inv file
Reach-Inv file (onward {s = s} child r e) = step_child-Inv file s (Reach-Inv file r) e
Reach-Inv file (onward {s = s} parent r e) = step_parent-Inv file s (Reach-Inv file r) e

-- In every state that an interleaving of exec_fd.c leads to, at most one of the processes is between
-- its `sem_wait` and its `sem_post`, and what was printed is the beginning of the file, byte by byte
-- in order, by child and parent in turn, the child first; at most 2 * CYCLE bytes.
pub Reach-turns :
    (file : List ℕ) (s : System)
    → Reach file s
    → (busy s.child_pc + busy s.parent_pc ≤ 1)
      × (s.log ≡ turns file s.offset)
      × (s.offset ≤ 2 * cycle)
Reach-turns file s r =
    let h = Reach-Inv file r in (omega (arith, h.one_turn), h.logged, ground (arith, h))
