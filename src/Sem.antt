-- ===== src/Sem.antt =====
-- sem/exec_fd.c: a parent and its child read one file in turn, by two semaphores.
-- A process runs its loop body as three steps: `sem_wait`, `read` with the `printf` of the byte,
-- and `sem_post`. A schedule says whose turn it is.
pub mod Turns
pub mod Progress
mod Tests
use sys_snippets.Common.{
  ℕ, zero, suc, ◌+◌, ◌-◌, ◌≡◌, List, [], ◌∷◌, ◌++◌, Bool, true, false, Option, none, some,
  get_elem?, ltb, ◌==◌, if◌then◌else◌,
}

-- `#define CYCLE 5`
abbrev pub cycle : ℕ
cycle = 5

pub data Who : Type 0 where
  child parent : Who

-- Where a process stands: at the `sem_wait` of its loop, behind it, at the `sem_post`, behind the
-- loop, or gone by `exit(0)`.
pub data Pc : Type 0 where
  at_wait at_read at_post behind gone : Pc

-- `lock_a` and `lock_b` are the values of the semaphores, `offset` counts the reads of the processes: it is
-- the file position that they share up to the end of the file, where the position stays and each further
-- read has no byte, as here; `names` says that the semaphores have their names. `log` is what was printed,
-- oldest first; a read at the end of the file (`none`) prints whatever `c` held.
pub record System : Type 0 where
  pub lock_a : ℕ
  pub lock_b : ℕ
  pub offset : ℕ
  pub names : Bool
  pub child_pc : Pc
  pub parent_pc : Pc
  pub i : ℕ
  pub j : ℕ
  pub log : List (Who × Option ℕ)

-- Behind `fork`, where `sem_open` made the semaphores with 1 and 0.
abbrev pub start : System
start = record {
  lock_a = 1;
  lock_b = 0;
  offset = 0;
  names = true;
  child_pc = at_wait;
  parent_pc = at_wait;
  i = 0;
  j = 0;
  log = [];
}

-- The head of a `for` loop that has run `n` times.
abbrev pub loop_head : ℕ → Pc
loop_head n = if ltb n cycle then at_wait else behind

-- `read(fd, &c, 1)` and the `printf`, by either process.
unfoldable pub read_byte : List ℕ → Who → System → System
read_byte file w s = record s {
  offset = s.offset + 1;
  log = s.log ++ ((w, get_elem? file s.offset) ∷ []);
}

-- One step of the child; `none` if it cannot run.
unfoldable pub step_child : List ℕ → System → Pc → Option System
unfolding read_byte
step_child file s at_wait =
    if s.lock_a == 0 then none else some (record s { lock_a = s.lock_a - 1; child_pc = at_read })
step_child file s at_read = some (record (read_byte file child s) { child_pc = at_post })
step_child file s at_post =
    some (record s { lock_b = s.lock_b + 1; i = s.i + 1; child_pc = loop_head (s.i + 1) })
step_child file s behind = some (record s { child_pc = gone })
step_child file s gone = none

-- One step of the parent, which takes the names of the semaphores away behind its loop.
unfoldable pub step_parent : List ℕ → System → Pc → Option System
unfolding read_byte
step_parent file s at_wait =
    if s.lock_b == 0 then none else some (record s { lock_b = s.lock_b - 1; parent_pc = at_read })
step_parent file s at_read = some (record (read_byte file parent s) { parent_pc = at_post })
step_parent file s at_post =
    some (record s { lock_a = s.lock_a + 1; j = s.j + 1; parent_pc = loop_head (s.j + 1) })
step_parent file s behind = some (record s { parent_pc = gone; names = false })
step_parent file s gone = none

unfoldable pub step : List ℕ → Who → System → Option System
unfolding step_child step_parent
step file child s = step_child file s s.child_pc
step file parent s = step_parent file s s.parent_pc

-- The states that some interleaving leads to.
pub data Reach (file : List ℕ) : System → Type 0 where
  here : Reach file start
  onward : {s t : System} (w : Who) → Reach file s → step file w s ≡ some t → Reach file t

-- A schedule as a list of turns; a turn of a process that cannot run changes nothing.
unfoldable pub run : List ℕ → List Who → System → System
unfolding step
run file [] s = s
run file (w ∷ ws) s = run file ws (elim (step file w s) [ none ↦ s | some t ↦ t ])
