-- ===== src/Fork.antt =====
-- The servers that fork a child for each connection: tcp/c/echo/s_fork.c and tcp/c/time/s_time_fork.c.
-- The parent, its children and the arrival of SIGCHLD take their steps in any order, as a list of events.
use sys_snippets.Common.{
  ℕ, List, [], ◌∷◌, ◌++◌, Bool, true, false, Option, none, some, erase, ◌==◌, if◌then◌else◌,
}
use sys_snippets.Echo.Line.{
  Read, Echoed, undefined, blocks, returned, plus_one, zero_ret, minus_one, serve,
}
pub mod Laws
pub mod Sessions
mod Tests

-- What the calls of a child answer: getpeername, the writes, and the reads.
pub record Talk : Type 0 where
  pub named : Bool
  pub writes : List Bool
  pub reads : List Read

pub data Code : Type 0 where
  success failure : Code

-- What a child comes to: it is blocked in a call, it exits, having sent some bytes, or its behaviour is
-- undefined.
pub data Job : Type 0 where
  blocked : Job
  ended : Code → List ℕ → Job
  faulty : Job

abbrev pub on_echoed : Echoed → Job
on_echoed undefined = faulty
on_echoed blocks = blocked
on_echoed (returned minus_one sent) = ended failure sent
on_echoed (returned zero_ret sent) = ended success sent
on_echoed (returned plus_one sent) = ended success sent

-- `if (pid == 0)` of s_fork.c
unfoldable pub echo_child : Talk → Job
unfolding serve
echo_child t = if t.named then on_echoed (serve t.writes t.reads []) else ended failure []

-- `if (pid == 0)` of s_time_fork.c, with the text of the time.
abbrev pub on_write : List ℕ → List Bool → Job
on_write text [] = blocked
on_write text (true ∷ ws) = ended success text
on_write text (false ∷ ws) = ended failure []

unfoldable pub time_child : List ℕ → Talk → Job
time_child text t = if t.named then on_write text t.writes else ended failure []

-- A child with its connection, and one that is done.
pub record Child : Type 0 where
  pub pid : ℕ
  pub fd : ℕ
  pub talk : Talk

pub record Done : Type 0 where
  pub child : Child
  pub code : Code
  pub sent : List ℕ

-- The parent's open connections (none if it has exited), and the children: those that run, those that are
-- done but not waited for, those that waitpid gave, and those of undefined behaviour.
pub record System : Type 0 where
  pub parent : Option (List ℕ)
  pub running : List Child
  pub zombies : List Done
  pub reaped : List Done
  pub lost : List Child

abbrev pub new_system : System
new_system = record { parent = some []; running = []; zombies = []; reaped = []; lost = [] }

-- accept is interrupted, or fails, or gives a connection for which fork fails or makes a child; a child
-- goes on to its end, if nothing blocks it; SIGCHLD comes to the parent.
pub data Event : Type 0 where
  accept_interrupted accept_failed : Event
  fork_failed : ℕ → Event
  forks : Child → Event
  goes_on : ℕ → Event
  sigchld : Event

-- The first child of that pid, and the others.
abbrev pub take_child : ℕ → List Child → Option (Child × List Child)
take_child pid [] = none
take_child pid (c ∷ cs) =
    if c.pid == pid
    then some (c, cs)
    else elim (take_child pid cs) [ none ↦ none | some (d, rest) ↦ some (d, c ∷ rest) ]

abbrev pub with_job : Child → List Child → Job → System → System
with_job c rest blocked s = s
with_job c rest (ended code sent) s = record s {
  running = rest;
  zombies = s.zombies ++ (record { child = c; code = code; sent = sent } ∷ []);
}
with_job c rest faulty s = record s { running = rest; lost = c ∷ s.lost }

abbrev pub with_child : (Talk → Job) → Option (Child × List Child) → System → System
with_child job none s = s
with_child job (some (c, rest)) s = with_job c rest (job c.talk) s

-- The connection is opened, inherited by the child, and closed by the parent.
abbrev pub fork_child : Child → Option (List ℕ) → System → System
fork_child c none s = s
fork_child c (some fds) s = record s {
  parent = some (erase c.fd (c.fd ∷ fds));
  running = s.running ++ (c ∷ []);
}

-- `chld_handler`, which waits for all that are done, without blocking; a parent that has exited has none.
abbrev pub chld_handler : Option (List ℕ) → System → System
chld_handler none s = s
chld_handler (some fds) s = record s { zombies = []; reaped = s.reaped ++ s.zombies }

-- A server: what its children do, whether it goes on after EINTR, and whether it waits for its children.
pub record Server : Type 0 where
  pub job : Talk → Job
  pub goes_on_after_eintr : Bool
  pub waits : Bool

abbrev pub s_fork : Server
s_fork = record { job = echo_child; goes_on_after_eintr = true; waits = true }

abbrev pub s_time_fork : List ℕ → Server
s_time_fork text = record { job = time_child text; goes_on_after_eintr = false; waits = false }

abbrev pub exits : System → System
exits s = record s { parent = none }

unfoldable pub step : Server → Event → System → System
step v accept_interrupted s = if v.goes_on_after_eintr then s else exits s
step v accept_failed s = exits s
step v (fork_failed fd) s = exits s
step v (forks c) s = fork_child c s.parent s
step v (goes_on pid) s = with_child v.job (take_child pid s.running) s
step v sigchld s = if v.waits then chld_handler s.parent s else s

unfoldable pub run : Server → List Event → System → System
unfolding step
run v [] s = s
run v (e ∷ es) s = run v es (step v e s)
