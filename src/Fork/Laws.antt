-- ===== src/Fork/Laws.antt =====
-- What holds of the forking servers in every order of their steps.
use sys_snippets.Common.{
  ℕ, ◌≡◌, refl, ◌∙◌, List, [], ◌∷◌, ◌++◌, Bool, true, false, Option, none, some, erase,
  if◌then◌else◌, All, arith,
}
use sys_snippets.Fork.{
  Job, blocked, ended, faulty, Child, Done, System, Event, accept_interrupted, accept_failed,
  fork_failed, forks, goes_on, sigchld, take_child, with_job, with_child, fork_child, chld_handler,
  Server, exits, step, run,
}

-- A child did what its own calls say, and no more.
abbrev pub IsRight : Server → Done → Type 0
IsRight v d = v.job d.child.talk ≡ ended d.code d.sent

-- The parent holds no connection.
abbrev pub HoldsNone : Option (List ℕ) → Type 0
HoldsNone none = Unit
HoldsNone (some fds) = fds ≡ []

pub record IsSound (v : Server) (s : System) : Type 0 where
  pub parent : HoldsNone s.parent
  pub zombies : All (IsRight v) s.zombies
  pub reaped : All (IsRight v) s.reaped

All-append : {A : Type 0} (P : A → Type 0) (xs ys : List A) → All P xs → All P ys → All P (xs ++ ys)
All-append P [] ys h k = k
All-append P (x ∷ xs) ys (h, hs) k = (h, All-append P xs ys hs k)

with_job-IsSound :
    (v : Server) (c : Child) (rest : List Child) (j : Job) (s : System)
    → v.job c.talk ≡ j
    → IsSound v s
    → IsSound v (with_job c rest j s)
with_job-IsSound v c rest blocked s e h = h
with_job-IsSound v c rest (ended code sent) s e h = record {
  parent = h.parent;
  zombies =
      All-append (IsRight v) s.zombies (record { child = c; code = code; sent = sent } ∷ [])
        h.zombies (e, tt);
  reaped = h.reaped;
}
with_job-IsSound v c rest faulty s e h = record {
  parent = h.parent;
  zombies = h.zombies;
  reaped = h.reaped;
}

with_child-IsSound :
    (v : Server) (o : Option (Child × List Child)) (s : System)
    → IsSound v s
    → IsSound v (with_child v.job o s)
with_child-IsSound v none s h = h
with_child-IsSound v (some (c, rest)) s h = with_job-IsSound v c rest (v.job c.talk) s refl h

fork_child-IsSound :
    (v : Server) (c : Child) (o : Option (List ℕ)) (s : System)
    → HoldsNone o
    → IsSound v s
    → IsSound v (fork_child c o s)
fork_child-IsSound v c none s held h = h
fork_child-IsSound v c (some fds) s held h = record {
  parent = erase_first c.fd fds ∙ held;
  zombies = h.zombies;
  reaped = h.reaped;
}
  where
    erase_first : (a : ℕ) (xs : List ℕ) → erase a (a ∷ xs) ≡ xs
    erase_first a xs = ground arith

chld_handler-IsSound :
    (v : Server) (o : Option (List ℕ)) (s : System) → IsSound v s → IsSound v (chld_handler o s)
chld_handler-IsSound v none s h = h
chld_handler-IsSound v (some fds) s h = record {
  parent = h.parent;
  zombies = tt;
  reaped = All-append (IsRight v) s.reaped s.zombies h.reaped h.zombies;
}

exits-IsSound : (v : Server) (s : System) → IsSound v s → IsSound v (exits s)
exits-IsSound v s h = record { parent = tt; zombies = h.zombies; reaped = h.reaped }

if-IsSound :
    (v : Server) (b : Bool) (s t : System)
    → IsSound v s
    → IsSound v t
    → IsSound v (if b then s else t)
if-IsSound v true s t h k = h
if-IsSound v false s t h k = k

step-IsSound : (v : Server) (e : Event) (s : System) → IsSound v s → IsSound v (step v e s)
unfolding step
step-IsSound v accept_interrupted s h =
    if-IsSound v v.goes_on_after_eintr s (exits s) h (exits-IsSound v s h)
step-IsSound v accept_failed s h = exits-IsSound v s h
step-IsSound v (fork_failed fd) s h = exits-IsSound v s h
step-IsSound v (forks c) s h = fork_child-IsSound v c s.parent s h.parent h
step-IsSound v (goes_on pid) s h = with_child-IsSound v (take_child pid s.running) s h
step-IsSound v sigchld s h =
    if-IsSound v v.waits (chld_handler s.parent s) s (chld_handler-IsSound v s.parent s h) h

-- In every order of the steps of a forking server the parent holds no connection between them, and each
-- child that is done did what the calls on its own connection say, whatever the others do.
pub run-IsSound : (v : Server) (es : List Event) (s : System) → IsSound v s → IsSound v (run v es s)
unfolding run
run-IsSound v [] s h = h
run-IsSound v (e ∷ es) s h = run-IsSound v es (step v e s) (step-IsSound v e s h)
