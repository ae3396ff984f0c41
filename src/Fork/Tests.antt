-- ===== src/Fork/Tests.antt =====
-- Two clients of s_fork.c.
use sys_snippets.Common.{List, [], ◌∷◌, true}
use sys_snippets.Fork.{Child, Event, accept_interrupted, forks, goes_on, sigchld}
use sys_snippets.Fork.Sessions.{lines_talk}

abbrev hi : Child
hi = record { pid = 100; fd = 4; talk = lines_talk ((104 ∷ 105 ∷ []) ∷ []) }

abbrev silent : Child
silent = record { pid = 101; fd = 4; talk = record { named = true; writes = []; reads = [] } }

abbrev busy : List Event
busy = forks hi ∷ forks silent ∷ goes_on 101 ∷ goes_on 100 ∷ sigchld ∷ accept_interrupted ∷ []
