-- ===== src/Fork/Sessions.antt =====
-- The children of the forking servers: what the clients get, and what becomes of the processes.
use sys_snippets.Common.{ℕ, ◌≡◌, List, [], true, All, replicate, length}
use sys_snippets.Echo.Line.Laws.{lines, replies, IsShort}
use sys_snippets.Fork.{Talk, Code, success, failure, Job, ended, Done}

-- A client that sends the lines and then closes, with no write that fails.
abbrev pub lines_talk : List (List ℕ) → Talk
lines_talk texts = record {
  named = true;
  writes = replicate (length texts) true;
  reads = lines texts;
}

abbrev code_of : Job → Code
code_of (ended code sent) = code
code_of j = failure

abbrev sent_of : Job → List ℕ
sent_of (ended code sent) = sent
sent_of j = []

abbrev pub Answers : Done → Type 0
Answers d =
    (texts : List (List ℕ))
    → All IsShort texts
    → d.child.talk ≡ lines_talk texts
    → (d.code ≡ success) × (d.sent ≡ replies texts)
