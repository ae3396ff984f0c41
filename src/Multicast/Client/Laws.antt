-- ===== src/Multicast/Client/Laws.antt =====
-- The client of multicast/c/mcast4.c numbers its packets, and the server of that file reads them.
use sys_snippets.Common.{ℕ, suc, ◌+◌, List, [], ◌∷◌, Bool, true, false}
use sys_snippets.Multicast.Client.{Client, packet}

-- How often `sendto` fails.
abbrev pub failures : List Bool → ℕ
failures [] = 0
failures (true ∷ more) = failures more
failures (false ∷ more) = suc (failures more)

-- The packets that go through, numbered from `n` on by the rounds.
abbrev pub delivered : List ℕ → ℕ → List Bool → List (List ℕ)
delivered msg n [] = []
delivered msg n (true ∷ more) = packet msg n ∷ delivered msg (n + 1) more
delivered msg n (false ∷ more) = delivered msg (n + 1) more
