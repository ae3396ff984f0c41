-- ===== src/Multicast/Six/Tests.antt =====
-- Command lines of mcast6.c.
use sys_snippets.Common.{ℕ, ◌≡◌, refl, List, [], ◌∷◌, true, false, map}
use sys_snippets.Multicast.Options.{
  Opt, client_opt, server_opt, addr_opt, intf_opt, message_opt, noloop_opt, default_config,
}
use sys_snippets.Multicast.Options.Laws.{settings}
use sys_snippets.Multicast.Server.{datagram}
use sys_snippets.Multicast.Client.Laws.{delivered}
use sys_snippets.Multicast.Six.{Answers, reuse_addr, multicast_if, multicast_hops, multicast_loop}
use sys_snippets.Multicast.Six.Laws.{options}

abbrev hello : List ℕ
hello = 104 ∷ 105 ∷ []

-- The second sendto fails.
abbrev sender : Answers
sender = record {
  socket = true;
  ifidx = 2;
  reuse = true;
  interface = true;
  hops = true;
  loopback = true;
  saddr = true;
  maddr = true;
  mreq = true;
  bound = true;
  joined = true;
  rounds = [];
  sends = true ∷ false ∷ true ∷ [];
}

abbrev reader : Answers
reader = record sender { rounds = map datagram (delivered hello 0 sender.sends); sends = [] }

abbrev client_line : List Opt
client_line =
    client_opt ∷ addr_opt (1 ∷ []) ∷ intf_opt (2 ∷ []) ∷ message_opt hello ∷ noloop_opt ∷ []

abbrev server_line : List Opt
server_line = server_opt ∷ addr_opt (1 ∷ []) ∷ intf_opt (2 ∷ []) ∷ []

-- With --noloop the address is not shared.
noloop_options :
    options sender (settings client_line default_config)
    ≡ reuse_addr false ∷ multicast_if 2 ∷ multicast_hops 255 ∷ multicast_loop false ∷ []
noloop_options = refl
