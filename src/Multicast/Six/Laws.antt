-- ===== src/Multicast/Six/Laws.antt =====
-- What the options and the answers of the calls make of multicast/c/mcast6.c.
use sys_snippets.Common.{ℕ, List, [], ◌∷◌, Bool, not, ◌&&◌, Option, none, some, ◌==◌, if◌then◌else◌}
use sys_snippets.Multicast.Options.{notset, server, client, Config}
use sys_snippets.Multicast.Options.Laws.{is_complete}
use sys_snippets.Multicast.Server.{serve, new_server}
use sys_snippets.Multicast.Client.{mcast_client, new_client}
use sys_snippets.Multicast.Six.{
  Answers, SockOpt, reuse_addr, multicast_if, multicast_hops, multicast_loop, Result, usage, failed,
  served, sent, start,
}

abbrev pub all_work : Answers → Bool
all_work a =
    a.socket
    && not (a.ifidx == 0)
    && a.reuse
    && a.interface
    && a.hops
    && a.loopback
    && a.saddr
    && a.maddr
    && a.mreq

abbrev pub options : Answers → Config → List SockOpt
options a c =
    reuse_addr c.loop ∷ multicast_if a.ifidx ∷ multicast_hops c.hops ∷ multicast_loop c.loop ∷ []

abbrev pub decided : Answers → Config → Result
decided a c =
    if is_complete c then if all_work a then start a c (options a c) else failed else usage

abbrev pub text : Option (List ℕ) → List ℕ
text none = []
text (some msg) = msg

-- The server or the client, with no way to a missing message.
abbrev pub runs : Answers → Config → Result
runs a c = elim c.mtype [
  | notset ↦ usage
  | server ↦
      served (options a c) (if a.bound && a.joined then some (serve a.rounds new_server) else none)
  | client ↦ sent (options a c) (
      if c.join && not a.joined
      then none
      else some (mcast_client (text c.message) a.sends new_client))
]

abbrev pub expected : Answers → Config → Result
expected a c = if is_complete c then if all_work a then runs a c else failed else usage
