-- ===== src/Multicast/Six.antt =====
-- The program multicast/c/mcast6.c as a whole. Its options and its two loops are those of mcast4.c
-- (Multicast.Options, Multicast.Server, Multicast.Client); its set-up is its own.
use sys_snippets.Common.{
  ℕ, List, [], ◌∷◌, Bool, true, false, not, ◌||◌, Option, none, some, ◌==◌, if◌then◌else◌,
}
use sys_snippets.Multicast.Options.{
  server, client, notset, Opt, Config, default_config, read_opts, is_null,
}
use sys_snippets.Multicast.Server.{Round, End, mcast_server}
use sys_snippets.Multicast.Client.{Client, mcast_client, new_client}
pub mod Laws
pub mod Sessions
mod Tests

-- What the calls answer, in their order: whether they go through, the index that if_nametoindex gives
-- (0 if none), what select and read give in each round of the server, and whether each sendto works.
pub record Answers : Type 0 where
  pub socket : Bool
  pub ifidx : ℕ
  pub reuse : Bool
  pub interface : Bool
  pub hops : Bool
  pub loopback : Bool
  pub saddr : Bool
  pub maddr : Bool
  pub mreq : Bool
  pub bound : Bool
  pub joined : Bool
  pub rounds : List Round
  pub sends : List Bool

-- An option that setsockopt gives the socket.
pub data SockOpt : Type 0 where
  reuse_addr : Bool → SockOpt
  multicast_if : ℕ → SockOpt
  multicast_hops : ℕ → SockOpt
  multicast_loop : Bool → SockOpt

-- The usage and exit(0), exit(-1), a `main` of no tool type, the client without a message, or the options
-- of the socket and what the server or the client comes to; `none` is its -1.
pub data Result : Type 0 where
  usage failed no_tool null_message : Result
  served : List SockOpt → Option End → Result
  sent : List SockOpt → Option Client → Result

-- `mcast_client` with its IP_ADD_MEMBERSHIP.
unfoldable pub join_and_send : Bool → Answers → List ℕ → Option Client
unfolding mcast_client
join_and_send join a msg =
    let end = mcast_client msg a.sends new_client in
    if join then if a.joined then some end else none else some end

abbrev pub on_message : Option (List ℕ) → (List ℕ → Result) → Result
on_message none k = null_message
on_message (some msg) k = k msg

-- The second `switch (mtype)`.
unfoldable pub start : Answers → Config → List SockOpt → Result
unfolding join_and_send mcast_server
start a c opts = elim c.mtype [
  | notset ↦ no_tool
  | server ↦ served opts (mcast_server a.bound a.joined a.rounds)
  | client ↦ on_message c.message λ msg. sent opts (join_and_send c.join a msg)
]

-- From `socket` to the last `calloc`. SO_REUSEADDR is handed `&loop`.
unfoldable pub set_up : Answers → Config → Result
unfolding start
set_up a c =
    if not a.socket
    then failed
    else if a.ifidx == 0
    then failed
    else if not a.reuse
    then failed
    else if not a.interface
    then failed
    else if not a.hops
    then failed
    else if not a.loopback
    then failed
    else if not a.saddr
    then failed
    else if not a.maddr
    then failed
    else if not a.mreq
    then failed
    else start a c (
        reuse_addr c.loop
        ∷ multicast_if a.ifidx
        ∷ multicast_hops c.hops
        ∷ multicast_loop c.loop
        ∷ [])

-- The first `switch (mtype)`.
unfoldable pub check_config : Answers → Config → Result
unfolding set_up
check_config a c = elim c.mtype [
  | notset ↦ usage
  | server ↦ if c.port == 0 || is_null c.addr || is_null c.ifname then usage else set_up a c
  | client ↦
      if c.port == 0 || is_null c.addr || is_null c.ifname || is_null c.message
      then usage
      else set_up a c
]

unfoldable pub main : Answers → List Opt → Result
unfolding check_config read_opts
main a os = elim (read_opts os default_config) [ none ↦ usage | some c ↦ check_config a c ]
