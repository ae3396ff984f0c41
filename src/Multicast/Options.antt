-- ===== src/Multicast/Options.antt =====
-- `main` of multicast/c/mcast4.c: the options, their check, and the set-up of the socket.
use sys_snippets.Common.{
  ℕ, ◌%◌, ◌^◌, ◌≡◌, refl, List, [], ◌∷◌, Bool, true, false, not, ◌&&◌, ◌||◌, Option, none, some,
  ◌==◌, if◌then◌else◌, arith,
}
pub mod Laws

-- `enum tool_type`
pub data ToolType : Type 0 where
  notset : ToolType
  server : ToolType
  client : ToolType

-- An answer of `getopt_long`: an option, with its argument, after `atoi` (the pattern of an `int`)
-- where the code calls it. `help` is also an option that is not known.
pub data Opt : Type 0 where
  client_opt : Opt
  server_opt : Opt
  addr_opt : List ℕ → Opt
  port_opt : ℕ → Opt
  intf_opt : List ℕ → Opt
  message_opt : List ℕ → Opt
  hexdump_opt : Opt
  hops_opt : ℕ → Opt
  noloop_opt : Opt
  cont_opt : Opt
  nojoin_opt : Opt
  help_opt : Opt

-- The variables of `main` that the options set.
pub record Config : Type 0 where
  pub mtype : ToolType
  pub addr : Option (List ℕ)
  pub port : ℕ
  pub ifname : Option (List ℕ)
  pub message : Option (List ℕ)
  pub dump : Bool
  pub hops : ℕ
  pub loop : Bool
  pub cont : Bool
  pub join : Bool

abbrev pub default_config : Config
default_config = record {
  mtype = notset;
  addr = none;
  port = 9999;
  ifname = none;
  message = none;
  dump = false;
  hops = 255;
  loop = true;
  cont = false;
  join = true;
}

-- The `while` loop over the options; none where the process exits.
unfoldable pub read_opts : List Opt → Config → Option Config
read_opts [] c = some c
read_opts (client_opt ∷ os) c = read_opts os (record c { mtype = client })
read_opts (server_opt ∷ os) c = read_opts os (record c { mtype = server })
read_opts (addr_opt a ∷ os) c = read_opts os (record c { addr = some a })
read_opts (port_opt n ∷ os) c = read_opts os (record c { port = n })
read_opts (intf_opt i ∷ os) c = read_opts os (record c { ifname = some i })
read_opts (message_opt m ∷ os) c = read_opts os (record c { message = some m })
read_opts (hexdump_opt ∷ os) c = read_opts os (record c { dump = true })
read_opts (hops_opt n ∷ os) c = read_opts os (record c { hops = n })
read_opts (noloop_opt ∷ os) c = read_opts os (record c { loop = false })
read_opts (cont_opt ∷ os) c = read_opts os (record c { cont = true })
read_opts (nojoin_opt ∷ os) c = read_opts os (record c { join = false })
read_opts (help_opt ∷ os) c = none

abbrev pub is_null : Option (List ℕ) → Bool
is_null none = true
is_null (some s) = false

-- Which calls of the set-up go through, in their order.
pub record Answers : Type 0 where
  pub socket : Bool
  pub reuse : Bool
  pub address : Bool
  pub interface : Bool
  pub ttl : Bool
  pub loopback : Bool
  pub saddr : Bool
  pub maddr : Bool
  pub mreq : Bool

-- How `main` goes on: the usage and exit(0), exit(-1), or the server or the client with the port in
-- `sin_port`, before `htons` swaps its bytes.
pub data Run : Type 0 where
  usage : Run
  failed : Run
  serves : Config → ℕ → Run
  sends : Config → ℕ → Run

-- `uint16_t` of an `int`.
abbrev pub sin_port : Config → ℕ
sin_port c = c.port % 2 ^ 16

-- The second `switch (mtype)`.
abbrev pub start : Config → Run
start c = elim c.mtype [
  | notset ↦ failed
  | server ↦ serves c (sin_port c)
  | client ↦ sends c (sin_port c)
]

-- From `socket` to the last `calloc`.
unfoldable pub set_up : Answers → Config → Run
set_up a c =
    if not a.socket
    then failed
    else if not a.reuse
    then failed
    else if not a.address
    then failed
    else if not a.interface
    then failed
    else if not a.ttl
    then failed
    else if not a.loopback
    then failed
    else if not a.saddr
    then failed
    else if not a.maddr
    then failed
    else if not a.mreq
    then failed
    else start c

-- The first `switch (mtype)`.
unfoldable pub check_config : Answers → Config → Run
unfolding set_up
check_config a c = elim c.mtype [
  | notset ↦ usage
  | server ↦ if c.port == 0 || is_null c.addr || is_null c.ifname then usage else set_up a c
  | client ↦
      if c.port == 0 || is_null c.addr || is_null c.ifname || is_null c.message
      then usage
      else set_up a c
]

unfoldable pub main : Answers → List Opt → Run
unfolding check_config read_opts
main a os = elim (read_opts os default_config) [ none ↦ usage | some c ↦ check_config a c ]
