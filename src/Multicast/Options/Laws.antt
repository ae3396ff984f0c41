-- ===== src/Multicast/Options/Laws.antt =====
-- What the options and the answers of the calls make of `main` of multicast/c/mcast4.c.
use sys_snippets.Common.{
  ℕ, ◌≡◌, refl, List, [], ◌∷◌, Bool, true, false, not, ◌&&◌, Option, none, some, ◌==◌, inl, inr,
  Bool-cases, if◌then◌else◌, arith,
}
use sys_snippets.Multicast.Options.{
  ToolType, notset, server, client, Opt, client_opt, server_opt, addr_opt, port_opt, intf_opt,
  message_opt, hexdump_opt, hops_opt, noloop_opt, cont_opt, nojoin_opt, help_opt, Config,
  default_config, read_opts, Answers, Run, usage, failed, start, set_up, check_config, main,
}

-- What the last option of a kind says, `d` if there is none.
abbrev pub last : {A : Type 0} → (Opt → Option A) → A → List Opt → A
last f d [] = d
last f d (o ∷ os) = last f (elim (f o) [ none ↦ d | some x ↦ x ]) os

abbrev pub type_of : Opt → Option ToolType
type_of client_opt = some client
type_of server_opt = some server
type_of o = none

abbrev pub addr_of : Opt → Option (Option (List ℕ))
addr_of (addr_opt a) = some (some a)
addr_of o = none

abbrev pub port_of : Opt → Option ℕ
port_of (port_opt n) = some n
port_of o = none

abbrev pub intf_of : Opt → Option (Option (List ℕ))
intf_of (intf_opt i) = some (some i)
intf_of o = none

abbrev pub message_of : Opt → Option (Option (List ℕ))
message_of (message_opt m) = some (some m)
message_of o = none

abbrev pub hops_of : Opt → Option ℕ
hops_of (hops_opt n) = some n
hops_of o = none

abbrev pub dump_of : Opt → Option Bool
dump_of hexdump_opt = some true
dump_of o = none

abbrev pub loop_of : Opt → Option Bool
loop_of noloop_opt = some false
loop_of o = none

abbrev pub cont_of : Opt → Option Bool
cont_of cont_opt = some true
cont_of o = none

abbrev pub join_of : Opt → Option Bool
join_of nojoin_opt = some false
join_of o = none

abbrev pub asks_help : List Opt → Bool
asks_help [] = false
asks_help (help_opt ∷ os) = true
asks_help (o ∷ os) = asks_help os

-- Each variable apart.
abbrev pub settings : List Opt → Config → Config
settings os c = record {
  mtype = last type_of c.mtype os;
  addr = last addr_of c.addr os;
  port = last port_of c.port os;
  ifname = last intf_of c.ifname os;
  message = last message_of c.message os;
  dump = last dump_of c.dump os;
  hops = last hops_of c.hops os;
  loop = last loop_of c.loop os;
  cont = last cont_of c.cont os;
  join = last join_of c.join os;
}

pub read_opts_lem :
    (os : List Opt) (c : Config)
    → read_opts os c ≡ (if asks_help os then none else some (settings os c))
unfolding read_opts
read_opts_lem [] c = refl
read_opts_lem (client_opt ∷ os) c = read_opts_lem os (record c { mtype = client })
read_opts_lem (server_opt ∷ os) c = read_opts_lem os (record c { mtype = server })
read_opts_lem (addr_opt a ∷ os) c = read_opts_lem os (record c { addr = some a })
read_opts_lem (port_opt n ∷ os) c = read_opts_lem os (record c { port = n })
read_opts_lem (intf_opt i ∷ os) c = read_opts_lem os (record c { ifname = some i })
read_opts_lem (message_opt m ∷ os) c = read_opts_lem os (record c { message = some m })
read_opts_lem (hexdump_opt ∷ os) c = read_opts_lem os (record c { dump = true })
read_opts_lem (hops_opt n ∷ os) c = read_opts_lem os (record c { hops = n })
read_opts_lem (noloop_opt ∷ os) c = read_opts_lem os (record c { loop = false })
read_opts_lem (cont_opt ∷ os) c = read_opts_lem os (record c { cont = true })
read_opts_lem (nojoin_opt ∷ os) c = read_opts_lem os (record c { join = false })
read_opts_lem (help_opt ∷ os) c = refl

abbrev pub has_text : Option (List ℕ) → Bool
has_text none = false
has_text (some s) = true

-- Nothing is missing for the server or for the client.
abbrev pub is_complete : Config → Bool
is_complete c = elim c.mtype [
  | notset ↦ false
  | server ↦ not (c.port == 0) && has_text c.addr && has_text c.ifname
  | client ↦ not (c.port == 0) && has_text c.addr && has_text c.ifname && has_text c.message
]

abbrev pub all_work : Answers → Bool
all_work a =
    a.socket && a.reuse && a.address && a.interface && a.ttl && a.loopback && a.saddr && a.maddr
    && a.mreq

abbrev pub decided : Answers → Config → Run
decided a c = if is_complete c then if all_work a then start c else failed else usage

set_up_lem : (a : Answers) (c : Config) → set_up a c ≡ (if all_work a then start c else failed)
unfolding set_up
set_up_lem a c = ground arith

check_config_lem : (a : Answers) (c : Config) → check_config a c ≡ decided a c
unfolding check_config
check_config_lem a c = ground (arith, set_up_lem a c)

-- Without a help option or an unknown one `main` sets each variable to what the last option for it
-- says. It then starts the server or the client exactly if nothing that this one needs is missing and
-- every call of the set-up works; else it exits, with the usage if something is missing.
pub main_lem :
    (a : Answers) (os : List Opt)
    → main a os ≡ (if asks_help os then usage else decided a (settings os default_config))
unfolding main
main_lem a os = elim (Bool-cases (asks_help os)) [
  | inl e ↦ rw (e, main, read_opts_lem os default_config) (rw e refl)
  | inr e ↦
      rw (e, main, read_opts_lem os default_config)
        (rw e (check_config_lem a (settings os default_config)))
]
