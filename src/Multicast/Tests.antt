-- ===== src/Multicast/Tests.antt =====
-- Datagrams of a multicast group, and command lines.
use sys_snippets.Common.{
  ℕ, ◌≡◌, refl, List, [], ◌∷◌, ◌++◌, true, some, if◌then◌else◌, replicate, arith,
}
use sys_snippets.Multicast.Server.{
  Round, timed_out, interrupted, select_failed, unready, read_failed, datagram, waiting, stopped,
  overrun, new_server, mcast_server,
}
use sys_snippets.Multicast.Server.Laws.{after_all, mcast_server-Benign, mcast_server-fifth}
use sys_snippets.Multicast.Options.{
  Opt, server_opt, client_opt, addr_opt, intf_opt, port_opt, Answers, Config, default_config,
  server, main, usage, serves,
}
use sys_snippets.Multicast.Options.Laws.{asks_help, decided, settings, main_lem}

abbrev hello : List ℕ
hello = 104 ∷ 105 ∷ []

abbrev busy : List Round
busy = timed_out ∷ datagram hello ∷ interrupted ∷ datagram [] ∷ unready ∷ unready ∷ []

mcast_server-Benign_run :
    (mcast_server true true busy ≡ some (waiting (after_all busy new_server)))
    × (mcast_server true true (busy ++ (select_failed ∷ []))
        ≡ some (stopped (after_all busy new_server)))
    × (mcast_server true true (busy ++ (read_failed ∷ [])) ≡ some overrun)
    × (mcast_server true true (busy ++ (datagram (replicate 256 7) ∷ [])) ≡ some overrun)
mcast_server-Benign_run =
    mcast_server-Benign busy [] (replicate 256 7)
      (tt, (omega arith, (tt, (omega arith, (tt, (tt, tt)))))) (omega arith) (omega arith)

mcast_server-fifth_run :
    mcast_server true true (busy ++ (interrupted ∷ []))
    ≡ some (stopped (record { faults = 5; received = hello ∷ [] }))
mcast_server-fifth_run =
    mcast_server-fifth busy [] interrupted (tt, (omega arith, (tt, (omega arith, (tt, (tt, tt))))))
      tt refl refl

abbrev all_fine : Answers
all_fine = record {
  socket = true;
  reuse = true;
  address = true;
  interface = true;
  ttl = true;
  loopback = true;
  saddr = true;
  maddr = true;
  mreq = true;
}

abbrev line : List Opt
line = client_opt ∷ addr_opt (1 ∷ []) ∷ server_opt ∷ intf_opt (2 ∷ []) ∷ port_opt 65536 ∷ []

main_lem_example :
    main all_fine line
    ≡ (if asks_help line then usage else decided all_fine (settings line default_config))
main_lem_example = main_lem all_fine line

-- The port 65536 passes the check, and is 0 in `sin_port`.
large_port :
    main all_fine line
    ≡ serves
        (record default_config {
          mtype = server;
          addr = some (1 ∷ []);
          ifname = some (2 ∷ []);
          port = 65536;
        })
        0
unfolding main sys_snippets.Multicast.Options.read_opts sys_snippets.Multicast.Options.check_config
    sys_snippets.Multicast.Options.set_up
large_port = refl
