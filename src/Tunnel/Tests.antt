-- ===== src/Tunnel/Tests.antt =====
-- Packets both ways.
use sys_snippets.Common.{◌≡◌, [], ◌∷◌, arith}
use sys_snippets.Tunnel.{not_ready, carried, running, tunnel, tunnel_lem}

both_ways :
    tunnel
      ((carried (1 ∷ 0 ∷ []), not_ready) ∷ (carried (2 ∷ []), carried (3 ∷ [])) ∷ [])
      (record { to_sock = []; to_tun = [] })
    ≡ running (record { to_sock = (1 ∷ 0 ∷ []) ∷ (2 ∷ []) ∷ []; to_tun = (3 ∷ []) ∷ [] })
both_ways =
    tunnel_lem ((carried (1 ∷ 0 ∷ []), not_ready) ∷ (carried (2 ∷ []), carried (3 ∷ [])) ∷ [])
      (record { to_sock = []; to_tun = [] }) ((omega arith, tt), ((omega arith, omega arith), tt))
