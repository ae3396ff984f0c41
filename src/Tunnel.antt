-- ===== src/Tunnel.antt =====
-- tun-tap/tunnel.c: the loop that carries packets between a tun device and a UDP socket.
use sys_snippets.Common.{
  ℕ, ◌≤◌, ◌≡◌, refl, ap, sym, ◌∙◌, List, [], ◌∷◌, ◌++◌, zero, suc, take, take_all, length, All,
  arith,
}
use mathlib.Core.List.{append_assoc, append-nil}
mod Tests

-- `char buf[1600]`
abbrev pub buf_size : ℕ
buf_size = 1600

-- What a descriptor comes to in a round: it is not ready, or read fails, or a packet is read, which is
-- then written, or not.
pub data Turn : Type 0 where
  not_ready read_failed : Turn
  write_failed : List ℕ → Turn
  carried : List ℕ → Turn

-- What was sent on the socket and written to the device, oldest first.
pub record Sent : Type 0 where
  pub to_sock : List (List ℕ)
  pub to_tun : List (List ℕ)

-- The loop goes on, or `break` leaves it, or the process exits.
pub data End : Type 0 where
  running : Sent → End
  left : Sent → End
  exited : Sent → End

abbrev on_end : End → (Sent → End) → End
on_end (running s) go = go s
on_end (left s) go = left s
on_end (exited s) go = exited s

-- `FD_ISSET(fd, &fds)`
abbrev pub from_tun : Turn → Sent → End
from_tun not_ready s = running s
from_tun read_failed s = left s
from_tun (write_failed p) s = exited s
from_tun (carried p) s = running (record s { to_sock = s.to_sock ++ (take buf_size p ∷ []) })

-- `FD_ISSET(sock, &fds)`
abbrev pub from_sock : Turn → Sent → End
from_sock not_ready s = running s
from_sock read_failed s = left s
from_sock (write_failed p) s = exited s
from_sock (carried p) s = running (record s { to_tun = s.to_tun ++ (take buf_size p ∷ []) })

-- `while(1)`, with what the device and then the socket come to in each round.
unfoldable pub tunnel : List (Turn × Turn) → Sent → End
tunnel [] s = running s
tunnel ((a, b) ∷ rs) s = on_end (from_tun a s) λ t. on_end (from_sock b t) λ u. tunnel rs u

-- Nothing fails, and a packet fits the buffer.
abbrev pub Fits : Turn → Type 0
Fits not_ready = Unit
Fits read_failed = ⊥
Fits (write_failed p) = ⊥
Fits (carried p) = length p ≤ buf_size

abbrev pub packets : Turn → List (List ℕ)
packets (carried p) = p ∷ []
packets t = []

abbrev pub tun_packets : List (Turn × Turn) → List (List ℕ)
tun_packets [] = []
tun_packets (r ∷ rs) = packets r.0 ++ tun_packets rs

abbrev pub sock_packets : List (Turn × Turn) → List (List ℕ)
sock_packets [] = []
sock_packets (r ∷ rs) = packets r.1 ++ sock_packets rs

from_tun-Fits :
    (t : Turn) (s : Sent)
    → Fits t
    → from_tun t s ≡ running (record s { to_sock = s.to_sock ++ packets t })
from_tun-Fits not_ready s h =
    ap (λ v. running (record s { to_sock = v })) (sym (append-nil s.to_sock))
from_tun-Fits read_failed s h = absurd h
from_tun-Fits (write_failed p) s h = absurd h
from_tun-Fits (carried p) s h =
    ap (λ q. running (record s { to_sock = s.to_sock ++ (q ∷ []) })) (take_all buf_size p h)

from_sock-Fits :
    (t : Turn) (s : Sent)
    → Fits t
    → from_sock t s ≡ running (record s { to_tun = s.to_tun ++ packets t })
from_sock-Fits not_ready s h =
    ap (λ v. running (record s { to_tun = v })) (sym (append-nil s.to_tun))
from_sock-Fits read_failed s h = absurd h
from_sock-Fits (write_failed p) s h = absurd h
from_sock-Fits (carried p) s h =
    ap (λ q. running (record s { to_tun = s.to_tun ++ (q ∷ []) })) (take_all buf_size p h)

-- Over any rounds in which nothing fails and each packet fits the buffer, the loop goes on, and carries
-- every packet over whole, each way in its order.
pub tunnel_lem :
    (rs : List (Turn × Turn)) (s : Sent)
    → All (λ (r : Turn × Turn). Fits r.0 × Fits r.1) rs
    → tunnel rs s
      ≡ running
          (record { to_sock = s.to_sock ++ tun_packets rs; to_tun = s.to_tun ++ sock_packets rs })
unfolding tunnel
tunnel_lem [] s h = λ i.
    running
      (record { to_sock = sym (append-nil s.to_sock) i; to_tun = sym (append-nil s.to_tun) i })
tunnel_lem ((a, b) ∷ rs) s ((fa, fb), hs) =
    let t : Sent = record s { to_sock = s.to_sock ++ packets a } in
    let u : Sent = record t { to_tun = s.to_tun ++ packets b } in
    ap (λ e. on_end e (λ v. on_end (from_sock b v) (λ z. tunnel rs z))) (from_tun-Fits a s fa)
    ∙ ap (λ e. on_end e (λ z. tunnel rs z)) (from_sock-Fits b t fb)
    ∙ tunnel_lem rs u hs
    ∙ (λ i. running (record {
      to_sock = append_assoc s.to_sock (packets a) (tun_packets rs) i;
      to_tun = append_assoc s.to_tun (packets b) (sock_packets rs) i;
    }))
