-- ===== src/Multicast/Client.antt =====
-- `mcast_client` of multicast/c/mcast4.c, past its optional IP_ADD_MEMBERSHIP. The message is a C
-- string: its bytes are not 0. The `calloc` of `pkt`, whose answer the code does not look at, is taken to work.
use sys_snippets.Common.{
  ℕ, ◌+◌, ◌≤◌, ◌<◌, ◌≡◌, refl, List, [], ◌∷◌, ◌++◌, Bool, true, false, ltb, length, take,
  if◌then◌else◌, arith,
}
use sys_snippets.Drm.Text.{print_int}
pub mod Laws

-- An `int` goes up to 2 ^ 31 - 1.
abbrev pub int_limit : ℕ
int_limit = 2147483648

-- `faults`, `cnt`, whether `cnt++` has left the range of an `int` (which C leaves undefined), and the
-- datagrams that `sendto` took, oldest first.
pub record Client : Type 0 where
  pub faults : ℕ
  pub cnt : ℕ
  pub overflowed : Bool
  pub sent : List (List ℕ)

-- `snprintf(pkt, strlen(msg) + 10, "%s:%d\n", msg, cnt++)`, of which `strlen(pkt) + 1` bytes are sent.
unfoldable pub packet : List ℕ → ℕ → List ℕ
packet msg n = take (length msg + 9) (msg ++ (b':' ∷ print_int n ++ (10 ∷ []))) ++ (0 ∷ [])

-- `cnt++` of an `int`.
abbrev pub count_on : Client → Client
count_on c = record c {
  cnt = c.cnt + 1;
  overflowed = if ltb (c.cnt + 1) int_limit then c.overflowed else true;
}

-- The body of the `while` loop; `works` says whether `sendto` does.
abbrev pub send_round : List ℕ → Bool → Client → Client
send_round msg true c = record (count_on c) { sent = c.sent ++ (packet msg c.cnt ∷ []) }
send_round msg false c = record (count_on c) { faults = c.faults + 1 }

-- `while (faults < 5)`
unfoldable pub mcast_client : List ℕ → List Bool → Client → Client
mcast_client msg [] c = c
mcast_client msg (works ∷ more) c =
    let rest = mcast_client msg more (send_round msg works c) in if ltb c.faults 5 then rest else c

abbrev pub new_client : Client
new_client = record { faults = 0; cnt = 0; overflowed = false; sent = [] }
