-- ===== src/Echo/Poll/Seats.antt =====
-- The slots of s_poll.c: which ones `poll` is asked about, and which client is dropped.
use sys_snippets.Common.{
  ℕ, zero, suc, ◌+◌, ◌≤◌, ◌<◌, ◌≡◌, ◌↔◌, refl, sym, ◌∙◌, ap, List, [], ◌∷◌, Bool, true, false, none,
  some, inl, inr, Option-cases, length, get_elem?, All, arith,
}
use sys_snippets.Echo.Poll.{Slot, last_used, Seat, no_name, seated, full, behind, seat}

last_used-ge : (i : ℕ) (ss : List Slot) (max : ℕ) → max ≤ i → max ≤ last_used i ss max
unfolding last_used
last_used-ge i [] max h = omega arith
last_used-ge i (s ∷ ss) max h = elim (Option-cases s.fd) [
  | inl e ↦ rw (e, last_used) (last_used-ge (i + 1) ss max (omega arith))
  | inr (fd, e) ↦ rw (e, last_used) (omega (arith, last_used-ge (i + 1) ss i (omega arith)))
]

last_used-le : (i : ℕ) (ss : List Slot) (max : ℕ) → max < i → last_used i ss max < i + length ss
unfolding last_used
last_used-le i [] max h = omega arith
last_used-le i (s ∷ ss) max h = elim (Option-cases s.fd) [
  | inl e ↦ rw (e, last_used) (omega (arith, last_used-le (i + 1) ss max (omega arith)))
  | inr (fd, e) ↦ rw (e, last_used) (omega (arith, last_used-le (i + 1) ss i (omega arith)))
]

last_used-covers :
    (i : ℕ) (ss : List Slot) (max k fd : ℕ) {s : Slot}
    → max ≤ i
    → get_elem? ss k ≡ some s
    → s.fd ≡ some fd
    → i + k ≤ last_used i ss max
unfolding last_used
last_used-covers i [] max k fd h g f = cc
last_used-covers i (s ∷ ss) max zero fd h g f =
    let used : s.fd ≡ some fd = ground arith in
    rw (used, last_used) (omega (arith, last_used-ge (i + 1) ss i (omega arith)))
last_used-covers i (s ∷ ss) max (suc k) fd h g f = elim (Option-cases s.fd) [
  | inl e ↦
      rw (e, last_used) (omega (arith, last_used-covers (i + 1) ss max k fd (omega arith) g f))
  | inr (fd', e) ↦
      rw (e, last_used) (omega (arith, last_used-covers (i + 1) ss i k fd (omega arith) g f))
]

-- `poll` is asked about `clients[0]` to `clients[last_used]`: every slot in use is among them (slot
-- `k` is `clients[k + 1]`), and none of them lies behind the end of the array.
pub last_used_lem :
    (ss : List Slot)
    → ((k fd : ℕ) (s : Slot) → get_elem? ss k ≡ some s → s.fd ≡ some fd → 1 + k ≤ last_used 1 ss 0)
      × (last_used 1 ss 0 ≤ length ss)
last_used_lem ss = (
  λ k fd s g f. last_used-covers 1 ss 0 k fd (omega arith) g f,
  omega (arith, last_used-le 1 ss 0 (omega arith)),
)

abbrev pub IsUsed : Slot → Type 0
IsUsed s = (fd : ℕ) × (s.fd ≡ some fd)

behind-full : (s : Slot) (r : Seat) → behind s r ≡ full → r ≡ full
behind-full s no_name e = cc
behind-full s (seated ss) e = cc
behind-full s full e = refl

not-full :
    (named : Bool) (fd : ℕ) (s : Slot) (ss : List Slot)
    → s.fd ≡ none
    → ¬ (seat named fd (s ∷ ss) ≡ full)
unfolding seat
not-full true fd s ss f e = ground arith
not-full false fd s ss f e = ground arith

seat-taken :
    (named : Bool) (fd used : ℕ) (s : Slot) (ss : List Slot)
    → s.fd ≡ some used
    → seat named fd (s ∷ ss) ≡ behind s (seat named fd ss)
unfolding seat
seat-taken named fd used s ss f = ground arith

full-IsUsed : (named : Bool) (fd : ℕ) (ss : List Slot) → seat named fd ss ≡ full → All IsUsed ss
full-IsUsed named fd [] e = tt
full-IsUsed named fd (s ∷ ss) e = elim (Option-cases s.fd) [
  | inl f ↦ absurd (not-full named fd s ss f e)
  | inr (used, f) ↦ (
    (used, f),
    full-IsUsed named fd ss (behind-full s _ (sym (seat-taken named fd used s ss f) ∙ e)),
  )
]

IsUsed-full : (named : Bool) (fd : ℕ) (ss : List Slot) → All IsUsed ss → seat named fd ss ≡ full
unfolding seat
IsUsed-full named fd [] u = refl
IsUsed-full named fd (s ∷ ss) u =
    seat-taken named fd u.0.0 s ss u.0.1 ∙ ap (behind s) (IsUsed-full named fd ss u.1)

-- s_poll.c drops a new connection exactly when no slot is free, whether or not its peer has a name.
pub seat-full : (named : Bool) (fd : ℕ) (ss : List Slot) → (seat named fd ss ≡ full) ↔ All IsUsed ss
seat-full named fd ss = (full-IsUsed named fd ss, IsUsed-full named fd ss)
