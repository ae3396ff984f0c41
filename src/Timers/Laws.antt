-- ===== src/Timers/Laws.antt =====
-- What becomes of the expirations of the single-shot timer of timers/c/timerfd.c.
use sys_snippets.Common.{
  ℕ, ◌+◌, ◌≤◌, ◌≡◌, List, [], ◌∷◌, ◌++◌, Bool, true, false, Option, none, some, ltb, if◌then◌else◌,
  inl, inr, Bool-cases, arith,
}
use sys_snippets.Timers.{
  Timers, Ready, Round, timed_out, interrupted, select_failed, ready, End, running, exited,
  asserted, hand_on, set_again, on_tfd, on_efd, on_pfd, turn, on_end, serve,
}

abbrev pub sum : List ℕ → ℕ
sum [] = 0
sum (x ∷ xs) = x + sum xs

sum-append : (xs : List ℕ) (x : ℕ) → sum (xs ++ (x ∷ [])) ≡ sum xs + x
sum-append [] x = omega arith
sum-append (y ∷ ys) x = omega (arith, sum-append ys x)

-- Each expiration was printed for the eventfd too, or is in its counter.
abbrev pub IsBalanced : Timers → Type 0
IsBalanced s = sum s.single ≡ sum s.forwarded + s.counter

-- An exit may lose expirations, but none is made up.
abbrev pub IsFair : End → Type 0
IsFair (running s) = IsBalanced s
IsFair (exited s) = sum s.forwarded + s.counter ≤ sum s.single
IsFair (asserted s) = IsBalanced s

loses_none : (s : Timers) → IsBalanced s → sum s.forwarded + s.counter ≤ sum s.single
loses_none s h = omega (arith, h)

hand_on-IsFair : (b : Bool) (exp : ℕ) (s : Timers) → IsBalanced s → IsFair (hand_on b exp s)
hand_on-IsFair true exp s h = omega (arith, h, sum-append s.single exp)
hand_on-IsFair false exp s h = omega (arith, h, sum-append s.single exp)

set_again-IsFair :
    (r : Ready) (now : Option ℕ) (exp : ℕ) (s : Timers)
    → IsBalanced s
    → IsFair (set_again r now exp s)
set_again-IsFair r none exp s h = loses_none s h
set_again-IsFair r (some now) exp s h = elim (Bool-cases r.tfd_set) [
  | inl e ↦ rw e (hand_on-IsFair r.efd_written exp (record s { deadline = now + 5 }) h)
  | inr e ↦ rw e (loses_none s h)
]

on_tfd-IsFair : (r : Ready) (o : Option ℕ) (s : Timers) → IsBalanced s → IsFair (on_tfd r o s)
on_tfd-IsFair r none s h = loses_none s h
on_tfd-IsFair r (some exp) s h = set_again-IsFair r r.now exp s h

on_efd-IsFair : (b : Bool) (s : Timers) → IsBalanced s → IsFair (on_efd b s)
on_efd-IsFair true s h = omega (arith, h, sum-append s.forwarded s.counter)
on_efd-IsFair false s h = loses_none s h

on_pfd-IsFair : (o : Option ℕ) (s : Timers) → IsBalanced s → IsFair (on_pfd o s)
on_pfd-IsFair none s h = loses_none s h
on_pfd-IsFair (some exp) s h = h

turn-IsFair : (r : Round) (s : Timers) → IsBalanced s → IsFair (turn r s)
unfolding turn
turn-IsFair timed_out s h = h
turn-IsFair interrupted s h = h
turn-IsFair select_failed s h = loses_none s h
turn-IsFair (ready r) s h = go r.tfd_ready (ltb 0 s.counter) r.pfd_ready
  where
    go :
        (a b c : Bool)
        → IsFair (
            if a
            then on_tfd r r.tfd_read s
            else if b
            then on_efd r.efd_read s
            else if c
            then on_pfd r.pfd_read s
            else asserted s)
    go true b c = on_tfd-IsFair r r.tfd_read s h
    go false true c = on_efd-IsFair r.efd_read s h
    go false false true = on_pfd-IsFair r.pfd_read s h
    go false false false = h

-- Over any rounds each expiration of the single-shot timer that was printed was printed for the eventfd
-- too, or waits in its counter, as long as the process runs; an exit may lose some, but none is made up.
pub serve-IsFair : (rs : List Round) (s : Timers) → IsBalanced s → IsFair (serve rs s)
unfolding serve
serve-IsFair [] s h = h
serve-IsFair (r ∷ rs) s h = go (λ t e. serve-IsFair rs t e) (turn r s) (turn-IsFair r s h)
  where
    go :
        ((t : Timers) → IsBalanced t → IsFair (serve rs t))
        → (e : End) → IsFair e
        → IsFair (on_end e λ t. serve rs t)
    go ih (running t) f = ih t f
    go ih (exited t) f = f
    go ih (asserted t) f = f
