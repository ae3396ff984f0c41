-- ===== src/Wii/Accel.antt =====
-- wiid-tests/wii_acc.c: accelerometer reports, at most one in `acc_rate_msec` milliseconds.
use mathlib.Core.List.{append-nil, append_assoc}
use sys_snippets.Common.{
  ℕ, ◌+◌, ◌*◌, ◌/◌, ◌%◌, ◌^◌, ◌≤◌, ◌<◌, ◌≡◌, sym, ◌∙◌, List, [], ◌∷◌, ◌++◌, Bool, true, false, inl,
  inr, Bool-cases, All, length, leb, if◌then◌else◌, arith,
}
use sys_snippets.Wii.Device.{Event, Codes}

-- `static int acc_rate_msec = 100;`
abbrev pub acc_rate_msec : ℕ
acc_rate_msec = 100

-- What `clock_gettime(CLOCK_MONOTONIC, &tick)` gives, and the three axes, bytes.
pub record Sample : Type 0 where
  pub tv_sec : ℕ
  pub tv_nsec : ℕ
  pub x : ℕ
  pub y : ℕ
  pub z : ℕ

-- `acc_time_msec`, and the events that were sent, oldest first.
pub record Accel : Type 0 where
  pub acc_time_msec : ℕ
  pub events : List Event

-- `unsigned long long` wraps.
abbrev pub u64 : ℕ → ℕ
u64 n = n % 2 ^ 64

abbrev pub msec : Sample → ℕ
msec s = u64 (s.tv_sec * 1000 + s.tv_nsec / 1000000)

abbrev pub rel_event : Codes → ℕ → ℕ → Event
rel_event c code v = record { kind = c.ev_rel; code = code; value = v }

-- The four calls of `send_event`, whose results are not looked at.
abbrev pub report : Codes → Sample → List Event
report c s =
    rel_event c c.rel_x s.x
    ∷ rel_event c c.rel_y s.y
    ∷ rel_event c c.rel_z s.z
    ∷ record { kind = c.ev_syn; code = 0; value = 0 }
    ∷ []

-- `if (new_time_msec >= (acc_time_msec + acc_rate_msec))`
abbrev pub is_due : Accel → Sample → Bool
is_due a s = leb (u64 (a.acc_time_msec + acc_rate_msec)) (msec s)

unfoldable pub wii_handle_accelerometer : Codes → Sample → Accel → Accel
wii_handle_accelerometer c s a =
    if is_due a s then record { acc_time_msec = msec s; events = a.events ++ report c s } else a

unfoldable pub handle_all : Codes → List Sample → Accel → Accel
unfolding wii_handle_accelerometer
handle_all c [] a = a
handle_all c (s ∷ ss) a = handle_all c ss (wii_handle_accelerometer c s a)

-- `kept` are the samples of `ss` of which each comes 100 ms or more after the one kept before (the
-- first after time `t`), and those dropped come sooner.
pub data Thinned : ℕ → List Sample → List Sample → Type 0 where
  none_left : {t : ℕ} → Thinned t [] []
  keep :
      {t : ℕ} {s : Sample} {ss kept : List Sample}
      → t + acc_rate_msec ≤ msec s
      → Thinned (msec s) ss kept
      → Thinned t (s ∷ ss) (s ∷ kept)
  drop :
      {t : ℕ} {s : Sample} {ss kept : List Sample}
      → msec s < t + acc_rate_msec
      → Thinned t ss kept
      → Thinned t (s ∷ ss) kept

abbrev pub reports : Codes → List Sample → List Event
reports c [] = []
reports c (s ∷ ss) = report c s ++ reports c ss

-- What the handler does over a list of samples, from the state `a` to `b`.
pub record Thins (c : Codes) (ss : List Sample) (a b : Accel) : Type 0 where
  pub kept : List Sample
  pub thinned : Thinned a.acc_time_msec ss kept
  pub sent : b.events ≡ a.events ++ reports c kept
  pub rate : a.acc_time_msec + acc_rate_msec * length kept ≤ b.acc_time_msec

-- The clock is at least 100 ms away from 2 ^ 64 ms.
abbrev pub Early : ℕ → Type 0
Early t = t + acc_rate_msec < 2 ^ 64

handle-drop :
    (c : Codes) (s : Sample) (a : Accel) → is_due a s ≡ false → wii_handle_accelerometer c s a ≡ a
unfolding wii_handle_accelerometer
handle-drop c s a e = rw e

handle-keep :
    (c : Codes) (s : Sample) (a : Accel)
    → is_due a s ≡ true
    → wii_handle_accelerometer c s a
      ≡ record { acc_time_msec = msec s; events = a.events ++ report c s }
unfolding wii_handle_accelerometer
handle-keep c s a e = rw e

-- The handler sends the reports of samples that are 100 ms apart and drops only samples that come
-- sooner than that; so the number of reports times 100 is at most the time that went by. (As long
-- as the clock stays away from 2 ^ 64 ms.)
pub handle_all-Thins :
    (c : Codes) (ss : List Sample) (a : Accel)
    → Early a.acc_time_msec
    → All (λ s. Early (msec s)) ss
    → Thins c ss a (handle_all c ss a)
unfolding handle_all
handle_all-Thins c [] a h hs = record {
  kept = [];
  thinned = none_left;
  sent = sym (append-nil a.events);
  rate = omega arith;
}
handle_all-Thins c (s ∷ ss) a h hs = elim (Bool-cases (is_due a s)) [
  | inl due ↦
      let b : Accel = record { acc_time_msec = msec s; events = a.events ++ report c s } in
      let r = handle_all-Thins c ss b hs.0 hs.1 in
      rw (handle-keep c s a due) (record {
        kept = s ∷ r.kept;
        thinned = keep (ground arith) r.thinned;
        sent = r.sent ∙ append_assoc a.events (report c s) (reports c r.kept);
        rate = ground (arith, r.rate);
      })
  | inr soon ↦
      let r = handle_all-Thins c ss a h hs.1 in
      rw (handle-drop c s a soon) (record {
        kept = r.kept;
        thinned = drop (ground arith) r.thinned;
        sent = r.sent;
        rate = r.rate;
      })
]
