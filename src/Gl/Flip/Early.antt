-- ===== src/Gl/Flip/Early.antt =====
-- How drm_gl_test3.c gives the buffer on the screen back too early.
use sys_snippets.Common.{
  ℕ, ◌≡◌, ◌≢◌, refl, List, [], ◌∷◌, true, false, Bool, some, count, ◌==◌, arith,
}
use sys_snippets.Gl.Flip.{Output, new_output, Answers, fine, leaves, render_loop, round}

-- A round in which every call works, and the kernel does its flip as `late` says.
abbrev pub good : Bool → ℕ → ℕ → Answers
good late bo fbid = record {
  select = fine;
  early = false;
  late = late;
  front = some bo;
  allocated = true;
  added = some fbid;
  crtc_set = true;
  flipped = true;
}

-- Four rounds; the flips of the first two are done behind the `select` of the next round, and the flip of
-- the third is not done yet in the fourth.
abbrev pub late_rounds : ℕ → ℕ → ℕ → ℕ → ℕ → ℕ → List Answers
late_rounds b1 b2 b3 f1 f2 f3 =
    good false b1 f1 ∷ good true b1 f1 ∷ good true b2 f2 ∷ good false b3 f3 ∷ []

-- What they leave.
abbrev pub too_early : ℕ → ℕ → ℕ → ℕ → ℕ → ℕ → Output
too_early b1 b2 b3 f1 f2 f3 = record {
  current = some (record { bo = b2; fbid = f2 });
  next = some (record { bo = b3; fbid = f3 });
  page_flip_pending = false;
  locked = b3 ∷ b2 ∷ [];
  user_data = (b3, f3) ∷ (b2, f2) ∷ (b1, f1) ∷ [];
  leaked = 0;
  shown = some b1;
  queued = some b2;
  events = 0;
}

-- If the flips of the first two rounds are done behind the `select` of the next one, the program gives the
-- buffer that is on the screen back in the fourth round, before the flip away from it is done: it can be
-- drawn into while it is shown. Every call works, and the three buffers are different.
pub released_early :
    (b1 b2 b3 f1 f2 f3 : ℕ)
    → b1 ≢ b2
    → b1 ≢ b3
    → b2 ≢ b3
    → (render_loop (late_rounds b1 b2 b3 f1 f2 f3) new_output
        ≡ leaves (too_early b1 b2 b3 f1 f2 f3))
      × (count b1 (too_early b1 b2 b3 f1 f2 f3).locked ≡ 0)
unfolding render_loop round
released_early b1 b2 b3 f1 f2 f3 h12 h13 h23 =
    let e21 : (b2 == b1) ≡ false = ground arith in
    let e32 : (b3 == b2) ≡ false = ground arith in
    let e31 : (b3 == b1) ≡ false = ground arith in
    let e12 : (b1 == b2) ≡ false = ground arith in
    let e13 : (b1 == b3) ≡ false = ground arith in
    let e11 : (b1 == b1) ≡ true = ground arith in
    (
      rw (e21, e32, e31, e12, e11) (refl {a = leaves (too_early b1 b2 b3 f1 f2 f3)}),
      ground (arith, e12, e13),
    )
