-- ===== src/Gst/Handshake/Whole.antt =====
-- The shared frame buffer of gst/gst-simple is a place for one frame: no texture of `main_loop` is torn. The
-- texture that is made before it is none of them.
use mathlib.Core.Path.{subst}
use mathlib.Core.List.{append-nil, append_assoc}
use sys_snippets.Common.{
  ℕ, ◌≡◌, refl, sym, ap, ◌∙◌, List, [], ◌∷◌, ◌++◌, Option, none, some, get_elem?, set, length, All,
  inl, inr, Option-cases, length-set, set-append, get_elem?-append, get_elem?-end, arith,
}
use sys_snippets.Gst.Handshake.{
  Streaming, outside, copying, Drawing, starting, elsewhere, uploading, Shared, render,
  update_texture, Turn, streams, draws, turn, run, setup,
}

-- The abstract machine: a place for one frame, and the frames that were taken from it.
pub record Place : Type 0 where
  pub frame : Option (List ℕ)
  pub taken : List (List ℕ)

-- What a turn may do to the place.
pub data May : Turn → Place → Place → Type 0 where
  stays : {t : Turn} {p : Place} → May t p p
  puts :
      {f : List ℕ} {taken : List (List ℕ)}
      → May
          (streams f)
          (record { frame = none; taken = taken })
          (record { frame = some f; taken = taken })
  takes :
      {f : List ℕ} {taken : List (List ℕ)}
      → May draws
          (record { frame = some f; taken = taken })
          (record { frame = none; taken = taken ++ (f ∷ []) })

pub data Runs : List Turn → Place → Place → Type 0 where
  over : {p : Place} → Runs [] p p
  then_runs :
      {t : Turn} {ts : List Turn} {p q r : Place} → May t p q → Runs ts q r → Runs (t ∷ ts) p r

-- The OpenGL thread is not in an `update_texture` of `main_loop`.
abbrev pub IsIdle : Drawing → Type 0
IsIdle (starting got) = Unit {0}
IsIdle elsewhere = Unit
IsIdle (uploading got) = ⊥

-- The frame that the threads hold, for frames of `n` elements.
pub data Holds (n : ℕ) : ℕ → List ℕ → Streaming → Drawing → Option (List ℕ) → Type 0 where
  free : {img : List ℕ} {d : Drawing} → IsIdle d → length img ≡ n → Holds n 0 img outside d none
  loading :
      {img f : List ℕ} {d : Drawing} (copied todo rest : List ℕ)
      → IsIdle d
      → img ≡ copied ++ rest
      → length rest ≡ length todo
      → f ≡ copied ++ todo
      → length img ≡ n
      → Holds n 1 img (copying copied todo) d (some f)
  full :
      {img f : List ℕ} {d : Drawing}
      → IsIdle d
      → f ≡ img
      → length img ≡ n
      → Holds n 2 img outside d (some f)
  showing :
      {img f : List ℕ} (got rest : List ℕ)
      → img ≡ got ++ rest
      → f ≡ img
      → length img ≡ n
      → Holds n 3 img outside (uploading got) (some f)

-- The state of the threads stands for a place with the frame `o`.
abbrev pub StandsFor : ℕ → Shared → Option (List ℕ) → Type 0
StandsFor n s o = Holds n s.gles2_sem s.img s.streaming s.drawing o

abbrev pub place : Option (List ℕ) → Shared → Place
place o s = record { frame = o; taken = s.textures }

abbrev pub IsSized : ℕ → Turn → Type 0
IsSized n (streams f) = length f ≡ n
IsSized n draws = Unit

-- A turn does what the place may do.
turn-May :
    (n : ℕ) (early : Option (List ℕ)) (outs : List (List ℕ)) (t : Turn) {sem : ℕ} {img : List ℕ}
    {r : Streaming} {d : Drawing} {o : Option (List ℕ)}
    → IsSized n t
    → Holds n sem img r d o
    → let s : Shared = record {
      gles2_sem = sem;
      img = img;
      streaming = r;
      drawing = d;
      first_texture = early;
      textures = outs;
    } in
      (o' : Option (List ℕ)) × May t (place o s) (place o' (turn t s)) × StandsFor n (turn t s) o'
unfolding render update_texture
turn-May n early outs (streams f) z (free {img = img} idle h) =
    (some f, puts, loading [] f img idle refl (omega (arith, h, z)) refl h)
turn-May n early outs (streams g) z (loading {f = f} copied [] [] idle e l k h) =
    (some f, stays, full idle (k ∙ sym e) h)
turn-May n early outs (streams g) z (loading copied [] (y ∷ rest) idle e l k h) =
    absurd (omega (arith, l))
turn-May n early outs (streams g) z (loading copied (x ∷ todo) [] idle e l k h) =
    absurd (omega (arith, l))
turn-May n early outs (streams g) z
      (loading {img = img} {f = f} copied (x ∷ todo) (y ∷ rest) idle e l k h) =
    (
      some f,
      stays,
      loading (copied ++ (x ∷ [])) todo rest idle
          (ap (λ xs. set xs (length copied) x) e
            ∙ set-append copied y x rest
            ∙ sym (append_assoc copied (x ∷ []) rest))
          (omega (arith, l)) (k ∙ sym (append_assoc copied (x ∷ []) todo))
          (length-set img (length copied) x ∙ h),
    )
turn-May n early outs (streams g) z (full {f = f} idle k h) = (some f, stays, full idle k h)
turn-May n early outs (streams g) z (showing {f = f} got rest e k h) =
    (some f, stays, showing got rest e k h)
turn-May n early outs draws z (free {img = img} {d = elsewhere} idle h) = (none, stays, free tt h)
turn-May n early outs draws z (free {img = img} {d = starting got} idle h) =
    elim (Option-cases (get_elem? img (length got))) [
      | inl e ↦ rw (e, update_texture) (none, stays, free tt h)
      | inr (x, e) ↦ rw (e, update_texture) (none, stays, free tt h)
    ]
turn-May n early outs draws z (free {d = uploading got} idle h) = absurd idle
turn-May n early outs draws z (loading {f = f} {d = elsewhere} copied todo rest idle e l k h) =
    (some f, stays, loading copied todo rest tt e l k h)
turn-May n early outs draws z
      (loading {img = img} {f = f} {d = starting got} copied todo rest idle e l k h) =
    elim (Option-cases (get_elem? img (length got))) [
      | inl r ↦ rw (r, update_texture) (some f, stays, loading copied todo rest tt e l k h)
      | inr (x, r) ↦ rw (r, update_texture) (some f, stays, loading copied todo rest tt e l k h)
    ]
turn-May n early outs draws z (loading {d = uploading got} copied todo rest idle e l k h) =
    absurd idle
turn-May n early outs draws z (full {img = img} {f = f} {d = elsewhere} idle k h) =
    (some f, stays, showing [] img refl k h)
turn-May n early outs draws z (full {img = img} {f = f} {d = starting got} idle k h) =
    elim (Option-cases (get_elem? img (length got))) [
      | inl e ↦ rw (e, update_texture) (some f, stays, full tt k h)
      | inr (x, e) ↦ rw (e, update_texture) (some f, stays, full tt k h)
    ]
turn-May n early outs draws z (full {d = uploading got} idle k h) = absurd idle
turn-May n early outs draws z (showing {img = img} {f = f} got [] e k h) =
    rw (at_end, update_texture)
      (
        none,
        subst
            (λ x.
              May draws (record { frame = some x; taken = outs })
                (record { frame = none; taken = outs ++ (got ∷ []) }))
            (sym (k ∙ e ∙ append-nil got)) takes,
        free tt h,
      )
  where
    at_end : get_elem? img (length got) ≡ none
    at_end = ap (λ xs. get_elem? xs (length got)) (e ∙ append-nil got) ∙ get_elem?-end got
turn-May n early outs draws z (showing {img = img} {f = f} got (x ∷ rest) e k h) =
    rw (ap (λ xs. get_elem? xs (length got)) e ∙ get_elem?-append got x rest, update_texture)
      (some f, stays, showing (got ++ (x ∷ [])) rest (e ∙ sym (append_assoc got (x ∷ []) rest)) k h)

abbrev pub AllSized : ℕ → List Turn → Type 0
AllSized n ts = All (IsSized n) ts

-- Any turns of the two threads, in any order, are turns of a place for one frame: `render` puts a whole
-- frame into the empty place or drops it, and each texture that `main_loop` makes is the frame taken out.
-- The texture that the OpenGL thread makes before `main_loop`, while `render` may copy, takes nothing out
-- of the place. All frames have the size of the buffer.
pub run-Runs :
    (n : ℕ) (ts : List Turn) (s : Shared) (o : Option (List ℕ))
    → AllSized n ts
    → StandsFor n s o
    → (o' : Option (List ℕ)) × Runs ts (place o s) (place o' (run ts s)) × StandsFor n (run ts s) o'
unfolding run
run-Runs n [] s o z h = (o, over, h)
run-Runs n (t ∷ ts) s o (z, zs) h =
    let one = turn-May n s.first_texture s.textures t z h in
    let rest = run-Runs n ts (turn t s) one.0 zs one.2 in (rest.0, then_runs one.1 rest.1, rest.2)

-- The frames that `render` is called with.
abbrev pub offered : List Turn → List (List ℕ)
offered [] = []
offered (streams f ∷ ts) = f ∷ offered ts
offered (draws ∷ ts) = offered ts

-- In order, some of the elements left out.
pub data Sub : List (List ℕ) → List (List ℕ) → Type 0 where
  none_left : Sub [] []
  keep : {x : List ℕ} {xs ys : List (List ℕ)} → Sub xs ys → Sub (x ∷ xs) (x ∷ ys)
  skip : {y : List ℕ} {xs ys : List (List ℕ)} → Sub xs ys → Sub xs (y ∷ ys)

abbrev pub waiting : Option (List ℕ) → List (List ℕ)
waiting none = []
waiting (some f) = f ∷ []

nothing : (ys : List (List ℕ)) → Sub [] ys
nothing [] = none_left
nothing (y ∷ ys) = skip (nothing ys)

drop_last : (xs zs ys : List (List ℕ)) → Sub (xs ++ zs) ys → Sub xs ys
drop_last [] zs ys s = nothing ys
drop_last (x ∷ xs) zs (_ ∷ ys) (keep s) = keep (drop_last xs zs ys s)
drop_last (x ∷ xs) zs [] s = elim s [ ]
drop_last (x ∷ xs) zs (y ∷ ys) (skip s) = skip (drop_last (x ∷ xs) zs ys s)

abbrev Extends : List (List ℕ) → List (List ℕ) → List (List ℕ) → Type 0
Extends out before offers = (more : List (List ℕ)) × (out ≡ before ++ more) × Sub more offers

skipped :
    {out offers : List (List ℕ)} (f : List ℕ) (before : List (List ℕ))
    → Extends out before offers
    → Extends out before (f ∷ offers)
skipped f before (more, e, sub) = (more, e, skip sub)

kept :
    {out offers : List (List ℕ)} (f : List ℕ) (before : List (List ℕ))
    → Extends out (before ++ (f ∷ [])) offers
    → Extends out (before ++ []) (f ∷ offers)
kept f before (more, e, sub) = (
  f ∷ more,
  e ∙ append_assoc before (f ∷ []) more ∙ ap (◌++ (f ∷ more)) (sym (append-nil before)),
  keep sub,
)

-- What is taken and what waits are the start of what will be taken.
Runs-Sub :
    {ts : List Turn} {p q : Place}
    → Runs ts p q
    → Extends (q.taken ++ waiting q.frame) (p.taken ++ waiting p.frame) (offered ts)
Runs-Sub {p = p} over = ([], sym (append-nil (p.taken ++ waiting p.frame)), none_left)
Runs-Sub (then_runs {t = streams f} {p = p} stays rs) =
    skipped f (p.taken ++ waiting p.frame) (Runs-Sub rs)
Runs-Sub (then_runs {t = draws} stays rs) = Runs-Sub rs
Runs-Sub (then_runs (puts {f = f} {taken = taken}) rs) = kept f taken (Runs-Sub rs)
Runs-Sub (then_runs (takes {f = f} {taken = taken}) rs) =
    let rest = Runs-Sub rs in
    (rest.0, rest.1 ∙ ap (◌++ rest.0) (append-nil (taken ++ (f ∷ []))), rest.2)

whole :
    {out offers : List (List ℕ)} (o : Option (List ℕ))
    → Extends (out ++ waiting o) [] offers
    → Sub out offers
whole {out = out} {offers = offers} o (more, e, sub) =
    drop_last out (waiting o) offers (subst (λ xs. Sub xs offers) (sym e) sub)

-- Whatever the turns, every texture that `main_loop` makes is a whole frame that `render` was called with,
-- each is made once, and they come in the order of the frames. (The texture that is made before `main_loop`
-- may be torn, and is not among them.) All frames have the size of the buffer.
pub textures-Sub :
    (img : List ℕ) (ts : List Turn)
    → AllSized (length img) ts
    → Sub (run ts (setup img)).textures (offered ts)
textures-Sub img ts z = ended (run-Runs (length img) ts (setup img) none z (free tt refl))
  where
    ended :
        ((o' : Option (List ℕ)) × Runs ts (place none (setup img)) (place o' (run ts (setup img)))
          × StandsFor (length img) (run ts (setup img)) o')
        → Sub (run ts (setup img)).textures (offered ts)
    ended (o', rs, h) = whole o' (Runs-Sub rs)
