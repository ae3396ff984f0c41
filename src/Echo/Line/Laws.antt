-- ===== src/Echo/Line/Laws.antt =====
-- Which streams `handle_echo` serves, and what it sends.
use mathlib.Core.List.{append_assoc, append-nil}
use sys_snippets.Common.{
  ℕ, zero, suc, ◌+◌, ◌-◌, ◌<◌, ◌≤◌, ◌≡◌, ◌≢◌, ◌↔◌, refl, ap, ◌∙◌, List, [], ◌∷◌, ◌++◌, map, Bool,
  true, false, inl, inr, set, replicate, length, All, length-append, length-replicate, ltb, ◌==◌,
  if◌then◌else◌, Bool-cases, arith,
}
use sys_snippets.Echo.Line.{
  maxlen, newline, Read, broken, eof, got, Fill, overrun, waiting, failed, closed, line_read, fill,
  blank, Echoed, plus_one, zero_ret, minus_one, undefined, blocks, returned, handle_echo, serve,
  after,
}

abbrev pub IsText : List ℕ → Type 0
IsText = All (λ c. c ≢ newline)

-- The reply to a line: its bytes, the newline, and zeros up to MAXLEN.
abbrev pub padded : List ℕ → List ℕ
padded text = text ++ newline ∷ replicate (maxlen - 1 - length text) 0

set-append {ℓ} :
    {A : Type ℓ} (pre : List A) (y : A) (ys : List A) (v : A)
    → set (pre ++ y ∷ ys) (length pre) v ≡ pre ++ v ∷ ys
set-append [] y ys v = refl
set-append (x ∷ pre) y ys v = ap (λ t. x ∷ t) (set-append pre y ys v)

-- A byte that is no newline goes into the buffer, and the loop goes on.
fill_step :
    (c : ℕ) (rs : List Read) (pre : List ℕ) (k : ℕ)
    → c ≢ newline
    → length pre < maxlen
    → fill (got c ∷ rs) (length pre) (pre ++ replicate (suc k) 0)
      ≡ fill rs (length (pre ++ c ∷ [])) ((pre ++ c ∷ []) ++ replicate k 0)
unfolding fill
fill_step c rs pre k h l = ground (
  arith,
  set-append pre 0 (replicate k 0) c,
  append_assoc pre (c ∷ []) (replicate k 0),
  length-append pre (c ∷ []),
)

fill-newline :
    (rs : List Read) (pre : List ℕ) (k : ℕ)
    → length pre < maxlen
    → fill (got newline ∷ rs) (length pre) (pre ++ replicate (suc k) 0)
      ≡ line_read (pre ++ newline ∷ replicate k 0) rs
unfolding fill
fill-newline rs pre k l = ground (arith, set-append pre 0 (replicate k 0) newline)

-- A whole line from any point of the buffer, with `m` places left.
fill_line :
    (text : List ℕ) (rest : List Read) (pre : List ℕ) (m k : ℕ)
    → IsText text
    → m ≡ length text + suc k
    → length pre + m ≡ maxlen
    → fill (map got text ++ got newline ∷ rest) (length pre) (pre ++ replicate m 0)
      ≡ line_read ((pre ++ text) ++ newline ∷ replicate k 0) rest
fill_line text rest pre zero k t e l = absurd (omega arith)
fill_line [] rest pre (suc m) k t e l =
    let same : m ≡ k = omega arith in
    rw (append-nil, ← same) (fill-newline rest pre m (omega arith))
fill_line (c ∷ text) rest pre (suc m) k t e l =
    fill_step c (map got text ++ got newline ∷ rest) pre m t.0 (omega arith)
    ∙ fill_line text rest (pre ++ c ∷ []) m k t.1 (omega arith)
        (omega (arith, length-append pre (c ∷ [])))
    ∙ ap (λ t. line_read (t ++ newline ∷ replicate k 0) rest) (append_assoc pre (c ∷ []) text)

reply_either :
    (wrote : Bool) (line : List ℕ)
    → (if wrote then returned plus_one line else returned minus_one line)
      ≡ returned (if wrote then plus_one else minus_one) line
reply_either true line = refl
reply_either false line = refl

-- From a fresh buffer: a line of at most 99 bytes fits with its newline.
fill_text :
    (text : List ℕ) (rest : List Read)
    → IsText text
    → length text < maxlen
    → fill (map got text ++ got newline ∷ rest) 0 blank ≡ line_read (padded text) rest
fill_text text rest t l =
    fill_line text rest [] maxlen (maxlen - 1 - length text) t (omega arith) refl

-- `handle_echo` of s_poll.c and s_select.c, on a line of at most 99 bytes that ends in a newline:
-- it sends the line, its newline and zeros, MAXLEN bytes in all, and returns 1, or -1 if the write
-- fails; what follows the newline is left for the next call.
pub handle_echo-line :
    (wrote : Bool) (text : List ℕ) (rest : List Read)
    → IsText text
    → length text < maxlen
    → (handle_echo wrote (map got text ++ got newline ∷ rest)
        ≡ returned (if wrote then plus_one else minus_one) (padded text))
      × (length (padded text) ≡ maxlen)
unfolding handle_echo
handle_echo-line wrote text rest t l = (
  rw (fill_text text rest t l) (reply_either wrote (padded text)),
  omega (
    arith,
    length-append text (newline ∷ replicate (maxlen - 1 - length text) 0),
    length-replicate {A = ℕ} (maxlen - 1 - length text) 0,
  ),
)

-- What a stream looks like that overruns the buffer with `n` bytes in it: bytes with no newline
-- up to the end of the buffer, and one more.
pub record Overlong (n : ℕ) (rs : List Read) : Type 0 where
  pub text : List ℕ
  pub extra : ℕ
  pub rest : List Read
  pub no_newline : IsText text
  pub size : n + length text ≡ maxlen
  pub shape : rs ≡ map got text ++ got extra ∷ rest

fill_text_part :
    (text : List ℕ) (rest : List Read) (pre : List ℕ) (m k : ℕ)
    → IsText text
    → m ≡ length text + k
    → length pre + m ≡ maxlen
    → fill (map got text ++ rest) (length pre) (pre ++ replicate m 0)
      ≡ fill rest (length (pre ++ text)) ((pre ++ text) ++ replicate k 0)
fill_text_part [] rest pre m k t e l = let same : m ≡ k = omega arith in rw (append-nil, ← same)
fill_text_part (c ∷ text) rest pre zero k t e l = absurd (omega arith)
fill_text_part (c ∷ text) rest pre (suc m) k t e l =
    fill_step c (map got text ++ rest) pre m t.0 (omega arith)
    ∙ fill_text_part text rest (pre ++ c ∷ []) m k t.1 (omega arith)
        (omega (arith, length-append pre (c ∷ [])))
    ∙ ap (λ t. fill rest (length t) (t ++ replicate k 0)) (append_assoc pre (c ∷ []) text)

overrun_full :
    (c : ℕ) (rs : List Read) (n : ℕ) (line : List ℕ)
    → n ≡ maxlen
    → fill (got c ∷ rs) n line ≡ overrun
unfolding fill
overrun_full c rs n line e = ground arith

Overlong-overrun : {rs : List Read} → Overlong 0 rs → fill rs 0 blank ≡ overrun
Overlong-overrun {rs} o = rw o.shape (
    fill_text_part o.text (got o.extra ∷ o.rest) [] maxlen 0 o.no_newline (omega (arith, o.size))
      refl
    ∙ overrun_full o.extra o.rest (length o.text) (o.text ++ []) (omega (arith, o.size)))

-- An overrun from `n` bytes on, one byte earlier.
Overlong-cons :
    (c : ℕ) (rs : List Read) (n : ℕ) → c ≢ newline → Overlong (n + 1) rs → Overlong n (got c ∷ rs)
Overlong-cons c rs n h o = record {
  text = c ∷ o.text;
  extra = o.extra;
  rest = o.rest;
  no_newline = (h, o.no_newline);
  size = omega (arith, o.size);
  shape = ap (λ t. got c ∷ t) o.shape;
}

-- The loop overruns the buffer on no other stream.
overrun-Overlong :
    (rs : List Read) (n : ℕ) (line : List ℕ) → n ≤ maxlen → fill rs n line ≡ overrun → Overlong n rs
unfolding fill
overrun-Overlong [] n line l h = cc
overrun-Overlong (broken ∷ rs) n line l h = cc
overrun-Overlong (eof ∷ rs) n line l h = cc
overrun-Overlong (got c ∷ rs) n line l h = elim (Bool-cases (ltb n maxlen)) [
  | inl room ↦ elim (Bool-cases (c == newline)) [
    | inl e ↦ cc (rw (room, e) at h)
    | inr e ↦
        Overlong-cons c rs n (ground arith)
          (overrun-Overlong rs (n + 1) (set line n c) (ground arith) (rw (room, e) at h))
  ]
  | inr full ↦ record {
    text = [];
    extra = c;
    rest = rs;
    no_newline = tt;
    size = ground arith;
    shape = refl;
  }
]

after-undefined :
    (f : Fill) (wrote : Bool)
    → after f [] (λ line rest. if wrote then returned plus_one line else returned minus_one line)
      ≡ undefined
    → f ≡ overrun
after-undefined overrun wrote h = refl
after-undefined waiting wrote h = cc
after-undefined failed wrote h = cc
after-undefined closed wrote h = cc
after-undefined (line_read line rest) true h = cc
after-undefined (line_read line rest) false h = cc

-- `handle_echo` of s_poll.c and s_select.c writes behind its buffer exactly on the streams that
-- begin with 100 bytes of which none is a newline, and at least one more byte.
pub handle_echo-undefined :
    (wrote : Bool) (rs : List Read) → (handle_echo wrote rs ≡ undefined) ↔ Overlong 0 rs
unfolding handle_echo
handle_echo-undefined wrote rs = (
  λ h. overrun-Overlong rs 0 blank (omega arith) (after-undefined (fill rs 0 blank) wrote h),
  λ o. rw (Overlong-overrun o),
)

-- The stream of a client that sends the given lines and closes its side.
abbrev pub lines : List (List ℕ) → List Read
lines [] = eof ∷ []
lines (text ∷ texts) = map got text ++ got newline ∷ lines texts

-- The replies to them, one behind the other.
abbrev pub replies : List (List ℕ) → List ℕ
replies [] = []
replies (text ∷ texts) = padded text ++ replies texts

abbrev pub IsShort : List ℕ → Type 0
IsShort text = IsText text × (length text < maxlen)

serve-lines_from :
    (texts : List (List ℕ)) (sent : List ℕ)
    → All IsShort texts
    → serve (replicate (length texts) true) (lines texts) sent
      ≡ returned zero_ret (sent ++ replies texts)
unfolding serve fill
serve-lines_from [] sent h = rw append-nil
serve-lines_from (text ∷ texts) sent h = rw (fill_text text (lines texts) h.0.0 h.0.1) (
    serve-lines_from texts (sent ++ padded text) h.1
    ∙ ap (returned zero_ret) (append_assoc sent (padded text) (replies texts)))

-- What the lines of a client that then closes are answered, by what each `write` comes to; `sent` went out
-- before.
abbrev pub answered : List Bool → List (List ℕ) → List ℕ → Echoed
answered ws [] sent = returned zero_ret sent
answered [] (text ∷ texts) sent = blocks
answered (true ∷ ws) (text ∷ texts) sent = answered ws texts (sent ++ padded text)
answered (false ∷ ws) (text ∷ texts) sent = returned minus_one (sent ++ padded text)

-- `handle_echo` of s_fork.c, on a client that sends lines of at most 99 bytes and then closes, whatever
-- comes of each `write`: it hands the lines to `write` in order, each padded to MAXLEN bytes, until one of
-- these fails, and then returns -1; it returns 0 if all of them work, and blocks in the first that has no
-- answer.
pub serve-answered :
    (ws : List Bool) (texts : List (List ℕ)) (sent : List ℕ)
    → All IsShort texts
    → serve ws (lines texts) sent ≡ answered ws texts sent
unfolding serve fill
serve-answered [] [] sent h = refl
serve-answered (w ∷ ws) [] sent h = refl
serve-answered [] (text ∷ texts) sent h = rw (fill_text text (lines texts) h.0.0 h.0.1) refl
serve-answered (true ∷ ws) (text ∷ texts) sent h =
    rw (fill_text text (lines texts) h.0.0 h.0.1)
      (serve-answered ws texts (sent ++ padded text) h.1)
serve-answered (false ∷ ws) (text ∷ texts) sent h =
    rw (fill_text text (lines texts) h.0.0 h.0.1) refl

-- `handle_echo` of s_fork.c, on a client that sends lines of at most 99 bytes and then closes, with
-- no write that fails: it answers every line in order, each padded to MAXLEN bytes, and returns 0.
pub serve-lines :
    (texts : List (List ℕ))
    → All IsShort texts
    → serve (replicate (length texts) true) (lines texts) [] ≡ returned zero_ret (replies texts)
serve-lines texts h = serve-lines_from texts [] h
