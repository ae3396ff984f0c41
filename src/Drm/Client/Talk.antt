-- ===== src/Drm/Client/Talk.antt =====
-- The server communication loop of drm_client_plane.c and drm_client_crtc.c, whatever comes back on the
-- socket.
use sys_snippets.Common.{
  ℕ, zero, suc, ◌≡◌, refl, ap, List, [], ◌∷◌, ◌++◌, Bool, true, false, ◌==◌, if◌then◌else◌,
  Bool-cases, inl, inr,
}
use sys_snippets.Drm.Text.{scan_ints}
use sys_snippets.Drm.Proto.{drm_ok}
use sys_snippets.Drm.Client.{
  Stage, asked_auth, asked_show, asked_stop, Client, Next, send, wait, give_up, quit, advance,
  on_values, on_response,
}

-- One turn of `while (1)`: select times out, select fails, it reports another descriptor, the read gives
-- nothing, or a text is read, and the write that answers it goes through or not.
pub data Round : Type 0 where
  timed_out select_failed not_ready read_failed : Round
  received : List ℕ → Bool → Round

-- A message that was written to the server, or the image drawn.
pub data Act : Type 0 where
  wrote : List ℕ → Act
  drew : Act

-- What the client does, and whether it has left the loop; else it waits in select.
pub record Talk : Type 0 where
  pub acts : List Act
  pub over : Bool

abbrev pub leaves : Talk
leaves = record { acts = []; over = true }

abbrev pub waits : Talk
waits = record { acts = []; over = false }

abbrev pub first : List Act → Talk → Talk
first acts t = record { acts = acts ++ t.acts; over = t.over }

-- The image is drawn before the last message.
abbrev pub drawing : Stage → List Act
drawing asked_auth = []
drawing asked_show = []
drawing asked_stop = drew ∷ []

abbrev on_write : Bool → List ℕ → Talk → Talk
on_write true line t = first (wrote line ∷ []) t
on_write false line t = leaves

-- `again` is the loop from here on, for each value of `command`.
abbrev pub on_next : Next → Bool → Stage → (Stage → Talk) → Talk
on_next (send next line) written stage again =
    first (drawing next) (on_write written line (again next))
on_next wait written stage again = again stage
on_next give_up written stage again = leaves
on_next quit written stage again = leaves

unfoldable pub client_loop : Client → Stage → List Round → Talk
client_loop c stage [] = waits
client_loop c stage (timed_out ∷ rs) = leaves
client_loop c stage (select_failed ∷ rs) = leaves
client_loop c stage (not_ready ∷ rs) = client_loop c stage rs
client_loop c stage (read_failed ∷ rs) = leaves
client_loop c stage (received text written ∷ rs) =
    on_next (on_response c stage text) written stage λ s. client_loop c s rs

-- The server accepts: the client's magic, and DRM_OK.
abbrev accepted : Client → List ℕ → Bool
accepted c [] = false
accepted c (mag ∷ []) = false
accepted c (mag ∷ val ∷ _) = if mag == c.magic then val == drm_ok else false

abbrev one_more : Bool → ℕ → ℕ
one_more true n = suc n
one_more false n = n

-- How many of the texts that come accept.
unfoldable pub accepts : Client → List Round → ℕ
accepts c [] = zero
accepts c (timed_out ∷ rs) = accepts c rs
accepts c (select_failed ∷ rs) = accepts c rs
accepts c (not_ready ∷ rs) = accepts c rs
accepts c (read_failed ∷ rs) = accepts c rs
accepts c (received text written ∷ rs) = one_more (accepted c (scan_ints 2 text).0) (accepts c rs)

-- What a client may do that was accepted so many times.
abbrev pub allowed : Client → Stage → ℕ → List Act
allowed c asked_auth zero = []
allowed c asked_auth (suc n) = wrote c.show_line ∷ allowed c asked_show n
allowed c asked_show zero = []
allowed c asked_show (suc n) = drew ∷ wrote c.stop_line ∷ []
allowed c asked_stop n = []

abbrev pub IsPrefix : List Act → List Act → Type 0
IsPrefix xs ys = (zs : List Act) × (xs ++ zs ≡ ys)

nothing-IsPrefix : (ys : List Act) → IsPrefix [] ys
nothing-IsPrefix ys = (ys, refl)

cons-IsPrefix : (x : Act) (xs ys : List Act) → IsPrefix xs ys → IsPrefix (x ∷ xs) (x ∷ ys)
cons-IsPrefix x xs ys p = (p.0, ap (λ t. x ∷ t) p.1)

accepted-advance :
    (c : Client) (stage : Stage) (n : ℕ) (written : Bool) (again : Stage → Talk)
    → ((s : Stage) → IsPrefix (again s).acts (allowed c s n))
    → IsPrefix (on_next (advance c stage) written stage again).acts (allowed c stage (suc n))
accepted-advance c asked_auth n true again ih =
    cons-IsPrefix (wrote c.show_line) (again asked_show).acts _ (ih asked_show)
accepted-advance c asked_auth n false again ih = nothing-IsPrefix _
accepted-advance c asked_show n true again ih =
    cons-IsPrefix drew (wrote c.stop_line ∷ (again asked_stop).acts) _
      (cons-IsPrefix (wrote c.stop_line) (again asked_stop).acts [] (ih asked_stop))
accepted-advance c asked_show n false again ih = cons-IsPrefix drew [] _ (nothing-IsPrefix _)
accepted-advance c asked_stop n written again ih = nothing-IsPrefix _

values-IsPrefix :
    (c : Client) (stage : Stage) (n : ℕ) (written : Bool) (again : Stage → Talk) (vs : List ℕ)
    → ((s : Stage) → IsPrefix (again s).acts (allowed c s n))
    → IsPrefix
        (on_next (on_values c stage vs) written stage again).acts
        (allowed c stage (one_more (accepted c vs) n))
values-IsPrefix c stage n written again [] ih = nothing-IsPrefix _
values-IsPrefix c stage n written again (mag ∷ []) ih = nothing-IsPrefix _
values-IsPrefix c stage n written again (mag ∷ val ∷ vs) ih = elim (Bool-cases (mag == c.magic)) [
  | inl e ↦ elim (Bool-cases (val == drm_ok)) [
    | inl f ↦ rw (e, f) (accepted-advance c stage n written again ih)
    | inr f ↦ rw (e, f) (nothing-IsPrefix (allowed c stage n))
  ]
  | inr e ↦ rw e (ih stage)
]

-- Whatever comes from the server and whichever calls fail, the client does the steps of its session in
-- order, at most: it sends its show message only when it was accepted once, draws and sends its stop
-- message only when it was accepted twice.
pub client_loop-IsPrefix :
    (c : Client) (stage : Stage) (rs : List Round)
    → IsPrefix (client_loop c stage rs).acts (allowed c stage (accepts c rs))
unfolding client_loop accepts on_response
client_loop-IsPrefix c stage [] = nothing-IsPrefix _
client_loop-IsPrefix c stage (timed_out ∷ rs) = nothing-IsPrefix _
client_loop-IsPrefix c stage (select_failed ∷ rs) = nothing-IsPrefix _
client_loop-IsPrefix c stage (not_ready ∷ rs) = client_loop-IsPrefix c stage rs
client_loop-IsPrefix c stage (read_failed ∷ rs) = nothing-IsPrefix _
client_loop-IsPrefix c stage (received text written ∷ rs) =
    values-IsPrefix c stage (accepts c rs) written (λ s. client_loop c s rs) (scan_ints 2 text).0
      (λ s. client_loop-IsPrefix c s rs)
