-- ===== src/Gst/Drmsink/Tests.antt =====
-- Frames of one pixel in two rows, in buffers with a stride of six bytes.
use sys_snippets.Common.{
  ℕ, ◌≡◌, refl, List, [], ◌∷◌, true, false, none, some, ◌==◌, if◌then◌else◌, arith,
}
use sys_snippets.Gst.Drmsink.{Sink, ok, undefined, render, setcaps, stop}
use sys_snippets.Gst.Drmsink.Copy.{Line}
use sys_snippets.Gst.Drmsink.Pair.{Pair, Shot, play, picture, sink}
use sys_snippets.Gst.Drmsink.Start.{start, expected, connector_of, mode_of, start-expected}
use sys_snippets.Kms.Search.{first}
use sys_snippets.Kms.{Connector, Card}
use sys_snippets.Gst.Drmsink.Life.{mapped, setcaps-play, stop-setcaps-render}

abbrev blank : List Line
blank = (0 ∷ 0 ∷ 0 ∷ 0 ∷ [], 0 ∷ 0 ∷ []) ∷ (0 ∷ 0 ∷ 0 ∷ 0 ∷ [], 0 ∷ 0 ∷ []) ∷ []

abbrev rows : ℕ → List (List ℕ)
rows n = (n ∷ n ∷ n ∷ n ∷ []) ∷ (n ∷ n ∷ n ∷ 0 ∷ []) ∷ []

abbrev taken : Shot
taken = record { rows = rows 1; extra = 9 ∷ []; works = true }

abbrev refused : Shot
refused = record { rows = rows 2; extra = []; works = false }

abbrev off : Sink
off = record {
  enabled = false;
  frame = none;
  stride = [];
  current = 0;
  width = 0;
  height = 0;
  screen = none;
  saved = false;
}

setcaps-play_example :
    (t : Sink) × (q : Pair) × (setcaps 8 8 1 2
        (mapped 6 blank [])
        (mapped 6 blank (5 ∷ []))
        true
        off
      ≡ ok t)
    × (play (taken ∷ refused ∷ []) t ≡ some (sink 1 2 6 6 q))
    × (picture q ≡ some (rows 1))
setcaps-play_example =
    setcaps-play 1 2 8 8 6 6 blank blank [] (5 ∷ []) (taken ∷ refused ∷ []) off refl refl
      (omega arith) (omega arith) (omega arith) ((refl, refl), ((refl, refl), tt))
      ((refl, refl), ((refl, refl), tt)) refl refl (omega arith) (omega arith)
      (((refl, (refl, tt)), refl), (((refl, (refl, tt)), refl), tt))

abbrev used : Sink
used = record off {
  enabled = true;
  frame = some ((0 ∷ []) ∷ (0 ∷ []) ∷ []);
  stride = 1 ∷ 1 ∷ [];
  saved = true;
}

stop-setcaps-render_run :
    (t : Sink) × (stop true true used ≡ ok t)
    × (setcaps 8 8 1 2 (mapped 6 blank []) (mapped 6 blank []) true t ≡ ok t)
    × (render [] true t ≡ undefined)
stop-setcaps-render_run =
    stop-setcaps-render 8 8 1 2 (mapped 6 blank []) (mapped 6 blank []) true true true true [] used
      refl refl (omega arith)

abbrev vga : Connector
vga = record {
  connector_id = 5;
  current_encoder = 0;
  connected = true;
  modes = record { name = b's' ∷ []; clock = 25 } ∷ [];
  encoders = [];
}

abbrev card : Card
card = record {
  get_resources = some (record { connector_ids = 4 ∷ 5 ∷ []; encoder_ids = []; crtc_ids = [] });
  get_connector = λ n. if n == 5 then some vga else none;
  get_encoder = λ n. none;
  get_crtc = λ n. none;
}

start-expected_example :
    start true card true 5 (some (b's' ∷ []))
    ≡ expected true (connector_of card 5) (mode_of (b's' ∷ []) (connector_of card 5))
start-expected_example = start-expected card true 5 (b's' ∷ [])

-- The mode is found, and not with another name.
vga_mode :
    mode_of (b's' ∷ []) (connector_of card 5) ≡ some (record { name = b's' ∷ []; clock = 25 })
unfolding first
vga_mode = refl

no_mode : mode_of (b't' ∷ []) (connector_of card 5) ≡ none
unfolding first
no_mode = refl
