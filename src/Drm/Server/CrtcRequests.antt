-- ===== src/Drm/Server/CrtcRequests.antt =====
-- What the requests of drm_client_crtc.c make drm_server.c do.
use mathlib.Core.List.{append_assoc}
use sys_snippets.Common.{
  ℕ, ◌<◌, ◌≡◌, ◌≢◌, refl, ap, ◌∙◌, List, [], ◌∷◌, ◌++◌, true, false, some, length, All, ltb, ◌==◌,
  lt→ltb, arith,
}
use sys_snippets.Drm.Text.{word, scan_ints, print_ints, is_space, skip_spaces, take_word}
use sys_snippets.Drm.Text.Laws.{Words, scan_ints-print_ints, print_ints-append}
use sys_snippets.Drm.Proto.{cmd_crtc, cmd_crtc_stop, Crtc, to_crtc}
use sys_snippets.Drm.Server.{
  set_crtc, Answers, State, call, mode_name_size, on_crtc, on_crtc_stop, dispatch, handle, replied,
  reply, restore, crtc_name, nonempty, after_name, after_scan,
}
use sys_snippets.Drm.Server.CrtcOutcomes.{
  crtc_info, crtc_outcome, answered, crtc_outcome-answered, change_mode_lem, named_outcome,
}
use sys_snippets.Drm.Server.Requests.{answer, scan_two, heard}

-- The line that drm_client_crtc.c prints for CMD_CRTC by "%d:%d:%d:%d:%d:%s".
abbrev pub crtc_line : (magic crtc conn fb : ℕ) → List ℕ → List ℕ
crtc_line magic crtc conn fb name =
    print_ints (magic ∷ cmd_crtc ∷ crtc ∷ conn ∷ fb ∷ []) ++ b':' ∷ name

abbrev pub IsWord : List ℕ → Type 0
IsWord = All (λ c. is_space c ≡ false)

take_word_self : (cs : List ℕ) → IsWord cs → take_word cs ≡ cs
unfolding take_word
take_word_self [] w = refl
take_word_self (c ∷ cs) w = rw w.0 (ap (λ t. c ∷ t) (take_word_self cs w.1))

skip_spaces-word : (c : ℕ) (cs : List ℕ) → is_space c ≡ false → skip_spaces (c ∷ cs) ≡ c ∷ cs
unfolding skip_spaces
skip_spaces-word c cs e = rw e

scan_crtc :
    (magic crtc conn fb : ℕ) (name : List ℕ)
    → Words (magic ∷ crtc ∷ conn ∷ fb ∷ [])
    → scan_ints 5 (crtc_line magic crtc conn fb name)
      ≡ (magic ∷ cmd_crtc ∷ crtc ∷ conn ∷ fb ∷ [], b':' ∷ name)
scan_crtc magic crtc conn fb name k =
    scan_ints-print_ints magic (cmd_crtc ∷ crtc ∷ conn ∷ fb ∷ []) (b':' ∷ name)
      (k.0, (omega arith, k.1)) refl

name-word :
    (vs : List ℕ) (c : ℕ) (cs : List ℕ)
    → length vs ≡ 5
    → IsWord (c ∷ cs)
    → crtc_name (vs, b':' ∷ c ∷ cs) ≡ some (c ∷ cs)
name-word vs c cs five w =
    let test : (length vs == 5) ≡ true = ground arith in
    rw test (ap nonempty (ap take_word (skip_spaces-word c cs w.0) ∙ take_word_self (c ∷ cs) w))

on_crtc_lem :
    (a : Answers) (magic crtc conn fb c : ℕ) (cs : List ℕ) (s : State)
    → Words (magic ∷ crtc ∷ conn ∷ fb ∷ [])
    → IsWord (c ∷ cs)
    → on_crtc a (crtc_line magic crtc conn fb (c ∷ cs)) s ≡ crtc_outcome a crtc conn fb (c ∷ cs) s
unfolding on_crtc
on_crtc_lem a magic crtc conn fb c cs s k w =
    ap (after_scan a s) (scan_crtc magic crtc conn fb (c ∷ cs) k)
    ∙ ap (after_name a s _) (name-word (magic ∷ cmd_crtc ∷ crtc ∷ conn ∷ fb ∷ []) c cs refl w)
    ∙ named_outcome (ltb (length (c ∷ cs)) mode_name_size)
        (change_mode_lem a crtc conn fb (c ∷ cs) s)

handle-head :
    (a : Answers) (rx : List ℕ) (magic command : ℕ) (s : State)
    → (scan_ints 2 rx).0 ≡ magic ∷ command ∷ []
    → handle a rx s ≡ reply (dispatch a rx (heard magic command s))
unfolding handle
handle-head a rx magic command s e = rw e

dispatch-crtc :
    (a : Answers) (rx : List ℕ) (magic : ℕ) (s : State)
    → dispatch a rx (heard magic cmd_crtc s) ≡ on_crtc a rx (heard magic cmd_crtc s)
unfolding dispatch
dispatch-crtc a rx magic s = refl

scan_crtc_head :
    (magic crtc conn fb : ℕ) (name : List ℕ)
    → Words (magic ∷ crtc ∷ conn ∷ fb ∷ [])
    → (scan_ints 2 (crtc_line magic crtc conn fb name)).0 ≡ magic ∷ cmd_crtc ∷ []
scan_crtc_head magic crtc conn fb name k =
    let rest = print_ints (crtc ∷ conn ∷ fb ∷ []) ++ b':' ∷ name in
    ap (λ t. (scan_ints 2 (t ++ b':' ∷ name)).0)
      (print_ints-append magic (cmd_crtc ∷ []) crtc (conn ∷ fb ∷ []))
    ∙ ap (λ t. (scan_ints 2 t).0)
        (append_assoc (print_ints (magic ∷ cmd_crtc ∷ []))
          (b':' ∷ print_ints (crtc ∷ conn ∷ fb ∷ [])) (b':' ∷ name))
    ∙ ap (λ t. t.0)
        (scan_ints-print_ints magic (cmd_crtc ∷ []) (b':' ∷ rest) (k.0, omega arith) refl)

-- A request CMD_CRTC, as drm_client_crtc.c prints it, with a mode name of one word. If the name is
-- shorter than `mode_name`, and there is a mode of that name and a crtc before, the server calls
-- drmModeSetCrtc once, with the crtc, the frame buffer and the connector of the client and that mode, and
-- keeps the crtc before it; else it makes no call. It answers DRM_OK exactly if all of these calls work,
-- the look at the crtc behind it too. If the name is longer, the server writes behind `mode_name`.
pub handle-crtc :
    (a : Answers) (magic crtc conn fb c : ℕ) (cs : List ℕ) (s : State)
    → Words (magic ∷ crtc ∷ conn ∷ fb ∷ [])
    → IsWord (c ∷ cs)
    → handle a (crtc_line magic crtc conn fb (c ∷ cs)) s
      ≡ answered magic (crtc_outcome a crtc conn fb (c ∷ cs) (heard magic cmd_crtc s))
handle-crtc a magic crtc conn fb c cs s k w =
    let line = crtc_line magic crtc conn fb (c ∷ cs) in
    handle-head a line magic cmd_crtc s (scan_crtc_head magic crtc conn fb (c ∷ cs) k)
    ∙ ap reply (dispatch-crtc a line magic s ∙ on_crtc_lem a magic crtc conn fb c cs _ k w)
    ∙ crtc_outcome-answered a magic crtc conn fb (c ∷ cs) s

-- CMD_CRTC_STOP.
pub handle-crtc_stop :
    (a : Answers) (magic : ℕ) (s : State)
    → magic < word
    → handle a (print_ints (magic ∷ cmd_crtc_stop ∷ [])) s
      ≡ reply (on_crtc_stop a (heard magic cmd_crtc_stop s))
unfolding handle
handle-crtc_stop a magic s h = rw (scan_two magic cmd_crtc_stop (h, omega arith))

-- The state behind CMD_CRTC and behind CMD_CRTC_STOP, where every call works.
abbrev pub after_crtc :
    (magic crtc conn fb : ℕ) → (name mode : List ℕ) → (old new : Crtc) → State → State
after_crtc magic crtc conn fb name mode old new s =
    record (call (set_crtc crtc fb 0 0 conn mode) (heard magic cmd_crtc s)) {
      info = record (crtc_info crtc conn fb name s.info) {
        mode = some mode;
        saved_crtc = to_crtc old;
        current_crtc = to_crtc new;
      };
    }

abbrev pub after_crtc_stop : ℕ → Crtc → State → State
after_crtc_stop magic old s =
    call (set_crtc old.crtc_id old.buffer_id old.x old.y s.info.conn_id old.mode)
      (heard magic cmd_crtc_stop s)

-- CMD_CRTC where every call works.
pub crtc-works :
    (a : Answers) (magic crtc conn fb : ℕ) (name mode : List ℕ) (old new : Crtc) (s : State)
    → length name < mode_name_size
    → a.found_mode ≡ some mode
    → a.before ≡ some old
    → a.crtc_set ≡ true
    → a.after ≡ some new
    → answered magic (crtc_outcome a crtc conn fb name (heard magic cmd_crtc s))
      ≡ replied (after_crtc magic crtc conn fb name mode old new s) (answer magic true)
crtc-works a magic crtc conn fb name mode old new s l e1 e2 e3 e4 =
    rw (lt→ltb (length name) mode_name_size l, e1, e2, e3, e4)

-- CMD_CRTC_STOP where the crtc was saved, had a mode, and can be set.
pub stop-works :
    (a : Answers) (magic : ℕ) (old : Crtc) (s : State)
    → s.info.saved_crtc ≡ to_crtc old
    → old.mode_valid ≢ 0
    → a.crtc_set ≡ true
    → reply (on_crtc_stop a (heard magic cmd_crtc_stop s))
      ≡ replied (after_crtc_stop magic old s) (answer magic true)
unfolding on_crtc_stop
stop-works a magic old s e v w =
    let set : (old.mode_valid == 0) ≡ false = ground arith in
    ap (λ p. reply (restore a (heard magic cmd_crtc_stop s) p)) e ∙ rw (set, w)
