-- ===== src/Drm/Server/CrtcOutcomes.antt =====
-- What CMD_CRTC of drm_server.c comes to, by the answers of libdrm.
use sys_snippets.Common.{
  ℕ, ◌≡◌, refl, ap, List, [], ◌∷◌, ◌++◌, Bool, true, false, Option, none, some, length, ltb,
  if◌then◌else◌, arith,
}
use sys_snippets.Drm.Proto.{cmd_crtc, Crtc, to_crtc, null, Info}
use sys_snippets.Drm.Server.{
  set_crtc, Answers, State, Outcome, fine, failed, undefined, change_mode, mode_name_size, Reply,
  replied, undefined_reply, reply,
}
use sys_snippets.Drm.Server.Requests.{answer, heard}

-- The slot of a client behind the numbers and the name of CMD_CRTC.
abbrev pub crtc_info : (crtc conn fb : ℕ) → List ℕ → Info → Info
crtc_info crtc conn fb name i = record i {
  crtc_id = crtc;
  conn_id = conn;
  fb = fb;
  mode_name = name;
}

-- What CMD_CRTC comes to by the mode of the name, the crtc before, the answer of drmModeSetCrtc and the
-- crtc behind it: one call at most, with the crtc, the frame buffer and the connector of the client.
abbrev pub mode_outcome :
    Option (List ℕ)
    → Option Crtc
    → Bool
    → Option Crtc
    → (crtc conn fb : ℕ) → List ℕ
    → State
    → Outcome
mode_outcome none old set new crtc conn fb name s =
    failed (record s { info = crtc_info crtc conn fb name s.info })
mode_outcome (some m) none set new crtc conn fb name s = failed (record s {
  info = record (crtc_info crtc conn fb name s.info) { mode = some m; saved_crtc = null };
})
mode_outcome (some m) (some old) false new crtc conn fb name s = failed (record s {
  info = record (crtc_info crtc conn fb name s.info) { mode = some m; saved_crtc = to_crtc old };
  calls = s.calls ++ (set_crtc crtc fb 0 0 conn m ∷ []);
})
mode_outcome (some m) (some old) true none crtc conn fb name s = failed (record s {
  info = record (crtc_info crtc conn fb name s.info) {
    mode = some m;
    saved_crtc = to_crtc old;
    current_crtc = null;
  };
  calls = s.calls ++ (set_crtc crtc fb 0 0 conn m ∷ []);
})
mode_outcome (some m) (some old) true (some new) crtc conn fb name s = fine (record s {
  info = record (crtc_info crtc conn fb name s.info) {
    mode = some m;
    saved_crtc = to_crtc old;
    current_crtc = to_crtc new;
  };
  calls = s.calls ++ (set_crtc crtc fb 0 0 conn m ∷ []);
})

abbrev pub crtc_outcome : Answers → ℕ → ℕ → ℕ → List ℕ → State → Outcome
crtc_outcome a crtc conn fb name s =
    if ltb (length name) mode_name_size
    then mode_outcome a.found_mode a.before a.crtc_set a.after crtc conn fb name s
    else undefined

-- What is written to the client: its number, and DRM_OK or DRM_ERROR.
abbrev pub answered : ℕ → Outcome → Reply
answered magic (fine s) = replied s (answer magic true)
answered magic (failed s) = replied s (answer magic false)
answered magic undefined = undefined_reply

reply-answered :
    (found : Option (List ℕ)) (old : Option Crtc) (set : Bool) (new : Option Crtc)
    (crtc conn fb : ℕ) (name : List ℕ) (s : State)
    → reply (mode_outcome found old set new crtc conn fb name s)
      ≡ answered s.magic (mode_outcome found old set new crtc conn fb name s)
reply-answered none old set new crtc conn fb name s = refl
reply-answered (some m) none set new crtc conn fb name s = refl
reply-answered (some m) (some old) false new crtc conn fb name s = refl
reply-answered (some m) (some old) true none crtc conn fb name s = refl
reply-answered (some m) (some old) true (some new) crtc conn fb name s = refl

pub crtc_outcome-answered :
    (a : Answers) (magic crtc conn fb : ℕ) (name : List ℕ) (s : State)
    → reply (crtc_outcome a crtc conn fb name (heard magic cmd_crtc s))
      ≡ answered magic (crtc_outcome a crtc conn fb name (heard magic cmd_crtc s))
crtc_outcome-answered a magic crtc conn fb name s = go (ltb (length name) mode_name_size)
  where
    outcome : Outcome
    outcome =
        mode_outcome a.found_mode a.before a.crtc_set a.after crtc conn fb name
          (heard magic cmd_crtc s)

    go :
        (b : Bool)
        → reply (if b then outcome else undefined)
          ≡ answered magic (if b then outcome else undefined)
    go true =
        reply-answered a.found_mode a.before a.crtc_set a.after crtc conn fb name
          (heard magic cmd_crtc s)
    go false = refl

pub change_mode_lem :
    (a : Answers) (crtc conn fb : ℕ) (name : List ℕ) (s : State)
    → change_mode a s (crtc_info crtc conn fb name s.info)
      ≡ mode_outcome a.found_mode a.before a.crtc_set a.after crtc conn fb name s
change_mode_lem a crtc conn fb name s = ground arith

pub named_outcome :
    (b : Bool) {x y : Outcome} → x ≡ y → (if b then x else undefined) ≡ (if b then y else undefined)
named_outcome b e = ap (λ t. if b then t else undefined) e
