-- ===== src/Drm/Server.antt =====
-- How drm-tests/drm_server.c answers one message of a client. The answers of libdrm are arguments,
-- and the calls that change the display are kept in a log.
pub mod Requests
pub mod CrtcOutcomes
pub mod CrtcRequests
use sys_snippets.Common.{
  ℕ, zero, suc, ◌+◌, ◌*◌, ◌%◌, ◌^◌, List, [], ◌∷◌, ◌++◌, Bool, true, false, Option, none, some,
  length, ltb, ◌==◌, if◌then◌else◌,
}
use sys_snippets.Drm.Text.{word, scan_ints, print_ints, colon, skip_spaces, take_word}
use sys_snippets.Drm.Proto.{
  cmd_auth, cmd_crtc, cmd_plane, cmd_crtc_stop, cmd_plane_stop, drm_ok, drm_error, Crtc, CrtcPtr,
  wild, null, to_crtc, Info,
}

-- The calls of libdrm that the server makes, with the arguments that vary.
pub data Call : Type 0 where
  auth_magic : ℕ → Call
  set_crtc : (crtc fb x y conn : ℕ) (mode : List ℕ) → Call
  set_plane : (plane crtc fb x y w h src_w src_h : ℕ) → Call

-- What the calls for one message return: whether drmAuthMagic, drmModeSetCrtc and drmModeSetPlane
-- return 0, the mode that `drm_get_mode_by_name` finds, and the crtc before and after.
pub record Answers : Type 0 where
  pub authenticated : Bool
  pub found_mode : Option (List ℕ)
  pub before : Option Crtc
  pub crtc_set : Bool
  pub after : Option Crtc
  pub plane_set : Bool

-- `magic` and `command` are variables of `main` that outlive a message.
pub record State : Type 0 where
  pub magic : ℕ
  pub command : ℕ
  pub info : Info
  pub calls : List Call

-- What a command comes to: DRM_OK, `ret == -1`, or undefined behaviour.
pub data Outcome : Type 0 where
  fine : State → Outcome
  failed : State → Outcome
  undefined : Outcome

-- `sscanf(rx_buf, "%d:%d", &magic, &command)`; what is not there is not assigned.
abbrev pub assign_head : List ℕ → State → State
assign_head [] s = s
assign_head (a ∷ []) s = record s { magic = a }
assign_head (a ∷ b ∷ _) s = record s { magic = a; command = b }

abbrev pub call : Call → State → State
call c s = record s { calls = s.calls ++ (c ∷ []) }

-- `bzero` of the client's slot.
abbrev pub blank_info : Info
blank_info = record {
  magic = 0;
  saved_crtc = null;
  current_crtc = null;
  crtc_id = 0;
  conn_id = 0;
  plane_id = 0;
  w = 0;
  h = 0;
  x = 0;
  y = 0;
  fb = 0;
  mode_name = [];
  mode = none;
}

unfoldable pub on_auth : Answers → State → Outcome
on_auth a s =
    let s' = call (auth_magic s.magic) s in
    if a.authenticated
    then fine (record s' { info = record blank_info { magic = s.magic } })
    else failed s'

-- `char mode_name[20]`
abbrev pub mode_name_size : ℕ
mode_name_size = 20

-- What `sscanf` assigns to the places that it is given, as far as there are numbers.
abbrev pub assign : List (ℕ → Info → Info) → List ℕ → Info → Info
assign [] vs i = i
assign (f ∷ fs) [] i = i
assign (f ∷ fs) (v ∷ vs) i = assign fs vs (f v i)

-- `&a, &b, &drm_clients[i].crtc_id, &drm_clients[i].conn_id, &drm_clients[i].fb`
abbrev pub crtc_places : List (ℕ → Info → Info)
crtc_places =
    (λ v i. i)
    ∷ (λ v i. i)
    ∷ (λ v i. record i { crtc_id = v })
    ∷ (λ v i. record i { conn_id = v })
    ∷ (λ v i. record i { fb = v })
    ∷ []

abbrev pub plane_places : List (ℕ → Info → Info)
plane_places =
    (λ v i. i)
    ∷ (λ v i. i)
    ∷ (λ v i. record i { crtc_id = v })
    ∷ (λ v i. record i { plane_id = v })
    ∷ (λ v i. record i { fb = v })
    ∷ (λ v i. record i { w = v })
    ∷ (λ v i. record i { h = v })
    ∷ (λ v i. record i { x = v })
    ∷ (λ v i. record i { y = v })
    ∷ []

abbrev pub nonempty : List ℕ → Option (List ℕ)
nonempty [] = none
nonempty (c ∷ cs) = some (c ∷ cs)

abbrev pub name_behind : Option (List ℕ) → Option (List ℕ)
name_behind none = none
name_behind (some cs) = nonempty (take_word (skip_spaces cs))

-- The %s of "%d:%d:%d:%d:%d:%s": read if all five numbers and the colon behind them are there, and
-- a byte that is no space.
abbrev pub crtc_name : List ℕ × List ℕ → Option (List ℕ)
crtc_name (vs, rest) = if length vs == 5 then name_behind (colon rest) else none

-- The restoring or setting call of drmModeSetCrtc.
abbrev pub try_call : Bool → Call → State → Outcome
try_call works c s = if works then fine (call c s) else failed (call c s)

abbrev pub with_info : State → Info → State
with_info s i = record s { info = i }

-- drmModeSetCrtc with the new mode, and the look at the crtc behind it.
abbrev pub set_new_crtc : Answers → List ℕ → State → Info → Outcome
set_new_crtc a m s i =
    let s' = call (set_crtc i.crtc_id i.fb 0 0 i.conn_id m) (with_info s i) in
    let set_current = λ (p : CrtcPtr). with_info s' (record i { current_crtc = p }) in
    if a.crtc_set
    then elim a.after [ none ↦ failed (set_current null) | some c ↦ fine (set_current (to_crtc c)) ]
    else failed s'

-- From `drm_get_mode_by_name` on.
abbrev pub change_mode : Answers → State → Info → Outcome
change_mode a s i = elim a.found_mode [
  | none ↦ failed (with_info s i)
  | some m ↦ elim a.before [
    | none ↦ failed (with_info s (record i { mode = some m; saved_crtc = null }))
    | some c ↦ set_new_crtc a m s (record i { mode = some m; saved_crtc = to_crtc c })
  ]
]

-- A name that does not fit into `mode_name` with its NUL is written behind it.
abbrev pub after_name : Answers → State → Info → Option (List ℕ) → Outcome
after_name a s i none = change_mode a s i
after_name a s i (some name) =
    if ltb (length name) mode_name_size
    then change_mode a s (record i { mode_name = name })
    else undefined

abbrev pub after_scan : Answers → State → List ℕ × List ℕ → Outcome
after_scan a s scanned = after_name a s (assign crtc_places scanned.0 s.info) (crtc_name scanned)

unfoldable pub on_crtc : Answers → List ℕ → State → Outcome
on_crtc a rx s = after_scan a s (scan_ints 5 rx)

-- `w << 16`
abbrev pub shl_16 : ℕ → ℕ
shl_16 v = v * 65536 % word

unfoldable pub on_plane : Answers → List ℕ → State → Outcome
on_plane a rx s =
    let i = assign plane_places (scan_ints 9 rx).0 s.info in
    try_call a.plane_set
      (set_plane i.plane_id i.crtc_id i.fb i.x i.y i.w i.h (shl_16 i.w) (shl_16 i.h))
      (with_info s i)

abbrev pub restore : Answers → State → CrtcPtr → Outcome
restore a s wild = undefined
restore a s null = undefined
restore a s (to_crtc c) =
    if c.mode_valid == 0
    then fine s
    else try_call a.crtc_set (set_crtc c.crtc_id c.buffer_id c.x c.y s.info.conn_id c.mode) s

unfoldable pub on_crtc_stop : Answers → State → Outcome
on_crtc_stop a s = restore a s s.info.saved_crtc

unfoldable pub on_plane_stop : Answers → State → Outcome
on_plane_stop a s = try_call a.plane_set (set_plane s.info.plane_id 0 0 0 0 0 0 0 0) s

-- `switch (command)`
unfoldable pub dispatch : Answers → List ℕ → State → Outcome
unfolding on_auth on_crtc on_plane on_crtc_stop on_plane_stop
dispatch a rx s =
    if s.command == cmd_auth
    then on_auth a s
    else if s.command == cmd_crtc
    then on_crtc a rx s
    else if s.command == cmd_plane
    then on_plane a rx s
    else if s.command == cmd_crtc_stop
    then on_crtc_stop a s
    else if s.command == cmd_plane_stop
    then on_plane_stop a s
    else failed s

-- The state behind a message, and what is written to the client.
pub data Reply : Type 0 where
  replied : State → List ℕ → Reply
  undefined_reply : Reply

abbrev pub reply : Outcome → Reply
reply (fine s) = replied s (print_ints (s.magic ∷ drm_ok ∷ []))
reply (failed s) = replied s (print_ints (s.magic ∷ drm_error ∷ []))
reply undefined = undefined_reply

-- A message `rx` of one client, from `sscanf` to `write`.
unfoldable pub handle : Answers → List ℕ → State → Reply
unfolding dispatch
handle a rx s = reply (dispatch a rx (assign_head (scan_ints 2 rx).0 s))
