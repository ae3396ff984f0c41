-- ===== src/Kms/Named/Laws.antt =====
-- `drm_get_conf_cmdline` and `drm_get_mode_by_name` of drm-tests/drm_utils.c find what is named, and
-- what they then hold.
use sys_snippets.Common.{
  ℕ, ◌+◌, ◌-◌, ◌≡◌, refl, ap, ◌∙◌, List, Bool, true, false, Option, none, some, inl, inr,
  Option-cases, if◌then◌else◌, arith,
}
use sys_snippets.Kms.{
  Mode, Connector, Encoder, Crtc, Resources, Card, Held, KmsDisplay, Outcome, configured, refused,
  exited, is_named,
}
use sys_snippets.Kms.Search.{first, fetched, one, search_lem}
use sys_snippets.Kms.Named.Options.{asks_help, named, read_opts-named}
use sys_snippets.Kms.Named.{
  Opt, Wanted, default_wanted, conf_read, has_connector_id, has_encoder_id, has_crtc_id, with_crtc,
  with_mode, with_encoder, with_connector, conf_wanted, drm_get_conf_cmdline, mode_of,
  drm_get_mode_by_name,
}

abbrev pub all_of :
    Option Connector → Option Encoder → Option Mode → Option Crtc → Option KmsDisplay
all_of none e m x = none
all_of (some c) none m x = none
all_of (some c) (some e) none x = none
all_of (some c) (some e) (some m) none = none
all_of (some c) (some e) (some m) (some x) =
    some (record { connector = c; encoder = e; mode = some m; crtc = some x })

abbrev pub mode_named : List ℕ → Option Connector → Option Mode
mode_named name none = none
mode_named name (some c) = first (is_named name) c.modes

abbrev pub find_connector : Card → Resources → ℕ → Option Connector
find_connector card r n = first (has_connector_id n) (fetched card.get_connector r.connector_ids)

abbrev pub find_encoder : Card → Resources → ℕ → Option Encoder
find_encoder card r n = first (has_encoder_id n) (fetched card.get_encoder r.encoder_ids)

abbrev pub find_crtc : Card → Resources → ℕ → Option Crtc
find_crtc card r n = first (has_crtc_id n) (fetched card.get_crtc r.crtc_ids)

-- All four parts, which stay held; else nothing stays held but the resources.
abbrev pub on_display : Held → Option KmsDisplay → Outcome × Held
on_display h none = (refused, record h { resources = h.resources + 1 })
on_display h (some d) = (
  configured d,
  record {
    resources = h.resources;
    connectors = h.connectors + 1;
    encoders = h.encoders + 1;
    crtcs = h.crtcs + 1;
  },
)

-- The answer without loops.
abbrev pub on_resources : Card → Wanted → Held → Option Resources → Outcome × Held
on_resources card w h none = (refused, h)
on_resources card w h (some r) = on_display h (
    all_of (find_connector card r w.nid) (find_encoder card r w.eid)
      (mode_named w.mode_name (find_connector card r w.nid)) (find_crtc card r w.cid))

got_freed : (n : ℕ) → n + 1 - 1 ≡ n
got_freed n = omega arith

add_zero : (n : ℕ) → n + 0 ≡ n
add_zero n = omega arith

-- The objects held once a connector is found, and once an encoder is found too.
abbrev searching : Held → Held
searching h = record {
  resources = h.resources + 1;
  connectors = h.connectors + 1;
  encoders = h.encoders;
  crtcs = h.crtcs;
}

abbrev holding : Held → Held
holding h = record {
  resources = h.resources + 1;
  connectors = h.connectors + 1;
  encoders = h.encoders + 1;
  crtcs = h.crtcs;
}

restored :
    (c e x : ℕ) (h : Held)
    → c ≡ h.connectors
    → e ≡ h.encoders
    → x ≡ h.crtcs
    → (refused, record { resources = h.resources + 1; connectors = c; encoders = e; crtcs = x })
      ≡ on_display h none
restored c e x h p q k i =
    (refused, record { resources = h.resources + 1; connectors = p i; encoders = q i; crtcs = k i })

taken :
    (c : Connector) (e : Encoder) (m : Mode) (h : Held) (o : Option Crtc)
    → with_crtc c e m (holding h) (o, h.crtcs + one o)
      ≡ on_display h (all_of (some c) (some e) (some m) o)
taken c e m h none =
    restored _ _ _ h (got_freed h.connectors) (got_freed h.encoders) (add_zero h.crtcs)
taken c e m h (some x) = λ i. (
  configured (record { connector = c; encoder = e; mode = some m; crtc = some x }),
  record {
    resources = got_freed h.resources i;
    connectors = h.connectors + 1;
    encoders = h.encoders + 1;
    crtcs = h.crtcs + 1;
  },
)

with_mode_lem :
    (card : Card) (r : Resources) (w : Wanted) (c : Connector) (e : Encoder) (h : Held)
    (o : Option Mode)
    → with_mode card r w c e (holding h) o
      ≡ on_display h (all_of (some c) (some e) o (find_crtc card r w.cid))
with_mode_lem card r w c e h none =
    restored _ _ _ h (got_freed h.connectors) (got_freed h.encoders) refl
with_mode_lem card r w c e h (some m) =
    ap (with_crtc c e m (holding h))
      (search_lem card.get_crtc (has_crtc_id w.cid) r.crtc_ids h.crtcs)
    ∙ taken c e m h (find_crtc card r w.cid)

with_encoder_lem :
    (card : Card) (r : Resources) (w : Wanted) (c : Connector) (h : Held) (o : Option Encoder)
    → with_encoder card r w c (searching h) (o, h.encoders + one o)
      ≡ on_display h
          (all_of (some c) o (first (is_named w.mode_name) c.modes) (find_crtc card r w.cid))
with_encoder_lem card r w c h none =
    restored _ _ _ h (got_freed h.connectors) (add_zero h.encoders) refl
with_encoder_lem card r w c h (some e) =
    with_mode_lem card r w c e h (first (is_named w.mode_name) c.modes)

with_connector_lem :
    (card : Card) (r : Resources) (w : Wanted) (h : Held) (o : Option Connector)
    → with_connector card r w (record h { resources = h.resources + 1 }) (o, h.connectors + one o)
      ≡ on_display h
          (all_of o (find_encoder card r w.eid) (mode_named w.mode_name o) (find_crtc card r w.cid))
with_connector_lem card r w h none = restored _ _ _ h (add_zero h.connectors) refl refl
with_connector_lem card r w h (some c) =
    ap (with_encoder card r w c (searching h))
      (search_lem card.get_encoder (has_encoder_id w.eid) r.encoder_ids h.encoders)
    ∙ with_encoder_lem card r w c h (find_encoder card r w.eid)

conf_wanted_lem :
    (card : Card) (w : Wanted) (h : Held)
    → conf_wanted card w h ≡ on_resources card w h card.get_resources
conf_wanted_lem card w h = elim (Option-cases card.get_resources) [
  | inl e ↦ rw (e, conf_wanted) refl
  | inr (r, e) ↦
      rw (e, conf_wanted)
        (ap (with_connector card r w (record h { resources = h.resources + 1 }))
            (search_lem card.get_connector (has_connector_id w.nid) r.connector_ids h.connectors)
          ∙ with_connector_lem card r w h (find_connector card r w.nid))
]

conf_read_lem :
    (card : Card) (h : Held) (b : Bool) (w : Wanted)
    → conf_read card h (if b then none else some w)
      ≡ (if b then (exited, h) else on_resources card w h card.get_resources)
conf_read_lem card h true w = refl
conf_read_lem card h false w = conf_wanted_lem card w h

-- With -h or an option that it does not know `drm_get_conf_cmdline` exits. Else it configures exactly
-- the mode of the name that the last -m gives ("preferred" without one) and the connector, the encoder
-- and the CRTC of the ids that the last -n, -e and -c give (0 without one), if there are all four, and
-- holds one object of each kind; if not it refuses and holds the resources (when it got them) and
-- nothing else.
pub drm_get_conf_cmdline_lem :
    (card : Card) (os : List Opt) (h : Held)
    → drm_get_conf_cmdline card os h ≡ (
        if asks_help os
        then (exited, h)
        else on_resources card (named os default_wanted) h card.get_resources)
unfolding drm_get_conf_cmdline
drm_get_conf_cmdline_lem card os h =
    ap (conf_read card h) (read_opts-named os default_wanted)
    ∙ conf_read_lem card h (asks_help os) (named os default_wanted)

-- What the search for a mode by its name leaves.
abbrev pub on_connector : List ℕ → Held → Option Connector → Option Mode × Held
on_connector name h none = (none, h)
on_connector name h (some c) = elim (first (is_named name) c.modes) [
  | none ↦ (none, record h { resources = h.resources + 1 })
  | some m ↦ (some m, record h { connectors = h.connectors + 1 })
]

abbrev pub on_card : Card → ℕ → List ℕ → Held → Option Resources → Option Mode × Held
on_card card id name h none = (none, h)
on_card card id name h (some r) = on_connector name h (find_connector card r id)

mode_of_lem :
    (name : List ℕ) (h : Held) (o : Option Connector)
    → mode_of name (record h { resources = h.resources + 1 }) (o, h.connectors + one o)
      ≡ on_connector name h o
mode_of_lem name h none = λ i.
    (none, record h { resources = got_freed h.resources i; connectors = add_zero h.connectors i })
mode_of_lem name h (some c) = elim (Option-cases (first (is_named name) c.modes)) [
  | inl e ↦
      rw (e, mode_of, on_connector)
        (λ i.
          (none, record h { resources = h.resources + 1; connectors = got_freed h.connectors i }))
  | inr (m, e) ↦
      rw (e, mode_of, on_connector)
        (λ i.
          (some m, record h { resources = got_freed h.resources i; connectors = h.connectors + 1 }))
]

-- `drm_get_mode_by_name` returns the first mode of that name of the connector, and holds that
-- connector. If there is no such connector nothing stays held, if there is no such mode the resources.
pub drm_get_mode_by_name_lem :
    (card : Card) (id : ℕ) (name : List ℕ) (h : Held)
    → drm_get_mode_by_name card id name h ≡ on_card card id name h card.get_resources
unfolding drm_get_mode_by_name
drm_get_mode_by_name_lem card id name h = elim (Option-cases card.get_resources) [
  | inl e ↦ rw (e, drm_get_mode_by_name) refl
  | inr (r, e) ↦
      rw (e, drm_get_mode_by_name)
        (ap (mode_of name (record h { resources = h.resources + 1 }))
            (search_lem card.get_connector (has_connector_id id) r.connector_ids h.connectors)
          ∙ mode_of_lem name h (find_connector card r id))
]
