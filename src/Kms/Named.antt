-- ===== src/Kms/Named.antt =====
-- `drm_get_conf_cmdline` and `drm_get_mode_by_name` of drm-tests/drm_utils.c: a display of which the
-- user names the parts, and the mode of a name.
use sys_snippets.Common.{
  ℕ, ◌+◌, ◌-◌, ◌≡◌, refl, ap, ◌∙◌, List, [], ◌∷◌, Bool, true, false, Option, none, some, ◌==◌, inl,
  inr, Bool-cases, Option-cases, if◌then◌else◌, arith,
}
use sys_snippets.Kms.{
  Mode, Connector, Encoder, Crtc, Resources, Card, Held, KmsDisplay, Outcome, configured, refused,
  undefined, exited, is_named, preferred,
}
use sys_snippets.Kms.Search.{search, first}
pub mod Options
pub mod Laws

-- An answer of `getopt`: an option with its argument, after `atoi` where the code calls it, as an
-- `unsigned int`.
pub data Opt : Type 0 where
  mode_opt : List ℕ → Opt
  connector_opt : ℕ → Opt
  crtc_opt : ℕ → Opt
  encoder_opt : ℕ → Opt
  help_opt : Opt

-- `mode_name`, `nid`, `eid` and `cid`.
pub record Wanted : Type 0 where
  pub mode_name : List ℕ
  pub nid : ℕ
  pub eid : ℕ
  pub cid : ℕ

abbrev pub default_wanted : Wanted
default_wanted = record { mode_name = preferred; nid = 0; eid = 0; cid = 0 }

-- The `while` loop over the options; none where the process exits.
unfoldable pub read_opts : List Opt → Wanted → Option Wanted
read_opts [] w = some w
read_opts (mode_opt name ∷ os) w = read_opts os (record w { mode_name = name })
read_opts (connector_opt n ∷ os) w = read_opts os (record w { nid = n })
read_opts (crtc_opt n ∷ os) w = read_opts os (record w { cid = n })
read_opts (encoder_opt n ∷ os) w = read_opts os (record w { eid = n })
read_opts (help_opt ∷ os) w = none

abbrev pub has_connector_id : ℕ → Connector → Bool
has_connector_id n c = n == c.connector_id

abbrev pub has_encoder_id : ℕ → Encoder → Bool
has_encoder_id n e = n == e.encoder_id

abbrev pub has_crtc_id : ℕ → Crtc → Bool
has_crtc_id n x = n == x.crtc_id

-- After the search for a CRTC.
abbrev pub with_crtc : Connector → Encoder → Mode → Held → Option Crtc × ℕ → Outcome × Held
with_crtc c e m h (none, n) =
    (refused, record h { encoders = h.encoders - 1; connectors = h.connectors - 1; crtcs = n })
with_crtc c e m h (some x, n) = (
  configured (record { connector = c; encoder = e; mode = some m; crtc = some x }),
  record h { resources = h.resources - 1; crtcs = n },
)

-- After the search for a mode.
abbrev pub with_mode :
    Card → Resources → Wanted → Connector → Encoder → Held → Option Mode → Outcome × Held
with_mode card r w c e h none =
    (refused, record h { encoders = h.encoders - 1; connectors = h.connectors - 1 })
with_mode card r w c e h (some m) =
    with_crtc c e m h (search card.get_crtc (has_crtc_id w.cid) r.crtc_ids h.crtcs)

-- After the search for an encoder.
abbrev pub with_encoder :
    Card → Resources → Wanted → Connector → Held → Option Encoder × ℕ → Outcome × Held
with_encoder card r w c h (none, n) =
    (refused, record h { connectors = h.connectors - 1; encoders = n })
with_encoder card r w c h (some e, n) =
    with_mode card r w c e (record h { encoders = n }) (first (is_named w.mode_name) c.modes)

-- After the search for a connector.
abbrev pub with_connector : Card → Resources → Wanted → Held → Option Connector × ℕ → Outcome × Held
with_connector card r w h (none, n) = (refused, record h { connectors = n })
with_connector card r w h (some c, n) =
    with_encoder card r w c (record h { connectors = n })
      (search card.get_encoder (has_encoder_id w.eid) r.encoder_ids h.encoders)

-- What follows the options.
abbrev pub conf_wanted : Card → Wanted → Held → Outcome × Held
conf_wanted card w h = elim card.get_resources [
  | none ↦ (refused, h)
  | some r ↦
      with_connector card r w (record h { resources = h.resources + 1 })
        (search card.get_connector (has_connector_id w.nid) r.connector_ids h.connectors)
]

abbrev pub conf_read : Card → Held → Option Wanted → Outcome × Held
conf_read card h none = (exited, h)
conf_read card h (some w) = conf_wanted card w h

unfoldable pub drm_get_conf_cmdline : Card → List Opt → Held → Outcome × Held
unfolding read_opts
drm_get_conf_cmdline card os h = conf_read card h (read_opts os default_wanted)

-- `drm_get_mode_by_name` after its search for a connector.
abbrev pub mode_of : List ℕ → Held → Option Connector × ℕ → Option Mode × Held
mode_of name h (none, n) = (none, record h { resources = h.resources - 1; connectors = n })
mode_of name h (some c, n) = elim (first (is_named name) c.modes) [
  | none ↦ (none, record h { connectors = n - 1 })
  | some m ↦ (some m, record h { resources = h.resources - 1; connectors = n })
]

unfoldable pub drm_get_mode_by_name : Card → ℕ → List ℕ → Held → Option Mode × Held
drm_get_mode_by_name card id name h = elim card.get_resources [
  | none ↦ (none, h)
  | some r ↦
      mode_of name (record h { resources = h.resources + 1 })
        (search card.get_connector (has_connector_id id) r.connector_ids h.connectors)
]
