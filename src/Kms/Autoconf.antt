-- ===== src/Kms/Autoconf.antt =====
-- `drm_autoconf` of drm-tests/drm_utils.c: a display is chosen without the user.
pub mod Laws
use sys_snippets.Common.{
  ℕ, ◌+◌, ◌-◌, ◌≡◌, refl, ap, ◌∙◌, List, [], ◌∷◌, Bool, true, false, Option, none, some, ◌==◌, inl,
  inr, Bool-cases, Option-cases, if◌then◌else◌, arith,
}
use sys_snippets.Kms.{
  Mode, Connector, Encoder, Crtc, Resources, Card, Held, KmsDisplay, Outcome, configured, refused,
  undefined, exited, is_named, is_usable, preferred, is_possible,
}
use sys_snippets.Kms.Search.{
  search, first, or_else, pick_crtc, fetched, first_possible, is_current, one, tried, search_lem,
  pick_crtc_lem, pick_crtc-held,
}

-- `encoder->encoder_id == connector->encoder_id`
abbrev pub drives : Connector → Encoder → Bool
drives c e = e.encoder_id == c.current_encoder

abbrev pub head : {A : Type 0} → List A → Option A
head [] = none
head (x ∷ xs) = some x

-- The preferred mode, else the pointer to the first one.
abbrev pub choose_mode : Connector → Option Mode
choose_mode c = or_else (first (is_named preferred) c.modes) (head c.modes)

-- What is left once the encoder is there: the mode, the CRTC, and the resources given back.
abbrev pub finish : Card → Resources → Connector → Encoder → Held → Outcome × Held
finish card r c e h =
    let picked = pick_crtc card.get_crtc e r.crtc_ids 0 none h.crtcs in
    (
      configured (record { connector = c; encoder = e; mode = choose_mode c; crtc = picked.0 }),
      record {
        resources = h.resources - 1;
        connectors = h.connectors;
        encoders = h.encoders;
        crtcs = picked.1;
      },
    )

-- The first supported encoder; `connector->encoders[0]` of no encoders is out of bounds.
abbrev pub fall_back : Card → Resources → Connector → Held → Outcome × Held
fall_back card r c h = elim (head c.encoders) [
  | none ↦ (undefined, h)
  | some id ↦ elim (card.get_encoder id) [
    | none ↦ (refused, record h { connectors = h.connectors - 1 })
    | some e ↦ finish card r c e (record h { encoders = h.encoders + 1 })
  ]
]

-- After the search for an encoder.
abbrev pub with_encoder : Card → Resources → Connector → Held → Option Encoder × ℕ → Outcome × Held
with_encoder card r c h (none, n) = fall_back card r c (record h { encoders = n })
with_encoder card r c h (some e, n) = finish card r c e (record h { encoders = n })

-- After the search for a connector.
abbrev pub with_connector : Card → Resources → Held → Option Connector × ℕ → Outcome × Held
with_connector card r h (none, n) = (refused, record h { connectors = n })
with_connector card r h (some c, n) =
    with_encoder card r c (record h { connectors = n })
      (search card.get_encoder (drives c) r.encoder_ids h.encoders)

unfoldable pub drm_autoconf : Card → Held → Outcome × Held
drm_autoconf card h = elim card.get_resources [
  | none ↦ (refused, h)
  | some r ↦
      with_connector card r (record h { resources = h.resources + 1 })
        (search card.get_connector is_usable r.connector_ids h.connectors)
]

-- The choice described without loops and without the objects held.
abbrev pub supported : Card → Connector → Option Encoder
supported card c = elim (head c.encoders) [ none ↦ none | some id ↦ card.get_encoder id ]

abbrev pub best_encoder : Card → Resources → Connector → Option Encoder
best_encoder card r c =
    or_else (first (drives c) (fetched card.get_encoder r.encoder_ids)) (supported card c)

abbrev pub best_crtc : Card → Resources → Encoder → Option Crtc
best_crtc card r e =
    or_else (first (is_current e) (fetched card.get_crtc r.crtc_ids))
      (first_possible card.get_crtc e r.crtc_ids 0)

abbrev pub display : Card → Resources → Connector → Encoder → KmsDisplay
display card r c e = record {
  connector = c;
  encoder = e;
  mode = choose_mode c;
  crtc = best_crtc card r e;
}

abbrev pub held_after : Card → Resources → Encoder → Held → Held
held_after card r e h = record {
  resources = h.resources;
  connectors = h.connectors + 1;
  encoders = h.encoders + 1;
  crtcs = h.crtcs + tried (is_current e) (fetched card.get_crtc r.crtc_ids);
}
