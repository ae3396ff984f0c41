-- ===== src/Kms/Autoconf/Laws.antt =====
-- `drm_autoconf` of drm-tests/drm_utils.c chooses the best display, and what it then holds.
use sys_snippets.Common.{
  ℕ, ◌+◌, ◌-◌, ◌≡◌, refl, ap, ◌∙◌, Option, none, some, inl, inr, Option-cases, arith,
}
use sys_snippets.Kms.{
  Connector, Encoder, Resources, Card, Held, Outcome, configured, refused, undefined, is_usable,
}
use sys_snippets.Kms.Search.{
  first, or_else, fetched, one, search_lem, pick_crtc_lem, pick_crtc-held,
}
use sys_snippets.Kms.Autoconf.{
  drives, head, choose_mode, finish, fall_back, with_encoder, with_connector, drm_autoconf,
  supported, best_encoder, display, held_after,
}

-- A refusal: the resources stay allocated.
abbrev pub leaking : Held → Outcome × Held
leaking h = (refused, record h { resources = h.resources + 1 })

-- No encoder is left for the connector: `connector->encoders[0]` is read out of bounds if the
-- connector lists none.
abbrev pub no_encoder : Connector → Held → Outcome × Held
no_encoder c h = elim (head c.encoders) [
  | none ↦ (undefined, record h { resources = h.resources + 1; connectors = h.connectors + 1 })
  | some id ↦ leaking h
]

abbrev pub on_encoder : Card → Resources → Connector → Held → Option Encoder → Outcome × Held
on_encoder card r c h none = no_encoder c h
on_encoder card r c h (some e) = (configured (display card r c e), held_after card r e h)

abbrev pub on_connector : Card → Resources → Held → Option Connector → Outcome × Held
on_connector card r h none = leaking h
on_connector card r h (some c) = on_encoder card r c h (best_encoder card r c)

-- The answer without loops: the first usable connector, the encoder it has or the first one it
-- supports, the CRTC that this one has or the first one possible.
abbrev pub best : Card → Held → Outcome × Held
best card h = elim card.get_resources [
  | none ↦ (refused, h)
  | some r ↦ on_connector card r h (first is_usable (fetched card.get_connector r.connector_ids))
]

got_freed : (n : ℕ) → n + 1 - 1 ≡ n
got_freed n = omega arith

add_zero : (n : ℕ) → n + 0 ≡ n
add_zero n = omega arith

-- The objects held while the display is put together.
abbrev holding : Held → Held
holding h = record {
  resources = h.resources + 1;
  connectors = h.connectors + 1;
  encoders = h.encoders + 1;
  crtcs = h.crtcs;
}

finish_lem :
    (card : Card) (r : Resources) (c : Connector) (e : Encoder) (h : Held)
    → finish card r c e (holding h) ≡ (configured (display card r c e), held_after card r e h)
finish_lem card r c e h i = (
  configured (record {
    connector = c;
    encoder = e;
    mode = choose_mode c;
    crtc = pick_crtc_lem card.get_crtc e r.crtc_ids 0 none h.crtcs i;
  }),
  record {
    resources = got_freed h.resources i;
    connectors = h.connectors + 1;
    encoders = h.encoders + 1;
    crtcs = pick_crtc-held card.get_crtc e r.crtc_ids 0 none h.crtcs i;
  },
)

-- The objects held while an encoder is searched.
abbrev searching : Held → Held
searching h = record {
  resources = h.resources + 1;
  connectors = h.connectors + 1;
  encoders = h.encoders;
  crtcs = h.crtcs;
}

fall_back_lem :
    (card : Card) (r : Resources) (c : Connector) (h : Held)
    → fall_back card r c (searching h) ≡ on_encoder card r c h (supported card c)
fall_back_lem card r c h = elim (Option-cases (head c.encoders)) [
  | inl e ↦ rw (e, fall_back, supported) (rw (e, no_encoder) refl)
  | inr (id, e) ↦ elim (Option-cases (card.get_encoder id)) [
    | inl f ↦
        rw (e, fall_back, supported, f)
          (rw (e, no_encoder)
            (ap (λ n. (refused, record h { resources = h.resources + 1; connectors = n }))
              (got_freed h.connectors)))
    | inr (x, f) ↦ rw (e, fall_back, supported, f) (finish_lem card r c x h)
  ]
]

with_encoder_lem :
    (card : Card) (r : Resources) (c : Connector) (h : Held) (o : Option Encoder)
    → with_encoder card r c (searching h) (o, h.encoders + one o)
      ≡ on_encoder card r c h (or_else o (supported card c))
with_encoder_lem card r c h none =
    ap (λ n. fall_back card r c (record (searching h) { encoders = n })) (add_zero h.encoders)
    ∙ fall_back_lem card r c h
with_encoder_lem card r c h (some e) = finish_lem card r c e h

with_connector_lem :
    (card : Card) (r : Resources) (h : Held) (o : Option Connector)
    → with_connector card r (record h { resources = h.resources + 1 }) (o, h.connectors + one o)
      ≡ on_connector card r h o
with_connector_lem card r h none =
    ap (λ n. (refused, record h { resources = h.resources + 1; connectors = n }))
      (add_zero h.connectors)
with_connector_lem card r h (some c) =
    ap (with_encoder card r c (searching h))
      (search_lem card.get_encoder (drives c) r.encoder_ids h.encoders)
    ∙ with_encoder_lem card r c h (first (drives c) (fetched card.get_encoder r.encoder_ids))

-- `drm_autoconf` takes the first connected connector with modes, the encoder that it has (else the
-- first one that it supports), the preferred mode (else the first), and the CRTC that the encoder has
-- (else the first one possible, else NULL). It then holds one connector, one encoder and every CRTC
-- that it fetched. If it refuses it holds the resources (when it got them) and nothing else.
pub drm_autoconf-best : (card : Card) (h : Held) → drm_autoconf card h ≡ best card h
unfolding drm_autoconf
drm_autoconf-best card h = elim (Option-cases card.get_resources) [
  | inl e ↦ rw (e, drm_autoconf) refl
  | inr (r, e) ↦
      rw (e, drm_autoconf)
        (ap (with_connector card r (record h { resources = h.resources + 1 }))
            (search_lem card.get_connector is_usable r.connector_ids h.connectors)
          ∙ with_connector_lem card r h
              (first is_usable (fetched card.get_connector r.connector_ids)))
]
