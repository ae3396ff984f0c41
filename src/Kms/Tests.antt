-- ===== src/Kms/Tests.antt =====
-- A card of two connectors.
use sys_snippets.Common.{ℕ, ◌≡◌, refl, [], ◌∷◌, true, false, none, some, ◌==◌, if◌then◌else◌}
use sys_snippets.Kms.{Mode, Connector, Encoder, Crtc, Card, Held, configured, preferred}
use sys_snippets.Kms.Autoconf.{drm_autoconf}
use sys_snippets.Kms.Autoconf.Laws.{best, drm_autoconf-best}
use sys_snippets.Kms.Named.{
  connector_opt, encoder_opt, crtc_opt, mode_opt, drm_get_conf_cmdline, drm_get_mode_by_name,
}
use sys_snippets.Kms.Named.Laws.{
  on_resources, on_card, drm_get_conf_cmdline_lem, drm_get_mode_by_name_lem,
}

abbrev small : Mode
small = record { name = b's' ∷ []; clock = 25 }

abbrev large : Mode
large = record { name = preferred; clock = 148 }

abbrev unplugged : Connector
unplugged = record {
  connector_id = 4;
  current_encoder = 0;
  connected = false;
  modes = [];
  encoders = [];
}

abbrev hdmi : Connector
hdmi = record {
  connector_id = 5;
  current_encoder = 0;
  connected = true;
  modes = small ∷ large ∷ [];
  encoders = 7 ∷ [];
}

abbrev encoder : Encoder
encoder = record { encoder_id = 7; current_crtc = 0; possible_crtcs = 2 }

abbrev crtc : ℕ → Crtc
crtc n = record { crtc_id = n; buffer_id = 0 }

abbrev card : Card
card = record {
  get_resources =
      some
        (record { connector_ids = 4 ∷ 5 ∷ []; encoder_ids = 7 ∷ []; crtc_ids = 10 ∷ 11 ∷ 12 ∷ [] });
  get_connector = λ n. if n == 5 then some hdmi else some unplugged;
  get_encoder = λ n. if n == 7 then some encoder else none;
  get_crtc = λ n. some (crtc n);
}

abbrev nothing_held : Held
nothing_held = record { resources = 0; connectors = 0; encoders = 0; crtcs = 0 }

drm_autoconf-best_example : drm_autoconf card nothing_held ≡ best card nothing_held
drm_autoconf-best_example = drm_autoconf-best card nothing_held

-- The encoder can drive the second CRTC alone, and all three CRTCs stay held.
autoconf_runs : drm_autoconf card nothing_held ≡ (
  configured
      (record { connector = hdmi; encoder = encoder; mode = some large; crtc = some (crtc 11) }),
  record { resources = 0; connectors = 1; encoders = 1; crtcs = 3 },
)
unfolding drm_autoconf sys_snippets.Kms.Search.search sys_snippets.Kms.Search.first
    sys_snippets.Kms.Search.pick_crtc
autoconf_runs = refl

drm_get_conf_cmdline_lem_example :
    drm_get_conf_cmdline card
      (connector_opt 5 ∷ encoder_opt 7 ∷ crtc_opt 12 ∷ mode_opt (b's' ∷ []) ∷ [])
      nothing_held
    ≡ on_resources card
        (record { mode_name = b's' ∷ []; nid = 5; eid = 7; cid = 12 })
        nothing_held
        card.get_resources
drm_get_conf_cmdline_lem_example =
    drm_get_conf_cmdline_lem card
      (connector_opt 5 ∷ encoder_opt 7 ∷ crtc_opt 12 ∷ mode_opt (b's' ∷ []) ∷ []) nothing_held

no_preferred :
    drm_get_mode_by_name card 5 preferred nothing_held
    ≡ on_card card 5 preferred nothing_held card.get_resources
no_preferred = drm_get_mode_by_name_lem card 5 preferred nothing_held
