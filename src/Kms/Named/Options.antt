-- ===== src/Kms/Named/Options.antt =====
-- What the options of `drm_get_conf_cmdline` of drm-tests/drm_utils.c name.
use sys_snippets.Common.{
  ℕ, ◌≡◌, refl, List, [], ◌∷◌, Bool, true, false, Option, none, some, if◌then◌else◌,
}
use sys_snippets.Kms.Named.{
  Opt, mode_opt, connector_opt, crtc_opt, encoder_opt, help_opt, Wanted, read_opts,
}

-- What the last option of a kind says, `d` if there is none.
abbrev pub last : {A : Type 0} → (Opt → Option A) → A → List Opt → A
last f d [] = d
last f d (o ∷ os) = last f (elim (f o) [ none ↦ d | some x ↦ x ]) os

abbrev pub name_of : Opt → Option (List ℕ)
name_of (mode_opt name) = some name
name_of o = none

abbrev pub connector_of : Opt → Option ℕ
connector_of (connector_opt n) = some n
connector_of o = none

abbrev pub encoder_of : Opt → Option ℕ
encoder_of (encoder_opt n) = some n
encoder_of o = none

abbrev pub crtc_of : Opt → Option ℕ
crtc_of (crtc_opt n) = some n
crtc_of o = none

abbrev pub asks_help : List Opt → Bool
asks_help [] = false
asks_help (help_opt ∷ os) = true
asks_help (o ∷ os) = asks_help os

-- -m names the mode, -n the connector, -e the encoder and -c the CRTC, each the last time that it is given.
abbrev pub named : List Opt → Wanted → Wanted
named os w = record {
  mode_name = last name_of w.mode_name os;
  nid = last connector_of w.nid os;
  eid = last encoder_of w.eid os;
  cid = last crtc_of w.cid os;
}

pub read_opts-named :
    (os : List Opt) (w : Wanted)
    → read_opts os w ≡ (if asks_help os then none else some (named os w))
unfolding read_opts
read_opts-named [] w = refl
read_opts-named (mode_opt name ∷ os) w = read_opts-named os (record w { mode_name = name })
read_opts-named (connector_opt n ∷ os) w = read_opts-named os (record w { nid = n })
read_opts-named (crtc_opt n ∷ os) w = read_opts-named os (record w { cid = n })
read_opts-named (encoder_opt n ∷ os) w = read_opts-named os (record w { eid = n })
read_opts-named (help_opt ∷ os) w = refl
