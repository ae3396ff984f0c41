-- ===== src/Gst/Drmsink/Start.antt =====
-- `start` of gst/gst-drm/drmsink.c, with what it holds when it returns. libdrm is the parameter `Card`.
use sys_snippets.Common.{
  ℕ, ◌+◌, ◌-◌, ◌≡◌, refl, List, [], ◌∷◌, Bool, true, false, not, Option, none, some, Option-cases,
  ◌==◌, inl, inr, if◌then◌else◌,
}
use sys_snippets.Kms.{Mode, Connector, Card, is_named}
use sys_snippets.Kms.Search.{search, first, fetched, one, search_lem}

-- How many it holds: descriptors of the card, objects of libdrm, and drivers of libkms.
pub record Holding : Type 0 where
  pub cards : ℕ
  pub resources : ℕ
  pub connectors : ℕ
  pub drivers : ℕ

-- false, or true with the mode, or strcmp of a mode_name that is NULL.
pub data Started : Type 0 where
  refused : Holding → Started
  started : Mode → Holding → Started
  undefined : Started

abbrev pub has_id : ℕ → Connector → Bool
has_id conn_id c = c.connector_id == conn_id

-- Behind the search for the mode. The connector stays, since the mode is a part of it.
abbrev pub on_mode : Bool → Option Mode → ℕ → Started
on_mode driver_created none held =
    refused (record { cards = 1; resources = 1; connectors = held - 1; drivers = 0 })
on_mode driver_created (some m) held =
    if driver_created
    then started m (record { cards = 1; resources = 0; connectors = held; drivers = 1 })
    else refused (record { cards = 1; resources = 0; connectors = held; drivers = 0 })

-- The search for the mode; a mode_name that was not set is compared with the first of them.
abbrev pub find_mode : Option (List ℕ) → List Mode → Bool → ℕ → Started
find_mode (some mode_name) modes driver_created held =
    on_mode driver_created (first (is_named mode_name) modes) held
find_mode none [] driver_created held = on_mode driver_created none held
find_mode none (m ∷ ms) driver_created held = undefined

abbrev pub on_connector : Option (List ℕ) → Bool → Option Connector × ℕ → Started
on_connector mode_name driver_created (none, held) =
    refused (record { cards = 1; resources = 0; connectors = held; drivers = 0 })
on_connector mode_name driver_created (some c, held) =
    find_mode mode_name c.modes driver_created held

unfoldable pub start : Bool → Card → Bool → ℕ → Option (List ℕ) → Started
start opened card driver_created conn_id mode_name =
    if not opened
    then refused (record { cards = 0; resources = 0; connectors = 0; drivers = 0 })
    else elim card.get_resources [
      | none ↦ refused (record { cards = 1; resources = 0; connectors = 0; drivers = 0 })
      | some r ↦
          on_connector mode_name driver_created
            (search card.get_connector (has_id conn_id) r.connector_ids 0)
    ]

-- The first connector of that id, of those that can be fetched.
abbrev pub connector_of : Card → ℕ → Option Connector
connector_of card conn_id = elim card.get_resources [
  | none ↦ none
  | some r ↦ first (has_id conn_id) (fetched card.get_connector r.connector_ids)
]

abbrev pub mode_of : List ℕ → Option Connector → Option Mode
mode_of mode_name none = none
mode_of mode_name (some c) = first (is_named mode_name) c.modes

-- What `start` comes to when the card is open, by the connector and the mode.
abbrev pub expected : Bool → Option Connector → Option Mode → Started
expected true c (some m) =
    started m (record { cards = 1; resources = 0; connectors = 1; drivers = 1 })
expected false c (some m) =
    refused (record { cards = 1; resources = 0; connectors = 1; drivers = 0 })
expected driver_created c none =
    refused (record { cards = 1; resources = one c; connectors = 0; drivers = 0 })

on_mode_lem :
    (driver_created : Bool) (c : Connector) (o : Option Mode)
    → on_mode driver_created o 1 ≡ expected driver_created (some c) o
on_mode_lem true c none = refl
on_mode_lem false c none = refl
on_mode_lem true c (some m) = refl
on_mode_lem false c (some m) = refl

on_connector_lem :
    (mode_name : List ℕ) (driver_created : Bool) (o : Option Connector)
    → on_connector (some mode_name) driver_created (o, 0 + one o)
      ≡ expected driver_created o (mode_of mode_name o)
on_connector_lem mode_name true none = refl
on_connector_lem mode_name false none = refl
on_connector_lem mode_name driver_created (some c) =
    on_mode_lem driver_created c (first (is_named mode_name) c.modes)

-- `start` of drmsink.c, once the card is open and a mode name is set, takes the first connector of conn_id that can be fetched
-- and its first mode of that name, and returns true exactly if both are there and the driver is made. It
-- never closes the card; it keeps the resources exactly if the connector is there and the mode is not, and
-- the connector exactly if both are there.
pub start-expected :
    (card : Card) (driver_created : Bool) (conn_id : ℕ) (mode_name : List ℕ)
    → start true card driver_created conn_id (some mode_name)
      ≡ expected driver_created
          (connector_of card conn_id)
          (mode_of mode_name (connector_of card conn_id))
unfolding start
start-expected card driver_created conn_id mode_name = elim (Option-cases card.get_resources) [
  | inl e ↦ rw (e) (on_connector_lem mode_name driver_created none)
  | inr (r, e) ↦
      rw (e, search_lem card.get_connector (has_id conn_id) r.connector_ids 0)
        (on_connector_lem mode_name driver_created
          (first (has_id conn_id) (fetched card.get_connector r.connector_ids)))
]
