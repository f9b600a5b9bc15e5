-- ===== src/Example/Modes.antt =====
-- example/common.c: which connector and which CRTC a program shows its output on.
pub mod Picked
use Prim.Native.Nat.{bit_and}
use libliftoff.Prelude.{
  ℕ, suc, ◌^◌, Bool, not, List, [], ◌∷◌, Option, none, some, ◌==◌, if◌then◌else◌,
}

-- `drmModeConnector`
pub record Connector : Type 0 where
  pub id : ℕ
  -- `connection == DRM_MODE_CONNECTED`
  pub is_connected : Bool
  pub encoder_id : ℕ
  pub encoders : List ℕ

-- `drmModeEncoder`
pub record Encoder : Type 0 where
  pub crtc_id : ℕ
  pub possible_crtcs : ℕ

-- `drmModeCrtc`, with the size of its mode.
pub record Crtc : Type 0 where
  pub crtc_id : ℕ
  pub mode_valid : Bool
  pub hdisplay : ℕ
  pub vdisplay : ℕ

-- `drmModeRes`
pub record Resources : Type 0 where
  pub connectors : List ℕ
  pub crtcs : List ℕ

-- What the programs ask libdrm, with `none` for `NULL`.
pub record Modes : Type 0 where
  pub get_resources : Option Resources
  pub get_connector : ℕ → Option Connector
  pub get_encoder : ℕ → Option Encoder
  pub get_crtc : ℕ → Option Crtc

-- What a function returns, unless it follows a null pointer or fails an assertion.
pub data Checked (A : Type 0) : Type 0 where
  stops : Checked A
  done : A → Checked A

-- `possible_crtcs & (1 << j)`
abbrev pub can_drive : (possible_crtcs j : ℕ) → Bool
can_drive possible j = not (bit_and possible (2 ^ j) == 0)

-- The loop over the CRTCs, from the index `j` on.
unfoldable pub first_driven : (possible_crtcs j : ℕ) → List ℕ → Option ℕ
first_driven possible j [] = none
first_driven possible j (c ∷ cs) =
    if can_drive possible j then some c else first_driven possible (suc j) cs

module _ (m : Modes) where
  -- `pick_connector`, over the connectors that are left.
  unfoldable pub pick_connector : List ℕ → Checked (Option Connector)
  pick_connector [] = done none
  pick_connector (id ∷ ids) =
      let rest = pick_connector ids in
      elim (m.get_connector id) [
        | none ↦ stops
        | some k ↦ if k.is_connected then done (some k) else rest
      ]

  -- The loop over the encoders of the connector.
  unfoldable pub search_crtc : (crtcs : List ℕ) → (encoders : List ℕ) → Option ℕ
  unfolding first_driven
  search_crtc crtcs [] = none
  search_crtc crtcs (e ∷ es) =
      let rest = search_crtc crtcs es in
      elim (m.get_encoder e) [
        | none ↦ rest
        | some enc ↦ elim (first_driven enc.possible_crtcs 0 crtcs) [
          | none ↦ rest
          | some c ↦ some c
        ]
      ]

  abbrev pub get_found : Option ℕ → Option Crtc
  get_found none = none
  get_found (some c) = m.get_crtc c

  -- `pick_crtc`
  unfoldable pub pick_crtc : Resources → Option Connector → Checked (Option Crtc)
  unfolding search_crtc
  pick_crtc res none = stops
  pick_crtc res (some k) = done (elim (m.get_encoder k.encoder_id) [
    | some enc ↦ m.get_crtc enc.crtc_id
    | none ↦ get_found (search_crtc res.crtcs k.encoders)
  ])

-- `disable_all_crtcs_except`: the CRTCs that are turned off, in order.
unfoldable pub disable_all_crtcs_except : List ℕ → (crtc : ℕ) → List ℕ
disable_all_crtcs_except [] crtc = []
disable_all_crtcs_except (c ∷ cs) crtc =
    if c == crtc then disable_all_crtcs_except cs crtc else c ∷ disable_all_crtcs_except cs crtc
