-- ===== src/Example/Modes/Picked.antt =====
-- Which CRTC `pick_crtc` picks.
use libliftoff.Prelude.{
  ℕ, zero, suc, ◌+◌, ◌≡◌, refl, sym, ap, ◌∙◌, ◌⊎◌, inl, inr, ◌==◌, true, false, List, [], ◌∷◌,
  Option, none, some, arith, has, Bool-cases, Option-cases,
}
use libliftoff.Example.Modes.{
  Connector, Encoder, Crtc, Resources, Modes, done, can_drive, first_driven, search_crtc, pick_crtc,
}

abbrev pub get_elem? : List ℕ → ℕ → Option ℕ
get_elem? [] i = none
get_elem? (x ∷ xs) zero = some x
get_elem? (x ∷ xs) (suc i) = get_elem? xs i

-- The CRTC at an index that the mask has, counted from `j` on.
abbrev At : (possible j : ℕ) → List ℕ → ℕ → Type 0
At possible j cs c = (i : ℕ) × (get_elem? cs i ≡ some c) × (can_drive possible (j + i) ≡ true)

first_driven-found :
    (possible j : ℕ) (cs : List ℕ) (c : ℕ)
    → first_driven possible j cs ≡ some c
    → At possible j cs c
unfolding first_driven
first_driven-found possible j [] c run = cc
first_driven-found possible j (x ∷ cs) c run = elim (Bool-cases (can_drive possible j)) [
  | inl e ↦ let here : j + 0 ≡ j = omega arith in (0, rw (e, first_driven) at run, rw here e)
  | inr e ↦
      let (i, listed, driven) =
        first_driven-found possible (suc j) cs c (rw (e, first_driven) at run) in
      let shift : j + suc i ≡ suc j + i = omega arith in (suc i, listed, rw shift driven)
]

first_driven-none :
    (possible j : ℕ) (cs : List ℕ) (i c : ℕ)
    → first_driven possible j cs ≡ none
    → get_elem? cs i ≡ some c
    → can_drive possible (j + i) ≡ false
unfolding first_driven
first_driven-none possible j [] i c run listed = cc
first_driven-none possible j (x ∷ cs) i c run listed = elim (Bool-cases (can_drive possible j)) [
  | inl e ↦ cc (rw (e, first_driven) at run)
  | inr e ↦
      elim i as (λ i. get_elem? (x ∷ cs) i ≡ some c → can_drive possible (j + i) ≡ false) [
        | zero ↦ λ at. let here : j + 0 ≡ j = omega arith in rw here e
        | suc i ↦ λ at.
            let shift : j + suc i ≡ suc j + i = omega arith in
            rw shift (first_driven-none possible (suc j) cs i c (rw (e, first_driven) at run) at)
      ]
        listed
]

driven-found :
    (possible : ℕ) (cs : List ℕ) (c : ℕ)
    → first_driven possible 0 cs ≡ some c
    → (i : ℕ) × (get_elem? cs i ≡ some c) × (can_drive possible i ≡ true)
driven-found possible cs c run =
    let (i, listed, able) = first_driven-found possible 0 cs c run in
    let same : 0 + i ≡ i = omega arith in (i, listed, rw same at able)

driven-none :
    (possible : ℕ) (cs : List ℕ) (i c : ℕ)
    → first_driven possible 0 cs ≡ none
    → get_elem? cs i ≡ some c
    → can_drive possible i ≡ false
driven-none possible cs i c run listed =
    let same : 0 + i ≡ i = omega arith in
    rw same at (first_driven-none possible 0 cs i c run listed)

module _ (m : Modes) where
  -- An encoder of the list that is there can drive the CRTC.
  pub record Drives (crtcs encoders : List ℕ) (c : ℕ) : Type 0 where
    pub encoder : ℕ
    pub info : Encoder
    pub index : ℕ
    pub listed : has encoder encoders ≡ true
    pub present : m.get_encoder encoder ≡ some info
    pub crtc : get_elem? crtcs index ≡ some c
    pub able : can_drive info.possible_crtcs index ≡ true

  Drives-later : (crtcs es : List ℕ) (e c : ℕ) → Drives crtcs es c → Drives crtcs (e ∷ es) c
  Drives-later crtcs es e c d = record {
    encoder = d.encoder;
    info = d.info;
    index = d.index;
    listed = ground (arith, d.listed);
    present = d.present;
    crtc = d.crtc;
    able = d.able;
  }

  search_crtc-found :
      (crtcs es : List ℕ) (c : ℕ) → search_crtc m crtcs es ≡ some c → Drives crtcs es c
  unfolding search_crtc
  search_crtc-found crtcs [] c run = cc
  search_crtc-found crtcs (e ∷ es) c run = elim (Option-cases (m.get_encoder e)) [
    | inl lack ↦
        Drives-later crtcs es e c (search_crtc-found crtcs es c (rw (lack, search_crtc) at run))
    | inr (enc, here) ↦ elim (Option-cases (first_driven enc.possible_crtcs 0 crtcs)) [
      | inl not_here ↦
          Drives-later crtcs es e c
            (search_crtc-found crtcs es c (rw (here, search_crtc, not_here) at run))
      | inr (d, found) ↦
          let same : some d ≡ some c = rw (here, search_crtc, found) at run in
          let (i, listed, able) = driven-found enc.possible_crtcs crtcs c (found ∙ same) in
          record {
            encoder = e;
            info = enc;
            index = i;
            listed = ground arith;
            present = here;
            crtc = listed;
            able = able;
          }
    ]
  ]

  -- The first encoder of the list, or one of the others.
  Drives-split :
      (crtcs es : List ℕ) (e c : ℕ)
      → Drives crtcs (e ∷ es) c
      → ((enc : Encoder) × (m.get_encoder e ≡ some enc)
          × (i : ℕ) × (get_elem? crtcs i ≡ some c)
          × (can_drive enc.possible_crtcs i ≡ true))
        ⊎ Drives crtcs es c
  Drives-split crtcs es e c d = elim (Bool-cases (e == d.encoder)) [
    | inl same ↦
        let at : d.encoder ≡ e = ground arith in
        inl (d.info, ap m.get_encoder (sym at) ∙ d.present, d.index, d.crtc, d.able)
    | inr differs ↦ inr (record {
      encoder = d.encoder;
      info = d.info;
      index = d.index;
      listed = ground (arith, d.listed);
      present = d.present;
      crtc = d.crtc;
      able = d.able;
    })
  ]

  search_crtc-none :
      (crtcs es : List ℕ) (c : ℕ) → search_crtc m crtcs es ≡ none → ¬ Drives crtcs es c
  unfolding search_crtc
  search_crtc-none crtcs [] c run d = cc (d.listed)
  search_crtc-none crtcs (e ∷ es) c run d = elim (Option-cases (m.get_encoder e)) [
    | inl lack ↦ elim (Drives-split crtcs es e c d) [
      | inl (enc, present, i, listed, able) ↦ cc
      | inr later ↦ search_crtc-none crtcs es c (rw (lack, search_crtc) at run) later
    ]
    | inr (enc, here) ↦ elim (Option-cases (first_driven enc.possible_crtcs 0 crtcs)) [
      | inl not_here ↦ elim (Drives-split crtcs es e c d) [
        | inl (enc', present, i, listed, able) ↦
            let same : some enc ≡ some enc' = sym here ∙ present in
            let none_here : first_driven enc'.possible_crtcs 0 crtcs ≡ none =
              ground (arith, not_here, same) in
            cc (driven-none enc'.possible_crtcs crtcs i c none_here listed, able)
        | inr later ↦ search_crtc-none crtcs es c (rw (here, search_crtc, not_here) at run) later
      ]
      | inr (x, found) ↦ cc (rw (here, search_crtc, found) at run)
    ]
  ]

  -- The CRTC that `pick_crtc` answers with for a connector.
  pub data Picked (res : Resources) (k : Connector) : Option Crtc → Type 0 where
    -- The one that the connector's encoder has now, if that encoder is there.
    current :
        (enc : Encoder)
        → m.get_encoder k.encoder_id ≡ some enc
        → Picked res k (m.get_crtc enc.crtc_id)
    -- One that an encoder of the connector can drive.
    searched :
        (c : ℕ)
        → m.get_encoder k.encoder_id ≡ none
        → Drives res.crtcs k.encoders c
        → Picked res k (m.get_crtc c)
    -- None, as no encoder of the connector can drive any.
    unavailable :
        m.get_encoder k.encoder_id ≡ none
        → ((c : ℕ) → ¬ Drives res.crtcs k.encoders c)
        → Picked res k none

  -- `pick_crtc` asks for the CRTC that the current encoder of the connector has; without a current
  -- encoder it asks for a CRTC of the device that an encoder of the connector can drive, and answers
  -- `NULL` without asking for one only if there is none.
  pub pick_crtc-Picked :
      (res : Resources) (k : Connector)
      → (r : Option Crtc) × (pick_crtc m res (some k) ≡ done r) × Picked res k r
  unfolding pick_crtc
  pick_crtc-Picked res k = elim (Option-cases (m.get_encoder k.encoder_id)) [
    | inr (enc, e) ↦ (m.get_crtc enc.crtc_id, rw (e, pick_crtc) refl, current enc e)
    | inl e ↦ elim (Option-cases (search_crtc m res.crtcs k.encoders)) [
      | inl f ↦ (
        none,
        rw (e, pick_crtc, f) refl,
        unavailable e (λ c. search_crtc-none res.crtcs k.encoders c f),
      )
      | inr (c, f) ↦ (
        m.get_crtc c,
        rw (e, pick_crtc, f) refl,
        searched c e (search_crtc-found res.crtcs k.encoders c f),
      )
    ]
  ]
