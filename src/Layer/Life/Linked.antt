-- ===== src/Layer/Life/Linked.antt =====
-- The pointers agree after a layer has been made or destroyed.
use libliftoff.Prelude.{
  ◌≡◌, ◌&&◌, refl, inl, inr, true, false, [], ◌∷◌, none, some, arith, has, has-append, has-without,
  without, ◌==◌, if◌then◌else◌, is_at, Bool-cases, Option-cases,
}
use libliftoff.Model.{Ptr, Heap}
use libliftoff.Links.{Links, links, IsLive, IsLinked}
use libliftoff.Layer.Life.{layer_create, layer_destroy}

-- No output of the device lists the layer.
abbrev pub IsNew : Links → Ptr → Type 0
IsNew k l = (o : Ptr) → has o k.outputs ≡ true → has l (k.layers o) ≡ false

module _ (h : Heap) (v : IsLinked (links h)) (o l : Ptr) (here : has o h.outputs ≡ true)
    (new : IsNew (links h) l) where
  abbrev created : Heap
  created = (layer_create h o (some l)).1

  not_new : (m : Ptr) → IsLive (links h) m → (l == m) ≡ false
  not_new m live = ground (arith, new (h.layer m).output live.output, live.listed)

  kept_alive : (m : Ptr) → IsLive (links h) m → IsLive (links created) m
  unfolding layer_create
  kept_alive m live = record {
    output = ground (arith, not_new m live, live.output);
    listed = ground (
      arith,
      not_new m live,
      live.listed,
      has-append m (h.output (h.layer m).output).layers (l ∷ []),
    );
  }

  alive_before : (m : Ptr) → (l == m) ≡ false → IsLive (links created) m → IsLive (links h) m
  unfolding layer_create
  alive_before m other live = record {
    output = ground (arith, live.output);
    listed =
        ground (arith, live.listed, has-append m (h.output (h.layer m).output).layers (l ∷ []));
  }

  -- If the pointers agree, a new layer of an output of the device, at an address that no output
  -- lists, leaves them in agreement.
  pub layer_create-IsLinked : IsLinked (links (layer_create h o (some l)).1)
  unfolding layer_create
  layer_create-IsLinked = record {
    shown_live = λ p m i e. kept_alive m (v.shown_live p m i e);
    shown_mapped =
        λ p m i e. ground (arith, not_new m (v.shown_live p m i e), v.shown_mapped p m i e);
    mapped_plane = λ m p live e. elim (Bool-cases (l == m)) [
      | inl q ↦ absurd (ground arith)
      | inr q ↦ v.mapped_plane m p (alive_before m q live) (ground arith)
    ];
    mapped_shown = λ m p live e. elim (Bool-cases (l == m)) [
      | inl q ↦ absurd (ground arith)
      | inr q ↦ v.mapped_shown m p (alive_before m q live) (ground arith)
    ];
    owned = λ o' m i j. elim (Bool-cases (l == m)) [
      | inl q ↦ ground (arith, new o' i)
      | inr q ↦ ground (arith, v.owned o' m i, has-append m (h.output o').layers (l ∷ []))
    ];
    composition_listed = λ o' c i e.
        ground (arith, v.composition_listed o' c i, has-append c (h.output o').layers (l ∷ []));
  }

module _ (h : Heap) (v : IsLinked (links h)) (l : Ptr) (alive : IsLive (links h) l) where
  abbrev destroyed : Heap
  destroyed = layer_destroy h (some l)

  -- The planes of the device that show no destroyed layer.
  shown-layer_destroy :
      (p : Ptr)
      → has p h.planes ≡ true
      → (destroyed.plane p).layer ≡ (if is_at l (h.plane p).layer then none else (h.plane p).layer)
  unfolding layer_destroy
  shown-layer_destroy p i = elim (Option-cases (h.plane p).layer) [
    | inl none_shown ↦ elim (Option-cases (h.layer l).plane) [
      | inl e ↦ rw (none_shown, e) (ground arith)
      | inr (q, e) ↦ rw (none_shown, e) (ground arith)
    ]
    | inr (m, shows) ↦ elim (Option-cases (h.layer l).plane) [
      | inl e ↦ rw (shows, e) (ground (arith, v.shown_mapped p m i shows))
      | inr (q, e) ↦
          rw (shows, e) (ground (arith, v.shown_mapped p m i shows, v.mapped_shown l q alive e))
    ]
  ]

  output-layer_destroy :
      (o : Ptr)
      → (destroyed.output o) ≡ (
          if (h.layer l).output == o
          then record (h.output o) {
            layers_changed = true;
            composition_layer =
                if is_at l (h.output o).composition_layer
                then none
                else (h.output o).composition_layer;
            layers = without l (h.output o).layers;
          }
          else h.output o)
  unfolding layer_destroy
  output-layer_destroy o = elim (Option-cases (h.layer l).plane) [
    | inl e ↦ rw e (ground arith)
    | inr (q, e) ↦ rw e (ground arith)
  ]

  layer-layer_destroy : destroyed.layer ≡ h.layer
  unfolding layer_destroy
  layer-layer_destroy = elim (Option-cases (h.layer l).plane) [
    | inl e ↦ rw e refl
    | inr (q, e) ↦ rw e refl
  ]

  device-layer_destroy : destroyed.device ≡ h.device
  unfolding layer_destroy
  device-layer_destroy = elim (Option-cases (h.layer l).plane) [
    | inl e ↦ rw e refl
    | inr (q, e) ↦ rw e refl
  ]

  listed-layer_destroy :
      (o m : Ptr)
      → has m (destroyed.output o).layers
        ≡ (if (h.layer l).output == o && l == m then false else has m (h.output o).layers)
  listed-layer_destroy o m =
      ground (arith, output-layer_destroy o, has-without l m (h.output o).layers)

  still_listed :
      (m : Ptr)
      → (l == m) ≡ false
      → IsLive (links h) m
      → has m (destroyed.output (h.layer m).output).layers ≡ true
  still_listed m other live = ground (arith, listed-layer_destroy (h.layer m).output m, live.listed)

  before_destroyed :
      (m : Ptr)
      → has (h.layer m).output h.outputs ≡ true
      → has m (destroyed.output (h.layer m).output).layers ≡ true
      → IsLive (links h) m × ((l == m) ≡ false)
  before_destroyed m out at = (
    record { output = out; listed = ground (arith, listed-layer_destroy (h.layer m).output m) },
    ground (arith, listed-layer_destroy (h.layer m).output m),
  )

  was_shown :
      (p m : Ptr)
      → has p h.planes ≡ true
      → (destroyed.plane p).layer ≡ some m
      → ((h.plane p).layer ≡ some m) × ((l == m) ≡ false)
  was_shown p m i e =
      (ground (arith, shown-layer_destroy p i), ground (arith, shown-layer_destroy p i))

  -- If the pointers agree, destroying a live layer leaves them in agreement, whether or not a plane
  -- shows it or its output composites into it.
  pub layer_destroy-IsLinked : IsLinked (links (layer_destroy h (some l)))
  layer_destroy-IsLinked =
      rw (layer-layer_destroy, device-layer_destroy)
        (record {
          shown_live = λ p m i e.
              let (shows, other) = was_shown p m i e in
              let live = v.shown_live p m i shows in
              record { output = live.output; listed = still_listed m other live };
          shown_mapped = λ p m i e. v.shown_mapped p m i (was_shown p m i e).0;
          mapped_plane =
              λ m p live e. v.mapped_plane m p (before_destroyed m live.output live.listed).0 e;
          mapped_shown = λ m p live e.
              let (old, other) = before_destroyed m live.output live.listed in
              ground
                (arith, v.mapped_shown m p old e, shown-layer_destroy p (v.mapped_plane m p old e));
          owned = λ o m i j. v.owned o m i (ground (arith, listed-layer_destroy o m));
          composition_listed = λ o c i e. ground (
            arith,
            v.composition_listed o c i,
            v.owned o c i,
            listed-layer_destroy o c,
            output-layer_destroy o,
          );
        })
