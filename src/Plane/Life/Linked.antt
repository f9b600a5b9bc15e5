-- ===== src/Plane/Life/Linked.antt =====
-- What stays true of the memory when a plane is made or destroyed.
use libliftoff.Prelude.{
  ℕ, ◌≡◌, refl, ◌∙◌, inl, inr, Bool, true, false, ◌||◌, List, [], ◌∷◌, Option, none, some, arith,
  has, has-without, without, Unique, Unique-without, ◌==◌, Bool-cases, Option-cases,
}
use libliftoff.Prelude.Int.{ℤ}
use libliftoff.Kms.{Kms, Given, given, lacking, then_given-eq, PropertyInfo}
use libliftoff.Model.{Ptr, Plane, Heap, is_primary}
use libliftoff.Links.{links, IsLive, IsLinked}
use libliftoff.Plane.Life.{
  Scan, scan, read_property, read_plane, insert_plane, add_plane, finish_plane, is_registered,
  plane_create, leave_layer, plane_destroy,
}
use libliftoff.Plane.Life.Order.{
  IsOrdered, IsOrdered-update, insert_plane-IsOrdered, has-insert_plane, IsOrdered-without,
}

-- The pointers agree, and the list of planes is in order and holds no plane twice.
pub record IsWellFormed (h : Heap) : Type 0 where
  pub linked : IsLinked (links h)
  pub unique : Unique h.planes
  pub ordered : IsOrdered h.plane h.planes

Unique-insert_plane :
    (f : Ptr → Plane) (p : Ptr) (z : ℤ) (ps : List Ptr)
    → has p ps ≡ false
    → Unique ps
    → Unique (insert_plane f p z ps)
unfolding insert_plane
Unique-insert_plane f p z [] new u = (refl, tt)
Unique-insert_plane f p z (q ∷ ps) new u =
    ground (arith, Unique-insert_plane f p z ps, has-insert_plane f p q z ps)

module _ (h : Heap) (v : IsWellFormed h) (p : Ptr) (new : has p h.planes ≡ false) (plane : Plane)
    (bare : plane.layer ≡ none) where
  has-add_plane : (q : Ptr) → has q (add_plane h p plane).planes ≡ (p == q || has q h.planes)
  unfolding add_plane
  has-add_plane q = ground (arith, has-insert_plane h.plane p q plane.zpos h.planes)

  Unique-add_plane : Unique (add_plane h p plane).planes
  unfolding add_plane
  Unique-add_plane = elim (Bool-cases (is_primary plane)) [
    | inl e ↦ rw e (new, v.unique)
    | inr e ↦ rw e (Unique-insert_plane h.plane p plane.zpos h.planes new v.unique)
  ]

  IsOrdered-add_plane : IsOrdered (add_plane h p plane).plane (add_plane h p plane).planes
  unfolding add_plane
  IsOrdered-add_plane = elim (Bool-cases (is_primary plane)) [
    | inl e ↦
        rw e (
          λ low q i. absurd (ground arith),
          IsOrdered-update h.plane p plane h.planes new v.ordered,
        )
    | inr e ↦ rw e (insert_plane-IsOrdered h.plane p plane h.planes new e v.ordered)
  ]

  IsLinked-add_plane : IsLinked (links (add_plane h p plane))
  unfolding add_plane
  IsLinked-add_plane = record {
    shown_live = λ q m i e.
        let live = v.linked.shown_live q m (ground (arith, has-add_plane q)) (ground arith) in
        record { output = live.output; listed = live.listed };
    shown_mapped =
        λ q m i e. v.linked.shown_mapped q m (ground (arith, has-add_plane q)) (ground arith);
    mapped_plane = λ m q live e.
        let live' : IsLive (links h) m = record { output = live.output; listed = live.listed } in
        ground (arith, has-add_plane q, v.linked.mapped_plane m q live' e);
    mapped_shown = λ m q live e.
        let live' : IsLive (links h) m = record { output = live.output; listed = live.listed } in
        ground (arith, v.linked.mapped_plane m q live' e, v.linked.mapped_shown m q live' e);
    owned = v.linked.owned;
    composition_listed = v.linked.composition_listed;
  }

  add_plane-IsWellFormed : IsWellFormed (add_plane h p plane)
  add_plane-IsWellFormed = record {
    linked = IsLinked-add_plane;
    unique = Unique-add_plane;
    ordered = IsOrdered-add_plane;
  }

layer-read_property :
    (s : Scan) (info : PropertyInfo) (value : ℕ)
    → (read_property s info value).plane.layer ≡ s.plane.layer
unfolding read_property
layer-read_property s info value = ground arith

layer-scan :
    (kms : Kms) (props : List (ℕ × ℕ)) (s t : Scan)
    → scan kms props s ≡ given t
    → t.plane.layer ≡ s.plane.layer
unfolding scan
layer-scan kms [] s t run = ground arith
layer-scan kms ((id, value) ∷ props) s t run =
    let (info, _, next) = then_given-eq (kms.get_property id) _ run in
    layer-scan kms props (read_property s info value) t next ∙ layer-read_property s info value

layer-read_plane :
    (kms : Kms) (id : ℕ) (memory : Bool) (t : Scan)
    → read_plane kms id memory ≡ given t
    → t.plane.layer ≡ none
unfolding read_plane
layer-read_plane kms id true t run =
    let (info, _, next) = then_given-eq (kms.get_plane id) _ run in
    let (props, _, last) = then_given-eq (kms.get_properties id) _ next in
    layer-scan kms props _ t last
layer-read_plane kms id false t run =
    let (info, _, next) = then_given-eq (kms.get_plane id) _ run in
    let (props, _, last) = then_given-eq (kms.get_properties id) _ next in cc

module _ (h : Heap) (v : IsWellFormed h) where
  finish_plane-IsWellFormed :
      (p : Ptr) (a : Given Scan)
      → has p h.planes ≡ false
      → ((s : Scan) → a ≡ given s → s.plane.layer ≡ none)
      → IsWellFormed (finish_plane h p a).1
  unfolding finish_plane
  finish_plane-IsWellFormed p (lacking e) new bare = v
  finish_plane-IsWellFormed p (given s) new bare = elim (Bool-cases s.has_type) [
    | inl t ↦ rw t (add_plane-IsWellFormed h v p new _ (ground (arith, bare s refl)))
    | inr t ↦ rw t v
  ]

  -- If the memory is well formed, and the new address is not one of a plane of the device, then,
  -- whatever libdrm says of the plane, and whichever step fails, `liftoff_plane_create` leaves the
  -- pointers in agreement, no plane twice in the list, primary planes first, and behind them the
  -- others from the greatest zpos to the least.
  pub plane_create-IsWellFormed :
      (kms : Kms) (id : ℕ) (memory : Option Ptr) (props_memory : Bool)
      → ((p : Ptr) → memory ≡ some p → has p h.planes ≡ false)
      → IsWellFormed (plane_create kms h id memory props_memory).1
  unfolding plane_create
  plane_create-IsWellFormed kms id memory props_memory new =
      elim (Bool-cases (is_registered h.plane id h.planes)) [
        | inl e ↦ rw e v
        | inr e ↦
            rw (e, plane_create)
              (elim (Option-cases memory) [
                | inl m ↦ rw (m, plane_create) v
                | inr (p, m) ↦
                    rw (m, plane_create)
                      (finish_plane-IsWellFormed p (read_plane kms id props_memory) (new p m)
                        (layer-read_plane kms id props_memory))
              ])
      ]

  module _ (p : Ptr) (here : has p h.planes ≡ true) where
    kept :
        (q : Ptr) → has q (without p h.planes) ≡ true → (has q h.planes ≡ true) × ((p == q) ≡ false)
    kept q i = (ground (arith, has-without p q h.planes), ground (arith, has-without p q h.planes))

    abbrev dropped : Heap → Heap
    dropped g = record g { device = record h.device { planes = without p h.planes } }

    -- The plane shows no layer.
    dropped-bare : (h.plane p).layer ≡ none → IsLinked (links (dropped h))
    dropped-bare e = record {
      shown_live = λ q m i x.
          let live = v.linked.shown_live q m (kept q i).0 x in
          record { output = live.output; listed = live.listed };
      shown_mapped = λ q m i x. v.linked.shown_mapped q m (kept q i).0 x;
      mapped_plane = λ m q live x.
          let old : IsLive (links h) m = record { output = live.output; listed = live.listed } in
          ground (
            arith,
            v.linked.mapped_plane m q old x,
            v.linked.mapped_shown m q old x,
            has-without p q h.planes,
          );
      mapped_shown = λ m q live x.
          v.linked.mapped_shown m q (record { output = live.output; listed = live.listed }) x;
      owned = v.linked.owned;
      composition_listed = v.linked.composition_listed;
    }

    -- The plane shows a layer.
    dropped-shown :
        (l : Ptr) → (h.plane p).layer ≡ some l → IsLinked (links (dropped (leave_layer h (some l))))
    dropped-shown l e = record {
      shown_live = λ q m i x.
          let live = v.linked.shown_live q m (kept q i).0 x in
          record { output = ground (arith, live.output); listed = ground (arith, live.listed) };
      shown_mapped = λ q m i x. ground (
        arith,
        kept q i,
        v.linked.shown_mapped q m (kept q i).0 x,
        v.linked.shown_mapped p l here e,
      );
      mapped_plane = λ m q live x.
          let old : IsLive (links h) m = record {
            output = ground (arith, live.output);
            listed = ground (arith, live.listed);
          } in
          ground (
            arith,
            v.linked.mapped_plane m q old (ground arith),
            v.linked.mapped_shown m q old (ground arith),
            has-without p q h.planes,
          );
      mapped_shown = λ m q live x.
          let old : IsLive (links h) m = record {
            output = ground (arith, live.output);
            listed = ground (arith, live.listed);
          } in
          v.linked.mapped_shown m q old (ground arith);
      owned = λ o m i j. ground (arith, v.linked.owned o m i j);
      composition_listed = v.linked.composition_listed;
    }

    -- If the memory is well formed, `liftoff_plane_destroy` of a plane of the device leaves it well
    -- formed, whether or not the plane shows a layer.
    pub plane_destroy-IsWellFormed : IsWellFormed (plane_destroy h p)
    unfolding plane_destroy
    plane_destroy-IsWellFormed = elim (Option-cases (h.plane p).layer) [
      | inl e ↦ rw e (record {
        linked = dropped-bare e;
        unique = Unique-without p h.planes v.unique;
        ordered = IsOrdered-without h.plane p h.planes v.ordered;
      })
      | inr (l, e) ↦ rw e (record {
        linked = dropped-shown l e;
        unique = Unique-without p h.planes v.unique;
        ordered = IsOrdered-without h.plane p h.planes v.ordered;
      })
    ]
