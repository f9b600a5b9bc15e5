-- ===== src/Links.antt =====
-- How planes, layers and outputs point at each other, apart from all else that the memory holds,
-- and when these pointers agree.
use mathlib.Core.Path.{fun_ext, subst}
use libliftoff.Prelude.{◌≡◌, inl, inr, true, List, Option, none, some, arith, has, ◌==◌, Bool-cases}
use libliftoff.Model.{Ptr, Layer, Output, Heap, update, set_layer, set_output}

pub record Links : Type 0 where
  pub planes : List Ptr
  pub outputs : List Ptr
  -- `plane->layer`, `layer->plane` and `layer->output`
  pub shown : Ptr → Option Ptr
  pub mapped : Ptr → Option Ptr
  pub owner : Ptr → Ptr
  -- `output->layers` and `output->composition_layer`
  pub layers : Ptr → List Ptr
  pub composition : Ptr → Option Ptr

abbrev pub links : Heap → Links
links h = record {
  planes = h.planes;
  outputs = h.outputs;
  shown = λ p. (h.plane p).layer;
  mapped = λ l. (h.layer l).plane;
  owner = λ l. (h.layer l).output;
  layers = λ o. (h.output o).layers;
  composition = λ o. (h.output o).composition_layer;
}

-- The layer is in the list of an output of the device.
pub record IsLive (k : Links) (l : Ptr) : Type 0 where
  pub output : has (k.owner l) k.outputs ≡ true
  pub listed : has l (k.layers (k.owner l)) ≡ true

-- The pointers agree: a plane shows a layer exactly when the layer is mapped to the plane, and
-- outputs and layers know each other.
pub record IsLinked (k : Links) : Type 0 where
  pub shown_live : (p l : Ptr) → has p k.planes ≡ true → k.shown p ≡ some l → IsLive k l
  pub shown_mapped : (p l : Ptr) → has p k.planes ≡ true → k.shown p ≡ some l → k.mapped l ≡ some p
  pub mapped_plane : (l p : Ptr) → IsLive k l → k.mapped l ≡ some p → has p k.planes ≡ true
  pub mapped_shown : (l p : Ptr) → IsLive k l → k.mapped l ≡ some p → k.shown p ≡ some l
  pub owned : (o l : Ptr) → has o k.outputs ≡ true → has l (k.layers o) ≡ true → k.owner l ≡ o
  pub composition_listed :
      (o c : Ptr) → has o k.outputs ≡ true → k.composition o ≡ some c → has c (k.layers o) ≡ true

-- Writes that leave the pointers alone.
module _ (h : Heap) where
  pub links-set_layer :
      (p : Ptr) (l : Layer)
      → l.plane ≡ (h.layer p).plane
      → l.output ≡ (h.layer p).output
      → links (set_layer h p l) ≡ links h
  links-set_layer p l e f i = record {
    planes = h.planes;
    outputs = h.outputs;
    shown = λ q. (h.plane q).layer;
    mapped =
        fun_ext {f = λ q. (update h.layer p l q).plane} {g = λ q. (h.layer q).plane}
          (λ q. ground arith) i;
    owner =
        fun_ext {f = λ q. (update h.layer p l q).output} {g = λ q. (h.layer q).output}
          (λ q. ground arith) i;
    layers = λ o. (h.output o).layers;
    composition = λ o. (h.output o).composition_layer;
  }

  pub links-set_output :
      (p : Ptr) (o : Output)
      → o.layers ≡ (h.output p).layers
      → o.composition_layer ≡ (h.output p).composition_layer
      → links (set_output h p o) ≡ links h
  links-set_output p o e f i = record {
    planes = h.planes;
    outputs = h.outputs;
    shown = λ q. (h.plane q).layer;
    mapped = λ q. (h.layer q).plane;
    owner = λ q. (h.layer q).output;
    layers =
        fun_ext {f = λ q. (update h.output p o q).layers} {g = λ q. (h.output q).layers}
          (λ q. ground arith) i;
    composition =
        fun_ext {f = λ q. (update h.output p o q).composition_layer}
          {g = λ q. (h.output q).composition_layer} (λ q. ground arith) i;
  }

-- A mapping is taken away, and one is made.
abbrev pub unlink : Links → (p l : Ptr) → Links
unlink k p l = record k { shown = update k.shown p none; mapped = update k.mapped l none }

abbrev pub link : Links → (p l : Ptr) → Links
link k p l = record k { shown = update k.shown p (some l); mapped = update k.mapped l (some p) }

module _ (k : Links) (v : IsLinked k) (p l : Ptr) where
  -- Taking a mapping away keeps the pointers in agreement.
  pub unlink-IsLinked : has p k.planes ≡ true → k.shown p ≡ some l → IsLinked (unlink k p l)
  unlink-IsLinked here shows = record {
    shown_live = λ q m i e.
        let live = v.shown_live q m i (ground arith) in
        record { output = live.output; listed = live.listed };
    shown_mapped = λ q m i e. ground (arith, v.shown_mapped q m i, v.shown_mapped p l here shows);
    mapped_plane = λ m q live e.
        v.mapped_plane m q (record { output = live.output; listed = live.listed }) (ground arith);
    mapped_shown = λ m q live e.
        ground (arith, v.mapped_shown m q (record { output = live.output; listed = live.listed }));
    owned = v.owned;
    composition_listed = v.composition_listed;
  }

  -- So does making one between a plane and a live layer that have none.
  pub link-IsLinked :
      has p k.planes ≡ true
      → IsLive k l
      → k.shown p ≡ none
      → k.mapped l ≡ none
      → IsLinked (link k p l)
  link-IsLinked here alive free unmapped = record {
    shown_live = λ q m i e. elim (Bool-cases (p == q)) [
      | inl same ↦
          let at_m : l ≡ m = ground arith in
          subst (λ x. IsLive (link k p l) x) at_m
            (record { output = alive.output; listed = alive.listed })
      | inr other ↦
          let live = v.shown_live q m i (ground arith) in
          record { output = live.output; listed = live.listed }
    ];
    shown_mapped = λ q m i e. ground (arith, v.shown_mapped q m i);
    mapped_plane = λ m q live e.
        ground (arith, v.mapped_plane m q (record { output = live.output; listed = live.listed }));
    mapped_shown = λ m q live e.
        ground (arith, v.mapped_shown m q (record { output = live.output; listed = live.listed }));
    owned = v.owned;
    composition_listed = v.composition_listed;
  }
