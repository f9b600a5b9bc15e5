-- ===== src/Layer/Life.antt =====
-- `liftoff_layer_create` and `liftoff_layer_destroy` of layer.c, which also change the output and the
-- plane of the layer. An address that stands for a new object is that which `calloc` gives.
pub mod Linked
use libliftoff.Prelude.{
  true, false, [], ◌∷◌, ◌++◌, Option, none, some, if◌then◌else◌, is_at, without,
}
use libliftoff.Model.{Ptr, Layer, Heap, set_layer, set_plane, set_output}

-- A layer in zeroed memory, with its output.
abbrev pub new_layer : Ptr → Layer
new_layer o = record {
  output = o;
  props = [];
  force_composition = false;
  plane = none;
  current_priority = 0;
  pending_priority = 0;
  changed = false;
}

-- `liftoff_layer_create`
unfoldable pub layer_create : Heap → (output : Ptr) → (memory : Option Ptr) → Option Ptr × Heap
layer_create h o none = (none, h)
layer_create h o (some l) = (
  some l,
  set_output (set_layer h l (new_layer o)) o
      (record (h.output o) { layers = (h.output o).layers ++ l ∷ []; layers_changed = true }),
)

-- `layer->plane->layer = NULL`, if the layer has a plane.
abbrev pub leave_plane : Heap → Option Ptr → Heap
leave_plane h none = h
leave_plane h (some p) = set_plane h p (record (h.plane p) { layer = none })

-- `liftoff_layer_destroy`
unfoldable pub layer_destroy : Heap → Option Ptr → Heap
layer_destroy h none = h
layer_destroy h (some l) =
    let o = (h.layer l).output in
    set_output (leave_plane h (h.layer l).plane) o (record (h.output o) {
      layers_changed = true;
      composition_layer =
          if is_at l (h.output o).composition_layer then none else (h.output o).composition_layer;
      layers = without l (h.output o).layers;
    })
