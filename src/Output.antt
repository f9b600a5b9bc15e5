-- ===== src/Output.antt =====
-- output.c: outputs, and whether one needs composition.
pub mod Linked
pub mod Composition
pub mod Lines
use libliftoff.Prelude.{
  ℕ, suc, Bool, true, false, List, [], ◌∷◌, Option, none, some, ◌==◌, if◌then◌else◌, without, is_at,
  not, ◌||◌,
}
use libliftoff.Model.{Ptr, Output, Heap, set_output}
use libliftoff.Layer.{needs_composition}

-- The loop over `device->crtcs`, from the index `i` on.
unfoldable pub crtc_index_from : (crtc : ℕ) → (i : ℕ) → List ℕ → Option ℕ
crtc_index_from crtc i [] = none
crtc_index_from crtc i (c ∷ cs) = if c == crtc then some i else crtc_index_from crtc (suc i) cs

-- An output in zeroed memory, with its CRTC.
abbrev pub new_output : (crtc crtc_index : ℕ) → Output
new_output crtc i = record {
  crtc_id = crtc;
  crtc_index = i;
  composition_layer = none;
  layers = [];
  layers_changed = false;
  alloc_reused_counter = 0;
}

-- `liftoff_output_create`
unfoldable pub output_create : Heap → (crtc : ℕ) → (memory : Option Ptr) → Option Ptr × Heap
unfolding crtc_index_from
output_create h crtc memory = elim (crtc_index_from crtc 0 h.crtcs) [
  | none ↦ (none, h)
  | some i ↦ elim memory [
    | none ↦ (none, h)
    | some o ↦ (
      some o,
      record (set_output h o (new_output crtc i)) {
        device = record h.device { outputs = o ∷ h.outputs };
      },
    )
  ]
]

-- `liftoff_output_destroy`
unfoldable pub output_destroy : Heap → Option Ptr → Heap
output_destroy h none = h
output_destroy h (some o) = record h { device = record h.device { outputs = without o h.outputs } }

-- `liftoff_output_set_composition_layer`; `none` is the failed assertion that the layer is one of the
-- output.
unfoldable pub set_composition_layer : Heap → (output layer : Ptr) → Option Heap
set_composition_layer h o l =
    if (h.layer l).output == o
    then some (
        set_output h o (record (h.output o) {
          layers_changed =
              if is_at l (h.output o).composition_layer then (h.output o).layers_changed else true;
          composition_layer = some l;
        }))
    else none

-- The loop of `liftoff_output_needs_composition`.
unfoldable pub any_needs_composition : Heap → List Ptr → Bool
unfolding needs_composition
any_needs_composition h [] = false
any_needs_composition h (l ∷ ls) =
    if needs_composition (h.layer l) then true else any_needs_composition h ls

-- `liftoff_output_needs_composition`
abbrev pub output_needs_composition : Heap → Ptr → Bool
output_needs_composition h o = any_needs_composition h (h.output o).layers
