-- ===== src/Alloc/Step.antt =====
-- `struct alloc_step` of alloc.c and its successor.
use libliftoff.Prelude.{
  ℕ, suc, Bool, true, false, ◌&&◌, not, List, [], ◌∷◌, ◌++◌, Option, none, some, if◌then◌else◌,
  is_at,
}
use libliftoff.Prelude.Int.{ℤ, to_int}
use libliftoff.Name.{zpos}
use libliftoff.Layer.{value}
use libliftoff.Model.{Ptr, Heap, is_primary}

-- `alloc` holds the items up to `plane_idx`, which are the valid ones.
pub record Step : Type 0 where
  pub plane_idx : ℕ
  pub alloc : List (Option Ptr)
  pub score : ℕ
  pub last_layer_zpos : ℤ
  pub composited : Bool

-- `layer == layer->output->composition_layer`
abbrev pub is_composition : Heap → Ptr → Bool
is_composition h l = is_at l (h.output (h.layer l).output).composition_layer

-- `layer != NULL && layer == layer->output->composition_layer`
abbrev pub puts_composition : Heap → Option Ptr → Bool
puts_composition h none = false
puts_composition h (some l) = is_composition h l

-- `layer != NULL && layer != layer->output->composition_layer`
abbrev pub scores : Heap → Option Ptr → Bool
scores h none = false
scores h (some l) = not (is_composition h l)

abbrev pub layer_zpos : Heap → Option Ptr → Option ℕ
layer_zpos h none = none
layer_zpos h (some l) = value (h.layer l) zpos

abbrev pub next_zpos : (last : ℤ) → (primary : Bool) → Option ℕ → ℤ
next_zpos last primary none = last
next_zpos last primary (some z) = if primary then last else to_int z

-- The step after `prev` once `layer` has been put on the plane `p`, or nothing for `NULL`.
abbrev pub advance : Heap → Step → Ptr → Option Ptr → Step
advance h prev p layer = record {
  plane_idx = suc prev.plane_idx;
  alloc = prev.alloc ++ layer ∷ [];
  score = if scores h layer then suc prev.score else prev.score;
  last_layer_zpos = next_zpos prev.last_layer_zpos (is_primary (h.plane p)) (layer_zpos h layer);
  composited = if puts_composition h layer then true else prev.composited;
}

-- `plane_step_init_next`; `none` is the failed `assert(!prev->composited)`.
unfoldable pub plane_step_init_next : Heap → Step → Ptr → Option Ptr → Option Step
plane_step_init_next h prev p layer =
    if puts_composition h layer && prev.composited then none else some (advance h prev p layer)
