-- ===== src/Alloc/Compatible.antt =====
-- The checks of alloc.c on a layer before it is tried on a plane, and on a finished allocation.
use libliftoff.Prelude.{
  ℕ, Bool, true, false, ◌&&◌, ◌||◌, not, List, [], ◌∷◌, Option, none, some, ◌==◌, ltb, is_at,
}
use libliftoff.Prelude.Int.{to_int, ltb_ℤ, leb_ℤ}
use libliftoff.Name.{zpos}
use libliftoff.Layer.{value, intersects}
use libliftoff.Model.{Ptr, Heap, is_primary}
use libliftoff.Alloc.Step.{Step, is_composition}

-- `is_layer_allocated`, the loop over the valid items of `alloc`.
abbrev pub allocated : List (Option Ptr) → Ptr → Bool
allocated [] l = false
allocated (a ∷ items) l = is_at l a || allocated items l

-- The test of `has_composited_layer_over` on one other layer.
unfoldable pub is_composited_over : Heap → Step → (l : Ptr) → (z : ℕ) → (other : Ptr) → Bool
is_composited_over h step l z other =
    not (allocated step.alloc other) && elim (value (h.layer other) zpos) [
      | none ↦ false
      | some w ↦ intersects (h.layer l) (h.layer other) && ltb z w
    ]

abbrev pub any : (Ptr → Bool) → List Ptr → Bool
any test [] = false
any test (x ∷ xs) = test x || any test xs

-- `has_composited_layer_over`
unfoldable pub has_composited_layer_over : Heap → Ptr → Step → Ptr → Bool
unfolding is_composited_over
has_composited_layer_over h output step l = elim (value (h.layer l) zpos) [
  | none ↦ false
  | some z ↦ any (is_composited_over h step l z) (h.output output).layers
]

-- Whether one of the planes that are not primary holds a layer that passes the test. The walk over
-- the planes ends with the valid items of `alloc`.
abbrev pub any_over : Heap → (Ptr → Ptr → Bool) → (planes : List Ptr) → List (Option Ptr) → Bool
any_over h test [] items = false
any_over h test (q ∷ qs) [] = false
any_over h test (q ∷ qs) (none ∷ items) = any_over h test qs items
any_over h test (q ∷ qs) (some a ∷ items) =
    (not (is_primary (h.plane q)) && test q a) || any_over h test qs items

-- The test of `has_allocated_layer_over`: the other layer is meant to be under this one.
unfoldable pub is_allocated_over : Heap → (l : Ptr) → (z : ℕ) → (plane other : Ptr) → Bool
is_allocated_over h l z q other = elim (value (h.layer other) zpos) [
  | none ↦ false
  | some w ↦ ltb w z && intersects (h.layer l) (h.layer other)
]

-- `has_allocated_layer_over`
unfoldable pub has_allocated_layer_over : Heap → Step → Ptr → Bool
unfolding is_allocated_over
has_allocated_layer_over h step l = elim (value (h.layer l) zpos) [
  | none ↦ false
  | some z ↦ any_over h (is_allocated_over h l z) h.planes step.alloc
]

-- The test of `has_allocated_plane_under`, for the current plane `p`.
unfoldable pub is_plane_under : Heap → (p l plane other : Ptr) → Bool
is_plane_under h p l q other =
    leb_ℤ (h.plane q).zpos (h.plane p).zpos && intersects (h.layer l) (h.layer other)

-- `has_allocated_plane_under`
unfoldable pub has_allocated_plane_under : Heap → Step → (p l : Ptr) → Bool
unfolding is_plane_under
has_allocated_plane_under h step p l = any_over h (is_plane_under h p l) h.planes step.alloc

-- The two checks of `check_layer_plane_compatible` on the zpos of the layer.
unfoldable pub zpos_fits : Heap → Step → (p l : Ptr) → Bool
unfolding has_allocated_layer_over has_allocated_plane_under
zpos_fits h step p l = elim (value (h.layer l) zpos) [
  | none ↦ true
  | some z ↦
      not (ltb_ℤ step.last_layer_zpos (to_int z) && has_allocated_layer_over h step l)
      && not (ltb_ℤ (to_int z) step.last_layer_zpos && has_allocated_plane_under h step p l)
]

-- `check_layer_plane_compatible`
unfoldable pub check_layer_plane_compatible : Heap → Step → (l p : Ptr) → Bool
unfolding zpos_fits has_composited_layer_over
check_layer_plane_compatible h step l p =
    not (allocated step.alloc l)
    && zpos_fits h step p l
    && not (not (is_primary (h.plane p)) && has_composited_layer_over h (h.layer l).output step l)
    && not (not (is_primary (h.plane p)) && is_composition h l)

-- What `struct alloc_result` holds of the output and the device during the search.
pub record Task : Type 0 where
  pub output : Ptr
  pub flags : ℕ
  pub planes_len : ℕ
  pub has_composition_layer : Bool
  pub non_composition_layers_len : ℕ

-- `check_alloc_valid`
unfoldable pub check_alloc_valid : Task → Step → Bool
check_alloc_valid t step =
    let all_placed = step.score == t.non_composition_layers_len in
    not (t.has_composition_layer && not step.composited && not all_placed)
    && not (step.composited && all_placed)
