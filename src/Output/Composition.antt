-- ===== src/Output/Composition.antt =====
-- When an output needs composition.
use libliftoff.Prelude.{
  ◌≡◌, ◌↔◌, inl, inr, true, List, [], ◌∷◌, none, arith, has, ◌==◌, Bool-cases, Option-cases,
}
use libliftoff.Model.{Ptr, Heap}
use libliftoff.Layer.{is_visible, needs_composition}
use libliftoff.Output.{any_needs_composition, output_needs_composition}

module _ (h : Heap) where
  -- A layer in the list that is visible and has no plane.
  pub record IsLeft (ls : List Ptr) (l : Ptr) : Type 0 where
    pub listed : has l ls ≡ true
    pub visible : is_visible (h.layer l) ≡ true
    pub unmapped : (h.layer l).plane ≡ none

  needs_composition_cases :
      (l : Ptr)
      → needs_composition (h.layer l) ≡ true
      → (is_visible (h.layer l) ≡ true) × ((h.layer l).plane ≡ none)
  unfolding needs_composition
  needs_composition_cases l e = elim (Option-cases (h.layer l).plane) [
    | inl u ↦ (ground arith, u)
    | inr (p, u) ↦ absurd (ground arith)
  ]

  found_of_any : (ls : List Ptr) → any_needs_composition h ls ≡ true → (l : Ptr) × IsLeft ls l
  unfolding any_needs_composition
  found_of_any [] e = cc
  found_of_any (l ∷ ls) e = elim (Bool-cases (needs_composition (h.layer l))) [
    | inl n ↦
        let (visible, unmapped) = needs_composition_cases l n in
        (l, record { listed = ground arith; visible = visible; unmapped = unmapped })
    | inr n ↦
        let (x, left) = found_of_any ls (rw (n, any_needs_composition) at e) in
        (
          x,
          record {
            listed = ground (arith, left.listed);
            visible = left.visible;
            unmapped = left.unmapped;
          },
        )
  ]

  any_of_member : (ls : List Ptr) (l : Ptr) → IsLeft ls l → any_needs_composition h ls ≡ true
  unfolding any_needs_composition needs_composition
  any_of_member [] l left = cc (left.listed)
  any_of_member (x ∷ ls) l left = elim (Bool-cases (x == l)) [
    | inl e ↦ ground (arith, left.visible, left.unmapped)
    | inr e ↦ ground (
      arith,
      any_of_member ls l (record {
        listed = ground (arith, left.listed);
        visible = left.visible;
        unmapped = left.unmapped;
      }),
    )
  ]

  -- An output needs composition exactly when one of its layers is visible and has no plane.
  pub output_needs_composition_iff :
      (o : Ptr) → (output_needs_composition h o ≡ true) ↔ ((l : Ptr) × IsLeft (h.output o).layers l)
  output_needs_composition_iff o =
      (found_of_any (h.output o).layers, λ (l, left). any_of_member (h.output o).layers l left)
