-- ===== src/Alloc/Choose/Ordered.antt =====
-- Layers that lie over each other get planes in the order of their zpos.
use mathlib.Core.Path.{subst}
use mathlib.Core.List.{append_assoc, append-nil}
use libliftoff.Prelude.{
  ℕ, ◌≡◌, ◌≤◌, ◌∙◌, sym, ap, ◌⊎◌, inl, inr, Bool, true, false, List, [], ◌∷◌, ◌++◌, Option, none,
  some, arith, has, Bool-cases, ◌==◌,
}
use libliftoff.Name.{zpos}
use libliftoff.Errno.{ok}
use libliftoff.Drm.{Drm}
use libliftoff.Model.{Ptr, Heap, is_primary}
use libliftoff.Layer.{value, intersects}
use libliftoff.Alloc.Step.{Step}
use libliftoff.Alloc.Compatible.{
  Task, allocated, any, is_composited_over, has_composited_layer_over, check_layer_plane_compatible,
}
use libliftoff.Alloc.Choose.{Search, output_choose_layers, is_eligible}
use libliftoff.Alloc.Choose.Reach.{Reach, done, skip, place, Found, same, better}
use libliftoff.Alloc.Choose.Sound.{choose-Improves}
use libliftoff.Alloc.Choose.Valid.{IsOwned, eligible-new, allocated-append}

module _ (h : Heap) where
  -- None of these layers lies over the layer `a` with a greater zpos.
  abbrev pub Under : Ptr → List (Option Ptr) → Type 0
  Under a [] = Unit {0}
  Under a (none ∷ items) = Under a items
  Under a (some c ∷ items) =
      ((z w : ℕ)
        → value (h.layer a) zpos ≡ some z
        → value (h.layer c) zpos ≡ some w
        → intersects (h.layer a) (h.layer c) ≡ true
        → w ≤ z)
      × Under a items

  -- So it is for each layer on a plane that is not primary, and the layers on the planes behind.
  abbrev pub InOrder : List Ptr → List (Option Ptr) → Type 0
  InOrder [] items = Unit {0}
  InOrder (p ∷ ps) [] = Unit {0}
  InOrder (p ∷ ps) (none ∷ items) = InOrder ps items
  InOrder (p ∷ ps) (some a ∷ items) =
      (is_primary (h.plane p) ≡ false → Under a items) × InOrder ps items

  -- Layers of the output that have no plane yet.
  abbrev Waiting : Ptr → List (Option Ptr) → List (Option Ptr) → Type 0
  Waiting o given [] = Unit {0}
  Waiting o given (none ∷ items) = Waiting o given items
  Waiting o given (some c ∷ items) =
      (has c (h.output o).layers ≡ true) × (allocated given c ≡ false) × Waiting o given items

  Waiting-before :
      (o : Ptr) (given : List (Option Ptr)) (a : Option Ptr) (items : List (Option Ptr))
      → Waiting o (given ++ a ∷ []) items
      → Waiting o given items
  Waiting-before o given a [] w = tt
  Waiting-before o given a (none ∷ items) w = Waiting-before o given a items w
  Waiting-before o given a (some c ∷ items) (listed, new, w) = (
    listed,
    ground (arith, new, allocated-append given (a ∷ []) c),
    Waiting-before o given a items w,
  )

  any-false :
      (f : Ptr → Bool) (xs : List Ptr) (x : Ptr) → any f xs ≡ false → has x xs ≡ true → f x ≡ false
  any-false f [] x e here = cc
  any-false f (y ∷ xs) x e here = elim (Bool-cases (y == x)) [
    | inl at ↦ let same : y ≡ x = ground arith in subst (λ u. f u ≡ false) same (ground arith)
    | inr at ↦ any-false f xs x (ground arith) (ground arith)
  ]

  not_over :
      (step : Step) (a c : Ptr) (z w : ℕ)
      → value (h.layer c) zpos ≡ some w
      → is_composited_over h step a z c ≡ false
      → allocated step.alloc c ≡ false
      → intersects (h.layer a) (h.layer c) ≡ true
      → w ≤ z
  unfolding is_composited_over
  not_over step a c z w at e new meets = ground arith

  -- A layer that is not covered by one without a plane has none of them over it.
  Waiting-Under :
      (step : Step) (o a : Ptr) (items : List (Option Ptr))
      → has_composited_layer_over h o step a ≡ false
      → Waiting o step.alloc items
      → Under a items
  unfolding has_composited_layer_over
  Waiting-Under step o a [] e w = tt
  Waiting-Under step o a (none ∷ items) e w = Waiting-Under step o a items e w
  Waiting-Under step o a (some c ∷ items) e (listed, new, w) = (
    λ z v at_a at_c meets.
        not_over step a c z v at_c
          (any-false (is_composited_over h step a z) (h.output o).layers c
            (rw (has_composited_layer_over, at_a) at e) listed)
          new meets,
    Waiting-Under step o a items e w,
  )

  eligible-uncovered :
      (step : Step) (l p : Ptr)
      → is_eligible h step l p ≡ true
      → is_primary (h.plane p) ≡ false
      → has_composited_layer_over h (h.layer l).output step l ≡ false
  unfolding is_eligible check_layer_plane_compatible
  eligible-uncovered step l p e over = ground arith

module _ (drm : Drm) (fuel : ℕ) (h : Heap) (t : Task) (owned : IsOwned h t.output) where
  Reach-InOrder :
      {ps : List Ptr} {step fin : Step} {r : drm.Req}
      → Reach drm fuel h t ps step r fin
      → (items : List (Option Ptr)) × (fin.alloc ≡ step.alloc ++ items)
        × Waiting h t.output step.alloc items
        × InOrder h ps items
  Reach-InOrder {step} done = ([], sym (append-nil step.alloc), tt, tt)
  Reach-InOrder (skip {step} w) =
      let (items, e, waiting, ordered) = Reach-InOrder w in
      (
        none ∷ items,
        e ∙ append_assoc step.alloc (none ∷ []) items,
        Waiting-before h t.output step.alloc none items waiting,
        ordered,
      )
  Reach-InOrder (place {p} {step} l listed candidate eligible _ _ w) =
      let (items, e, waiting, ordered) = Reach-InOrder w in
      let before = Waiting-before h t.output step.alloc (some l) items waiting in
      (
        some l ∷ items,
        e ∙ append_assoc step.alloc (some l ∷ []) items,
        (listed, eligible-new h t.output step l p eligible, before),
        (
          λ over.
              Waiting-Under h step t.output l items
                (subst (λ o. has_composited_layer_over h o step l ≡ false) (owned l listed)
                  (eligible-uncovered h step l p eligible over))
                before,
          ordered,
        ),
      )

  -- A search from an empty step, over layers that know their output, keeps what it was given if it
  -- succeeds, or an allocation in which layers that lie over each other are in the order of their
  -- zpos: where a layer has a plane that is not primary, no layer on one of the planes behind it
  -- shares a pixel with it and has a greater zpos.
  pub choose-InOrder :
      (ps : List Ptr) (step : Step) (s s' : Search drm.Req)
      → output_choose_layers drm fuel h t ps step s ≡ (ok, s')
      → step.alloc ≡ []
      → (s'.best ≡ s.best) ⊎ InOrder h ps s'.best
  choose-InOrder ps step s s' run empty =
      in_order (choose-Improves drm fuel h t ps step s s' run).found
    where
      in_order :
          Found t (Reach drm fuel h t ps step s.req) s s'
          → (s'.best ≡ s.best) ⊎ InOrder h ps s'.best
      in_order (same b e) = inl b
      in_order (better fin w valid b e l) =
          let (items, at, _, ordered) = Reach-InOrder w in
          let all : s'.best ≡ items = b ∙ at ∙ ap (λ xs. xs ++ items) empty in
          inr (subst (InOrder h ps) (sym all) ordered)
