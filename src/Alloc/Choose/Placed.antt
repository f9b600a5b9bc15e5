-- ===== src/Alloc/Choose/Placed.antt =====
-- What the search keeps: nothing new, or layers that may be on their planes.
use mathlib.Core.Path.{subst}
use libliftoff.Prelude.{ℕ, ◌≡◌, ◌∙◌, ap, sym, ◌⊎◌, inl, inr, true, List, [], ◌++◌, Option}
use libliftoff.Prelude.Int.{pos}
use libliftoff.Errno.{ok}
use libliftoff.Drm.{Drm}
use libliftoff.Model.{Ptr, Heap}
use libliftoff.Alloc.Step.{Step}
use libliftoff.Alloc.Compatible.{Task, check_alloc_valid}
use libliftoff.Alloc.Choose.{Search, output_choose_layers}
use libliftoff.Alloc.Choose.Reach.{Reach, Found, same, better}
use libliftoff.Alloc.Choose.Sound.{choose-Improves}
use libliftoff.Alloc.Choose.Valid.{
  IsCounted, IsOwned, Fits, count_scored, Reach-IsCounted, Reach-Fits,
}

-- A valid allocation of the planes, and its step.
pub record IsAllocation (h : Heap) (t : Task) (start : Step) (ps : List Ptr)
    (items : List (Option Ptr)) : Type 0 where
  pub final : Step
  pub items_of : final.alloc ≡ items
  pub counted : IsCounted h t.output final
  pub fits : Fits h t.output start final ps items
  pub valid : check_alloc_valid t final ≡ true

module _ (drm : Drm) (fuel : ℕ) (h : Heap) (t : Task) (owned : IsOwned h t.output) where
  placed :
      (ps : List Ptr) (step : Step) (s s' : Search drm.Req)
      → Found t (Reach drm fuel h t ps step s.req) s s'
      → step.alloc ≡ []
      → IsCounted h t.output step
      → ((s'.best ≡ s.best) × (s'.best_score ≡ s.best_score))
        ⊎ (IsAllocation h t step ps s'.best × (s'.best_score ≡ pos (count_scored h s'.best)))
  placed ps step s s' (same b e) empty v = inl (b, e)
  placed ps step s s' (better fin w valid b e l) empty v =
      let (items, at, fits) = Reach-Fits drm fuel h t owned w in
      let counted = Reach-IsCounted drm fuel h t owned w v in
      let all : fin.alloc ≡ items = subst (λ xs. fin.alloc ≡ xs ++ items) empty at in
      inr (
        record {
          final = fin;
          items_of = sym b;
          counted = counted;
          fits = subst (λ xs. Fits h t.output step fin ps xs) (sym (b ∙ all)) fits;
          valid = valid;
        },
        e ∙ ap pos (counted.score ∙ ap (count_scored h) (sym b)),
      )

  -- A search from an empty step whose counts are right, over layers that know their output, keeps
  -- what it was given if it succeeds, or an allocation that is valid, where no layer is on two
  -- planes and each has passed the checks on its plane: the plane was free and the layer visible,
  -- not composited by force and not on a plane; no layer over it is left for composition, and it is
  -- not the composition layer, unless its plane is primary; and, compared with the layer put last on
  -- a plane that is not primary, a greater zpos has no layer wrongly over it, a smaller zpos no
  -- plane wrongly under its own. The score is then how many layers other than the composition layer
  -- have a plane.
  pub choose-IsAllocation :
      (ps : List Ptr) (step : Step) (s s' : Search drm.Req)
      → output_choose_layers drm fuel h t ps step s ≡ (ok, s')
      → step.alloc ≡ []
      → IsCounted h t.output step
      → ((s'.best ≡ s.best) × (s'.best_score ≡ s.best_score))
        ⊎ (IsAllocation h t step ps s'.best × (s'.best_score ≡ pos (count_scored h s'.best)))
  choose-IsAllocation ps step s s' run empty v =
      placed ps step s s' (choose-Improves drm fuel h t ps step s s' run).found empty v
