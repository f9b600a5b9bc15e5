-- ===== src/Alloc/Choose/Reach.antt =====
-- The allocations that the search ranges over, as a relation that knows neither of the order in
-- which they are tried, nor of the bound by which branches are left out.
use libliftoff.Prelude.{
  ℕ, ◌+◌, ◌≤◌, ◌≡◌, ◌∙◌, sym, true, List, [], ◌∷◌, Option, none, some, arith, has, length,
}
use libliftoff.Prelude.Int.{pos, ◌≤ℤ◌, ◌<ℤ◌}
use libliftoff.Errno.{ok}
use libliftoff.Drm.{Drm}
use libliftoff.Model.{Ptr, Heap}
use libliftoff.Plane.{plane_apply}
use libliftoff.Device.{commit_loop, test_flags}
use libliftoff.Alloc.Step.{Step, advance}
use libliftoff.Alloc.Compatible.{Task, check_alloc_valid}
use libliftoff.Alloc.Choose.{Search, is_candidate, is_eligible}

module _ (drm : Drm) (fuel : ℕ) (h : Heap) (t : Task) where
  -- The kernel has accepted a test-only commit of the request.
  abbrev pub Accepted : drm.Req → Type 0
  Accepted r = (clock : ℕ) × ((commit_loop drm fuel clock r (test_flags t.flags)).0 ≡ ok)

  -- From a step with a request, over the planes that are left, to a finished allocation: each plane
  -- stays empty, or takes an eligible layer whose properties the kernel accepts on top of those of
  -- the planes before.
  pub data Reach : List Ptr → Step → drm.Req → Step → Type 0 where
    done : {step : Step} {r : drm.Req} → Reach [] step r step
    skip :
        {p : Ptr} {ps : List Ptr} {step fin : Step} {r : drm.Req}
        → Reach ps (advance h step p none) r fin
        → Reach (p ∷ ps) step r fin
    place :
        {p : Ptr} {ps : List Ptr} {step fin : Step} {r r' : drm.Req} (l : Ptr)
        → has l (h.output t.output).layers ≡ true
        → is_candidate h t.output p ≡ true
        → is_eligible h step l p ≡ true
        → plane_apply drm h p (some l) r ≡ (ok, r')
        → Accepted r'
        → Reach ps (advance h step p (some l)) r' fin
        → Reach (p ∷ ps) step r fin

  advance-score :
      (step : Step) (p : Ptr) (a : Option Ptr) → (advance h step p a).score ≤ step.score + 1
  advance-score step p none = omega arith
  advance-score step p (some l) = ground arith

  -- An allocation over `n` planes gains `n` layers at most.
  pub Reach-score :
      {ps : List Ptr} {step fin : Step} {r : drm.Req}
      → Reach ps step r fin
      → fin.score ≤ step.score + length ps
  Reach-score done = omega arith
  Reach-score (skip {p} {step} w) = omega (arith, Reach-score w, advance-score step p none)
  Reach-score (place {p} {step} l _ _ _ _ _ w) =
      omega (arith, Reach-score w, advance-score step p (some l))

-- How a search changes what it keeps, given which allocations it may find: nothing, or it now
-- keeps one of those, which is valid and better than what it kept before.
module _ {R : Type 0} (t : Task) where
  pub data Found (F : Step → Type 0) (s s' : Search R) : Type 0 where
    same : s'.best ≡ s.best → s'.best_score ≡ s.best_score → Found F s s'
    better :
        (fin : Step)
        → F fin
        → check_alloc_valid t fin ≡ true
        → s'.best ≡ fin.alloc
        → s'.best_score ≡ pos fin.score
        → s.best_score <ℤ pos fin.score
        → Found F s s'

  module _ {F : Step → Type 0} where
    pub Found-grows : {s s' : Search R} → Found F s s' → s.best_score ≤ℤ s'.best_score
    Found-grows (same b e) = ground arith
    Found-grows (better fin w v b e l) = ground arith

    pub Found-map :
        {G : Step → Type 0} {s s' : Search R}
        → ((fin : Step) → F fin → G fin)
        → Found F s s'
        → Found G s s'
    Found-map f (same b e) = same b e
    Found-map f (better fin w v b e l) = better fin (f fin w) v b e l

    pub Found-trans : {s s' s'' : Search R} → Found F s s' → Found F s' s'' → Found F s s''
    Found-trans f (better fin w v b e l) = better fin w v b e (ground (arith, Found-grows f))
    Found-trans (same b e) (same b' e') = same (b' ∙ b) (e' ∙ e)
    Found-trans (better fin w v b e l) (same b' e') = better fin w v (b' ∙ b) (e' ∙ e) l

    -- The request and the counts of commits do not matter.
    pub Found-reframe :
        {s s' : Search R} (u u' : Search R)
        → Found F s s'
        → u.best ≡ s.best
        → u.best_score ≡ s.best_score
        → u'.best ≡ s'.best
        → u'.best_score ≡ s'.best_score
        → Found F u u'
    Found-reframe u u' (same b e) p q p' q' = same (p' ∙ b ∙ sym p) (q' ∙ e ∙ sym q)
    Found-reframe u u' (better fin w v b e l) p q p' q' =
        better fin w v (p' ∙ b) (q' ∙ e) (ground arith)
