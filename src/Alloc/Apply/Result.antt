-- ===== src/Alloc/Apply/Result.antt =====
-- What the planes show after a new allocation has been computed.
use mathlib.Core.Path.{subst}
use libliftoff.Prelude.{
  ℕ, ◌≤◌, ◌≡◌, refl, sym, ap, ◌∙◌, Bool, true, false, none, arith, length, replicate,
}
use libliftoff.Errno.{Run, ok, and_then-eq-ok}
use libliftoff.Drm.{Drm}
use libliftoff.Model.{Ptr, Heap}
use libliftoff.Links.{Links, links}
use libliftoff.Alloc.Step.{Step}
use libliftoff.Alloc.Compatible.{check_alloc_valid}
use libliftoff.Alloc.Choose.{Search, output_choose_layers}
use libliftoff.Alloc.Choose.Reach.{Reach, Found, same, better}
use libliftoff.Alloc.Choose.Sound.{choose-Improves}
use libliftoff.Alloc.Choose.Optimal.{IsSteady, Beats, choose-Beats}
use libliftoff.Alloc.Apply.{
  Session, apply_current, apply_best, allocate, task, first_step, first_search, with_commits,
}
use libliftoff.Alloc.Apply.Frame.{links-mark_layers_clean}
use libliftoff.Alloc.Apply.Best.{Shows, map_best_lem, Shows-reframe}
use libliftoff.Alloc.Apply.Linked.{IsReady, choose-CanMap, CanMap-commits}

module _ (drm : Drm) (fuel : ℕ) (h : Heap) (o : Ptr) (flags : ℕ) (v : IsReady (links h) o) where
  open drm use {Req}

  -- The allocations of all planes, from an empty step.
  abbrev pub Allocation : Req → Step → Type 0
  Allocation r fin = Reach drm fuel h (task h o flags) h.planes first_step r fin

  abbrev pub IsValid : Step → Type 0
  IsValid fin = check_alloc_valid (task h o flags) fin ≡ true

  -- After a success the planes show the items that the search has kept.
  apply_best-Shows :
      (r : Req) (s : Search Req) (s' : Session Req)
      → output_choose_layers drm fuel h (task h o flags) h.planes first_step (first_search h r)
        ≡ (ok, s)
      → apply_best drm fuel o (with_commits h s.commits) s ≡ (ok, s')
      → Shows h s'.heap h.planes s.best
  unfolding apply_best
  apply_best-Shows r s s' run done =
      let (d, ready) = choose-CanMap drm fuel h o flags v r s run in
      let (h', e, m) =
        map_best_lem h.planes s.best (with_commits h s.commits) v.unique d
          (CanMap-commits h s.commits h.planes s.best ready) v.linked in
      let (q, _, clean) =
        and_then-eq-ok (apply_current drm h' s.req) _ _ (rw (e, apply_best) at done) in
      Shows-reframe h (with_commits h s.commits) s'.heap h' h.planes s.best (λ p i. refl)
        (λ p.
          sym (ap (λ (x : Run (Session Req)). (x.1.heap.plane p).layer) clean)
          ∙ ap (λ (k : Links). k.shown p) (links-mark_layers_clean h' o))
        m.shows

  -- What a success of the search and the calls after it amounts to.
  pub data Result (r : Req) (h' : Heap) : Type 0 where
    -- No allocation is valid, and the planes show what they showed.
    unallocated :
        ((fin : Step) → Allocation r fin → ¬ IsValid fin)
        → Shows h h' h.planes (replicate (length h.planes) none)
        → Result r h'
    -- The planes show a valid allocation, and no valid one has a greater score.
    allocation :
        (fin : Step)
        → Allocation r fin
        → IsValid fin
        → ((other : Step) → Allocation r other → IsValid other → other.score ≤ fin.score)
        → Shows h h' h.planes fin.alloc
        → Result r h'

  module _ (steady : IsSteady drm fuel h (task h o flags)) where
    result :
        (r : Req) (s : Search Req) (h' : Heap)
        → Found (task h o flags) (Allocation r) (first_search h r) s
        → Beats drm fuel h (task h o flags) h.planes first_step r s
        → Shows h h' h.planes s.best
        → Result r h'
    result r s h' (same b e) beats shows =
        unallocated (λ fin w valid. ground (arith, beats fin w valid))
          (subst (λ items. Shows h h' h.planes items) b shows)
    result r s h' (better fin w valid b e l) beats shows =
        allocation fin w valid (λ other w' valid'. ground (arith, beats other w' valid'))
          (subst (λ items. Shows h h' h.planes items) b shows)

    -- If the kernel is steady, and the pointers agree at first, a success of the search and of the
    -- calls after it leaves the planes with a valid allocation of the greatest score, or as they
    -- were where there is no valid allocation.
    pub allocate-Result :
        (memory : Bool) (r : Req) (s' : Session Req)
        → allocate drm fuel o flags memory h r ≡ (ok, s')
        → Result r s'.heap
    unfolding allocate
    allocate-Result false r s' run = cc
    allocate-Result true r s' run =
        let (s, found, done) =
          and_then-eq-ok
            (output_choose_layers drm fuel h (task h o flags) h.planes first_step
              (first_search h r))
            _ _ run in
        result r s s'.heap
          (choose-Improves drm fuel h (task h o flags) h.planes first_step (first_search h r) s
            found).found
          (choose-Beats drm fuel h (task h o flags) steady h.planes first_step (first_search h r) s
            found (omega arith))
          (apply_best-Shows r s s' found done)
