-- ===== src/Alloc/Choose/Optimal.antt =====
-- A successful search has found an allocation that no other beats, although it leaves branches out.
use mathlib.Core.Path.{subst}
use libliftoff.Prelude.{
  ℕ, ◌+◌, ◌-◌, ◌≡◌, refl, sym, ap, ◌∙◌, inl, inr, true, List, [], ◌∷◌, Option, none, some, arith,
  has, length, if◌then◌else◌, Bool-cases, Option-cases, ◌==◌, ==_iff,
}
use libliftoff.Prelude.Int.{leb_ℤ, pos, ◌≤ℤ◌}
use libliftoff.Errno.{Run, ok, >>=-eq-ok}
use libliftoff.Drm.{Drm}
use libliftoff.Model.{Ptr, Heap}
use libliftoff.Plane.{plane_apply}
use libliftoff.Device.{test_commit, test_flags, commit_loop}
use libliftoff.Alloc.Step.{Step, advance, plane_step_init_next}
use libliftoff.Alloc.Compatible.{Task, check_alloc_valid}
use libliftoff.Alloc.Choose.{
  Search, is_candidate, is_eligible, finish, descend, after_commit, try_commit, after_apply, visit,
  visit_all, skip_plane, node, output_choose_layers,
}
use libliftoff.Alloc.Choose.Reach.{Accepted, Reach, done, skip, place, Reach-score, Found-grows}
use libliftoff.Alloc.Choose.Sound.{
  plane_step_init_next-advance, IsSound, visit-Improves, visit_all-Improves, layers-Improves,
  skip-Improves, choose-Improves,
}

module _ (drm : Drm) (fuel : ℕ) (h : Heap) (t : Task) where
  open drm use {Req, get_cursor, set_cursor}

  -- The kernel's verdict on a request does not depend on when it is asked.
  abbrev pub IsSteady : Type 0
  IsSteady =
      (c c' : ℕ) (r : Req)
      → (commit_loop drm fuel c r (test_flags t.flags)).0
        ≡ (commit_loop drm fuel c' r (test_flags t.flags)).0

  -- No allocation in reach beats what the search keeps.
  abbrev pub Beats : List Ptr → Step → Req → Search Req → Type 0
  Beats ps step r s =
      (fin : Step)
      → Reach drm fuel h t ps step r fin
      → check_alloc_valid t fin ≡ true
      → pos fin.score ≤ℤ s.best_score

  abbrev IsBest : List Ptr → (Step → Search Req → Run (Search Req)) → Type 0
  IsBest ps rest =
      (step : Step) (s s' : Search Req)
      → rest step s ≡ (ok, s')
      → step.plane_idx + length ps ≡ t.planes_len
      → Beats ps step s.req s'

  finish-Beats :
      (step fin : Step) (s s' : Search Req) (r : Req)
      → finish drm fuel h t step s ≡ (ok, s')
      → Reach drm fuel h t [] step r fin
      → check_alloc_valid t fin ≡ true
      → pos fin.score ≤ℤ s'.best_score
  unfolding finish
  finish-Beats step fin s s' r run done valid = ground arith

  module _ (steady : IsSteady) {ps : List Ptr} {rest : Step → Search Req → Run (Search Req)}
      (sound : IsSound drm fuel h t ps rest) (ih : IsBest ps rest) where
    descend-Beats :
        (p : Ptr) (step : Step) (a : Option Ptr) (s s' : Search Req)
        → descend drm fuel h t rest p step a s ≡ (ok, s')
        → step.plane_idx + length (p ∷ ps) ≡ t.planes_len
        → Beats ps (advance h step p a) s.req s'
    unfolding descend
    descend-Beats p step a s s' run len = elim (Option-cases (plane_step_init_next h step p a)) [
      | inl e ↦ cc (rw (e, descend) at run)
      | inr (next, e) ↦
          let here = plane_step_init_next-advance h step p a e in
          subst (λ step'. Beats ps step' s.req s') here
            (ih next s s' (rw (e, descend) at run) (rw here (omega arith)))
    ]

    module _ (p : Ptr) (step : Step) (len : step.plane_idx + length (p ∷ ps) ≡ t.planes_len) where
      -- The round at a layer that the kernel accepts searches all that follows.
      visit-Beats :
          (l : Ptr) (c : ℕ) (s s' : Search Req) (r : Req)
          → is_eligible h step l p ≡ true
          → plane_apply drm h p (some l) s.req ≡ (ok, r)
          → Accepted drm fuel h t r
          → visit drm fuel h t rest c p step l s ≡ (ok, s')
          → Beats ps (advance h step p (some l)) r s'
      unfolding visit after_apply try_commit test_commit after_commit
      visit-Beats l c s s' r eligible applied (clock, accepted) run =
          let now = steady s.commits.clock clock r ∙ accepted in
          let (u, below, back) =
            >>=-eq-ok (descend drm fuel h t rest p step (some l) _) _
              (rw (eligible, visit, applied, after_apply, now, after_commit) at run) in
          λ fin w valid.
            subst (λ b. pos fin.score ≤ℤ b) (ap (λ (m : Run (Search Req)). m.1.best_score) back)
              (descend-Beats p step (some l) _ u below len fin w valid)

      -- So does the loop, whatever it does at the other layers.
      visit_all-Beats :
          (candidate : is_candidate h t.output p ≡ true) (ls : List Ptr) (l : Ptr) (c : ℕ)
          (s s' : Search Req) (r : Req)
          → get_cursor s.req ≡ c
          → ((x : Ptr) → has x ls ≡ true → has x (h.output t.output).layers ≡ true)
          → has l ls ≡ true
          → is_eligible h step l p ≡ true
          → plane_apply drm h p (some l) s.req ≡ (ok, r)
          → Accepted drm fuel h t r
          → visit_all drm fuel h t rest c p step ls s ≡ (ok, s')
          → Beats ps (advance h step p (some l)) r s'
      unfolding visit_all
      visit_all-Beats candidate [] l c s s' r at_c sub listed eligible applied accepted run = cc
      visit_all-Beats candidate (x ∷ ls) l c s s' r at_c sub listed eligible applied accepted run =
          let (u, first, others) = >>=-eq-ok (visit drm fuel h t rest c p step x s) _ run in
          let head =
            visit-Improves drm fuel h t sound p step candidate x s u (sub x (ground arith))
              (subst (λ c'. visit drm fuel h t rest c' p step x s ≡ (ok, u)) (sym at_c) first) in
          let at_c' = ap get_cursor head.req ∙ at_c in
          let sub' = λ (y : Ptr) (i : has y ls ≡ true). sub y (ground arith) in
          let tail =
            visit_all-Improves drm fuel h t sound p step candidate ls u s' c at_c' sub' others in
          elim (Bool-cases (x == l)) [
            | inl e ↦ λ fin w valid.
                let at_l =
                  subst (λ y. visit drm fuel h t rest c p step y s ≡ (ok, u)) ((==_iff x l).0 e)
                    first in
                omega (
                  arith,
                  visit-Beats l c s u r eligible applied accepted at_l fin w valid,
                  Found-grows t tail.found,
                )
            | inr e ↦
                visit_all-Beats candidate ls l c u s' r at_c' sub' (ground arith) eligible
                  (subst (λ q. plane_apply drm h p (some l) q ≡ (ok, r)) (sym head.req) applied)
                  accepted others
          ]

      layers-Beats :
          (l : Ptr) (s s' : Search Req) (r : Req)
          → has l (h.output t.output).layers ≡ true
          → is_candidate h t.output p ≡ true
          → is_eligible h step l p ≡ true
          → plane_apply drm h p (some l) s.req ≡ (ok, r)
          → Accepted drm fuel h t r
          → (if is_candidate h t.output p
              then visit_all drm fuel h t rest
                  (get_cursor s.req)
                  p
                  step
                  (h.output t.output).layers
                  s
              else (ok, s))
            ≡ (ok, s')
          → Beats ps (advance h step p (some l)) r s'
      layers-Beats l s s' r listed candidate eligible applied accepted run =
          visit_all-Beats candidate (h.output t.output).layers l _ s s' r refl (λ x i. i) listed
            eligible applied accepted (rw candidate at run)

      skip-Beats :
          (s s' : Search Req) (c : ℕ)
          → skip_plane drm fuel h t rest c p step s ≡ (ok, s')
          → Beats ps (advance h step p none) s.req s'
      unfolding skip_plane
      skip-Beats s s' c run fin w valid =
          let (u, below, back) = >>=-eq-ok (descend drm fuel h t rest p step none s) _ run in
          subst (λ b. pos fin.score ≤ℤ b) (ap (λ (m : Run (Search Req)). m.1.best_score) back)
            (descend-Beats p step none s u below len fin w valid)

      -- The two ways in which an allocation goes on from this plane.
      node_cases :
          (s u s' : Search Req) (fin : Step)
          → (if is_candidate h t.output p
              then visit_all drm fuel h t rest
                  (get_cursor s.req)
                  p
                  step
                  (h.output t.output).layers
                  s
              else (ok, s))
            ≡ (ok, u)
          → skip_plane drm fuel h t rest (get_cursor s.req) p step u ≡ (ok, s')
          → {r : Req} → r ≡ s.req
          → Reach drm fuel h t (p ∷ ps) step r fin
          → check_alloc_valid t fin ≡ true
          → pos fin.score ≤ℤ s'.best_score
      node_cases s u s' fin loop last at_s (skip w) valid =
          let head = layers-Improves drm fuel h t sound p step s u loop in
          skip-Beats u s' _ last fin
            (subst (λ q. Reach drm fuel h t ps (advance h step p none) q fin) (at_s ∙ sym head.req)
              w)
            valid
      node_cases s u s' fin loop last at_s
            (place {r'} l listed candidate eligible applied accepted w) valid =
          let head = layers-Improves drm fuel h t sound p step s u loop in
          let tail = skip-Improves drm fuel h t sound p step u s' _ (ap get_cursor head.req) last in
          omega (
            arith,
            layers-Beats l s u r' listed candidate eligible
                (subst (λ q. plane_apply drm h p (some l) q ≡ (ok, r')) at_s applied) accepted loop
                fin w valid,
            Found-grows t tail.found,
          )

      node-Beats :
          (s s' : Search Req)
          → node drm fuel h t rest p step s ≡ (ok, s')
          → Beats (p ∷ ps) step s.req s'
      unfolding node
      node-Beats s s' run fin w valid =
          elim (Bool-cases
            (leb_ℤ (pos (step.score + (t.planes_len - step.plane_idx))) s.best_score)) [
              | inl e ↦
                  subst (λ b. pos fin.score ≤ℤ b)
                    (ap (λ (m : Run (Search Req)). m.1.best_score) (rw (e, node) at run))
                    (ground (arith, Reach-score drm fuel h t w))
              | inr e ↦
                  let (u, loop, last) = >>=-eq-ok _ _ (rw (e, node) at run) in
                  node_cases s u s' fin loop last refl w valid
            ]

  module _ (steady : IsSteady) where
    -- If the kernel is steady, a search that succeeds has found an allocation at least as good as
    -- any valid allocation in reach: the branches that it leaves out hold no better one.
    pub choose-Beats :
        (ps : List Ptr) (step : Step) (s s' : Search Req)
        → output_choose_layers drm fuel h t ps step s ≡ (ok, s')
        → step.plane_idx + length ps ≡ t.planes_len
        → (fin : Step) → Reach drm fuel h t ps step s.req fin
        → check_alloc_valid t fin ≡ true
        → pos fin.score ≤ℤ s'.best_score
    unfolding output_choose_layers
    choose-Beats [] step s s' run len fin w valid = finish-Beats step fin s s' s.req run w valid
    choose-Beats (p ∷ ps) step s s' run len fin w valid =
        node-Beats steady (choose-Improves drm fuel h t ps) (choose-Beats ps) p step len s s' run
          fin w valid
