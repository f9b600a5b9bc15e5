-- ===== src/Alloc/Choose/Ending.antt =====
-- How the search ends: with 0, or with what the first fatal call gave; never in its assertion.
use mathlib.Core.Path.{subst}
use libliftoff.Prelude.{
  ℕ, ◌+◌, ◌-◌, ◌≡◌, ◌≢◌, refl, sym, ◌⊎◌, inl, inr, Bool, true, false, ◌&&◌, List, [], ◌∷◌, Option,
  none, some, arith, has, if◌then◌else◌, is_at, ◌==◌, ==_iff, Bool-cases,
}
use libliftoff.Prelude.Int.{ltb_ℤ, leb_ℤ, pos}
use libliftoff.Errno.{Errno, einval, Outcome, Run, ok, err, abort, hang, ◌>>=◌}
use libliftoff.Drm.{Drm}
use libliftoff.Model.{Ptr, Heap}
use libliftoff.Plane.{plane_apply}
use libliftoff.Plane.Apply.{Ends, longer, failed, plane_apply-Ends}
use libliftoff.Device.{test_commit, test_flags, commit_loop}
use libliftoff.Device.Retry.{commit_loop-ne-abort}
use libliftoff.Alloc.Step.{Step, advance, plane_step_init_next}
use libliftoff.Alloc.Compatible.{Task, allocated, check_alloc_valid}
use libliftoff.Alloc.Choose.{
  Search, is_candidate, is_eligible, is_unsupported, finish, descend, after_commit, try_commit,
  after_apply, visit, visit_all, skip_plane, node, output_choose_layers,
}
use libliftoff.Alloc.Choose.Valid.{
  IsCounted, IsOwned, holds, advance-none, advance-some, eligible-new,
}

bind-Good :
    {S : Type 0} (Good : Outcome → Type 0) (m : Run S) (k : S → Run S)
    → Good m.0
    → ((s : S) → Good (k s).0)
    → Good (m >>= k).0
bind-Good Good (ok, s) k g next = next s
bind-Good Good (err e, s) k g next = g
bind-Good Good (abort, s) k g next = g
bind-Good Good (hang, s) k g next = g

not_twice :
    (c : Option Ptr) (l : Ptr) (items : List (Option Ptr)) (b : Bool)
    → b ≡ holds c items
    → allocated items l ≡ false
    → (is_at l c && b) ≡ false
not_twice none l items b e new = refl
not_twice (some x) l items b e new = elim (Bool-cases (x == l)) [
  | inl same ↦ rw (e, (==_iff x l).0 same, new) (ground arith)
  | inr other ↦ rw other
]

module _ (h : Heap) (output : Ptr) (owned : IsOwned h output) where
  -- The assertion of `plane_step_init_next` holds: the composition layer is not put twice.
  init_next-some :
      (step : Step) (p l : Ptr)
      → IsCounted h output step
      → has l (h.output output).layers ≡ true
      → allocated step.alloc l ≡ false
      → plane_step_init_next h step p (some l) ≡ some (advance h step p (some l))
  unfolding plane_step_init_next
  init_next-some step p l v listed new =
      let own =
        subst (λ o. (is_at l (h.output o).composition_layer && step.composited) ≡ false)
          (sym (owned l listed)) (not_twice _ l step.alloc step.composited v.composited new) in
      rw own

module _ (drm : Drm) (fuel : ℕ) (h : Heap) (t : Task) (owned : IsOwned h t.output)
    (Good : Outcome → Type 0) (good_ok : Good ok)
    (applies : (p l : Ptr) (r : drm.Req)
      → ((plane_apply drm h p (some l) r).0 ≡ err einval) ⊎ Good (plane_apply drm h p (some l) r).0)
    (commits : (clock : ℕ) (r : drm.Req)
      → ((e : Errno) × ((commit_loop drm fuel clock r (test_flags t.flags)).0 ≡ err e)
          × (is_unsupported e ≡ true))
        ⊎ Good (commit_loop drm fuel clock r (test_flags t.flags)).0) where
  open drm use {Req, get_cursor, set_cursor}

  abbrev IsGood : (Step → Search Req → Run (Search Req)) → Type 0
  IsGood rest = (step : Step) (s : Search Req) → IsCounted h t.output step → Good (rest step s).0

  module _ (rest : Step → Search Req → Run (Search Req)) (ih : IsGood rest) (p : Ptr) (step : Step)
      (v : IsCounted h t.output step) where
    descend-some :
        (l : Ptr) (s : Search Req)
        → has l (h.output t.output).layers ≡ true
        → allocated step.alloc l ≡ false
        → Good (descend drm fuel h t rest p step (some l) s).0
    unfolding descend
    descend-some l s listed new =
        rw (init_next-some h t.output owned step p l v listed new, descend)
          (ih _ s (advance-some h t.output p l step (owned l listed) new v))

    descend-none : (s : Search Req) → Good (descend drm fuel h t rest p step none s).0
    unfolding descend plane_step_init_next
    descend-none s = ih _ s (advance-none h t.output p step v)

    module _ (l : Ptr) (listed : has l (h.output t.output).layers ≡ true)
        (new : allocated step.alloc l ≡ false) (c : ℕ) where
      after_commit-ok : (s : Search Req) → Good (after_commit drm fuel h t rest c p step l ok s).0
      unfolding after_commit
      after_commit-ok s = bind-Good Good _ _ (descend-some l s listed new) (λ s'. good_ok)

      after_commit-Good :
          (o : Outcome) (s : Search Req)
          → Good o
          → Good (after_commit drm fuel h t rest c p step l o s).0
      unfolding after_commit
      after_commit-Good ok s g = after_commit-ok s
      after_commit-Good (err e) s g = elim (Bool-cases (is_unsupported e)) [
        | inl u ↦ rw u good_ok
        | inr u ↦ rw u g
      ]
      after_commit-Good abort s g = g
      after_commit-Good hang s g = g

      try_commit-Good : (s : Search Req) → Good (try_commit drm fuel h t rest c p step l s).0
      unfolding try_commit test_commit after_commit
      try_commit-Good s = elim (commits s.commits.clock s.req) [
        | inl (e, answer, u) ↦ rw (answer, after_commit, u) good_ok
        | inr g ↦ after_commit-Good _ _ g
      ]

      after_apply-Good :
          (o : Outcome) (s : Search Req)
          → (o ≡ err einval) ⊎ Good o
          → Good (after_apply drm fuel h t rest c p step l o s).0
      unfolding after_apply
      after_apply-Good ok s g = try_commit-Good s
      after_apply-Good (err einval) s g = good_ok
      after_apply-Good _ s (inl e) = absurd (cc)
      after_apply-Good _ s (inr g) = g

    visit-Good :
        (l : Ptr) (c : ℕ) (s : Search Req)
        → has l (h.output t.output).layers ≡ true
        → Good (visit drm fuel h t rest c p step l s).0
    unfolding visit
    visit-Good l c s listed = elim (Bool-cases (is_eligible h step l p)) [
      | inl e ↦
          rw (e, visit)
            (after_apply-Good l listed (eligible-new h t.output step l p e) c _ _
              (applies p l s.req))
      | inr e ↦ rw (e, visit) good_ok
    ]

    visit_all-Good :
        (ls : List Ptr) (c : ℕ) (s : Search Req)
        → ((l : Ptr) → has l ls ≡ true → has l (h.output t.output).layers ≡ true)
        → Good (visit_all drm fuel h t rest c p step ls s).0
    unfolding visit_all
    visit_all-Good [] c s sub = good_ok
    visit_all-Good (l ∷ ls) c s sub =
        bind-Good Good _ _ (visit-Good l c s (sub l (ground arith)))
          (λ s'. visit_all-Good ls c s' (λ x i. sub x (ground arith)))

    layers-Good :
        (c : ℕ) (s : Search Req)
        → Good
            (if is_candidate h t.output p
              then visit_all drm fuel h t rest c p step (h.output t.output).layers s
              else (ok, s)).0
    layers-Good c s = elim (Bool-cases (is_candidate h t.output p)) [
      | inl e ↦ rw e (visit_all-Good (h.output t.output).layers c s (λ x i. i))
      | inr e ↦ rw e good_ok
    ]

    skip-Good : (c : ℕ) (s : Search Req) → Good (skip_plane drm fuel h t rest c p step s).0
    unfolding skip_plane
    skip-Good c s = bind-Good Good _ _ (descend-none s) (λ s'. good_ok)

    node-Good : (s : Search Req) → Good (node drm fuel h t rest p step s).0
    unfolding node
    node-Good s =
        elim (Bool-cases
          (leb_ℤ (pos (step.score + (t.planes_len - step.plane_idx))) s.best_score)) [
            | inl e ↦ rw (e, node) good_ok
            | inr e ↦ rw (e, node) (bind-Good Good _ _ (layers-Good _ s) (λ s'. skip-Good _ s'))
          ]

  finish-Good : (step : Step) (s : Search Req) → Good (finish drm fuel h t step s).0
  unfolding finish
  finish-Good step s =
      elim (Bool-cases (ltb_ℤ s.best_score (pos step.score) && check_alloc_valid t step)) [
        | inl e ↦ rw e good_ok
        | inr e ↦ rw e good_ok
      ]

  -- The search ends with 0, or in a way in which one of its calls ends.
  pub choose-Good :
      (ps : List Ptr) (step : Step) (s : Search Req)
      → IsCounted h t.output step
      → Good (output_choose_layers drm fuel h t ps step s).0
  unfolding output_choose_layers
  choose-Good [] step s v = finish-Good step s
  choose-Good (p ∷ ps) step s v =
      node-Good (output_choose_layers drm fuel h t ps) (choose-Good ps) p step v s

module _ (drm : Drm) (fuel : ℕ) (h : Heap) (t : Task) (owned : IsOwned h t.output) where
  plane_apply-ne-abort :
      {r s : drm.Req} {m : Run drm.Req} → Ends drm r s m → (m.0 ≡ err einval) ⊎ (m.0 ≢ abort)
  plane_apply-ne-abort (longer e) = inr (λ e'. cc)
  plane_apply-ne-abort (failed e) = inr (λ e'. cc)

  -- From a step whose counts are right, over layers that know their output, the search never fails
  -- the assertion that the composition layer is put once.
  pub choose-ne-abort :
      (ps : List Ptr) (step : Step) (s : Search drm.Req)
      → IsCounted h t.output step
      → (output_choose_layers drm fuel h t ps step s).0 ≢ abort
  choose-ne-abort =
      choose-Good drm fuel h t owned (λ o. o ≢ abort) (λ e. cc)
        (λ p l r. plane_apply-ne-abort (plane_apply-Ends drm h p l r))
        (λ clock r. inr (commit_loop-ne-abort drm fuel clock r (test_flags t.flags)))
