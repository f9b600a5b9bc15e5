-- ===== src/Alloc/Choose/Sound.antt =====
-- What a successful search leaves: the request that it began with, and the best allocation so far,
-- which is the one it was given or one of `Reach`.
use mathlib.Core.Path.{subst, ap₂}
use libliftoff.Prelude.{
  ℕ, ◌+◌, ◌-◌, ◌≡◌, refl, sym, ap, ◌∙◌, inl, inr, true, ◌&&◌, List, [], ◌∷◌, Option, none, some,
  arith, has, if◌then◌else◌, Bool-cases, Option-cases,
}
use libliftoff.Prelude.Int.{ltb_ℤ, leb_ℤ, pos}
use libliftoff.Errno.{einval, Outcome, Run, ok, err, abort, hang, >>=-eq-ok}
use libliftoff.Drm.{Drm, Extends, set_cursor-Extends}
use libliftoff.Model.{Ptr, Heap, Commits}
use libliftoff.Plane.{plane_apply}
use libliftoff.Plane.Apply.{Ends, longer, failed, plane_apply-Ends}
use libliftoff.Device.{test_commit, test_flags, commit_loop}
use libliftoff.Alloc.Step.{Step, advance, plane_step_init_next}
use libliftoff.Alloc.Compatible.{Task, check_alloc_valid}
use libliftoff.Alloc.Choose.{
  Search, is_candidate, is_eligible, is_unsupported, finish, descend, after_commit, try_commit,
  after_apply, visit, visit_all, skip_plane, node, output_choose_layers,
}
use libliftoff.Alloc.Choose.Reach.{
  Reach, done, skip, place, Found, same, better, Found-map, Found-trans, Found-reframe,
}

pub plane_step_init_next-advance :
    (h : Heap) (step : Step) (p : Ptr) (a : Option Ptr) {next : Step}
    → plane_step_init_next h step p a ≡ some next
    → next ≡ advance h step p a
unfolding plane_step_init_next
plane_step_init_next-advance h step p a e = ground arith

module _ (drm : Drm) (fuel : ℕ) (h : Heap) (t : Task) where
  open drm use {Req, get_cursor, set_cursor}

  pub record Improves (F : Step → Type 0) (s s' : Search Req) : Type 0 where
    pub req : s'.req ≡ s.req
    pub found : Found t F s s'

  abbrev pub Reaches : List Ptr → Step → Req → Step → Type 0
  Reaches ps step r fin = Reach drm fuel h t ps step r fin

  -- What the search over the planes that are left is known to do.
  abbrev pub IsSound : List Ptr → (Step → Search Req → Run (Search Req)) → Type 0
  IsSound ps rest =
      (step : Step) (s s' : Search Req)
      → rest step s ≡ (ok, s')
      → Improves (Reaches ps step s.req) s s'

  Improves-refl :
      {F : Step → Type 0} (r : Req) (k : Commits) {s s' : Search Req}
      → ◌≡◌ {A = Run (Search Req)} (ok, record s { req = r; commits = k }) (ok, s')
      → r ≡ s.req
      → Improves F s s'
  Improves-refl r k e q = record {
    req = sym (ap (λ (m : Run (Search Req)). m.1.req) e) ∙ q;
    found =
        same (sym (ap (λ (m : Run (Search Req)). m.1.best) e))
          (sym (ap (λ (m : Run (Search Req)). m.1.best_score) e));
  }

  Improves-trans :
      {F : Step → Type 0} {s s' s'' : Search Req}
      → Improves F s s'
      → Improves F s' s''
      → Improves F s s''
  Improves-trans a b = record { req = b.req ∙ a.req; found = Found-trans t a.found b.found }

  finish-Improves :
      (step : Step) (s s' : Search Req)
      → finish drm fuel h t step s ≡ (ok, s')
      → Improves (Reaches [] step s.req) s s'
  unfolding finish
  finish-Improves step s s' run =
      elim (Bool-cases (ltb_ℤ s.best_score (pos step.score) && check_alloc_valid t step)) [
        | inl e ↦
            let kept = rw (e, finish) at run in
            record {
              req = sym (ap (λ (m : Run (Search Req)). m.1.req) kept);
              found =
                  better step done (ground arith)
                    (sym (ap (λ (m : Run (Search Req)). m.1.best) kept))
                    (sym (ap (λ (m : Run (Search Req)). m.1.best_score) kept)) (ground arith);
            }
        | inr e ↦ Improves-refl s.req s.commits (rw (e, finish) at run) refl
      ]

  module _ {ps : List Ptr} {rest : Step → Search Req → Run (Search Req)}
      (ih : IsSound ps rest) where
    descend-Improves :
        (p : Ptr) (step : Step) (a : Option Ptr) (s s' : Search Req)
        → descend drm fuel h t rest p step a s ≡ (ok, s')
        → Improves (Reaches ps (advance h step p a) s.req) s s'
    unfolding descend
    descend-Improves p step a s s' run = elim (Option-cases (plane_step_init_next h step p a)) [
      | inl e ↦ cc (rw (e, descend) at run)
      | inr (next, e) ↦
          subst (λ step'. Improves (Reaches ps step' s.req) s s')
            (plane_step_init_next-advance h step p a e) (ih next s s' (rw (e, descend) at run))
    ]

    -- A layer that the loop does not pass over.
    module _ (p : Ptr) (step : Step) (l : Ptr) (s : Search Req)
        (listed : has l (h.output t.output).layers ≡ true)
        (candidate : is_candidate h t.output p ≡ true)
        (eligible : is_eligible h step l p ≡ true) where
      module _ (r : Req) (applied : plane_apply drm h p (some l) s.req ≡ (ok, r))
          (ext : Extends drm s.req r) where
        after_commit-Improves :
            (o : Outcome) (k : Commits) (s' : Search Req)
            → (commit_loop drm fuel s.commits.clock r (test_flags t.flags)).0 ≡ o
            → after_commit drm fuel h t rest
                (get_cursor s.req)
                p
                step
                l
                o
                (record s { req = r; commits = k })
              ≡ (ok, s')
            → Improves (Reaches (p ∷ ps) step s.req) s s'
        unfolding after_commit
        after_commit-Improves ok k s' accepted run =
            let (u, below, back) =
              >>=-eq-ok
                (descend drm fuel h t rest p step (some l) (record s { req = r; commits = k })) _
                run in
            let deeper =
              descend-Improves p step (some l) (record s { req = r; commits = k }) u below in
            record {
              req =
                  sym (ap (λ (m : Run (Search Req)). m.1.req) back)
                  ∙ ap (λ (x : Req). set_cursor x (get_cursor s.req)) deeper.req
                  ∙ set_cursor-Extends drm ext;
              found =
                  Found-map t
                    (λ fin w.
                      place l listed candidate eligible applied (s.commits.clock, accepted) w)
                    (Found-reframe t s s' deeper.found refl refl
                      (sym (ap (λ (m : Run (Search Req)). m.1.best) back))
                      (sym (ap (λ (m : Run (Search Req)). m.1.best_score) back)));
            }
        after_commit-Improves (err e) k s' answer run = elim (Bool-cases (is_unsupported e)) [
          | inl u ↦ Improves-refl _ k (rw u at run) (set_cursor-Extends drm ext)
          | inr u ↦ cc (rw u at run)
        ]
        after_commit-Improves abort k s' answer run = cc
        after_commit-Improves hang k s' answer run = cc

        try_commit-Improves :
            (s' : Search Req)
            → try_commit drm fuel h t rest (get_cursor s.req) p step l (record s { req = r })
              ≡ (ok, s')
            → Improves (Reaches (p ∷ ps) step s.req) s s'
        unfolding try_commit test_commit
        try_commit-Improves s' run = after_commit-Improves _ _ s' refl run

      after_apply-Improves :
          (m : Run Req)
          → plane_apply drm h p (some l) s.req ≡ m
          → Ends drm s.req s.req m
          → (s' : Search Req)
          → after_apply drm fuel h t rest (get_cursor s.req) p step l m.0 (record s { req = m.1 })
            ≡ (ok, s')
          → Improves (Reaches (p ∷ ps) step s.req) s s'
      unfolding after_apply
      after_apply-Improves (ok, r) applied (longer ext) s' run =
          try_commit-Improves r applied ext s' run
      after_apply-Improves (err einval, r) applied (failed einval) s' run =
          Improves-refl s.req s.commits run refl
      after_apply-Improves (err _, r) applied (failed _) s' run = cc
      after_apply-Improves (abort, r) applied ends s' run = cc
      after_apply-Improves (hang, r) applied ends s' run = cc

    module _ (p : Ptr) (step : Step) (candidate : is_candidate h t.output p ≡ true) where
      pub visit-Improves :
          (l : Ptr) (s s' : Search Req)
          → has l (h.output t.output).layers ≡ true
          → visit drm fuel h t rest (get_cursor s.req) p step l s ≡ (ok, s')
          → Improves (Reaches (p ∷ ps) step s.req) s s'
      unfolding visit
      visit-Improves l s s' listed run = elim (Bool-cases (is_eligible h step l p)) [
        | inl e ↦
            after_apply-Improves p step l s listed candidate e _ refl
              (plane_apply-Ends drm h p l s.req) s' (rw (e, visit) at run)
        | inr e ↦ Improves-refl s.req s.commits (rw (e, visit) at run) refl
      ]

      pub visit_all-Improves :
          (ls : List Ptr) (s s' : Search Req) (c : ℕ)
          → get_cursor s.req ≡ c
          → ((l : Ptr) → has l ls ≡ true → has l (h.output t.output).layers ≡ true)
          → visit_all drm fuel h t rest c p step ls s ≡ (ok, s')
          → Improves (Reaches (p ∷ ps) step s.req) s s'
      unfolding visit_all
      visit_all-Improves [] s s' c at_c listed run = Improves-refl s.req s.commits run refl
      visit_all-Improves (l ∷ ls) s s' c at_c listed run =
          let (u, first, others) = >>=-eq-ok (visit drm fuel h t rest c p step l s) _ run in
          let head =
            visit-Improves l s u (listed l (ground arith))
              (subst (λ c'. visit drm fuel h t rest c' p step l s ≡ (ok, u)) (sym at_c) first) in
          let tail =
            visit_all-Improves ls u s' c (ap get_cursor head.req ∙ at_c)
              (λ x i. listed x (ground arith)) others in
          Improves-trans head (subst (λ r. Improves (Reaches (p ∷ ps) step r) u s') head.req tail)

    -- The loop over the layers, where the plane is one that the search may use.
    pub layers-Improves :
        (p : Ptr) (step : Step) (s s' : Search Req)
        → (if is_candidate h t.output p
            then visit_all drm fuel h t rest (get_cursor s.req) p step (h.output t.output).layers s
            else (ok, s))
          ≡ (ok, s')
        → Improves (Reaches (p ∷ ps) step s.req) s s'
    layers-Improves p step s s' run = elim (Bool-cases (is_candidate h t.output p)) [
      | inl e ↦
          visit_all-Improves p step e (h.output t.output).layers s s' _ refl (λ x i. i)
            (rw e at run)
      | inr e ↦ Improves-refl s.req s.commits (rw e at run) refl
    ]

    -- The last part of a node, with the plane left empty.
    pub skip-Improves :
        (p : Ptr) (step : Step) (s s' : Search Req) (c : ℕ)
        → get_cursor s.req ≡ c
        → skip_plane drm fuel h t rest c p step s ≡ (ok, s')
        → Improves (Reaches (p ∷ ps) step s.req) s s'
    unfolding skip_plane
    skip-Improves p step s s' c at_c run =
        let (u, below, back) = >>=-eq-ok (descend drm fuel h t rest p step none s) _ run in
        let deeper = descend-Improves p step none s u below in
        record {
          req =
              sym (ap (λ (m : Run (Search Req)). m.1.req) back)
              ∙ ap₂ set_cursor deeper.req (sym at_c)
              ∙ drm.set_cursor-get_cursor s.req;
          found =
              Found-map t (λ fin w. skip w)
                (Found-reframe t s s' deeper.found refl refl
                  (sym (ap (λ (m : Run (Search Req)). m.1.best) back))
                  (sym (ap (λ (m : Run (Search Req)). m.1.best_score) back)));
        }

    node-Improves :
        (p : Ptr) (step : Step) (s s' : Search Req)
        → node drm fuel h t rest p step s ≡ (ok, s')
        → Improves (Reaches (p ∷ ps) step s.req) s s'
    unfolding node
    node-Improves p step s s' run =
        elim (Bool-cases
          (leb_ℤ (pos (step.score + (t.planes_len - step.plane_idx))) s.best_score)) [
            | inl e ↦ Improves-refl s.req s.commits (rw (e, node) at run) refl
            | inr e ↦
                let (u, loop, last) = >>=-eq-ok _ _ (rw (e, node) at run) in
                let head = layers-Improves p step s u loop in
                let tail =
                  skip-Improves p step u s' (get_cursor s.req) (ap get_cursor head.req) last in
                Improves-trans head
                  (subst (λ r. Improves (Reaches (p ∷ ps) step r) u s') head.req tail)
          ]

  -- A search that succeeds leaves the request as it was, and keeps the allocation that it was
  -- given, or one in reach that is valid and has a greater score.
  pub choose-Improves :
      (ps : List Ptr) (step : Step) (s s' : Search Req)
      → output_choose_layers drm fuel h t ps step s ≡ (ok, s')
      → Improves (Reaches ps step s.req) s s'
  unfolding output_choose_layers
  choose-Improves [] step s s' run = finish-Improves step s s' run
  choose-Improves (p ∷ ps) step s s' run = node-Improves (choose-Improves ps) p step s s' run
