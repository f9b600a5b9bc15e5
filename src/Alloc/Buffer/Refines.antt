-- ===== src/Alloc/Buffer/Refines.antt =====
-- The search on the shared array does what the search on lists does, and stays inside its arrays.
use mathlib.Core.Path.{subst}
use libliftoff.Prelude.{
  ℕ, ◌+◌, ◌-◌, ◌≡◌, refl, ap, ◌∙◌, inl, inr, ◌&&◌, List, [], ◌∷◌, Option, none, some, take, length,
  arith, Bool-cases, if◌then◌else◌,
}
use libliftoff.Prelude.Int.{pos, leb_ℤ, ltb_ℤ}
use libliftoff.Errno.{einval, Outcome, Run, ok, err, abort, hang}
use libliftoff.Drm.{Drm}
use libliftoff.Model.{Ptr, Heap}
use libliftoff.Alloc.Step.{Step, puts_composition, plane_step_init_next, advance}
use libliftoff.Alloc.Compatible.{Task, check_alloc_valid}
use libliftoff.Alloc.Choose.{
  Search, is_candidate, is_eligible, is_unsupported, rewind, finish, descend, after_commit,
  try_commit, after_apply, visit, visit_all, skip_plane, node, output_choose_layers,
}
use libliftoff.Alloc.Buffer.{
  Mark, Shared, view, next_mark, Rest, rewind_shared, finish_shared, descend_shared,
  after_commit_shared, after_apply_shared, visit_shared, visit_all_shared, node_shared,
  choose_shared, ◌>>>◌, first_mark,
}
use libliftoff.Alloc.Apply.{task, first_step, first_search}
use libliftoff.Alloc.Buffer.Arrays.{store_lem, load_lem, IsString, next_prefix_lem, take_fewer}
use libliftoff.Alloc.Buffer.Match.{Matches, Matches-stay, Matches-bind}

-- The array has one item for each plane, the step stands before the planes that are left, and its
-- log prefix is a string.
pub record IsFit (planes_len : ℕ) (ps : List Ptr) (m : Mark) (alloc : List (Option Ptr))
    : Type 0 where
  pub whole : length alloc ≡ planes_len
  pub room : m.plane_idx + length ps ≡ planes_len
  pub string : IsString m.log_prefix

module _ (drm : Drm) (fuel : ℕ) (h : Heap) (t : Task) where
  open drm use {Req, get_cursor}

  -- The search on the shared array does what the one on lists does.
  abbrev Simulates : List Ptr → Rest drm fuel h t → (Step → Search Req → Run (Search Req)) → Type 0
  Simulates ps shared rest =
      (m : Mark) (s : Shared Req)
      → IsFit t.planes_len ps m s.alloc
      → Matches m.plane_idx s.alloc (shared m s) (rest (view m s.alloc) s.search)

  finish-Matches : Simulates [] (finish_shared drm fuel h t) (finish drm fuel h t)
  unfolding finish_shared finish
  finish-Matches m s fit =
      elim (Bool-cases
        (ltb_ℤ s.search.best_score (pos m.score) && check_alloc_valid t (view m s.alloc))) [
          | inr e ↦ rw e (Matches-stay ok s.search)
          | inl e ↦
              let same : t.planes_len ≡ m.plane_idx = omega (arith, fit.room) in
              rw (e, load_lem t.planes_len s.alloc (omega (arith, fit.whole)), same)
                (Matches-stay ok
                  (record s.search { best = take m.plane_idx s.alloc; best_score = pos m.score }))
        ]

  module _ {ps : List Ptr} (shared : Rest drm fuel h t)
      (rest : Step → Search Req → Run (Search Req)) (ih : Simulates ps shared rest) where
    descend-Matches :
        (p : Ptr) (m : Mark) (a : Option Ptr) (s : Shared Req)
        → IsFit t.planes_len (p ∷ ps) m s.alloc
        → Matches m.plane_idx s.alloc
            (descend_shared drm fuel h t shared p m a s)
            (descend drm fuel h t rest p (view m s.alloc) a s.search)
    unfolding descend_shared descend plane_step_init_next
    descend-Matches p m a s fit =
        let (alloc, stored) =
          store_lem m.plane_idx a s.alloc (omega (arith, fit.room, fit.whole)) in
        elim (Bool-cases (puts_composition h a && m.composited)) [
          | inl e ↦ record {
            after = alloc;
            ends = rw (descend_shared, descend, plane_step_init_next, stored.run, e) refl;
            len = stored.len;
            before = stored.before;
          }
          | inr e ↦
              let (bytes, built, string) = next_prefix_lem a m.log_prefix fit.string in
              let next = next_mark h m p a bytes in
              let below =
                ih next (record s { alloc = alloc })
                  (record {
                    whole = stored.len ∙ fit.whole;
                    room = omega (arith, fit.room);
                    string = string;
                  }) in
              let same : view next alloc ≡ advance h (view m s.alloc) p a =
                ap (λ xs. record (view next alloc) { alloc = xs }) stored.item in
              record {
                after = below.after;
                ends =
                    rw (descend_shared, descend, plane_step_init_next, stored.run, e, built)
                      (below.ends
                        ∙ ap
                            (λ step. some (
                              (rest step s.search).0,
                              record { search = (rest step s.search).1; alloc = below.after },
                            ))
                            same);
                len = below.len ∙ stored.len;
                before = take_fewer m.plane_idx below.after alloc below.before ∙ stored.before;
              }
        ]

    after_commit-Matches :
        (c : ℕ) (p : Ptr) (m : Mark) (l : Ptr) (o : Outcome) (s : Shared Req)
        → IsFit t.planes_len (p ∷ ps) m s.alloc
        → Matches m.plane_idx s.alloc
            (after_commit_shared drm fuel h t shared c p m l o s)
            (after_commit drm fuel h t rest c p (view m s.alloc) l o s.search)
    unfolding after_commit_shared after_commit
    after_commit-Matches c p m l ok s fit =
        Matches-bind (descend drm fuel h t rest p (view m s.alloc) (some l) s.search) _ _
          (descend-Matches p m (some l) s fit)
          (λ s' after len same. Matches-stay ok (rewind drm c s'))
    after_commit-Matches c p m l (err e) s fit = elim (Bool-cases (is_unsupported e)) [
      | inl f ↦ rw (after_commit_shared, after_commit, f) (Matches-stay ok (rewind drm c s.search))
      | inr f ↦ rw (after_commit_shared, after_commit, f) (Matches-stay (err e) s.search)
    ]
    after_commit-Matches c p m l abort s fit = Matches-stay abort s.search
    after_commit-Matches c p m l hang s fit = Matches-stay hang s.search

    after_apply-Matches :
        (c : ℕ) (p : Ptr) (m : Mark) (l : Ptr) (o : Outcome) (s : Shared Req)
        → IsFit t.planes_len (p ∷ ps) m s.alloc
        → Matches m.plane_idx s.alloc
            (after_apply_shared drm fuel h t shared c p m l o s)
            (after_apply drm fuel h t rest c p (view m s.alloc) l o s.search)
    unfolding after_apply_shared after_apply try_commit
    after_apply-Matches c p m l ok s fit =
        after_commit-Matches c p m l _ (record s { search = record s.search { commits = _ } }) fit
    after_apply-Matches c p m l (err einval) s fit = Matches-stay ok s.search
    after_apply-Matches c p m l (err e) s fit = Matches-stay (err e) s.search
    after_apply-Matches c p m l abort s fit = Matches-stay abort s.search
    after_apply-Matches c p m l hang s fit = Matches-stay hang s.search

    visit-Matches :
        (c : ℕ) (p : Ptr) (m : Mark) (l : Ptr) (s : Shared Req)
        → IsFit t.planes_len (p ∷ ps) m s.alloc
        → Matches m.plane_idx s.alloc
            (visit_shared drm fuel h t shared c p m l s)
            (visit drm fuel h t rest c p (view m s.alloc) l s.search)
    unfolding visit_shared visit
    visit-Matches c p m l s fit = elim (Bool-cases (is_eligible h (view m s.alloc) l p)) [
      | inr e ↦ rw (visit_shared, visit, e) (Matches-stay ok s.search)
      | inl e ↦
          rw (visit_shared, visit, e)
            (after_apply-Matches c p m l _ (record s { search = record s.search { req = _ } }) fit)
    ]

    visit_all-Matches :
        (c : ℕ) (p : Ptr) (m : Mark) (ls : List Ptr) (s : Shared Req)
        → IsFit t.planes_len (p ∷ ps) m s.alloc
        → Matches m.plane_idx s.alloc
            (visit_all_shared drm fuel h t shared c p m ls s)
            (visit_all drm fuel h t rest c p (view m s.alloc) ls s.search)
    unfolding visit_all_shared visit_all
    visit_all-Matches c p m [] s fit = Matches-stay ok s.search
    visit_all-Matches c p m (l ∷ ls) s fit =
        Matches-bind (visit drm fuel h t rest c p (view m s.alloc) l s.search) _ _
          (visit-Matches c p m l s fit)
          (λ s' after len same.
            subst
              (λ items.
                Matches m.plane_idx after
                  (visit_all_shared drm fuel h t shared c p m ls
                    (record { search = s'; alloc = after }))
                  (visit_all drm fuel h t rest c p (record (view m s.alloc) { alloc = items }) ls
                    s'))
              same
              (visit_all-Matches c p m ls (record { search = s'; alloc = after })
                (record { whole = len ∙ fit.whole; room = fit.room; string = fit.string })))

    layers-Matches :
        (c : ℕ) (p : Ptr) (m : Mark) (s : Shared Req)
        → IsFit t.planes_len (p ∷ ps) m s.alloc
        → Matches m.plane_idx s.alloc
            (if is_candidate h t.output p
              then visit_all_shared drm fuel h t shared c p m (h.output t.output).layers s
              else some (ok, s))
            (if is_candidate h t.output p
              then visit_all drm fuel h t rest c p
                  (view m s.alloc)
                  (h.output t.output).layers
                  s.search
              else (ok, s.search))
    layers-Matches c p m s fit = elim (Bool-cases (is_candidate h t.output p)) [
      | inl e ↦ rw e (visit_all-Matches c p m (h.output t.output).layers s fit)
      | inr e ↦ rw e (Matches-stay ok s.search)
    ]

    node-Matches :
        (p : Ptr)
        → Simulates (p ∷ ps) (node_shared drm fuel h t shared p) (node drm fuel h t rest p)
    unfolding node_shared node skip_plane
    node-Matches p m s fit =
        elim (Bool-cases
          (leb_ℤ (pos (m.score + (t.planes_len - m.plane_idx))) s.search.best_score)) [
            | inl e ↦ rw (node_shared, node, e) (Matches-stay ok s.search)
            | inr e ↦
                let c = get_cursor s.search.req in
                rw (node_shared, node, e)
                  (Matches-bind _ _ _ (layers-Matches c p m s fit) (λ s' after len same.
                    subst
                      (λ items.
                        Matches m.plane_idx after
                          (descend_shared drm fuel h t shared p m none
                              (record { search = s'; alloc = after })
                            >>> rewind_shared drm fuel h t c)
                          (skip_plane drm fuel h t rest c p
                            (record (view m s.alloc) { alloc = items }) s'))
                      same
                      (Matches-bind _ _ _
                        (descend-Matches p m none (record { search = s'; alloc = after })
                          (record {
                            whole = len ∙ fit.whole;
                            room = fit.room;
                            string = fit.string;
                          }))
                        (λ s'' after' len' same'. Matches-stay ok (rewind drm c s'')))))
          ]

  -- If the shared array has an item for each plane, and the step stands before the planes that are
  -- left with a log prefix that is a string, then whatever the array holds behind the step, the
  -- search on it never reads or writes outside an array, ends as the search on lists does, with the
  -- same request, best allocation, score and counts, and leaves the items before the step alone.
  pub choose_shared-Matches :
      (ps : List Ptr) (m : Mark) (s : Shared Req)
      → IsFit t.planes_len ps m s.alloc
      → Matches m.plane_idx s.alloc
          (choose_shared drm fuel h t ps m s)
          (output_choose_layers drm fuel h t ps (view m s.alloc) s.search)
  unfolding choose_shared output_choose_layers
  choose_shared-Matches [] m s fit = finish-Matches m s fit
  choose_shared-Matches (p ∷ ps) m s fit =
      node-Matches (choose_shared drm fuel h t ps) (output_choose_layers drm fuel h t ps)
        (choose_shared-Matches ps) p m s fit

module _ (drm : Drm) (fuel : ℕ) (h : Heap) (o : Ptr) (flags : ℕ) where
  -- The search of `liftoff_output_apply`, on one array for all steps that has an item for each plane
  -- and holds anything at first, and with the log prefixes built in their arrays of 64 bytes, never
  -- reads or writes outside an array, and ends as the search on lists does, with the same request,
  -- best allocation, score and counts.
  pub choose_shared-first_mark :
      (r : drm.Req) (alloc : List (Option Ptr))
      → length alloc ≡ length h.planes
      → Matches 0 alloc
          (choose_shared drm fuel h
            (task h o flags)
            h.planes
            first_mark
            (record { search = first_search h r; alloc = alloc }))
          (output_choose_layers drm fuel h (task h o flags) h.planes first_step (first_search h r))
  choose_shared-first_mark r alloc len =
      choose_shared-Matches drm fuel h (task h o flags) h.planes first_mark
        (record { search = first_search h r; alloc = alloc })
        (record {
          whole = len;
          room = omega arith;
          string = record { size = refl; len = 0; ended = refl };
        })
