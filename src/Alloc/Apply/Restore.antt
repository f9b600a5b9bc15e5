-- ===== src/Alloc/Apply/Restore.antt =====
-- What `reuse_previous_alloc` leaves behind, on every branch.
use mathlib.Core.Path.{subst}
use libliftoff.Prelude.{
  ℕ, ◌≡◌, refl, sym, ap, ◌∙◌, inl, inr, false, List, [], ◌∷◌, Option, none, some, arith, Bool-cases,
}
use libliftoff.Name.{fb_id, crtc_id}
use libliftoff.Errno.{Errno, einval, Outcome, Run, ok, err, abort, hang, is_ok, and_then, ◌>>=◌}
use libliftoff.Drm.{Drm, Extends, Extends-refl, Extends-trans, set_cursor-Extends}
use libliftoff.Model.{Ptr, Plane, Heap, Commits}
use libliftoff.Plane.{set_plane_prop_str, plane_disable, plane_apply}
use libliftoff.Plane.Apply.{Ends, longer, failed, set_plane_prop_str-Ends, plane_apply-Ends}
use libliftoff.Device.{test_commit}
use libliftoff.Alloc.Realloc.{layer_needs_realloc}
use libliftoff.Alloc.Apply.{
  Session, assert_not_einval, apply_planes, apply_current, with_commits, test_current, any_layer,
  reuse_previous_alloc,
}

module _ (drm : Drm) where
  open drm use {Req, get_cursor, set_cursor}

  -- A run that succeeds leaves properties behind the request, and every other run leaves the
  -- request as it was.
  pub record Restores (r : Req) (m : Run Req) : Type 0 where
    pub grows : m.0 ≡ ok → Extends drm r m.1
    pub restored : is_ok m.0 ≡ false → m.1 ≡ r

  Extends-Ends : {r : Req} {m : Run Req} → Ends drm r r m → Extends drm r m.1
  Extends-Ends (longer ext) = ext
  Extends-Ends {r} (failed e) = Extends-refl drm r

  Extends-bind :
      {r : Req} (m : Run Req) (k : Req → Run Req)
      → Extends drm r m.1
      → ((s : Req) → Extends drm s (k s).1)
      → Extends drm r (m >>= k).1
  Extends-bind (ok, s) k ext next = Extends-trans drm ext (next s)
  Extends-bind (err e, s) k ext next = ext
  Extends-bind (abort, s) k ext next = ext
  Extends-bind (hang, s) k ext next = ext

  -- Turning a plane off can fail half way, but takes nothing away.
  Extends-plane_disable : (p : Plane) (r : Req) → Extends drm r (plane_disable drm p r).1
  unfolding plane_disable
  Extends-plane_disable p r =
      Extends-bind (set_plane_prop_str drm p r fb_id 0) (λ s. set_plane_prop_str drm p s crtc_id 0)
        (Extends-Ends (set_plane_prop_str-Ends drm p r fb_id 0))
        (λ s. Extends-Ends (set_plane_prop_str-Ends drm p s crtc_id 0))

  Extends-plane_apply :
      (h : Heap) (p : Ptr) (a : Option Ptr) (r : Req) → Extends drm r (plane_apply drm h p a r).1
  unfolding plane_apply
  Extends-plane_apply h p none r = Extends-plane_disable (h.plane p) r
  Extends-plane_apply h p (some l) r = Extends-Ends (plane_apply-Ends drm h p l r)

  assert_not_einval-request : (e : Errno) (s : Req) → (assert_not_einval drm (err e, s)).1 ≡ s
  assert_not_einval-request e s = ground arith

  Extends-assert :
      {r : Req} (m : Run Req) → Extends drm r m.1 → Extends drm r (assert_not_einval drm m).1
  Extends-assert (ok, s) ext = ext
  Extends-assert {r} (err e, s) ext =
      subst (Extends drm r) (sym (assert_not_einval-request e s)) ext
  Extends-assert (abort, s) ext = ext
  Extends-assert (hang, s) ext = ext

  restoring :
      {r : Req} (m : Run Req) (k : Req → Run Req)
      → Extends drm r m.1
      → ((s : Req) → Extends drm r s → Restores r (k s))
      → Restores r (and_then m (λ s o. (o, set_cursor s (get_cursor r))) k)
  restoring (ok, s) k ext next = next s ext
  restoring (err e, s) k ext next = record {
    grows = λ good. absurd (ground arith);
    restored = λ bad. set_cursor-Extends drm ext;
  }
  restoring (abort, s) k ext next = record {
    grows = λ good. absurd (ground arith);
    restored = λ bad. set_cursor-Extends drm ext;
  }
  restoring (hang, s) k ext next = record {
    grows = λ good. absurd (ground arith);
    restored = λ bad. set_cursor-Extends drm ext;
  }

  apply_planes-Restores :
      (h : Heap) (ps : List Ptr) {r : Req} (s : Req)
      → Extends drm r s
      → Restores r (apply_planes drm h (get_cursor r) ps s)
  unfolding apply_planes
  apply_planes-Restores h [] s ext = record {
    grows = λ good. ext;
    restored = λ bad. absurd (ground arith);
  }
  apply_planes-Restores h (p ∷ ps) s ext =
      restoring (assert_not_einval drm (plane_apply drm h p (h.plane p).layer s)) _
        (Extends-trans drm ext (
          Extends-assert (plane_apply drm h p (h.plane p).layer s)
            (Extends-plane_apply h p (h.plane p).layer s)))
        (λ u more. apply_planes-Restores h ps u more)

  -- `apply_current` rolls the request back on every error path.
  pub apply_current-Restores : (h : Heap) (r : Req) → Restores r (apply_current drm h r)
  unfolding apply_current
  apply_current-Restores h r = apply_planes-Restores h h.planes r (Extends-refl drm r)

module _ (drm : Drm) (fuel : ℕ) (o : Ptr) (flags : ℕ) where
  open drm use {Req, get_cursor, set_cursor}

  -- The set of layers is the same, and no layer has changed in a way that matters.
  pub record IsUnchanged (h : Heap) : Type 0 where
    pub same_layers : (h.output o).layers_changed ≡ false
    pub same_props : any_layer (λ l. layer_needs_realloc (h.layer l)) (h.output o).layers ≡ false

  -- How trying the previous allocation ends: the memory is the same but for the count of commits,
  -- only an unchanged output is tried, and only a request that the kernel accepts stays.
  pub record Attempt (s : Session Req) (m : Run (Session Req)) : Type 0 where
    pub tried : (c : Commits) × (m.1.heap ≡ with_commits s.heap c)
    pub unchanged : m.0 ≡ ok → IsUnchanged s.heap
    pub applied : m.0 ≡ ok → apply_current drm s.heap s.req ≡ (ok, m.1.req)
    pub accepted : m.0 ≡ ok → (test_commit drm fuel s.heap.commits m.1.req flags).0 ≡ ok
    pub restored : is_ok m.0 ≡ false → m.1.req ≡ s.req

  refused-Attempt :
      (s : Session Req) (e : Outcome) (r : Req)
      → is_ok e ≡ false
      → r ≡ s.req
      → Attempt s (e, record s { req = r })
  refused-Attempt s e r bad same = record {
    tried = (s.heap.commits, refl);
    unchanged = λ good. absurd (ground (arith, ap is_ok good));
    applied = λ good. absurd (ground (arith, ap is_ok good));
    accepted = λ good. absurd (ground (arith, ap is_ok good));
    restored = λ _. same;
  }

  module _ (s : Session Req) (unchanged : IsUnchanged s.heap) where
    test_current-Attempt :
        (r : Req)
        → apply_current drm s.heap s.req ≡ (ok, r)
        → Attempt s (test_current drm fuel flags (get_cursor s.req) (record s { req = r }))
    unfolding test_current
    test_current-Attempt r run =
        let ext : Extends drm s.req r =
          ground (arith, (apply_current-Restores drm s.heap s.req).grows) in
        record {
          tried = ((test_commit drm fuel s.heap.commits r flags).1, refl);
          unchanged = λ _. unchanged;
          applied = λ good. rw good run;
          accepted = λ good. rw good good;
          restored = λ bad. rw bad (set_cursor-Extends drm ext);
        }

    apply_failed :
        (e : Outcome) (r : Req)
        → is_ok e ≡ false
        → apply_current drm s.heap s.req ≡ (e, r)
        → r ≡ s.req
    apply_failed e r bad run =
        sym (ap (λ (m : Run Req). m.1) run)
        ∙ (apply_current-Restores drm s.heap s.req).restored
            (ap (λ (m : Run Req). is_ok m.0) run ∙ bad)

    apply_and_test-Attempt :
        (m : Run Req)
        → apply_current drm s.heap s.req ≡ m
        → Attempt s (
            and_then m
              (λ r e. (e, record s { req = r }))
              (λ r. test_current drm fuel flags (get_cursor s.req) (record s { req = r })))
    apply_and_test-Attempt (ok, r) run = test_current-Attempt r run
    apply_and_test-Attempt (err e, r) run =
        refused-Attempt s (err e) r refl (apply_failed (err e) r refl run)
    apply_and_test-Attempt (abort, r) run =
        refused-Attempt s abort r refl (apply_failed abort r refl run)
    apply_and_test-Attempt (hang, r) run =
        refused-Attempt s hang r refl (apply_failed hang r refl run)

  -- However `reuse_previous_alloc` ends, the memory is as before but for the count of commits. It
  -- succeeds only where the layers of the output are the same ones and none has changed in a way
  -- that matters, with what `apply_current` asks for in the request and the kernel's consent to it;
  -- otherwise the request is as before.
  pub reuse_previous_alloc-Attempt :
      (s : Session Req) → Attempt s (reuse_previous_alloc drm fuel o flags s)
  unfolding reuse_previous_alloc
  reuse_previous_alloc-Attempt s = elim (Bool-cases (s.heap.output o).layers_changed) [
    | inl e ↦ rw (e, reuse_previous_alloc) (refused-Attempt s (err einval) s.req refl refl)
    | inr e ↦
        rw (e, reuse_previous_alloc)
          (elim (Bool-cases
            (any_layer (λ l. layer_needs_realloc (s.heap.layer l)) (s.heap.output o).layers)) [
              | inl f ↦ rw f (refused-Attempt s (err einval) s.req refl refl)
              | inr f ↦
                  rw f
                    (apply_and_test-Attempt s (record { same_layers = e; same_props = f }) _ refl)
            ])
  ]
