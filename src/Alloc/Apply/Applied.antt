-- ===== src/Alloc/Apply/Applied.antt =====
-- What a success of `liftoff_output_apply` means for the planes and for the atomic request.
use mathlib.Core.Path.{fun_ext, subst}
use libliftoff.Prelude.{
  ℕ, ◌≡◌, refl, sym, ap, ◌∙◌, inl, inr, Bool, true, false, Option, none, some, has, ◌==◌,
  if◌then◌else◌, Option-cases,
}
use libliftoff.Errno.{Run, ok, err, abort, hang, and_then-eq-ok}
use libliftoff.Drm.{Drm, added}
use libliftoff.Model.{Ptr, Heap, Commits}
use libliftoff.Links.{Links, links}
use libliftoff.Device.{test_commit}
use libliftoff.Alloc.Choose.{Search, output_choose_layers}
use libliftoff.Alloc.Choose.Sound.{choose-Improves}
use libliftoff.Alloc.Choose.Optimal.{IsSteady}
use libliftoff.Alloc.Apply.{
  Session, apply_current, apply_best, allocate, compute_alloc, after_reuse, liftoff_output_apply,
  update_layers_priority, unmapped, task, first_step, first_search, with_commits, map_best,
  disable_planes, log_reuse,
}
use libliftoff.Alloc.Apply.Frame.{links-update_layers_priority}
use libliftoff.Alloc.Apply.Linked.{IsReady, unmapped-IsReady}
use libliftoff.Alloc.Apply.Result.{Result, allocate-Result}
use libliftoff.Alloc.Apply.Fresh.{is_of, plane-unmapped}
use libliftoff.Alloc.Apply.Alike.{
  Alike, Alike-trans, Alike-with_commits, Alike-log_reuse, Alike-mark_layers_clean,
  Alike-update_layers_priority,
}
use libliftoff.Alloc.Apply.Asked.{
  idle, Requested, apply_current-Requested, disable_planes-Requested, Requested-Alike,
}
use libliftoff.Alloc.Apply.Restore.{Attempt, IsUnchanged, reuse_previous_alloc-Attempt}

module _ (drm : Drm) (put : drm.Req → (o p v : ℕ) → drm.Req)
    (puts : (r : drm.Req) (o p v : ℕ) → drm.add_property r o p v ≡ added (put r o p v)) where
  open drm use {Req}

  -- The request asks every plane for what it shows, behind what it held before.
  abbrev pub Shown : Heap → Req → Req → Type 0
  Shown h r s = Requested drm put puts h (λ p. (h.plane p).layer) h.planes r s

  Shown-Alike : {h h' : Heap} (a : Alike h h') {r s : Req} → Shown h r s → Shown h' r s
  Shown-Alike {h} {h'} a {r} {s} q =
      let same : (λ p. (h.plane p).layer) ≡ (λ p. (h'.plane p).layer) =
        fun_ext (λ p. ap (λ x. x.layer) (sym (a.plane p))) in
      subst (λ ps. Requested drm put puts h' (λ p. (h'.plane p).layer) ps r s) (sym a.planes)
        (subst (λ f. Requested drm put puts h' f h.planes r s) same
          (Requested-Alike drm put puts a q))

  module _ (fuel : ℕ) (o : Ptr) (flags : ℕ) where
    -- The memory in which a new allocation starts.
    abbrev pub restarted : Heap → Commits → Heap
    restarted h c = unmapped (with_commits (update_layers_priority h) c) o

    -- The layer that a plane shows, but for the layers of the output.
    abbrev pub kept : Heap → Ptr → Option Ptr
    kept h q = if is_of h o (h.plane q).layer then none else (h.plane q).layer

    -- How `liftoff_output_apply` succeeds.
    pub data Applied (s s' : Session Req) : Type 0 where
      -- The planes show what they showed, the request asks for that, and the kernel accepts it.
      reused :
          IsUnchanged drm fuel o flags (update_layers_priority s.heap)
          → ((q : Ptr) → (s'.heap.plane q).layer ≡ (s.heap.plane q).layer)
          → Shown s'.heap s.req s'.req
          → (test_commit drm fuel (update_layers_priority s.heap).commits s'.req flags).0 ≡ ok
          → Applied s s'
      -- The layers of the output are taken off the planes, those that are idle then are turned off,
      -- a best allocation is made, and the request asks for what the planes show in the end.
      computed :
          (c : Commits) (w : IsReady (links (restarted s.heap c)) o) (r : Req)
          → ((q : Ptr)
              → has q s.heap.planes ≡ true
              → ((restarted s.heap c).plane q).layer ≡ kept s.heap q)
          → Requested drm put puts
              (restarted s.heap c)
              (λ q. none)
              (idle (restarted s.heap c) (restarted s.heap c).planes)
              s.req
              r
          → Result drm fuel (restarted s.heap c) o flags w r s'.heap
          → Shown s'.heap r s'.req
          → Applied s s'

    apply_best-Shown :
        (h : Heap) (found : Search Req) (s' : Session Req)
        → apply_best drm fuel o h found ≡ (ok, s')
        → Shown s'.heap found.req s'.req
    unfolding apply_best
    apply_best-Shown h found s' run = elim (Option-cases (map_best h.planes found.best h)) [
      | inl e ↦ cc (rw (e, apply_best) at run)
      | inr (h', e) ↦
          let (r, asked, clean) =
            and_then-eq-ok (apply_current drm h' found.req) _ _ (rw (e, apply_best) at run) in
          subst (λ (m : Run (Session Req)). Shown m.1.heap found.req m.1.req) clean
            (Shown-Alike (Alike-mark_layers_clean h' o)
              (apply_current-Requested drm put puts h' found.req r asked))
    ]

    allocate-Shown :
        (h : Heap) (memory : Bool) (r : Req) (s' : Session Req)
        → allocate drm fuel o flags memory h r ≡ (ok, s')
        → Shown s'.heap r s'.req
    unfolding allocate
    allocate-Shown h false r s' run = cc
    allocate-Shown h true r s' run =
        let (found, searched, done) =
          and_then-eq-ok
            (output_choose_layers drm fuel h (task h o flags) h.planes first_step
              (first_search h r))
            _ _ run in
        subst (λ q. Shown s'.heap q s'.req)
          (choose-Improves drm fuel h (task h o flags) h.planes first_step (first_search h r) found
            searched).req
          (apply_best-Shown (with_commits h found.commits) found s' done)

    is_of-links : (h i : Heap) (a : Option Ptr) → links i ≡ links h → is_of i o a ≡ is_of h o a
    is_of-links h i none same = refl
    is_of-links h i (some l) same = ap (λ (k : Links). k.owner l == o) same

    kept-links : (h i : Heap) (q : Ptr) → links i ≡ links h → kept i q ≡ kept h q
    kept-links h i q same =
        let shown : (i.plane q).layer ≡ (h.plane q).layer = ap (λ (k : Links). k.shown q) same in
        rw (shown, is_of-links h i (h.plane q).layer same) refl

    compute_alloc-Applied :
        (s s' : Session Req) (v : IsReady (links s.heap) o)
        → IsSteady drm fuel s.heap (task s.heap o flags)
        → (c : Commits) (memory : Bool)
        → compute_alloc drm fuel o flags memory
            (record { heap = with_commits (update_layers_priority s.heap) c; req = s.req })
          ≡ (ok, s')
        → Applied s s'
    unfolding compute_alloc
    compute_alloc-Applied s s' v steady c memory run =
        let h = with_commits (update_layers_priority s.heap) c in
        let same = links-update_layers_priority s.heap in
        let w = unmapped-IsReady drm fuel o flags h (subst (λ k. IsReady k o) (sym same) v) in
        let (r, off, done) =
          and_then-eq-ok (disable_planes drm (unmapped h o) (unmapped h o).planes s.req) _ _ run in
        computed c w r
          (λ q here.
            plane-unmapped h o q
              (subst (λ ps. has q ps ≡ true) (sym (ap (λ (k : Links). k.planes) same)) here)
            ∙ kept-links s.heap h q same)
          (disable_planes-Requested drm put puts (unmapped h o) (unmapped h o).planes s.req r off)
          (allocate-Result drm fuel (unmapped h o) o flags w steady memory r s' done)
          (allocate-Shown (unmapped h o) memory r s' done)

    reused_lem :
        (s s' t : Session Req)
        → Attempt drm fuel o flags (record s { heap = update_layers_priority s.heap }) (ok, t)
        → record t { heap = log_reuse t.heap o } ≡ s'
        → Applied s s'
    reused_lem s s' t a done =
        let (c, tried) = a.tried in
        let i = update_layers_priority s.heap in
        let alike : Alike i s'.heap =
          subst (Alike i)
            (ap (λ h. log_reuse h o) (sym tried) ∙ ap (λ (u : Session Req). u.heap) done)
            (Alike-trans (Alike-with_commits i c) (Alike-log_reuse (with_commits i c) o)) in
        let req : t.req ≡ s'.req = ap (λ (u : Session Req). u.req) done in
        reused (a.unchanged refl)
          (λ q. ap (λ x. x.layer) (alike.plane q ∙ (Alike-update_layers_priority s.heap).plane q))
          (subst (Shown s'.heap s.req) req (
            Shown-Alike alike
              (apply_current-Requested drm put puts i s.req t.req (a.applied refl))))
          (subst (λ r. (test_commit drm fuel i.commits r flags).0 ≡ ok) req (a.accepted refl))

    after_reuse-Applied :
        (s s' : Session Req) (v : IsReady (links s.heap) o)
        → IsSteady drm fuel s.heap (task s.heap o flags)
        → (memory : Bool) → (m : Run (Session Req))
        → Attempt drm fuel o flags (record s { heap = update_layers_priority s.heap }) m
        → after_reuse drm fuel o flags memory m ≡ (ok, s')
        → Applied s s'
    unfolding after_reuse
    after_reuse-Applied s s' v steady memory (ok, t) a run =
        reused_lem s s' t a (ap (λ (m : Run (Session Req)). m.1) run)
    after_reuse-Applied s s' v steady memory (err e, t) a run =
        let (c, tried) = a.tried in
        let same : t
            ≡ record { heap = with_commits (update_layers_priority s.heap) c; req = s.req } =
          λ i. record { heap = tried i; req = a.restored refl i } in
        compute_alloc-Applied s s' v steady c memory
          (subst (λ u. compute_alloc drm fuel o flags memory u ≡ (ok, s')) same run)
    after_reuse-Applied s s' v steady memory (abort, t) a run = cc
    after_reuse-Applied s s' v steady memory (hang, t) a run = cc

    -- While libdrm has memory, the pointers agree and the kernel is steady, a call of
    -- `liftoff_output_apply` that succeeds does one of two things. Either it reuses the allocation:
    -- the layers of the output are the same ones and none has changed in a way that matters, the
    -- planes show what they showed, the request asks each plane for exactly that, and the kernel has
    -- accepted the request. Or it computes one: the layers of the output are taken off the planes,
    -- those that are idle then are asked to be off, the planes get a valid allocation of the greatest
    -- score, or nothing where no allocation is valid, and behind that the request asks each plane for
    -- exactly what it shows in the end.
    pub liftoff_output_apply-Applied :
        (s s' : Session Req) (v : IsReady (links s.heap) o)
        → IsSteady drm fuel s.heap (task s.heap o flags)
        → (memory : Bool) → liftoff_output_apply drm fuel o flags memory s ≡ (ok, s')
        → Applied s s'
    unfolding liftoff_output_apply
    liftoff_output_apply-Applied s s' v steady memory run =
        after_reuse-Applied s s' v steady memory _
          (reuse_previous_alloc-Attempt drm fuel o flags
            (record s { heap = update_layers_priority s.heap }))
          run
