-- ===== src/Alloc/Apply/Registry.antt =====
-- What `liftoff_output_apply` never changes: the lists of planes and outputs, all that a plane is but
-- for the layer it shows, and all that an output is but for two fields about its allocation.
use mathlib.Core.Path.{fun_ext}
use libliftoff.Prelude.{
  ℕ, suc, leb, ◌≡◌, refl, ◌∙◌, inl, inr, Bool, true, false, List, [], ◌∷◌, Option, none, some,
  arith, ◌==◌, if◌then◌else◌, ◌&&◌, Bool-cases, Option-cases,
}
use libliftoff.Errno.{Run, ok, err, abort, hang, and_then-cases}
use libliftoff.Drm.{Drm}
use libliftoff.Model.{Ptr, Layer, Plane, Output, Heap, set_layer, set_output}
use libliftoff.Layer.{mark_clean, update_priority}
use libliftoff.Alloc.Choose.{Search, is_free}
use libliftoff.Alloc.Realloc.{layer_needs_realloc}
use libliftoff.Alloc.Apply.{
  priority_period, log_no_reuse, with_commits, Session, over_layers, over_outputs,
  mark_layers_clean, update_layers_priority, unmap, map_best, any_layer, apply_current,
  test_current, reuse_previous_alloc, apply_best, allocate, unmapped, compute_alloc, after_reuse,
  liftoff_output_apply, disable_planes,
}
use libliftoff.Alloc.Apply.Mapping.{write_link}

-- A plane without the layer it shows.
abbrev pub bare : Plane → Plane
bare p = record p { layer = none }

-- An output without `layers_changed` and `alloc_reused_counter`.
abbrev pub settled : Output → Output
settled o = record o { layers_changed = false; alloc_reused_counter = 0 }

pub record Registry : Type 0 where
  pub planes : List Ptr
  pub outputs : List Ptr
  pub plane : Ptr → Plane
  pub output : Ptr → Output

abbrev pub registry : Heap → Registry
registry h = record {
  planes = h.planes;
  outputs = h.outputs;
  plane = λ p. bare (h.plane p);
  output = λ o. settled (h.output o);
}

registry-set_output :
    (h : Heap) (o : Ptr) (x : Output)
    → settled x ≡ settled (h.output o)
    → registry (set_output h o x) ≡ registry h
registry-set_output h o x same i = record {
  planes = h.planes;
  outputs = h.outputs;
  plane = λ p. bare (h.plane p);
  output =
      fun_ext {f = (registry (set_output h o x)).output} {g = (registry h).output}
        (λ q. ground arith) i;
}

registry-write_link :
    (h : Heap) (p l : Ptr) (a b : Option Ptr) → registry (write_link h p l a b) ≡ registry h
registry-write_link h p l a b i = record {
  planes = h.planes;
  outputs = h.outputs;
  plane =
      fun_ext {f = (registry (write_link h p l a b)).plane} {g = (registry h).plane}
        (λ q. ground arith) i;
  output = λ o. settled (h.output o);
}

registry-over_layers :
    (f : Layer → Layer) (ls : List Ptr) (h : Heap) → registry (over_layers f ls h) ≡ registry h
registry-over_layers f [] h = refl
registry-over_layers f (l ∷ ls) h = registry-over_layers f ls (set_layer h l (f (h.layer l)))

registry-over_outputs :
    (f : Layer → Layer) (os : List Ptr) (h : Heap) → registry (over_outputs f os h) ≡ registry h
registry-over_outputs f [] h = refl
registry-over_outputs f (o ∷ os) h =
    registry-over_outputs f os (over_layers f (h.output o).layers h)
    ∙ registry-over_layers f (h.output o).layers h

registry-mark_layers_clean : (h : Heap) (o : Ptr) → registry (mark_layers_clean h o) ≡ registry h
unfolding mark_layers_clean
registry-mark_layers_clean h o =
    registry-over_layers mark_clean (h.output o).layers
      (set_output h o (record (h.output o) { layers_changed = false }))
    ∙ registry-set_output h o (record (h.output o) { layers_changed = false }) refl

registry-update_layers_priority : (h : Heap) → registry (update_layers_priority h) ≡ registry h
unfolding update_layers_priority
registry-update_layers_priority h =
    let count = suc h.page_flip_counter in
    let elapsed = leb priority_period count in
    registry-over_outputs (λ l. update_priority l elapsed) h.outputs
      (record h { device = record h.device { page_flip_counter = if elapsed then 0 else count } })

registry-unmap : (o : Ptr) (ps : List Ptr) (h : Heap) → registry (unmap o ps h) ≡ registry h
unfolding unmap
registry-unmap o [] h = refl
registry-unmap o (p ∷ ps) h = elim (Option-cases (h.plane p).layer) [
  | inl e ↦ rw (e, unmap) (registry-unmap o ps h)
  | inr (l, e) ↦
      rw (e, unmap)
        (elim (Bool-cases ((h.layer l).output == o)) [
          | inl mine ↦
              rw (mine, unmap)
                (registry-unmap o ps (write_link h p l none none)
                  ∙ registry-write_link h p l none none)
          | inr other ↦ rw (other, unmap) (registry-unmap o ps h)
        ])
]

registry-map_best :
    (ps : List Ptr) (items : List (Option Ptr)) (h h' : Heap)
    → map_best ps items h ≡ some h'
    → registry h' ≡ registry h
unfolding map_best
registry-map_best [] items h h' run = ground arith
registry-map_best (p ∷ ps) [] h h' run = ground arith
registry-map_best (p ∷ ps) (none ∷ items) h h' run = registry-map_best ps items h h' run
registry-map_best (p ∷ ps) (some l ∷ items) h h' run =
    elim (Bool-cases (is_free (h.plane p).layer && is_free (h.layer l).plane)) [
      | inl e ↦
          registry-map_best ps items (write_link h p l (some l) (some p)) h'
            (rw (e, map_best) at run)
          ∙ registry-write_link h p l (some l) (some p)
      | inr e ↦ cc (rw (e, map_best) at run)
    ]

module _ (drm : Drm) (fuel : ℕ) (o : Ptr) (flags : ℕ) where
  -- The memory after a run has the registry that it had before.
  abbrev Keeps : Heap → Run (Session drm.Req) → Type 0
  Keeps h x = registry x.1.heap ≡ registry h

  apply_best-Keeps : (h : Heap) (s : Search drm.Req) → Keeps h (apply_best drm fuel o h s)
  unfolding apply_best
  apply_best-Keeps h s = elim (Option-cases (map_best h.planes s.best h)) [
    | inl e ↦ rw (e, apply_best)
    | inr (h', e) ↦
        let same = registry-map_best h.planes s.best h h' e in
        rw (e, apply_best)
          (and_then-cases (Keeps h) (apply_current drm h' s.req) _ _
            (λ q _. registry-mark_layers_clean h' o ∙ same) (λ q out. same))
  ]

  allocate-Keeps :
      (memory : Bool) (h : Heap) (r : drm.Req) → Keeps h (allocate drm fuel o flags memory h r)
  unfolding allocate
  allocate-Keeps false h r = refl
  allocate-Keeps true h r =
      and_then-cases (Keeps h) _ _ _ (λ s run. apply_best-Keeps (with_commits h s.commits) s)
        (λ s out. refl)

  compute_alloc-Keeps :
      (memory : Bool) (s : Session drm.Req) → Keeps s.heap (compute_alloc drm fuel o flags memory s)
  unfolding compute_alloc unmapped
  compute_alloc-Keeps memory s =
      let logged = log_no_reuse s.heap o in
      let same =
        registry-unmap o s.heap.planes
          (with_commits logged (record logged.commits { test_commit_counter = 0 }))
        ∙ registry-set_output s.heap o _ refl in
      and_then-cases (Keeps s.heap)
        (disable_planes drm (unmapped s.heap o) (unmapped s.heap o).planes s.req) _ _
        (λ r _. allocate-Keeps memory (unmapped s.heap o) r ∙ same) (λ r out. same)

  reuse-Keeps : (s : Session drm.Req) → Keeps s.heap (reuse_previous_alloc drm fuel o flags s)
  unfolding reuse_previous_alloc test_current
  reuse-Keeps s = elim (Bool-cases (s.heap.output o).layers_changed) [
    | inl e ↦ rw (e, reuse_previous_alloc)
    | inr e ↦
        rw (e, reuse_previous_alloc)
          (elim (Bool-cases
            (any_layer (λ l. layer_needs_realloc (s.heap.layer l)) (s.heap.output o).layers)) [
              | inl f ↦ rw f
              | inr f ↦ rw f (
                  and_then-cases (Keeps s.heap) (apply_current drm s.heap s.req) _ _ (λ r _. refl)
                    (λ r out. refl))
            ])
  ]

  after_reuse-Keeps :
      (memory : Bool) (x : Run (Session drm.Req))
      → Keeps x.1.heap (after_reuse drm fuel o flags memory x)
  unfolding after_reuse
  after_reuse-Keeps memory (ok, s) = registry-set_output s.heap o _ refl
  after_reuse-Keeps memory (err e, s) = compute_alloc-Keeps memory s
  after_reuse-Keeps memory (abort, s) = refl
  after_reuse-Keeps memory (hang, s) = refl

  -- However `liftoff_output_apply` ends, the lists of planes and of outputs, and all fields of the
  -- planes but their layer, are as before, and so are all fields of the outputs but `layers_changed`
  -- and the counter of allocations used again.
  pub registry-liftoff_output_apply :
      (memory : Bool) (s : Session drm.Req)
      → registry (liftoff_output_apply drm fuel o flags memory s).1.heap ≡ registry s.heap
  unfolding liftoff_output_apply
  registry-liftoff_output_apply memory s =
      let updated = record s { heap = update_layers_priority s.heap } in
      after_reuse-Keeps memory (reuse_previous_alloc drm fuel o flags updated)
      ∙ reuse-Keeps updated
      ∙ registry-update_layers_priority s.heap
