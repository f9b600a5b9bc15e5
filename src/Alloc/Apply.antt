-- ===== src/Alloc/Apply.antt =====
-- `liftoff_output_apply` of alloc.c and the functions that it calls beside the search.
pub mod Registry
pub mod Fresh
pub mod Request
pub mod Frame
pub mod Mapping
pub mod Best
pub mod Linked
pub mod Result
pub mod Restore
pub mod Alike
pub mod Asked
pub mod Applied
use libliftoff.Prelude.{
  ℕ, suc, Bool, true, false, ◌&&◌, not, List, [], ◌∷◌, Option, none, some, ◌==◌, leb, length,
  replicate, if◌then◌else◌, is_at,
}
use libliftoff.Prelude.Int.{negsuc, int_max}
use libliftoff.Errno.{einval, enomem, Run, ok, err, abort, hang, is_ok, ◌>>=◌, and_then}
use libliftoff.Drm.{Drm}
use libliftoff.Model.{Ptr, Layer, Heap, Commits, set_layer, set_plane, set_output}
use libliftoff.Layer.{is_visible, mark_clean, update_priority}
use libliftoff.Plane.{plane_apply}
use libliftoff.Device.{test_commit}
use libliftoff.Alloc.Step.{Step}
use libliftoff.Alloc.Compatible.{Task}
use libliftoff.Alloc.Choose.{Search, is_free, output_choose_layers}
use libliftoff.Alloc.Realloc.{layer_needs_realloc}

-- The memory and the request.
pub record Session (R : Type 0) : Type 0 where
  pub heap : Heap
  pub req : R

-- `LIFTOFF_PRIORITY_PERIOD`
abbrev pub priority_period : ℕ
priority_period = 60

abbrev pub over_layers : (Layer → Layer) → List Ptr → Heap → Heap
over_layers f [] h = h
over_layers f (l ∷ ls) h = over_layers f ls (set_layer h l (f (h.layer l)))

-- `mark_layers_clean`
unfoldable pub mark_layers_clean : Heap → Ptr → Heap
mark_layers_clean h o =
    over_layers mark_clean (h.output o).layers
      (set_output h o (record (h.output o) { layers_changed = false }))

abbrev pub over_outputs : (Layer → Layer) → List Ptr → Heap → Heap
over_outputs f [] h = h
over_outputs f (o ∷ os) h = over_outputs f os (over_layers f (h.output o).layers h)

-- `update_layers_priority`
unfoldable pub update_layers_priority : Heap → Heap
update_layers_priority h =
    let count = suc h.page_flip_counter in
    let elapsed = leb priority_period count in
    over_outputs (λ l. update_priority l elapsed) h.outputs
      (record h { device = record h.device { page_flip_counter = if elapsed then 0 else count } })

-- `log_reuse` and `log_no_reuse`: the counter that they keep.
abbrev pub log_reuse : Heap → Ptr → Heap
log_reuse h o =
    set_output h o
      (record (h.output o) { alloc_reused_counter = suc (h.output o).alloc_reused_counter })

abbrev pub log_no_reuse : Heap → Ptr → Heap
log_no_reuse h o = set_output h o (record (h.output o) { alloc_reused_counter = 0 })

abbrev pub count_layers : (Ptr → Bool) → List Ptr → ℕ
count_layers test [] = 0
count_layers test (l ∷ ls) = if test l then suc (count_layers test ls) else count_layers test ls

-- `non_composition_layers_length`
unfoldable pub non_composition_layers_length : Heap → Ptr → ℕ
non_composition_layers_length h o =
    count_layers (λ l. is_visible (h.layer l) && not (is_at l (h.output o).composition_layer))
      (h.output o).layers

-- The loop that unsets the mappings of the output.
unfoldable pub unmap : Ptr → List Ptr → Heap → Heap
unmap o [] h = h
unmap o (p ∷ ps) h = unmap o ps (elim (h.plane p).layer [
  | none ↦ h
  | some l ↦
      if (h.layer l).output == o
      then set_plane (set_layer h l (record (h.layer l) { plane = none })) p
          (record (h.plane p) { layer = none })
      else h
])

-- The loop that puts the best allocation into effect; `none` is a failed assertion.
unfoldable pub map_best : List Ptr → List (Option Ptr) → Heap → Option Heap
map_best [] best h = some h
map_best (p ∷ ps) [] h = some h
map_best (p ∷ ps) (none ∷ best) h = map_best ps best h
map_best (p ∷ ps) (some l ∷ best) h =
    elim (is_free (h.plane p).layer && is_free (h.layer l).plane) [
      | false ↦ none
      | true ↦ map_best ps best (
          set_layer (set_plane h p (record (h.plane p) { layer = some l })) l
            (record (h.layer l) { plane = some p }))
    ]

abbrev pub any_layer : (Ptr → Bool) → List Ptr → Bool
any_layer test [] = false
any_layer test (l ∷ ls) = if test l then true else any_layer test ls

-- What the search is given.
abbrev pub task : Heap → Ptr → (flags : ℕ) → Task
task h o flags = record {
  output = o;
  flags = flags;
  planes_len = length h.planes;
  has_composition_layer = not (is_free (h.output o).composition_layer);
  non_composition_layers_len = non_composition_layers_length h o;
}

abbrev pub first_step : Step
first_step = record {
  plane_idx = 0;
  alloc = [];
  score = 0;
  last_layer_zpos = int_max;
  composited = false;
}

abbrev pub first_search : {R : Type 0} → Heap → R → Search R
first_search h r = record {
  req = r;
  best = replicate (length h.planes) none;
  best_score = negsuc 0;
  commits = h.commits;
}

abbrev pub with_commits : Heap → Commits → Heap
with_commits h c = record h { device = record h.device { commits = c } }

-- From `log_no_reuse` to the loop that unsets the mappings.
unfoldable pub unmapped : Heap → Ptr → Heap
unfolding unmap
unmapped h o =
    let logged = log_no_reuse h o in
    let reset = with_commits logged (record logged.commits { test_commit_counter = 0 }) in
    unmap o reset.planes reset

module _ (drm : Drm) where
  open drm use {Req, get_cursor, set_cursor}

  -- `assert(ret != -EINVAL)`
  abbrev pub assert_not_einval : Run Req → Run Req
  assert_not_einval (err einval, r) = (abort, r)
  assert_not_einval (o, r) = (o, r)

  -- The loop of `apply_current`.
  unfoldable pub apply_planes : Heap → (cursor : ℕ) → List Ptr → Req → Run Req
  apply_planes h c [] r = (ok, r)
  apply_planes h c (p ∷ ps) r =
      and_then (assert_not_einval (plane_apply drm h p (h.plane p).layer r))
        (λ s o. (o, set_cursor s c)) (apply_planes h c ps)

  -- `apply_current`
  unfoldable pub apply_current : Heap → Req → Run Req
  unfolding apply_planes
  apply_current h r = apply_planes h (get_cursor r) h.planes r

  -- The loop that disables the planes that have no layer.
  unfoldable pub disable_planes : Heap → List Ptr → Req → Run Req
  disable_planes h [] r = (ok, r)
  disable_planes h (p ∷ ps) r =
      (if is_free (h.plane p).layer
        then assert_not_einval (plane_apply drm h p none r)
        else (ok, r))
      >>= disable_planes h ps

module _ (drm : Drm) (fuel : ℕ) where
  open drm use {Req, get_cursor, set_cursor}

  -- The end of `reuse_previous_alloc`: the test-only commit of the mappings as they are.
  unfoldable pub test_current : (flags : ℕ) → (cursor : ℕ) → Session Req → Run (Session Req)
  test_current flags c s =
      let (ret, commits) = test_commit drm fuel s.heap.commits s.req flags in
      (
        ret,
        record {
          heap = with_commits s.heap commits;
          req = if is_ok ret then s.req else set_cursor s.req c;
        },
      )

  -- `reuse_previous_alloc`
  unfoldable pub reuse_previous_alloc : Ptr → (flags : ℕ) → Session Req → Run (Session Req)
  unfolding apply_current test_current
  reuse_previous_alloc o flags s =
      if (s.heap.output o).layers_changed
      then (err einval, s)
      else if any_layer (λ l. layer_needs_realloc (s.heap.layer l)) (s.heap.output o).layers
      then (err einval, s)
      else and_then (apply_current drm s.heap s.req) (λ r e. (e, record s { req = r }))
          (λ r. test_current flags (get_cursor s.req) (record s { req = r }))

  -- From "Apply the best allocation" on.
  unfoldable pub apply_best : Ptr → Heap → Search Req → Run (Session Req)
  unfolding map_best apply_current mark_layers_clean
  apply_best o h found = elim (map_best h.planes found.best h) [
    | none ↦ (abort, record { heap = h; req = found.req })
    | some h' ↦
        and_then (apply_current drm h' found.req) (λ r e. (e, record { heap = h'; req = r }))
          (λ r. (ok, record { heap = mark_layers_clean h' o; req = r }))
  ]

  -- From the two calls of `malloc` on.
  unfoldable pub allocate : Ptr → (flags : ℕ) → (memory : Bool) → Heap → Req → Run (Session Req)
  unfolding apply_best
  allocate o flags memory h r =
      if memory
      then and_then
          (output_choose_layers drm fuel h (task h o flags) h.planes first_step (first_search h r))
          (λ s e. (e, record { heap = with_commits h s.commits; req = s.req }))
          (λ s. apply_best o (with_commits h s.commits) s)
      else (err enomem, record { heap = h; req = r })

  -- From `log_no_reuse` on: a new allocation.
  unfoldable pub compute_alloc :
      Ptr → (flags : ℕ) → (memory : Bool) → Session Req → Run (Session Req)
  unfolding disable_planes allocate
  compute_alloc o flags memory s =
      let h = unmapped s.heap o in
      and_then (disable_planes drm h h.planes s.req) (λ r e. (e, record { heap = h; req = r }))
        (allocate o flags memory h)

  -- `if (ret == 0)`: a new allocation is computed after any errno. A failed assertion ends the
  -- program.
  unfoldable pub after_reuse :
      Ptr → (flags : ℕ) → (memory : Bool) → Run (Session Req) → Run (Session Req)
  unfolding compute_alloc
  after_reuse o flags memory (ok, s) = (ok, record s { heap = log_reuse s.heap o })
  after_reuse o flags memory (err e, s) = compute_alloc o flags memory s
  after_reuse o flags memory (abort, s) = (abort, s)
  after_reuse o flags memory (hang, s) = (hang, s)

  -- `liftoff_output_apply`
  unfoldable pub liftoff_output_apply :
      Ptr → (flags : ℕ) → (memory : Bool) → Session Req → Run (Session Req)
  unfolding update_layers_priority reuse_previous_alloc after_reuse
  liftoff_output_apply o flags memory s =
      after_reuse o flags memory
        (reuse_previous_alloc o flags (record s { heap = update_layers_priority s.heap }))
