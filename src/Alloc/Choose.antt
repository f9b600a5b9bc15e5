-- ===== src/Alloc/Choose.antt =====
-- `output_choose_layers` of alloc.c.
pub mod Reach
pub mod Sound
pub mod Optimal
pub mod Valid
pub mod Ending
pub mod Success
pub mod Placed
pub mod Ordered
use Prim.Native.Nat.{bit_and}
use libliftoff.Prelude.{
  ℕ, ◌+◌, ◌-◌, ◌^◌, Bool, true, false, ◌&&◌, not, List, [], ◌∷◌, Option, none, some, ◌==◌,
  if◌then◌else◌,
}
use libliftoff.Prelude.Int.{ℤ, pos, ltb_ℤ, leb_ℤ}
use libliftoff.Errno.{Errno, einval, erange, enospc, Outcome, Run, ok, err, abort, hang, ◌>>=◌}
use libliftoff.Drm.{Drm}
use libliftoff.Model.{Ptr, Plane, Heap, Commits}
use libliftoff.Layer.{is_visible}
use libliftoff.Plane.{plane_apply}
use libliftoff.Device.{test_commit}
use libliftoff.Alloc.Step.{Step, plane_step_init_next}
use libliftoff.Alloc.Compatible.{Task, check_layer_plane_compatible, check_alloc_valid}

-- What changes during the search: the fields `req`, `best` and `best_score` of
-- `struct alloc_result`, and the counts of commits.
pub record Search (R : Type 0) : Type 0 where
  pub req : R
  pub best : List (Option Ptr)
  pub best_score : ℤ
  pub commits : Commits

-- `(plane->possible_crtcs & (1 << output->crtc_index)) != 0`
abbrev pub can_scan_out : Plane → (crtc_index : ℕ) → Bool
can_scan_out p i = not (bit_and p.possible_crtcs (2 ^ i) == 0)

abbrev pub is_free : Option Ptr → Bool
is_free none = true
is_free (some _) = false

-- The planes that the search may use.
unfoldable pub is_candidate : Heap → (output : Ptr) → (p : Ptr) → Bool
is_candidate h o p = is_free (h.plane p).layer && can_scan_out (h.plane p) (h.output o).crtc_index

-- The layers that the loop does not pass over.
unfoldable pub is_eligible : Heap → Step → (l p : Ptr) → Bool
is_eligible h step l p =
    is_free (h.layer l).plane
    && not (h.layer l).force_composition
    && is_visible (h.layer l)
    && check_layer_plane_compatible h step l p

-- The errors of a test-only commit that say that the configuration is not supported.
abbrev pub is_unsupported : Errno → Bool
is_unsupported einval = true
is_unsupported erange = true
is_unsupported enospc = true
is_unsupported _ = false

-- `drmModeAtomicSetCursor(result->req, cursor)`
abbrev pub rewind : (drm : Drm) → ℕ → Search drm.Req → Search drm.Req
rewind drm c s = record s { req = drm.set_cursor s.req c }

module _ (drm : Drm) (fuel : ℕ) (h : Heap) (t : Task) where
  open drm use {Req, get_cursor}

  -- The allocation is finished: keep it if it is better.
  unfoldable pub finish : Step → Search Req → Run (Search Req)
  finish step s =
      if ltb_ℤ s.best_score (pos step.score) && check_alloc_valid t step
      then (ok, record s { best = step.alloc; best_score = pos step.score })
      else (ok, s)

  -- The next step, and the search from it. `rest` is the search over the planes that are left.
  unfoldable pub descend :
      (rest : Step → Search Req → Run (Search Req))
      → Ptr
      → Step
      → Option Ptr
      → Search Req
      → Run (Search Req)
  unfolding plane_step_init_next
  descend rest p step layer s = elim (plane_step_init_next h step p layer) [
    | none ↦ (abort, s)
    | some next ↦ rest next s
  ]

  -- What follows the test-only commit of a layer on a plane.
  unfoldable pub after_commit :
      (rest : Step → Search Req → Run (Search Req))
      → (cursor : ℕ) → Ptr
      → Step
      → Ptr
      → Outcome
      → Search Req
      → Run (Search Req)
  unfolding descend
  after_commit rest c p step l ok s = descend rest p step (some l) s >>= λ s'. (ok, rewind drm c s')
  after_commit rest c p step l (err e) s =
      if is_unsupported e then (ok, rewind drm c s) else (err e, s)
  after_commit rest c p step l abort s = (abort, s)
  after_commit rest c p step l hang s = (hang, s)

  -- The test-only commit of a layer on a plane, once its properties are in the request.
  unfoldable pub try_commit :
      (rest : Step → Search Req → Run (Search Req))
      → (cursor : ℕ) → Ptr
      → Step
      → Ptr
      → Search Req
      → Run (Search Req)
  unfolding after_commit
  try_commit rest c p step l s =
      let (ret, commits) = test_commit drm fuel s.commits s.req t.flags in
      after_commit rest c p step l ret (record s { commits = commits })

  -- What follows `plane_apply` in the loop.
  unfoldable pub after_apply :
      (rest : Step → Search Req → Run (Search Req))
      → (cursor : ℕ) → Ptr
      → Step
      → Ptr
      → Outcome
      → Search Req
      → Run (Search Req)
  unfolding try_commit
  after_apply rest c p step l ok s = try_commit rest c p step l s
  after_apply rest c p step l (err einval) s = (ok, s)
  after_apply rest c p step l e s = (e, s)

  -- One round of the loop over the layers.
  unfoldable pub visit :
      (rest : Step → Search Req → Run (Search Req))
      → (cursor : ℕ) → Ptr
      → Step
      → Ptr
      → Search Req
      → Run (Search Req)
  unfolding after_apply
  visit rest c p step l s = elim (is_eligible h step l p) [
    | false ↦ (ok, s)
    | true ↦
        let (ret, req) = plane_apply drm h p (some l) s.req in
        after_apply rest c p step l ret (record s { req = req })
  ]

  -- The loop over the layers.
  unfoldable pub visit_all :
      (rest : Step → Search Req → Run (Search Req))
      → (cursor : ℕ) → Ptr
      → Step
      → List Ptr
      → Search Req
      → Run (Search Req)
  unfolding visit
  visit_all rest c p step [] s = (ok, s)
  visit_all rest c p step (l ∷ ls) s = visit rest c p step l s >>= visit_all rest c p step ls

  -- From the label `skip`: try not to use the plane.
  unfoldable pub skip_plane :
      (rest : Step → Search Req → Run (Search Req))
      → (cursor : ℕ) → Ptr
      → Step
      → Search Req
      → Run (Search Req)
  unfolding descend
  skip_plane rest c p step s = descend rest p step none s >>= λ s'. (ok, rewind drm c s')

  -- A node of the search, at a plane.
  unfoldable pub node :
      (rest : Step → Search Req → Run (Search Req)) → Ptr → Step → Search Req → Run (Search Req)
  unfolding visit_all skip_plane
  node rest p step s =
      let c = get_cursor s.req in
      elim (leb_ℤ (pos (step.score + (t.planes_len - step.plane_idx))) s.best_score) [
        | true ↦ (ok, s)
        | false ↦
            (if is_candidate h t.output p
              then visit_all rest c p step (h.output t.output).layers s
              else (ok, s))
            >>= skip_plane rest c p step
      ]

  -- `output_choose_layers`, over the planes that are left.
  unfoldable pub output_choose_layers : List Ptr → Step → Search Req → Run (Search Req)
  unfolding finish node
  output_choose_layers [] step s = finish step s
  output_choose_layers (p ∷ ps) step s = node (output_choose_layers ps) p step s
