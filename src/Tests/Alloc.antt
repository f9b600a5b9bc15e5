-- ===== src/Tests/Alloc.antt =====
-- The allocation of planes.
use libliftoff.Prelude.{◌≡◌, refl, true, ℕ, [], ◌∷◌, none, some, arith, has, if◌then◌else◌}
use libliftoff.Errno.{Run, ok}
use libliftoff.Name.{name_eq}
use libliftoff.Drm.{Drm}
use libliftoff.Model.{Heap}
use libliftoff.Layer.{find_prop, update_priority, is_visible, intersects}
use libliftoff.Plane.{find_plane_prop, plane_apply, is_default}
use libliftoff.Device.{test_commit, test_flags}
use libliftoff.Device.Retry.{commit_loop-steady}
use libliftoff.Links.{links, IsLinked}
use libliftoff.Alloc.Compatible.{check_layer_plane_compatible, check_alloc_valid}
use libliftoff.Alloc.Choose.{is_candidate, is_eligible, output_choose_layers}
use libliftoff.Alloc.Choose.Optimal.{IsSteady}
use libliftoff.Alloc.Apply.{
  Session, allocate, unmapped, non_composition_layers_length, liftoff_output_apply, task,
  compute_alloc, disable_planes, reuse_previous_alloc,
}
use libliftoff.Alloc.Apply.Restore.{Attempt, reuse_previous_alloc-Attempt}
use libliftoff.Alloc.Apply.Applied.{Applied, liftoff_output_apply-Applied}
use libliftoff.Alloc.Apply.Registry.{registry, registry-liftoff_output_apply}
use libliftoff.Alloc.Apply.Fresh.{is_of, compute_alloc-Result}
use libliftoff.Alloc.Apply.Linked.{IsReady, unmapped-IsReady, liftoff_output_apply-IsLinked}
use libliftoff.Alloc.Apply.Result.{Result}
use libliftoff.Samples.{Request, picky, desk}

-- The call, open to computation.
run_apply : (drm : Drm) → Heap → drm.Req → Run (Session drm.Req)
unfolding liftoff_output_apply unmapped plane_apply find_plane_prop is_default name_eq
    output_choose_layers is_candidate is_eligible update_priority is_visible intersects find_prop
    check_layer_plane_compatible test_commit check_alloc_valid non_composition_layers_length
    allocate
run_apply drm h r = liftoff_output_apply drm 3 1 0 true (record { heap = h; req = r })

abbrev applied : Run (Session Request)
applied = run_apply picky desk []

-- The overlay shows layer 13 and the primary plane layer 12, without composition.
applied_shows :
    (applied.0 ≡ ok)
    × ((applied.1.heap.plane 1).layer ≡ some 12)
    × ((applied.1.heap.plane 2).layer ≡ some 13)
unfolding run_apply
applied_shows = (refl, refl, refl)

pub desk-IsReady : IsReady (links desk) 1
desk-IsReady = record {
  listed = refl;
  unique = (refl, (refl, tt));
  linked = record {
    shown_live = λ p l i e. absurd (ground arith);
    shown_mapped = λ p l i e. ground arith;
    mapped_plane = λ l p live e. ground arith;
    mapped_shown = λ l p live e. ground arith;
    owned = λ o l i j. ground arith;
    composition_listed = λ o c i e. ground arith;
  };
}

liftoff_output_apply-IsLinked_example :
    IsLinked
      (links (liftoff_output_apply picky 3 1 0 true (record { heap = desk; req = [] })).1.heap)
liftoff_output_apply-IsLinked_example =
    liftoff_output_apply-IsLinked picky 3 1 0 true (record { heap = desk; req = [] }) desk-IsReady

abbrev allocated_desk : Run (Session Request)
allocated_desk = allocate picky 3 1 0 true desk []

pub desk-steady : IsSteady picky 3 desk (task desk 1 0)
desk-steady c c' r = commit_loop-steady picky (λ d d' q f. refl) 3 c c' r (test_flags 0)

abbrev computed_desk : Run (Session Request)
computed_desk = compute_alloc picky 3 1 0 true (record { heap = desk; req = [] })

run_compute : computed_desk ≡ (ok, computed_desk.1)
unfolding compute_alloc unmapped plane_apply find_plane_prop is_default name_eq output_choose_layers
    is_candidate is_eligible is_visible intersects find_prop check_layer_plane_compatible
    test_commit check_alloc_valid non_composition_layers_length allocate
run_compute = refl

unmapped_steady : IsSteady picky 3 (unmapped desk 1) (task (unmapped desk 1) 1 0)
unmapped_steady c c' r = commit_loop-steady picky (λ d d' q f. refl) 3 c c' r (test_flags 0)

compute_alloc-Result_example :
    ((q : ℕ)
      → has q desk.planes ≡ true
      → ((unmapped desk 1).plane q).layer
        ≡ (if is_of desk 1 (desk.plane q).layer then none else (desk.plane q).layer))
    × ((r : Request) × (disable_planes picky (unmapped desk 1) (unmapped desk 1).planes []
          ≡ (ok, r))
        × Result picky 3
            (unmapped desk 1)
            1
            0
            (unmapped-IsReady picky 3 1 0 desk desk-IsReady)
            r
            computed_desk.1.heap)
compute_alloc-Result_example =
    compute_alloc-Result picky 3 1 0 (record { heap = desk; req = [] }) desk-IsReady unmapped_steady
      true computed_desk.1 run_compute

registry-liftoff_output_apply_example : registry applied.1.heap ≡ registry desk
unfolding run_apply
registry-liftoff_output_apply_example =
    registry-liftoff_output_apply picky 3 1 0 true (record { heap = desk; req = [] })

abbrev called : Run (Session Request)
called = liftoff_output_apply picky 3 1 0 true (record { heap = desk; req = [] })

run_called : called ≡ (ok, called.1)
unfolding run_apply
run_called = refl

liftoff_output_apply-Applied_example :
    Applied picky
      (λ r o p v. (o, p, v) ∷ r)
      (λ r o p v. refl)
      3
      1
      0
      (record { heap = desk; req = [] })
      called.1
liftoff_output_apply-Applied_example =
    liftoff_output_apply-Applied picky (λ r o p v. (o, p, v) ∷ r) (λ r o p v. refl) 3 1 0
      (record { heap = desk; req = [] }) called.1 desk-IsReady desk-steady true run_called

reuse_previous_alloc-Attempt_example :
    Attempt picky 3 1 0
      (record { heap = desk; req = [] })
      (reuse_previous_alloc picky 3 1 0 (record { heap = desk; req = [] }))
reuse_previous_alloc-Attempt_example =
    reuse_previous_alloc-Attempt picky 3 1 0 (record { heap = desk; req = [] })
