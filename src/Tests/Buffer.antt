-- ===== src/Tests/Buffer.antt =====
-- The search on a shared array that holds other layers at first.
use libliftoff.Prelude.{◌≡◌, refl, List, [], ◌∷◌, Option, none, some}
use libliftoff.Name.{name_eq}
use libliftoff.Model.{Ptr}
use libliftoff.Layer.{find_prop, is_visible, intersects}
use libliftoff.Plane.{find_plane_prop, plane_apply, is_default}
use libliftoff.Device.{test_commit}
use libliftoff.Alloc.Compatible.{check_layer_plane_compatible, check_alloc_valid}
use libliftoff.Alloc.Choose.{is_candidate, is_eligible, output_choose_layers}
use libliftoff.Alloc.Apply.{task, first_step, first_search, non_composition_layers_length}
use libliftoff.Alloc.Buffer.{Shared, Access, choose_shared, first_mark}
use libliftoff.Alloc.Buffer.Match.{Matches}
use libliftoff.Alloc.Buffer.Refines.{choose_shared-first_mark}
use libliftoff.Samples.{Request, picky, desk}

abbrev garbage : List (Option Ptr)
garbage = some 13 ∷ some 12 ∷ []

abbrev shared_run : Access (Shared Request)
shared_run =
    choose_shared picky 3 desk (task desk 1 0) desk.planes first_mark
      (record { search = first_search desk []; alloc = garbage })

abbrev best_of : Access (Shared Request) → List (Option Ptr)
best_of none = []
best_of (some (o, s)) = s.search.best

-- Layer 12 gets the primary plane and layer 13 the overlay.
shared_run_best : best_of shared_run ≡ some 12 ∷ some 13 ∷ []
unfolding plane_apply find_plane_prop is_default name_eq choose_shared is_candidate is_eligible
    is_visible intersects find_prop check_layer_plane_compatible test_commit check_alloc_valid
    non_composition_layers_length
shared_run_best = refl

choose_shared-first_mark_example : Matches 0 garbage shared_run (
    output_choose_layers picky 3 desk (task desk 1 0) desk.planes first_step (first_search desk []))
choose_shared-first_mark_example = choose_shared-first_mark picky 3 desk 1 0 [] garbage refl
