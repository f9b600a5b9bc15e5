-- ===== src/Tests/Search.antt =====
-- The search on a device with two planes, one output and three layers.
use libliftoff.Prelude.{ℕ, ◌≡◌, ◌≢◌, ◌⊎◌, refl, true, [], ◌∷◌, none, some, arith}
use libliftoff.Prelude.Int.{pos, ◌≤ℤ◌}
use libliftoff.Errno.{Run, ok, abort}
use libliftoff.Name.{name_eq}
use libliftoff.Model.{Heap}
use libliftoff.Layer.{find_prop, is_visible, intersects}
use libliftoff.Plane.{find_plane_prop, plane_apply, is_default}
use libliftoff.Device.{test_commit, test_flags, commit_loop}
use libliftoff.Alloc.Step.{Step, advance}
use libliftoff.Alloc.Compatible.{Task, check_layer_plane_compatible, check_alloc_valid}
use libliftoff.Alloc.Choose.{Search, is_candidate, is_eligible, output_choose_layers}
use libliftoff.Alloc.Choose.Reach.{Reach, done, skip, place}
use libliftoff.Alloc.Choose.Sound.{Improves, Reaches, choose-Improves}
use libliftoff.Alloc.Choose.Valid.{IsOwned, count_scored}
use libliftoff.Alloc.Choose.Optimal.{choose-Beats}
use libliftoff.Alloc.Choose.Placed.{IsAllocation, choose-IsAllocation}
use libliftoff.Alloc.Choose.Ordered.{InOrder, choose-InOrder}
use libliftoff.Alloc.Choose.Ending.{choose-ne-abort}
use libliftoff.Alloc.Choose.Success.{Responds, choose-ok}
use libliftoff.Alloc.Apply.{map_best, task, first_step, first_search, non_composition_layers_length}
use libliftoff.Alloc.Apply.Best.{IsMapped, map_best_lem}
use libliftoff.Alloc.Apply.Linked.{first-IsCounted}
use libliftoff.Samples.{Request, picky, desk}
use libliftoff.Tests.Alloc.{desk-IsReady, desk-steady}

abbrev desk_task : Task
desk_task = task desk 1 0

abbrev begin : Search Request
begin = first_search desk []

abbrev searched : Run (Search Request)
searched = output_choose_layers picky 3 desk desk_task (1 ∷ 2 ∷ []) first_step begin

searched-ok : searched ≡ (ok, searched.1)
unfolding output_choose_layers plane_apply find_plane_prop is_default name_eq is_candidate
    is_eligible is_visible intersects find_prop check_layer_plane_compatible test_commit
    check_alloc_valid non_composition_layers_length
searched-ok = refl

desk-IsOwned : IsOwned desk 1
desk-IsOwned l i = ground arith

-- The composition layer on the primary plane, and nothing on the other.
abbrev composed : Step
composed = advance desk (advance desk first_step 1 (some 11)) 2 none

composed-Reach : Reach picky 3 desk desk_task (1 ∷ 2 ∷ []) first_step [] composed
unfolding plane_apply find_plane_prop is_default name_eq is_candidate is_eligible is_visible
    intersects find_prop check_layer_plane_compatible commit_loop test_flags
composed-Reach = place 11 refl refl refl refl (0, refl) (skip done)

composed-valid : check_alloc_valid desk_task composed ≡ true
unfolding check_alloc_valid non_composition_layers_length is_visible find_prop name_eq
composed-valid = refl

choose-Beats_example : pos composed.score ≤ℤ searched.1.best_score
choose-Beats_example =
    choose-Beats picky 3 desk desk_task desk-steady (1 ∷ 2 ∷ []) first_step begin searched.1
      searched-ok refl composed composed-Reach composed-valid

choose-Improves_example :
    Improves picky 3 desk desk_task
      (Reaches picky 3 desk desk_task (1 ∷ 2 ∷ []) first_step [])
      begin
      searched.1
choose-Improves_example =
    choose-Improves picky 3 desk desk_task (1 ∷ 2 ∷ []) first_step begin searched.1 searched-ok

choose-IsAllocation_example :
    ((searched.1.best ≡ begin.best) × (searched.1.best_score ≡ begin.best_score))
    ⊎ (IsAllocation desk desk_task first_step (1 ∷ 2 ∷ []) searched.1.best
        × (searched.1.best_score ≡ pos (count_scored desk searched.1.best)))
choose-IsAllocation_example =
    choose-IsAllocation picky 3 desk desk_task desk-IsOwned (1 ∷ 2 ∷ []) first_step begin searched.1
      searched-ok refl (first-IsCounted desk 1)

choose-InOrder_example : (searched.1.best ≡ begin.best) ⊎ InOrder desk (1 ∷ 2 ∷ []) searched.1.best
choose-InOrder_example =
    choose-InOrder picky 3 desk desk_task desk-IsOwned (1 ∷ 2 ∷ []) first_step begin searched.1
      searched-ok refl

choose-ne-abort_example : searched.0 ≢ abort
choose-ne-abort_example =
    choose-ne-abort picky 3 desk desk_task desk-IsOwned (1 ∷ 2 ∷ []) first_step begin
      (first-IsCounted desk 1)

picky-Responds : (clock : ℕ) (r : Request) → Responds picky 3 clock r (test_flags desk_task.flags)
picky-Responds clock r = record {
  tries = 0;
  few = omega arith;
  again = λ i lt. absurd (omega arith);
  settled = ground arith;
  verdict = ground arith;
}

choose-ok_example : searched.0 ≡ ok
choose-ok_example =
    choose-ok picky (λ r o p v. (o, p, v) ∷ r) (λ r o p v. refl) 3 desk desk_task desk-IsOwned
      picky-Responds (1 ∷ 2 ∷ []) first_step begin (first-IsCounted desk 1)

map_best_lem_example :
    (h' : Heap) × (map_best (1 ∷ 2 ∷ []) (some 12 ∷ some 13 ∷ []) desk ≡ some h')
    × IsMapped desk (1 ∷ 2 ∷ []) (some 12 ∷ some 13 ∷ []) h'
map_best_lem_example =
    map_best_lem (1 ∷ 2 ∷ []) (some 12 ∷ some 13 ∷ []) desk desk-IsReady.unique (refl, (refl, tt))
      (
        refl,
        refl,
        refl,
        record { output = refl; listed = refl },
        (refl, refl, refl, record { output = refl; listed = refl }, tt),
      )
      desk-IsReady.linked
