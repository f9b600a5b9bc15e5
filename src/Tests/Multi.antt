-- ===== src/Tests/Multi.antt =====
-- Runs of the program of example/multi-output.c.
use libliftoff.Prelude.{
  ℕ, ◌≡◌, refl, true, List, [], ◌∷◌, Option, none, some, has, ◌==◌, if◌then◌else◌,
}
use libliftoff.Kms.{given}
use libliftoff.Model.{Ptr, Heap}
use libliftoff.Example.Modes.{
  Modes, Resources, Crtc, Checked, done, pick_crtc, search_crtc, first_driven,
}
use libliftoff.Example.Client.{
  open_device, dumb_fb_init, commit_request, new_placed_layer, apply_output,
}
use libliftoff.Example.World.{Env, Exit, returns, at_start}
use libliftoff.Example.Multi.{
  crtc_for, open_outputs, add_output_layer, add_output_layers, apply_outputs, multi_output_main,
}
use libliftoff.Output.{crtc_index_from, output_create, output_destroy}
use libliftoff.Layer.{
  mark_clean, find_prop, intersects, is_visible, set_property, update_priority, write_value,
}
use libliftoff.Plane.{find_plane_prop, is_default, plane_apply}
use libliftoff.Device.{test_commit}
use libliftoff.Plane.Life.{
  add_plane, finish_plane, guess_zpos, insert_plane, plane_create, plane_destroy, read_plane,
  read_property, scan,
}
use libliftoff.Device.Life.{destroy_planes, device_create, register_all_planes, register_planes}
use libliftoff.Alloc.Choose.{is_candidate, is_eligible, output_choose_layers}
use libliftoff.Alloc.Compatible.{check_alloc_valid, check_layer_plane_compatible}
use libliftoff.Alloc.Apply.{liftoff_output_apply, non_composition_layers_length, unmapped}
use libliftoff.Layer.Life.{layer_create, layer_destroy}
use libliftoff.Name.{name_eq}
use libliftoff.Prelude.Int.{to_int}
use libliftoff.Samples.{planes, layers, outputs}
use libliftoff.Tests.Example.{connector, modes, one_plane, world, free_one}

-- Two connectors: the first CRTC can drive that of the id 7 only, the second both.
abbrev two_connectors : Resources
two_connectors = record { connectors = 7 ∷ 8 ∷ []; crtcs = 42 ∷ 43 ∷ [] }

abbrev two_modes : Modes
two_modes = record modes {
  get_resources = some two_connectors;
  get_connector =
      λ k. some (record connector { id = k; encoders = (if k == 7 then 9 else 10) ∷ [] });
  get_encoder = λ e.
      if e == 9
      then some (record { crtc_id = 0; possible_crtcs = 3 })
      else if e == 10
      then some (record { crtc_id = 0; possible_crtcs = 2 })
      else none;
}

abbrev two_outputs : Heap → Option Ptr
two_outputs h = if has 1 h.outputs then if has 2 h.outputs then none else some 2 else some 1

abbrev addresses : List Ptr
addresses = 11 ∷ 12 ∷ 13 ∷ 14 ∷ 15 ∷ 16 ∷ 17 ∷ 18 ∷ []

abbrev wide_world : Env
wide_world = record world {
  kms = record one_plane { get_crtcs = given (42 ∷ 43 ∷ []) };
  modes = two_modes;
  output_calloc = λ t. two_outputs;
  layer_calloc = λ t. free_one addresses;
}

run_multi : Env → Exit
unfolding multi_output_main open_device open_outputs pick_crtc search_crtc first_driven
    device_create register_all_planes register_planes plane_create finish_plane add_plane
    insert_plane read_plane scan read_property guess_zpos name_eq output_create crtc_index_from
    dumb_fb_init add_output_layer add_output_layers new_placed_layer layer_create set_property
    find_prop write_value apply_output apply_outputs commit_request liftoff_output_apply unmapped
    plane_apply find_plane_prop is_default output_choose_layers is_candidate is_eligible
    update_priority is_visible intersects check_layer_plane_compatible test_commit check_alloc_valid
    non_composition_layers_length layer_destroy output_destroy destroy_planes plane_destroy
run_multi env = (multi_output_main env (at_start planes layers outputs)).0

-- With two outputs the program runs to its end.
multi_returns : run_multi wide_world ≡ returns 0
unfolding run_multi to_int mark_clean
multi_returns = refl

-- Two connectors whose encoders can use either CRTC get the same one.
abbrev either : Modes
either = record two_modes {
  get_encoder = λ e. if e == 8 then none else some (record { crtc_id = 0; possible_crtcs = 3 });
}

abbrev first_mode : Crtc
first_mode = record { crtc_id = 42; mode_valid = true; hdisplay = 100; vdisplay = 80 }

abbrev given_crtc : ℕ → Checked (Option Crtc)
given_crtc k =
    crtc_for (record wide_world { modes = either }) two_connectors (either.get_connector k)

same_crtc : (given_crtc 7 ≡ done (some first_mode)) × (given_crtc 8 ≡ done (some first_mode))
unfolding pick_crtc search_crtc first_driven
same_crtc = (refl, refl)
