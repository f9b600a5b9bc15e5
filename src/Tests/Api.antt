-- ===== src/Tests/Api.antt =====
-- A client that sets up a device with a plane, an output and a layer, and calls
-- `liftoff_output_apply`.
use libliftoff.Prelude.{◌≡◌, refl, true, [], ◌∷◌, some, arith, has}
use libliftoff.Name.{name_eq, fb_id}
use libliftoff.Model.{Heap, set_layer}
use libliftoff.Layer.{set_property}
use libliftoff.Layer.Life.{layer_create}
use libliftoff.Output.{output_create, crtc_index_from}
use libliftoff.Links.{links}
use libliftoff.Layer.Life.Linked.{IsNew}
use libliftoff.Plane.Life.{plane_create, finish_plane, add_plane, read_plane, scan, read_property}
use libliftoff.Plane.Life.Linked.{IsWellFormed}
use libliftoff.Device.Life.{new_device}
use libliftoff.Alloc.Apply.{liftoff_output_apply}
use libliftoff.Api.{
  Reachable, start, after, create_plane, create_output, create_layer, set_layer_property, apply,
}
use libliftoff.Api.WellFormed.{Reachable-IsWellFormed}
use libliftoff.Samples.{picky, planes, layers, outputs}
use libliftoff.Tests.Life.{kms}

abbrev fresh : Heap
fresh = record { device = new_device (42 ∷ []); plane = planes; layer = layers; output = outputs }

abbrev with_output : Heap
with_output = (output_create fresh 42 (some 1)).1

abbrev with_plane : Heap
with_plane = (plane_create kms with_output 30 (some 3) true).1

abbrev with_layer : Heap
with_layer = (layer_create with_plane 1 (some 11)).1

abbrev with_fb : Heap
with_fb = set_layer with_layer 11 (set_property (with_layer.layer 11) fb_id 5 true).1

abbrev shown : Heap
shown = (liftoff_output_apply picky 3 1 0 true (record { heap = with_fb; req = [] })).1.heap

no_planes : with_output.planes ≡ []
unfolding output_create crtc_index_from
no_planes = refl

one_output : with_plane.outputs ≡ 1 ∷ []
unfolding output_create crtc_index_from plane_create finish_plane add_plane read_plane scan
    read_property name_eq
one_output = refl

no_layers : (with_plane.output 1).layers ≡ []
unfolding output_create crtc_index_from plane_create finish_plane add_plane read_plane scan
    read_property name_eq
no_layers = refl

no_layers-IsNew : IsNew (links with_plane) 11
no_layers-IsNew o i = ground (arith, one_output, no_layers)

still_one : has 1 with_fb.outputs ≡ true
unfolding layer_create
still_one = rw one_output refl

shown-Reachable : Reachable picky shown
shown-Reachable =
    after
      (after
        (after
          (after (after (start (42 ∷ []) planes layers outputs) (create_output 42 1 refl))
            (create_plane kms 30 (some 3) true (λ p e. rw no_planes refl)))
          (create_layer 1 11 (rw one_output refl) no_layers-IsNew))
        (set_layer_property 11 fb_id 5 true))
      (apply 3 1 0 true [] still_one)

Reachable-IsWellFormed_example : IsWellFormed shown
Reachable-IsWellFormed_example = Reachable-IsWellFormed picky shown-Reachable
