-- ===== src/Tests/Life.antt =====
-- Making and destroying objects, from the sample device.
use libliftoff.Prelude.{
  ◌≡◌, ◌↔◌, true, false, [], ◌∷◌, Option, none, some, arith, has, if◌then◌else◌, ◌==◌,
}
use libliftoff.Name.{zpos, type_name}
use libliftoff.Errno.{einval}
use libliftoff.Kms.{Kms, given, lacking}
use libliftoff.Model.{Ptr, Heap}
use libliftoff.Links.{links, IsLinked, IsLive}
use libliftoff.Output.{output_needs_composition}
use libliftoff.Output.Composition.{IsLeft, output_needs_composition_iff}
use libliftoff.Plane.Life.{plane_create}
use libliftoff.Plane.Life.Linked.{IsWellFormed, plane_create-IsWellFormed}
use libliftoff.Device.Life.{device_destroy}
use libliftoff.Device.Life.WellFormed.{device_destroy_lem}
use libliftoff.Samples.{desk}
use libliftoff.Tests.Alloc.{desk-IsReady}

desk-IsLinked : IsLinked (links desk)
desk-IsLinked = desk-IsReady.linked

output_needs_composition_iff_example :
    (output_needs_composition desk 1 ≡ true) ↔ ((l : Ptr) × IsLeft desk (11 ∷ 12 ∷ 13 ∷ []) l)
output_needs_composition_iff_example = output_needs_composition_iff desk 1

desk-IsWellFormed : IsWellFormed desk
desk-IsWellFormed = record {
  linked = desk-IsLinked;
  unique = desk-IsReady.unique;
  ordered = (λ low q i. absurd (ground arith), (λ low q i. cc, tt));
}

-- An overlay plane 30 with zpos 2, and nothing else.
abbrev pub kms : Kms
kms = record {
  get_crtcs = given (42 ∷ []);
  get_planes = given (30 ∷ 31 ∷ []);
  get_plane =
      λ id. if id == 30 then given (record { id = 30; possible_crtcs = 1 }) else lacking einval;
  get_properties = λ id. given ((1, 0) ∷ (2, 2) ∷ []);
  get_property = λ id.
      if id == 1
      then given (record { name = type_name; id = 1 })
      else given (record { name = zpos; id = id });
}

plane_create-IsWellFormed_example : IsWellFormed (plane_create kms desk 30 (some 3) true).1
plane_create-IsWellFormed_example =
    plane_create-IsWellFormed desk desk-IsWellFormed kms 30 (some 3) true (λ p e. ground arith)

abbrev pub calloc : Heap → Option Ptr
calloc h = if has 3 h.planes then none else some 3

pub calloc-new : (h : Heap) (p : Ptr) → calloc h ≡ some p → has p h.planes ≡ false
calloc-new h p e = ground arith

device_destroy_lem_example :
    ((device_destroy desk).planes ≡ [])
    × ((l : Ptr)
        → IsLive (links (device_destroy desk)) l
        → ((device_destroy desk).layer l).plane ≡ none)
device_destroy_lem_example = device_destroy_lem desk desk-IsWellFormed
