-- ===== src/Device/Life.antt =====
-- The functions of device.c that make and destroy a device and register its planes.
pub mod WellFormed
use libliftoff.Prelude.{ℕ, Bool, List, [], ◌∷◌, Option, if◌then◌else◌}
use libliftoff.Errno.{Outcome, ok, err, enomem}
use libliftoff.Kms.{Kms, Given, given, lacking, then_given}
use libliftoff.Model.{Ptr, Device, Heap}
use libliftoff.Plane.Life.{plane_create, plane_destroy}

-- A device in zeroed memory, with its CRTCs.
abbrev pub new_device : List ℕ → Device
new_device crtcs = record {
  planes = [];
  outputs = [];
  crtcs = crtcs;
  page_flip_counter = 0;
  commits = record { test_commit_counter = 0; clock = 0 };
}

-- `liftoff_device_create`; `memory` and `crtcs_memory` say whether `calloc` and `malloc` give any, and
-- `descriptor` is what `dup` returns.
unfoldable pub device_create :
    Kms → (memory : Bool) → (descriptor : Given ℕ) → (crtcs_memory : Bool) → Given Device
device_create kms memory descriptor crtcs_memory =
    if memory
    then then_given descriptor (λ fd.
      then_given kms.get_crtcs
        (λ crtcs. if crtcs_memory then given (new_device crtcs) else lacking enomem))
    else lacking enomem

-- The loop of `liftoff_device_destroy`.
unfoldable pub destroy_planes : List Ptr → Heap → Heap
destroy_planes [] h = h
destroy_planes (p ∷ ps) h = destroy_planes ps (plane_destroy h p)

-- `liftoff_device_destroy`
abbrev pub device_destroy : Heap → Heap
device_destroy h = destroy_planes h.planes h

module _ (kms : Kms) (calloc : Heap → Option Ptr) (memory : Bool) where
  -- The loop of `liftoff_device_register_all_planes`. `calloc` gives an address for a plane.
  unfoldable pub register_planes : List ℕ → Heap → Outcome × Heap
  register_planes [] h = (ok, h)
  register_planes (id ∷ ids) h =
      let (plane, h') = plane_create kms h id (calloc h) memory in
      let rest = register_planes ids h' in elim plane [ given p ↦ rest | lacking e ↦ (err e, h') ]

  -- `liftoff_device_register_all_planes`
  unfoldable pub register_all_planes : Heap → Outcome × Heap
  unfolding register_planes
  register_all_planes h = elim kms.get_planes [
    | given ids ↦ register_planes ids h
    | lacking e ↦ (err e, h)
  ]
