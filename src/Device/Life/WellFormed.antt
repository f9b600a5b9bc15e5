-- ===== src/Device/Life/WellFormed.antt =====
-- The memory of a device while its planes are registered, and after they are gone.
use mathlib.Core.Path.{subst}
use libliftoff.Prelude.{
  ℕ, ◌≡◌, refl, ap, ◌∙◌, inl, inr, Bool, false, List, [], ◌∷◌, Option, none, some, arith, has,
  without, Unique, ==_refl, Option-cases,
}
use libliftoff.Errno.{Outcome, err}
use libliftoff.Kms.{Kms, Given, given, lacking}
use libliftoff.Model.{Ptr, Heap}
use libliftoff.Links.{links, IsLive}
use libliftoff.Plane.Life.{plane_destroy}
use libliftoff.Plane.Life.Linked.{
  IsWellFormed, plane_create-IsWellFormed, plane_destroy-IsWellFormed,
}
use libliftoff.Device.Life.{destroy_planes, device_destroy, register_planes, register_all_planes}

module _ (kms : Kms) (calloc : Heap → Option Ptr) (memory : Bool)
    (new : (h : Heap) (p : Ptr) → calloc h ≡ some p → has p h.planes ≡ false) where
  next_plane-IsWellFormed :
      (a : Given Ptr) (rest : Outcome × Heap) (h : Heap)
      → IsWellFormed h
      → IsWellFormed rest.1
      → IsWellFormed (elim a as (λ _. Outcome × Heap) [ given p ↦ rest | lacking e ↦ (err e, h) ]).1
  next_plane-IsWellFormed (given p) rest h v w = w
  next_plane-IsWellFormed (lacking e) rest h v w = v

  register_planes-IsWellFormed :
      (ids : List ℕ) (h : Heap)
      → IsWellFormed h
      → IsWellFormed (register_planes kms calloc memory ids h).1
  unfolding register_planes
  register_planes-IsWellFormed [] h v = v
  register_planes-IsWellFormed (id ∷ ids) h v =
      let w = plane_create-IsWellFormed h v kms id (calloc h) memory (new h) in
      next_plane-IsWellFormed _ _ _ w (register_planes-IsWellFormed ids _ w)

  registered :
      (a : Given (List ℕ)) (h : Heap)
      → IsWellFormed h
      → IsWellFormed
          (elim a as (λ _. Outcome × Heap) [
            | given ids ↦ register_planes kms calloc memory ids h
            | lacking e ↦ (err e, h)
          ]).1
  registered (given ids) h v = register_planes-IsWellFormed ids h v
  registered (lacking e) h v = v

  -- If the memory is well formed and `calloc` gives no address of a plane of the device, registering
  -- all planes leaves it well formed, whichever call fails.
  pub register_all_planes-IsWellFormed :
      (h : Heap) → IsWellFormed h → IsWellFormed (register_all_planes kms calloc memory h).1
  unfolding register_all_planes
  register_all_planes-IsWellFormed h v = registered kms.get_planes h v

pub planes-plane_destroy : (h : Heap) (p : Ptr) → (plane_destroy h p).planes ≡ without p h.planes
unfolding plane_destroy
planes-plane_destroy h p = refl

without-new : (p : Ptr) (ps : List Ptr) → has p ps ≡ false → without p ps ≡ ps
without-new p [] new = refl
without-new p (q ∷ ps) new = ground (arith, without-new p ps)

pub planes_left : (p : Ptr) (ps qs : List Ptr) → qs ≡ p ∷ ps → has p ps ≡ false → without p qs ≡ ps
planes_left p ps qs e new = ap (without p) e ∙ rw (==_refl p) (without-new p ps new)

destroy_planes-IsWellFormed :
    (ps : List Ptr) (h : Heap)
    → h.planes ≡ ps
    → IsWellFormed h
    → IsWellFormed (destroy_planes ps h) × ((destroy_planes ps h).planes ≡ [])
unfolding destroy_planes
destroy_planes-IsWellFormed [] h e v = (v, e)
destroy_planes-IsWellFormed (p ∷ ps) h e v =
    let once = subst Unique e v.unique in
    destroy_planes-IsWellFormed ps (plane_destroy h p)
      (planes-plane_destroy h p ∙ planes_left p ps h.planes e once.0)
      (plane_destroy-IsWellFormed h v p (rw e (ground arith)))

unmapped_of_no_planes :
    (h : Heap) (l : Ptr)
    → IsWellFormed h
    → h.planes ≡ []
    → IsLive (links h) l
    → (h.layer l).plane ≡ none
unmapped_of_no_planes h l v e live = elim (Option-cases (h.layer l).plane) [
  | inl u ↦ u
  | inr (p, u) ↦ absurd (ground (arith, v.linked.mapped_plane l p live u))
]

-- In memory that is well formed, destroying the device leaves no plane, and no layer that an output
-- of the device lists goes on pointing at one.
pub device_destroy_lem :
    (h : Heap)
    → IsWellFormed h
    → ((device_destroy h).planes ≡ [])
      × ((l : Ptr)
          → IsLive (links (device_destroy h)) l
          → ((device_destroy h).layer l).plane ≡ none)
device_destroy_lem h v =
    let (w, e) = destroy_planes-IsWellFormed h.planes h refl v in
    (e, λ l live. unmapped_of_no_planes (device_destroy h) l w e live)
