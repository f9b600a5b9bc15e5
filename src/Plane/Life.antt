-- ===== src/Plane/Life.antt =====
-- `liftoff_plane_create` and `liftoff_plane_destroy` of plane.c, with the order of the list of planes.
pub mod Order
pub mod Linked
use libliftoff.Prelude.{
  ℕ, ◌%◌, ◌^◌, Bool, true, false, ◌&&◌, not, List, [], ◌∷◌, ◌++◌, Option, none, some, ◌==◌, ltb,
  if◌then◌else◌, without,
}
use libliftoff.Prelude.Int.{ℤ, pos, negsuc, to_int, leb_ℤ}
use libliftoff.Name.{name_eq, type_name, zpos}
use libliftoff.Errno.{Errno, einval, enomem, eexist}
use libliftoff.Kms.{Kms, Given, given, lacking, then_given, PlaneInfo, PropertyInfo}
use libliftoff.Model.{
  Ptr, Plane, PlaneProperty, Heap, set_layer, set_plane, overlay, primary, cursor, is_primary,
}

-- `guess_plane_zpos_from_type`
unfoldable pub guess_zpos : Heap → (id kind : ℕ) → ℤ
guess_zpos h id kind =
    if kind == primary
    then pos 0
    else if kind == cursor
    then pos 2
    else if kind == overlay
    then elim h.planes [ [] ↦ pos 0 | p ∷ ps ↦ if ltb id (h.plane p).id then negsuc 0 else pos 1 ]
    else pos 0

-- Where the loop over the properties of a plane stands.
pub record Scan : Type 0 where
  pub plane : Plane
  pub has_type : Bool
  pub has_zpos : Bool

-- One round of that loop, once libdrm has given the property.
unfoldable pub read_property : Scan → PropertyInfo → (value : ℕ) → Scan
read_property s info value =
    let plane = record s.plane {
      props = s.plane.props ++ record { name = info.name; id = info.id } ∷ [];
    } in
    if name_eq info.name type_name
    then record s { plane = record plane { kind = value % 2 ^ 32 }; has_type = true }
    else if name_eq info.name zpos
    then record s { plane = record plane { zpos = to_int value }; has_zpos = true }
    else record s { plane = plane }

-- The loop.
unfoldable pub scan : Kms → List (ℕ × ℕ) → Scan → Given Scan
unfolding read_property
scan kms [] s = given s
scan kms ((id, value) ∷ props) s =
    then_given (kms.get_property id) (λ info. scan kms props (read_property s info value))

-- A plane in zeroed memory, with its id and CRTCs.
abbrev pub new_plane : PlaneInfo → Plane
new_plane info = record {
  id = info.id;
  possible_crtcs = info.possible_crtcs;
  kind = 0;
  zpos = pos 0;
  props = [];
  layer = none;
}

-- What libdrm says of the plane; `memory` says whether `calloc` gives any for the properties.
unfoldable pub read_plane : Kms → (id : ℕ) → (memory : Bool) → Given Scan
unfolding scan
read_plane kms id memory = then_given (kms.get_plane id) (λ info.
    then_given (kms.get_properties id) (λ props.
      if memory
      then scan kms props (record { plane = new_plane info; has_type = false; has_zpos = false })
      else lacking enomem))

-- The loop that looks for the place of a plane that is not primary, with the insertion.
unfoldable pub insert_plane : (Ptr → Plane) → (p : Ptr) → (zpos : ℤ) → List Ptr → List Ptr
insert_plane f p z [] = p ∷ []
insert_plane f p z (q ∷ qs) =
    if not (is_primary (f q)) && leb_ℤ (f q).zpos z then p ∷ q ∷ qs else q ∷ insert_plane f p z qs

-- The end of `liftoff_plane_create`: the plane is put into the list.
unfoldable pub add_plane : Heap → Ptr → Plane → Heap
unfolding insert_plane
add_plane h p plane = record (set_plane h p plane) {
  device = record h.device {
    planes = if is_primary plane then p ∷ h.planes else insert_plane h.plane p plane.zpos h.planes;
  };
}

-- What `liftoff_plane_create` makes of what libdrm says.
unfoldable pub finish_plane : Heap → Ptr → Given Scan → Given Ptr × Heap
unfolding add_plane guess_zpos
finish_plane h p (lacking e) = (lacking e, h)
finish_plane h p (given s) =
    if s.has_type
    then (
      given p,
      add_plane h p (
          if s.has_zpos
          then s.plane
          else record s.plane { zpos = guess_zpos h s.plane.id s.plane.kind }),
    )
    else (lacking einval, h)

abbrev pub is_registered : (Ptr → Plane) → (id : ℕ) → List Ptr → Bool
is_registered f id [] = false
is_registered f id (q ∷ qs) = if (f q).id == id then true else is_registered f id qs

-- `liftoff_plane_create`; `memory` and `props_memory` are what the two `calloc` give.
unfoldable pub plane_create :
    Kms → Heap → (id : ℕ) → (memory : Option Ptr) → (props_memory : Bool) → Given Ptr × Heap
unfolding read_plane finish_plane
plane_create kms h id memory props_memory =
    if is_registered h.plane id h.planes then (lacking eexist, h) else elim memory [
      | none ↦ (lacking enomem, h)
      | some p ↦ finish_plane h p (read_plane kms id props_memory)
    ]

-- `plane->layer->plane = NULL`, if the plane shows a layer.
abbrev pub leave_layer : Heap → Option Ptr → Heap
leave_layer h none = h
leave_layer h (some l) = set_layer h l (record (h.layer l) { plane = none })

-- `liftoff_plane_destroy`
unfoldable pub plane_destroy : Heap → Ptr → Heap
plane_destroy h p = record (leave_layer h (h.plane p).layer) {
  device = record h.device { planes = without p h.planes };
}
