-- ===== src/Model.antt =====
-- The structures of include/private.h. An object is known by its address, and the memory holds an
-- object at each address. The intrusive lists are lists of addresses, in list order.
use libliftoff.Prelude.{ℕ, Bool, Option, List, ◌==◌, if◌then◌else◌}
use libliftoff.Prelude.Int.{ℤ}
use libliftoff.Name.{Name}

abbrev pub Ptr : Type 0
Ptr = ℕ

-- `struct liftoff_layer_property`
pub record LayerProperty : Type 0 where
  pub name : Name
  pub value : ℕ
  pub prev_value : ℕ

-- `struct liftoff_layer`
pub record Layer : Type 0 where
  pub output : Ptr
  pub props : List LayerProperty
  pub force_composition : Bool
  pub plane : Option Ptr
  pub current_priority : ℕ
  pub pending_priority : ℕ
  pub changed : Bool

-- `struct liftoff_plane_property`
pub record PlaneProperty : Type 0 where
  pub name : Name
  pub id : ℕ

-- `struct liftoff_plane`
pub record Plane : Type 0 where
  pub id : ℕ
  pub possible_crtcs : ℕ
  pub kind : ℕ
  pub zpos : ℤ
  pub props : List PlaneProperty
  pub layer : Option Ptr

-- `struct liftoff_output`
pub record Output : Type 0 where
  pub crtc_id : ℕ
  pub crtc_index : ℕ
  pub composition_layer : Option Ptr
  pub layers : List Ptr
  pub layers_changed : Bool
  pub alloc_reused_counter : ℕ

-- `test_commit_counter` of `struct liftoff_device`, and how many commits the kernel was asked for.
pub record Commits : Type 0 where
  pub test_commit_counter : ℕ
  pub clock : ℕ

-- `struct liftoff_device`
pub record Device : Type 0 where
  pub planes : List Ptr
  pub outputs : List Ptr
  pub crtcs : List ℕ
  pub page_flip_counter : ℕ
  pub commits : Commits

-- The memory of a device: its struct, and those of its planes, layers and outputs.
pub record Heap : Type 0 where
  pub device : Device
  pub open device use *
  pub plane : Ptr → Plane
  pub layer : Ptr → Layer
  pub output : Ptr → Output

module _ {A : Type 0} where
  -- A write through a pointer.
  abbrev pub update : (Ptr → A) → Ptr → A → Ptr → A
  update f p a q = if p == q then a else f q

-- `DRM_PLANE_TYPE_OVERLAY`, `DRM_PLANE_TYPE_PRIMARY` and `DRM_PLANE_TYPE_CURSOR`.
abbrev pub overlay : ℕ
overlay = 0

abbrev pub primary : ℕ
primary = 1

abbrev pub cursor : ℕ
cursor = 2

abbrev pub is_primary : Plane → Bool
is_primary p = p.kind == primary

-- Writes to one object.
abbrev pub set_layer : Heap → Ptr → Layer → Heap
set_layer h p l = record h { layer = update h.layer p l }

abbrev pub set_plane : Heap → Ptr → Plane → Heap
set_plane h p x = record h { plane = update h.plane p x }

abbrev pub set_output : Heap → Ptr → Output → Heap
set_output h p o = record h { output = update h.output p o }
