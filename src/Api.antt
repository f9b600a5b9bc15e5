-- ===== src/Api.antt =====
-- The public functions of include/libliftoff.h that change the memory of a device, as steps, and the
-- memories that a client can reach by them.
pub mod WellFormed
use libliftoff.Prelude.{ℕ, ◌≡◌, true, false, Bool, List, [], Option, some, has}
use libliftoff.Name.{Name}
use libliftoff.Drm.{Drm}
use libliftoff.Kms.{Kms}
use libliftoff.Model.{Ptr, Plane, Layer, Output, Heap, set_layer}
use libliftoff.Links.{links, IsLive}
use libliftoff.Layer.{set_property, set_fb_composited}
use libliftoff.Layer.Life.{layer_create, layer_destroy}
use libliftoff.Layer.Life.Linked.{IsNew}
use libliftoff.Output.{output_create, output_destroy, set_composition_layer}
use libliftoff.Plane.Life.{plane_create, plane_destroy}
use libliftoff.Device.Life.{new_device}
use libliftoff.Alloc.Apply.{liftoff_output_apply}

module _ (drm : Drm) where
  -- One call. The client hands over objects that are there, destroys an output after its layers, and
  -- `calloc` gives no address that is in use.
  pub data Call (h : Heap) : Heap → Type 0 where
    create_plane :
        (kms : Kms) (id : ℕ) (memory : Option Ptr) (props_memory : Bool)
        → ((p : Ptr) → memory ≡ some p → has p h.planes ≡ false)
        → Call h (plane_create kms h id memory props_memory).1
    destroy_plane : (p : Ptr) → has p h.planes ≡ true → Call h (plane_destroy h p)
    create_output :
        (crtc : ℕ) (o : Ptr) → has o h.outputs ≡ false → Call h (output_create h crtc (some o)).1
    destroy_output : (o : Ptr) → (h.output o).layers ≡ [] → Call h (output_destroy h (some o))
    choose_composition_layer :
        (l : Ptr) (h' : Heap)
        → IsLive (links h) l
        → set_composition_layer h (h.layer l).output l ≡ some h'
        → Call h h'
    create_layer :
        (o l : Ptr)
        → has o h.outputs ≡ true
        → IsNew (links h) l
        → Call h (layer_create h o (some l)).1
    destroy_layer : (l : Ptr) → IsLive (links h) l → Call h (layer_destroy h (some l))
    set_layer_property :
        (l : Ptr) (n : Name) (v : ℕ) (memory : Bool)
        → Call h (set_layer h l (set_property (h.layer l) n v memory).1)
    force_composition :
        (l : Ptr) (memory : Bool) → Call h (set_layer h l (set_fb_composited (h.layer l) memory))
    apply :
        (fuel : ℕ) (o : Ptr) (flags : ℕ) (memory : Bool) (r : drm.Req)
        → has o h.outputs ≡ true
        → Call h
            (liftoff_output_apply drm fuel o flags memory (record { heap = h; req = r })).1.heap

  -- From a new device, whatever else is in the memory, by any number of calls.
  pub data Reachable : Heap → Type 0 where
    start :
        (crtcs : List ℕ) (plane : Ptr → Plane) (layer : Ptr → Layer) (output : Ptr → Output)
        → Reachable
            (record { device = new_device crtcs; plane = plane; layer = layer; output = output })
    after : {h h' : Heap} → Reachable h → Call h h' → Reachable h'
