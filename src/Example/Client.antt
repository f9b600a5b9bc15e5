-- ===== src/Example/Client.antt =====
-- The steps that the programs of example/ take in the same words.
pub mod Sound
pub mod Within
pub mod Held
pub mod Opened
pub mod Shown
pub mod Steps
pub mod Ended
use libliftoff.Prelude.{
  ℕ, zero, suc, ◌+◌, ◌%◌, ◌*◌, ◌^◌, ◌||◌, Bool, true, false, ◌&&◌, has, List, [], ◌∷◌, Option, none,
  some, ◌==◌, if◌then◌else◌,
}
use libliftoff.Errno.{Outcome, ok, err, abort, hang}
use libliftoff.Name.{Name, codes, fb_id, crtc_x, crtc_y, crtc_w, crtc_h, zpos}
use libliftoff.Drm.{Drm}
use libliftoff.Kms.{Kms, Given, given, lacking}
use libliftoff.Model.{Ptr, Plane, Layer, Output, Device, Heap, set_layer}
use libliftoff.Layer.{set_property}
use libliftoff.Layer.Life.{layer_create, layer_destroy}
use libliftoff.Output.{output_create, output_destroy}
use libliftoff.Device.Life.{new_device, device_create, device_destroy, register_all_planes}
use libliftoff.Alloc.Apply.{Session, liftoff_output_apply}
use libliftoff.Example.Modes.{
  Modes, Connector, Crtc, Resources, Checked, stops, done, pick_connector, pick_crtc,
  disable_all_crtcs_except,
}
use libliftoff.Example.World.{
  Dumb, DumbFb, argb, xrgb, Env, Client, Exit, Prog, guarded, tick, is_live, follow, exit_of,
  colors, white, next_color, add_each, at_start, nonblock, source_size, placement, format_of,
  returns, crashes, hangs, going, stopped,
}

-- Whether a list is empty.
abbrev pub is_none : List Ptr → Bool
is_none [] = true
is_none (o ∷ os) = false

module _ (env : Env) where
  abbrev pub made_fb : (time width height format : ℕ) → Option Dumb → Option DumbFb
  made_fb time width height format none = none
  made_fb time width height format (some d) =
      elim (env.add_fb time width height format d.handle d.pitch) [
        | none ↦ none
        | some id ↦ some (record {
          format = 0;
          width = width;
          height = height;
          stride = d.pitch;
          size = d.size;
          handle = d.handle;
          id = id;
        })
      ]

  -- `dumb_fb_init`; `none` for false.
  unfoldable pub dumb_fb_init : (time format width height : ℕ) → Checked (Option DumbFb)
  dumb_fb_init time format width height =
      if format == argb || format == xrgb
      then done (made_fb time width height format (env.create_dumb time width height 32))
      else stops

  -- Calls of `liftoff_layer_set_property`, in order.
  abbrev pub set_properties : Ptr → List (Name × ℕ) → Client → Client
  set_properties l [] c = c
  set_properties l ((n, v) ∷ ps) c = set_properties l ps (record c {
    heap = set_layer c.heap l (set_property (c.heap.layer l) n v (env.prop_memory c.time c.heap)).1;
    time = suc c.time;
  })

  -- Properties of a layer, which is `NULL` if it could not be made.
  abbrev pub set_on : Option Ptr → List (Name × ℕ) → Client → Prog (Unit {0})
  set_on none props c = stopped crashes c
  set_on (some l) props c = guarded (is_live c.heap l) c (going tt (set_properties l props c))

  -- The properties of a layer that `liftoff_layer_create` has given.
  abbrev pub place_layer : List (Name × ℕ) → Client → Option Ptr × Heap → Prog (Option Ptr)
  place_layer props c (none, h) = stopped crashes (record c { heap = h })
  place_layer props c (some l, h) =
      going (some l) (set_properties l props (record c { heap = h; time = suc c.time }))

  -- A new layer of an output with these properties; a null pointer is followed where there is no
  -- output or no memory for the layer.
  unfoldable pub new_placed_layer : Option Ptr → List (Name × ℕ) → Client → Prog (Option Ptr)
  new_placed_layer none props c = stopped crashes c
  new_placed_layer (some o) props c =
      guarded (has o c.heap.outputs) c
        (place_layer props c (layer_create c.heap o (env.layer_calloc c.time c.heap)))

  -- A layer for a new framebuffer, filled with the color that `pick` picks; `NULL` without one.
  abbrev pub show_fb :
      Option Ptr
      → (pick : Client → ℕ × Client) → (props : ℕ → List (Name × ℕ)) → Client
      → Checked (Option DumbFb)
      → Prog (Option Ptr)
  show_fb o pick props c stops = stopped crashes c
  show_fb o pick props c (done none) = going none c
  show_fb o pick props c (done (some fb)) =
      let (color, c') = pick c in
      new_placed_layer o (props fb.id) (record c' { fills = (fb.id, color) ∷ c'.fills })

  -- The setting of zpos, from the layer at the index `i` on.
  abbrev pub set_zpos : (i : ℕ) → List (Option Ptr) → Client → Prog (Unit {0})
  set_zpos i [] c = going tt c
  set_zpos i (l ∷ ls) c = follow (set_on l ((zpos, i) ∷ []) c) (λ _. set_zpos (suc i) ls)

  abbrev pub after_apply : Outcome × Session env.drm.Req → Client → Prog env.drm.Req
  after_apply (ok, s) c = going s.req (record c { heap = s.heap })
  after_apply (err e, s) c = stopped (returns 1) (record c { heap = s.heap })
  after_apply (abort, s) c = stopped crashes (record c { heap = s.heap })
  after_apply (hang, s) c = stopped hangs (record c { heap = s.heap })

  -- `liftoff_output_apply` on a request.
  unfoldable pub apply_output : Option Ptr → (flags : ℕ) → env.drm.Req → Client → Prog env.drm.Req
  apply_output none flags r c = stopped crashes c
  apply_output (some o) flags r c = guarded (has o c.heap.outputs) c (
      after_apply
        (liftoff_output_apply env.drm env.fuel o flags (env.alloc_memory c.time c.heap)
          (record { heap = c.heap; req = r }))
        (tick c))

  -- `drmModeAtomicCommit`
  unfoldable pub commit_request : (flags : ℕ) → env.drm.Req → Client → Prog (Unit {0})
  commit_request flags r c =
      if env.commits c.heap r flags then going tt c else stopped (returns 1) c

  abbrev pub destroy_layer : Option Ptr → Client → Prog (Unit {0})
  destroy_layer none c = going tt c
  destroy_layer (some l) c =
      guarded (is_live c.heap l) c (going tt (record c { heap = layer_destroy c.heap (some l) }))

  -- `liftoff_layer_destroy` of each layer.
  abbrev pub destroy_layers : List (Option Ptr) → Client → Prog (Unit {0})
  destroy_layers [] c = going tt c
  destroy_layers (l ∷ ls) c = follow (destroy_layer l c) (λ _. destroy_layers ls)

  -- `liftoff_output_destroy`, whose layers are to be destroyed before.
  abbrev pub remove_output : Option Ptr → Client → Prog (Unit {0})
  remove_output none c = going tt c
  remove_output (some o) c =
      guarded (has o c.heap.outputs && is_none (c.heap.output o).layers) c
        (going tt (record c { heap = output_destroy c.heap (some o) }))

  -- `liftoff_device_destroy`, whose outputs are to be destroyed before.
  abbrev pub destroy_device : Client → Prog Exit
  destroy_device c =
      guarded (is_none c.heap.outputs) c
        (going (returns 0) (record c { heap = device_destroy c.heap }))

  -- The layers, the output and the device are destroyed.
  abbrev pub tear_down : List (Option Ptr) → Option Ptr → Client → Prog Exit
  tear_down ls o c =
      follow (destroy_layers ls c) (λ _ c. follow (remove_output o c) (λ _. destroy_device))

  abbrev pub on_device : Given Device → Client → Prog (Unit {0})
  on_device (lacking e) c = stopped (returns 1) c
  on_device (given d) c = going tt (record c {
    heap =
        (register_all_planes env.kms env.plane_calloc env.plane_props_memory
          (record c.heap { device = d })).1;
  })

  -- From `open` to `liftoff_device_register_all_planes`, whose result is ignored.
  unfoldable pub open_device : Client → Prog (Unit {0})
  open_device c =
      if env.opens
      then if env.is_atomic
        then on_device (device_create env.kms env.device_memory env.descriptor env.crtcs_memory) c
        else stopped (returns 1) c
      else stopped (returns 1) c

  -- From `disable_all_crtcs_except` on.
  abbrev pub on_crtc : Resources → Checked (Option Crtc) → Client → Prog (Option Ptr × Crtc)
  on_crtc res stops c = stopped crashes c
  on_crtc res (done none) c = stopped crashes c
  on_crtc res (done (some crtc)) c =
      let (o, h) = output_create c.heap crtc.crtc_id (env.output_calloc c.time c.heap) in
      let c' = record (tick c) {
        heap = h;
        disabled = disable_all_crtcs_except res.crtcs crtc.crtc_id;
      } in
      if crtc.mode_valid then going (o, crtc) c' else stopped (returns 1) c'

  abbrev pub on_connector :
      Resources → Checked (Option Connector) → Client → Prog (Option Ptr × Crtc)
  on_connector res stops c = stopped crashes c
  on_connector res (done k) c = on_crtc res (pick_crtc env.modes res k) c

  abbrev pub on_resources : Option Resources → Client → Prog (Option Ptr × Crtc)
  on_resources none c = stopped crashes c
  on_resources (some res) c = on_connector res (pick_connector env.modes res.connectors) c

  -- From `drmModeGetResources` on: a connector, a CRTC for it, and an output. The tests for `NULL`
  -- stand behind the first use, so a program that finds no connector or no CRTC crashes.
  unfoldable pub open_output : Client → Prog (Option Ptr × Crtc)
  open_output c = on_resources env.modes.get_resources c

  -- The start of a program, and what it does with its output.
  abbrev pub with_output : (Option Ptr × Crtc → Client → Prog Exit) → Client → Prog Exit
  with_output use_output c = follow (open_device c) (λ _ c. follow (open_output c) use_output)
