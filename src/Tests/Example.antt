-- ===== src/Tests/Example.antt =====
-- Runs of the programs of example/.
use mathlib.Core.Path.{subst}
use libliftoff.Prelude.{
  ◌+◌, ℕ, ◌*◌, ◌≡◌, refl, inl, inr, Bool, true, false, ◌||◌, List, [], ◌∷◌, Option, none, some,
  arith, has, ◌==◌, if◌then◌else◌, Bool-cases, length,
}
use libliftoff.Prelude.Int.{pos, to_int, add_int, bits}
use libliftoff.Name.{
  Name, name_eq, codes, type_name, fb_id, crtc_id, crtc_x, crtc_y, crtc_w, crtc_h,
}
use libliftoff.Kms.{Kms, given}
use libliftoff.Model.{Ptr, Heap}
use libliftoff.Links.{links}
use libliftoff.Layer.Life.Linked.{IsNew}
use libliftoff.Example.Modes.{
  Modes, Connector, Crtc, Resources, done, pick_connector, pick_crtc, search_crtc, first_driven,
}
use libliftoff.Example.Modes.Picked.{Picked, pick_crtc-Picked}
use libliftoff.Example.Client.{
  open_output, open_device, dumb_fb_init, commit_request, new_placed_layer, apply_output,
}
use libliftoff.Example.World.{Env, going, tick, Exit, returns, crashes, at_start, DumbFb}
use libliftoff.Example.Pixels.{composite, row, cut_width}
use libliftoff.Example.Pixels.Bounds.{IsMapped, composite-some, composite-none}
use libliftoff.Example.Simple.{simple_main}
use libliftoff.Output.{crtc_index_from, output_create, output_destroy}
use libliftoff.Layer.{
  mark_clean, find_prop, intersects, is_visible, set_property, update_priority, write_value,
}
use libliftoff.Plane.{find_plane_prop, is_default, plane_apply}
use libliftoff.Device.{test_commit}
use libliftoff.Plane.Life.{
  add_plane, finish_plane, guess_zpos, insert_plane, plane_create, plane_destroy, read_plane,
  read_property, scan,
}
use libliftoff.Device.Life.{destroy_planes, device_create, register_all_planes, register_planes}
use libliftoff.Alloc.Choose.{is_candidate, is_eligible, output_choose_layers}
use libliftoff.Alloc.Compatible.{check_alloc_valid, check_layer_plane_compatible}
use libliftoff.Alloc.Apply.{liftoff_output_apply, non_composition_layers_length, unmapped}
use libliftoff.Layer.Life.{layer_create, layer_destroy}
use libliftoff.Example.Dynamic.{Events, init_layer, no_layer}
use libliftoff.Samples.{picky, planes, layers, outputs}
use libliftoff.Tests.Life.{calloc}

-- Whether one of these outputs lists the layer.
abbrev anywhere : (Ptr → List Ptr) → List Ptr → Ptr → Bool
anywhere f [] l = false
anywhere f (o ∷ os) l = has l (f o) || anywhere f os l

nowhere :
    (f : Ptr → List Ptr) (os : List Ptr) (l o : Ptr)
    → anywhere f os l ≡ false
    → has o os ≡ true
    → has l (f o) ≡ false
nowhere f [] l o none_has here = cc
nowhere f (x ∷ os) l o none_has here = elim (Bool-cases (x == o)) [
  | inl e ↦ let same : x ≡ o = ground arith in subst (λ y. has l (f y) ≡ false) same (ground arith)
  | inr e ↦ nowhere f os l o (ground arith) (ground arith)
]

-- The first of some addresses that is not in use.
abbrev pub free_one : List Ptr → Heap → Option Ptr
free_one [] h = none
free_one (l ∷ ls) h =
    let later = free_one ls h in
    if anywhere (λ o. (h.output o).layers) h.outputs l then later else some l

pub free_one-IsNew :
    (ls : List Ptr) (h : Heap) (l : Ptr) → free_one ls h ≡ some l → IsNew (links h) l
free_one-IsNew [] h l e = cc
free_one-IsNew (x ∷ ls) h l e =
    elim (Bool-cases (anywhere (λ o. (h.output o).layers) h.outputs x)) [
      | inl f ↦ free_one-IsNew ls h l (rw f at e)
      | inr f ↦
          let same : x ≡ l = ground arith in
          λ o here.
            subst (λ y. has y (h.output o).layers ≡ false) same
              (nowhere (λ o. (h.output o).layers) h.outputs x o f here)
    ]

abbrev output_calloc : Heap → Option Ptr
output_calloc h = if has 1 h.outputs then none else some 1

-- A connector without a current encoder.
abbrev pub connector : Connector
connector = record { id = 7; is_connected = true; encoder_id = 8; encoders = 9 ∷ [] }

abbrev pub modes : Modes
modes = record {
  get_resources = some (record { connectors = 7 ∷ []; crtcs = 42 ∷ [] });
  get_connector = λ k. some connector;
  get_encoder = λ e. if e == 9 then some (record { crtc_id = 0; possible_crtcs = 1 }) else none;
  get_crtc = λ c. some (record { crtc_id = c; mode_valid = true; hdisplay = 100; vdisplay = 80 });
}

-- The name of a plane's property by its id.
abbrev property_name : ℕ → Name
property_name i =
    if i == 1
    then type_name
    else if i == 2
    then fb_id
    else if i == 3
    then crtc_id
    else if i == 4
    then crtc_x
    else if i == 5
    then crtc_y
    else if i == 6
    then crtc_w
    else if i == 7
    then crtc_h
    else if i == 8
    then codes "SRC_W"
    else codes "SRC_H"

abbrev property_ids : List (ℕ × ℕ)
property_ids = (1, 1) ∷ (2, 0) ∷ (3, 0) ∷ (4, 0) ∷ (5, 0) ∷ (6, 0) ∷ (7, 0) ∷ (8, 0) ∷ (9, 0) ∷ []

-- One primary plane.
abbrev pub one_plane : Kms
one_plane = record {
  get_crtcs = given (42 ∷ []);
  get_planes = given (30 ∷ []);
  get_plane = λ id. given (record { id = id; possible_crtcs = 1 });
  get_properties = λ id. given property_ids;
  get_property = λ id. given (record { name = property_name id; id = id });
}

abbrev pub world : Env
world = record {
  drm = picky;
  kms = one_plane;
  modes = modes;
  fuel = 3;
  opens = true;
  is_atomic = true;
  device_memory = true;
  descriptor = given 4;
  crtcs_memory = true;
  plane_calloc = calloc;
  plane_props_memory = true;
  output_calloc = λ t. output_calloc;
  layer_calloc = λ t. free_one (11 ∷ 12 ∷ 13 ∷ 14 ∷ 15 ∷ []);
  prop_memory = λ t h. true;
  alloc_memory = λ t h. true;
  create_dumb = λ t w h bpp. some (record { handle = 1; pitch = 4 * w; size = 4 * w * h });
  add_fb = λ t w h f handle stride. some (5 + t);
  request = [];
  commits = λ h r flags. true;
}

abbrev resources : Resources
resources = record { connectors = 7 ∷ []; crtcs = 42 ∷ [] }

pick_crtc-Picked_example :
    (r : Option Crtc) × (pick_crtc modes resources (some connector) ≡ done r)
    × Picked modes resources connector r
pick_crtc-Picked_example = pick_crtc-Picked modes resources connector

-- Framebuffers of two pixels a row, with one row.
abbrev small_fb : DumbFb
small_fb = record { format = 0; width = 2; height = 1; stride = 8; size = 8; handle = 1; id = 5 }

abbrev black : List ℕ
black = 0 ∷ 0 ∷ 0 ∷ 0 ∷ 0 ∷ 0 ∷ 0 ∷ 0 ∷ []

abbrev lit : List ℕ
lit = 1 ∷ 2 ∷ 3 ∷ 4 ∷ 5 ∷ 6 ∷ 7 ∷ 8 ∷ []

small_fb-IsMapped : (bytes : List ℕ) → length bytes ≡ 8 → IsMapped small_fb bytes
small_fb-IsMapped bytes e = record {
  rows = omega (arith, e);
  wide = omega arith;
  small = omega (arith, e);
}

-- One pixel hangs over to the right.
composite_one :
    composite small_fb small_fb (pos 1) (pos 0) black lit
    ≡ some (0 ∷ 0 ∷ 0 ∷ 0 ∷ 1 ∷ 2 ∷ 3 ∷ 4 ∷ [])
unfolding composite row cut_width add_int to_int bits
composite_one = refl

composite-some_example :
    (dst' : List ℕ) × (composite small_fb small_fb (pos 1) (pos 0) black lit ≡ some dst')
    × (length dst' ≡ length black)
composite-some_example =
    composite-some small_fb small_fb (pos 1) (pos 0) black lit (small_fb-IsMapped black refl)
      (small_fb-IsMapped lit refl) (omega arith)

row_at : row (pos 0) 0 ≡ some 0
unfolding row add_int to_int bits
row_at = refl

composite-none_example : composite small_fb small_fb (pos 3) (pos 0) black lit ≡ none
composite-none_example =
    composite-none small_fb small_fb (pos 3) (pos 0) black lit 0 (small_fb-IsMapped lit refl)
      (omega arith) (omega arith) row_at (omega arith) (omega arith) (omega arith) (omega arith)

run_simple : Env → Exit
unfolding simple_main open_device open_output pick_connector pick_crtc search_crtc first_driven
    device_create register_all_planes register_planes plane_create finish_plane add_plane
    insert_plane read_plane scan read_property guess_zpos name_eq output_create crtc_index_from
    dumb_fb_init new_placed_layer layer_create set_property find_prop write_value apply_output
    commit_request liftoff_output_apply unmapped plane_apply find_plane_prop is_default
    output_choose_layers is_candidate is_eligible update_priority is_visible intersects
    check_layer_plane_compatible test_commit check_alloc_valid non_composition_layers_length
    layer_destroy output_destroy destroy_planes plane_destroy
run_simple env = (simple_main env (at_start planes layers outputs)).0

-- The program runs to its end.
simple_returns : run_simple world ≡ returns 0
unfolding run_simple to_int mark_clean
simple_returns = refl

abbrev unplugged : Modes
unplugged = record modes { get_connector = λ k. some (record connector { is_connected = false }) }

-- Without a connected connector it follows a null pointer.
simple_crashes : run_simple (record world { modes = unplugged }) ≡ crashes
unfolding run_simple
simple_crashes = refl

-- One page flip in each round, and no event in the third.
abbrev events : Events
events = record { polls = λ i. if i == 2 then false else true; flips = λ i. 1 }

-- The second framebuffer fails where the first, asked for in the same words, does not.
abbrev second_fails : Env
second_fails = record world {
  create_dumb = λ t w h bpp. if t == 1 then none else world.create_dumb t w h bpp;
}

half_done :
    init_layer second_fails (some 1) 8 8 false 3 4 (at_start planes layers outputs)
    ≡ going
        (record no_layer { fb0 = 5; x = 3; y = 4 })
        (tick (tick (at_start planes layers outputs)))
unfolding init_layer dumb_fb_init
half_done = refl
