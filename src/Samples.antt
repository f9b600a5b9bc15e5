-- ===== src/Samples.antt =====
-- Concrete inputs for the tests: a request as a list with the newest property first, a kernel that
-- refuses one framebuffer on one plane, and a device with two planes, one output and two layers.
use libliftoff.Prelude.{
  ℕ, suc, ◌+◌, ◌≤◌, ◌≡◌, refl, Bool, true, false, ◌&&◌, ◌||◌, List, [], ◌∷◌, Option, none, some,
  arith, length, leb, ◌==◌, if◌then◌else◌,
}
use libliftoff.Prelude.Int.{pos}
use libliftoff.Name.{Name, fb_id, crtc_id, crtc_x, crtc_w, crtc_h}
use libliftoff.Errno.{Errno, einval}
use libliftoff.Drm.{Drm, added}
use libliftoff.Model.{
  Ptr, LayerProperty, Layer, PlaneProperty, Plane, Output, Heap, primary, overlay,
}

abbrev pub Request : Type 0
Request = List (ℕ × ℕ × ℕ)

abbrev pub shrink : Request → ℕ → Request
shrink [] c = []
shrink (x ∷ xs) c = if leb (length (x ∷ xs)) c then x ∷ xs else shrink xs c

pub shrink-length : (r : Request) → shrink r (length r) ≡ r
shrink-length [] = refl
shrink-length (x ∷ xs) = ground arith

pub length-added :
    (r s : Request) (o p v : ℕ) → added ((o, p, v) ∷ r) ≡ added s → length s ≡ suc (length r)
length-added r s o p v e = ground arith

pub shrink-added :
    (r s : Request) (o p v c : ℕ)
    → added ((o, p, v) ∷ r) ≡ added s
    → c ≤ length r
    → shrink s c ≡ shrink r c
shrink-added r s o p v c e h = ground arith

-- Whether the request sets the property of the object to the value.
abbrev pub sets : Request → ℕ × ℕ × ℕ → Bool
sets [] q = false
sets ((o, p, v) ∷ r) (o', p', v') = (o == o' && p == p' && v == v') || sets r (o', p', v')

-- The kernel answers as the given function says.
abbrev pub drm_of : (ℕ → Request → Option Errno) → Drm
drm_of answer = record {
  Req = Request;
  get_cursor = length;
  set_cursor = shrink;
  add_property = λ r o p v. added ((o, p, v) ∷ r);
  commit = λ clock r flags. answer clock r;
  set_cursor-get_cursor = shrink-length;
  get_cursor-add = length-added;
  set_cursor-add = shrink-added;
}

-- The overlay plane, 20, cannot scan out the framebuffer 7.
abbrev pub picky : Drm
picky = drm_of (λ clock r. if sets r (20, 201, 7) then some einval else none)

abbrev pub prop : Name → ℕ → LayerProperty
prop n v = record { name = n; value = v; prev_value = 0 }

abbrev pub layer_of : List LayerProperty → Layer
layer_of props = record {
  output = 1;
  props = props;
  force_composition = false;
  plane = none;
  current_priority = 0;
  pending_priority = 0;
  changed = false;
}

-- A layer for the composited image, one that the overlay plane cannot show, and one that it can.
abbrev pub layers : Ptr → Layer
layers l =
    if l == 11
    then layer_of (prop fb_id 5 ∷ [])
    else if l == 12
    then layer_of (prop fb_id 7 ∷ prop crtc_w 100 ∷ prop crtc_h 100 ∷ [])
    else layer_of (prop fb_id 8 ∷ prop crtc_w 50 ∷ prop crtc_h 50 ∷ prop crtc_x 200 ∷ [])

abbrev pub plane_props : ℕ → List PlaneProperty
plane_props k =
    record { name = fb_id; id = k + 1 }
    ∷ record { name = crtc_id; id = k + 2 }
    ∷ record { name = crtc_x; id = k + 3 }
    ∷ record { name = crtc_w; id = k + 4 }
    ∷ record { name = crtc_h; id = k + 5 }
    ∷ []

abbrev pub planes : Ptr → Plane
planes p =
    if p == 1
    then record {
      id = 10;
      possible_crtcs = 1;
      kind = primary;
      zpos = pos 0;
      props = plane_props 100;
      layer = none;
    }
    else record {
      id = 20;
      possible_crtcs = 1;
      kind = overlay;
      zpos = pos 1;
      props = plane_props 200;
      layer = none;
    }

abbrev pub outputs : Ptr → Output
outputs o = record {
  crtc_id = 42;
  crtc_index = 0;
  composition_layer = some 11;
  layers = 11 ∷ 12 ∷ 13 ∷ [];
  layers_changed = true;
  alloc_reused_counter = 0;
}

abbrev pub desk : Heap
desk = record {
  device = record {
    planes = 1 ∷ 2 ∷ [];
    outputs = 1 ∷ [];
    crtcs = 42 ∷ [];
    page_flip_counter = 59;
    commits = record { test_commit_counter = 0; clock = 0 };
  };
  plane = planes;
  layer = layers;
  output = outputs;
}
