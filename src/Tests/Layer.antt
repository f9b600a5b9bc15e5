-- ===== src/Tests/Layer.antt =====
-- The theorems on layers at sample layers.
use libliftoff.Prelude.{
  ◌≡◌, refl, ◌↔◌, true, false, none, some, arith, length, replicate, suc, if◌then◌else◌,
}
use libliftoff.Prelude.Int.{ℤ, to_int}
use libliftoff.Errno.{ok}
use libliftoff.Name.{Name, name_eq, fb_id, crtc_id, crtc_w, alpha}
use libliftoff.Layer.{
  find_prop, value, get_rect, set_property, set_fb_composited, is_visible, has_fb, intersects,
  needs_composition, is_zero,
}
use libliftoff.Layer.Property.{value-set_property, set_property_long}
use libliftoff.Layer.Overlap.{Covers, IsBox, intersects_iff}
use libliftoff.Layer.Composited.{composited_and_back}
use libliftoff.Samples.{layers}

window-IsBox : IsBox (get_rect (layers 12))
unfolding find_prop name_eq to_int
window-IsBox = record {
  columns = record { nonempty = omega arith; fits = omega arith };
  rows = record { nonempty = omega arith; fits = omega arith };
}

video-IsBox : IsBox (get_rect (layers 13))
unfolding find_prop name_eq to_int
video-IsBox = record {
  columns = record { nonempty = omega arith; fits = omega arith };
  rows = record { nonempty = omega arith; fits = omega arith };
}

intersects_iff_example : (intersects (layers 12) (layers 13) ≡ true) ↔ (
    (px : ℤ) × (py : ℤ) × Covers (get_rect (layers 12)) px py × Covers (get_rect (layers 13)) px py)
intersects_iff_example = intersects_iff (layers 12) (layers 13) window-IsBox video-IsBox

fb_id_ne_crtc_id : name_eq fb_id crtc_id ≡ false
unfolding name_eq
fb_id_ne_crtc_id = refl

value-set_property_example :
    ((set_property (layers 12) fb_id 9 true).0 ≡ ok)
    × (value (set_property (layers 12) fb_id 9 true).1 crtc_w
        ≡ (if name_eq fb_id crtc_w then some 9 else value (layers 12) crtc_w))
value-set_property_example =
    value-set_property (layers 12) fb_id crtc_w 9 fb_id_ne_crtc_id (omega arith)

-- A name of 32 bytes.
abbrev long_name : Name
long_name = replicate 32 97

set_property_long_example :
    ((set_property (layers 12) long_name 1 true).0 ≡ ok)
    × (length (set_property (layers 12) long_name 1 true).1.props ≡ suc (length (layers 12).props))
    × (value (set_property (layers 12) long_name 1 true).1 long_name ≡ none)
set_property_long_example =
    set_property_long (layers 12) long_name 1 (omega arith, (omega arith, (omega arith, tt)))
      (omega arith)

window_opaque : is_zero (value (layers 12) alpha) ≡ false
unfolding find_prop name_eq
window_opaque = refl

composited_and_back_example :
    let c = set_fb_composited (layers 12) true in
    let d = (set_property c fb_id 9 true).1 in
    (has_fb c ≡ false)
    × (needs_composition c ≡ true)
    × (c.changed ≡ true)
    × (d.force_composition ≡ false)
    × (value d fb_id ≡ some 9)
    × (is_visible d ≡ true)
composited_and_back_example = composited_and_back (layers 12) refl 9 window_opaque refl refl
