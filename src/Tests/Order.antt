-- ===== src/Tests/Order.antt =====
-- Changes since the last allocation.
use libliftoff.Prelude.{◌≡◌, refl, true, false, some}
use libliftoff.Name.{name_eq, crtc_id, fb_id}
use libliftoff.Layer.{find_prop, set_property, mark_clean}
use libliftoff.Alloc.Realloc.{layer_needs_realloc, prop_needs_realloc}
use libliftoff.Alloc.Realloc.Clean.{realloc_after_set}
use libliftoff.Samples.{prop, layers}

fb_id_is_other : name_eq fb_id crtc_id ≡ false
unfolding name_eq
fb_id_is_other = refl

fb_id_found : find_prop fb_id (layers 12).props ≡ some (prop fb_id 7)
unfolding find_prop name_eq
fb_id_found = refl

-- A page flip.
realloc_after_set_example :
    (layer_needs_realloc (mark_clean (layers 12)) ≡ false)
    × (layer_needs_realloc (set_property (mark_clean (layers 12)) fb_id 9 true).1
        ≡ prop_needs_realloc (record { name = fb_id; value = 9; prev_value = 7 }))
realloc_after_set_example =
    realloc_after_set (layers 12) fb_id 9 (prop fb_id 7) true fb_id_is_other refl fb_id_found
