-- ===== src/Alloc/Realloc.antt =====
-- When alloc.c keeps the previous allocation: `layer_needs_realloc`, and the clean state after it.
pub mod Clean
use libliftoff.Prelude.{Bool, true, false, ◌||◌, List, [], ◌∷◌, ◌==◌, if◌then◌else◌}
use libliftoff.Name.{name_eq, fb_id, alpha, in_fence_fd, fb_damage_clips}
use libliftoff.Model.{Layer, LayerProperty}

-- One round of the loop of `layer_needs_realloc`: whether it returns true.
unfoldable pub prop_needs_realloc : LayerProperty → Bool
prop_needs_realloc q =
    if q.value == q.prev_value
    then false
    else if name_eq q.name fb_id
    then q.value == 0 || q.prev_value == 0
    else if name_eq q.name alpha
    then q.value == 0 || q.prev_value == 0 || q.value == 0xFFFF || q.prev_value == 0xFFFF
    else if name_eq q.name in_fence_fd || name_eq q.name fb_damage_clips
    then false
    else true

unfoldable pub props_need_realloc : List LayerProperty → Bool
unfolding prop_needs_realloc
props_need_realloc [] = false
props_need_realloc (q ∷ qs) = if prop_needs_realloc q then true else props_need_realloc qs

-- `layer_needs_realloc`
unfoldable pub layer_needs_realloc : Layer → Bool
unfolding props_need_realloc
layer_needs_realloc l = if l.changed then true else props_need_realloc l.props
