-- ===== src/Layer.antt =====
-- layer.c: the operations on one layer. Those that change the lists or other objects are in Life.
pub mod Property
pub mod Overlap
pub mod Composited
pub mod Life
use libliftoff.Prelude.{
  ℕ, suc, ◌+◌, ◌≡◌, Bool, true, false, ◌&&◌, not, List, [], ◌∷◌, ◌++◌, map, Option, none, some,
  ◌==◌, if◌then◌else◌,
}
use libliftoff.Prelude.Int.{ℤ, pos, to_int, add_int, ltb_ℤ}
use libliftoff.Name.{Name, name_eq, stored, fb_id, crtc_id, crtc_x, crtc_y, crtc_w, crtc_h, alpha}
use libliftoff.Errno.{Outcome, ok, err, einval, enomem}
use libliftoff.Model.{Ptr, Layer, LayerProperty}

unfoldable pub find_prop : Name → List LayerProperty → Option LayerProperty
find_prop n [] = none
find_prop n (p ∷ ps) = if name_eq p.name n then some p else find_prop n ps

-- `layer_get_property`: the first property of that name.
abbrev pub layer_get_property : Layer → Name → Option LayerProperty
layer_get_property l n = find_prop n l.props

abbrev pub value_of : Option LayerProperty → Option ℕ
value_of none = none
value_of (some p) = some p.value

-- The value of a property, `none` if the layer lacks it.
abbrev pub value : Layer → Name → Option ℕ
value l n = value_of (layer_get_property l n)

-- `prop->value = value` at the property that `layer_get_property` finds.
unfoldable pub write_value : Name → ℕ → List LayerProperty → List LayerProperty
write_value n v [] = []
write_value n v (p ∷ ps) =
    if name_eq p.name n then record p { value = v } ∷ ps else p ∷ write_value n v ps

abbrev pub new_property : Name → ℕ → LayerProperty
new_property n v = record { name = stored n; value = v; prev_value = 0 }

-- The end of `liftoff_layer_set_property`: a new FB_ID ends forced composition.
unfoldable pub end_forced : Name → Layer → Layer
end_forced n l =
    if name_eq n fb_id && l.force_composition
    then record l { force_composition = false; changed = true }
    else l

-- `liftoff_layer_set_property`; `memory` says whether `realloc` gives any.
unfoldable pub set_property : Layer → Name → ℕ → (memory : Bool) → Outcome × Layer
unfolding find_prop write_value end_forced
set_property l n v memory =
    if name_eq n crtc_id then (err einval, l) else elim (layer_get_property l n) [
      | some p ↦ (ok, end_forced n (record l { props = write_value n v l.props }))
      | none ↦
          if memory
          then (
            ok,
            end_forced n (record l { props = l.props ++ new_property n v ∷ []; changed = true }),
          )
          else (err enomem, l)
    ]

-- `liftoff_layer_set_fb_composited`, which does not look at the result of the inner call.
unfoldable pub set_fb_composited : Layer → (memory : Bool) → Layer
unfolding set_property
set_fb_composited l memory =
    if l.force_composition
    then l
    else record (set_property l fb_id 0 memory).1 { force_composition = true; changed = true }

-- `struct liftoff_rect`
pub record Rect : Type 0 where
  pub x : ℤ
  pub y : ℤ
  pub width : ℤ
  pub height : ℤ

-- `prop != NULL ? prop->value : 0`, converted to `int`.
abbrev pub int_or_zero : Option ℕ → ℤ
int_or_zero none = pos 0
int_or_zero (some v) = to_int v

-- `layer_get_rect`
abbrev pub get_rect : Layer → Rect
get_rect l = record {
  x = int_or_zero (value l crtc_x);
  y = int_or_zero (value l crtc_y);
  width = int_or_zero (value l crtc_w);
  height = int_or_zero (value l crtc_h);
}

abbrev pub rects_meet : Rect → Rect → Bool
rects_meet a b =
    ltb_ℤ a.x (add_int b.x b.width)
    && ltb_ℤ a.y (add_int b.y b.height)
    && ltb_ℤ b.x (add_int a.x a.width)
    && ltb_ℤ b.y (add_int a.y a.height)

-- `layer_intersects`
unfoldable pub intersects : Layer → Layer → Bool
intersects a b = rects_meet (get_rect a) (get_rect b)

-- `layer_mark_clean`
unfoldable pub mark_clean : Layer → Layer
mark_clean l = record l {
  changed = false;
  props = map (λ (p : LayerProperty). record p { prev_value = p.value }) l.props;
}

abbrev pub fb_changed : Option LayerProperty → Bool
fb_changed none = false
fb_changed (some p) = not (p.prev_value == p.value)

-- `log_priority`: the change that is logged, if any.
unfoldable pub priority_change : Layer → Option (ℕ × ℕ)
priority_change l =
    if l.current_priority == l.pending_priority
    then none
    else some (l.current_priority, l.pending_priority)

-- `layer_update_priority`
unfoldable pub update_priority : Layer → (make_current : Bool) → Layer
update_priority l make_current =
    let pending =
      if fb_changed (layer_get_property l fb_id)
      then l.pending_priority + 1
      else l.pending_priority in
    if make_current
    then record l { current_priority = pending; pending_priority = 0 }
    else record l { pending_priority = pending }

abbrev pub is_zero : Option ℕ → Bool
is_zero none = false
is_zero (some v) = v == 0

abbrev pub is_nonzero : Option ℕ → Bool
is_nonzero none = false
is_nonzero (some v) = not (v == 0)

-- `layer_has_fb`
abbrev pub has_fb : Layer → Bool
has_fb l = is_nonzero (value l fb_id)

-- `layer_is_visible`
unfoldable pub is_visible : Layer → Bool
is_visible l =
    if is_zero (value l alpha) then false else if l.force_composition then true else has_fb l

-- `liftoff_layer_get_plane`
abbrev pub layer_get_plane : Layer → Option Ptr
layer_get_plane l = l.plane

abbrev pub is_unmapped : Layer → Bool
is_unmapped l = elim (layer_get_plane l) [ none ↦ true | some p ↦ false ]

-- `liftoff_layer_needs_composition`
unfoldable pub needs_composition : Layer → Bool
unfolding is_visible
needs_composition l = if not (is_visible l) then false else is_unmapped l
