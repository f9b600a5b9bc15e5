-- ===== src/Alloc/Realloc/Clean.antt =====
-- What a change of one property since the last allocation means for the next one.
use libliftoff.Prelude.{
  ℕ, ◌≡◌, refl, ap, ◌∙◌, inl, inr, Bool, true, false, List, [], ◌∷◌, map, some, arith,
  if◌then◌else◌, Bool-cases,
}
use libliftoff.Name.{Name, name_eq, crtc_id}
use libliftoff.Model.{Layer, LayerProperty}
use libliftoff.Layer.{find_prop, write_value, end_forced, set_property, mark_clean}
use libliftoff.Layer.Property.{set_property-old}
use libliftoff.Alloc.Realloc.{prop_needs_realloc, props_need_realloc, layer_needs_realloc}

abbrev clean : LayerProperty → LayerProperty
clean p = record p { prev_value = p.value }

prop-clean : (p : LayerProperty) → prop_needs_realloc (clean p) ≡ false
unfolding prop_needs_realloc
prop-clean p = ground arith

props-clean : (ps : List LayerProperty) → props_need_realloc (map clean ps) ≡ false
unfolding props_need_realloc
props-clean [] = refl
props-clean (p ∷ ps) = rw (prop-clean p) (props-clean ps)

find_prop-clean :
    (n : Name) (ps : List LayerProperty) (p : LayerProperty)
    → find_prop n ps ≡ some p
    → find_prop n (map clean ps) ≡ some (clean p)
unfolding find_prop
find_prop-clean n [] p e = cc
find_prop-clean n (q ∷ ps) p e = ground (arith, find_prop-clean n ps p)

if_self : (b : Bool) → (if b then true else false) ≡ b
if_self true = refl
if_self false = refl

props-write :
    (n : Name) (v : ℕ) (ps : List LayerProperty) (p : LayerProperty)
    → find_prop n ps ≡ some p
    → props_need_realloc (write_value n v (map clean ps))
      ≡ prop_needs_realloc (record { name = p.name; value = v; prev_value = p.value })
unfolding find_prop write_value props_need_realloc
props-write n v [] p e = cc
props-write n v (q ∷ ps) p e = elim (Bool-cases (name_eq q.name n)) [
  | inl s ↦
      let same : q ≡ p = ground arith in
      rw (s, props_need_realloc, props-clean ps)
        (if_self _
          ∙ ap
              (λ (x : LayerProperty).
                prop_needs_realloc (record { name = x.name; value = v; prev_value = x.value }))
              same)
  | inr s ↦ rw (s, props_need_realloc, prop-clean q) (props-write n v ps p (rw s at e))
]

-- A layer that has just been marked clean needs no new allocation.
pub layer_needs_realloc-mark_clean : (l : Layer) → layer_needs_realloc (mark_clean l) ≡ false
unfolding layer_needs_realloc mark_clean
layer_needs_realloc-mark_clean l = props-clean l.props

module _ (l : Layer) (n : Name) (v : ℕ) (p : LayerProperty) (memory : Bool)
    (other : name_eq n crtc_id ≡ false) (unforced : l.force_composition ≡ false)
    (found : find_prop n l.props ≡ some p) where
  -- A layer that has just been marked clean, and is not composited by force, needs no new
  -- allocation; once it gets a new value of a property that it has, other than CRTC_ID, it needs
  -- one exactly when the table of changes asks for it for the old and the new value of that
  -- property.
  pub realloc_after_set :
      (layer_needs_realloc (mark_clean l) ≡ false)
      × (layer_needs_realloc (set_property (mark_clean l) n v memory).1
          ≡ prop_needs_realloc (record { name = p.name; value = v; prev_value = p.value }))
  unfolding layer_needs_realloc mark_clean end_forced
  realloc_after_set = (
    layer_needs_realloc-mark_clean l,
    rw
        (
          set_property-old (mark_clean l) n n v other memory (find_prop-clean n l.props p found),
          unforced,
        )
        (ground (arith, props-write n v l.props p found)),
  )
