-- ===== src/Layer/Composited.antt =====
-- Forced composition: `liftoff_layer_set_fb_composited`, and the way back.
use libliftoff.Prelude.{
  ℕ, ◌≡◌, refl, ◌∙◌, ap, Bool, true, false, not, none, some, arith, ◌==◌, inl, inr, if◌then◌else◌,
  Bool-cases,
}
use libliftoff.Name.{name_eq, fb_id, crtc_id, alpha}
use libliftoff.Model.{Layer}
use libliftoff.Layer.{
  find_prop, value, is_zero, set_property, set_fb_composited, end_forced, is_visible, has_fb,
  needs_composition, is_nonzero,
}
use libliftoff.Layer.Property.{value-set_property}

fb_id_ne_crtc_id : name_eq fb_id crtc_id ≡ false
unfolding name_eq
fb_id_ne_crtc_id = refl

fb_id_ne_alpha : name_eq fb_id alpha ≡ false
unfolding name_eq
fb_id_ne_alpha = refl

fb_id_self : name_eq fb_id fb_id ≡ true
unfolding name_eq
fb_id_self = refl

module _ (l : Layer) where
  plane-set_property : (v : ℕ) (b : Bool) → (set_property l fb_id v b).1.plane ≡ l.plane
  unfolding set_property
  plane-set_property v b = ground arith

  -- Setting FB_ID ends forced composition.
  force-set_property : (v : ℕ) → (set_property l fb_id v true).1.force_composition ≡ false
  unfolding set_property end_forced name_eq find_prop
  force-set_property v = ground arith

  alpha-set_property : (v : ℕ) → value (set_property l fb_id v true).1 alpha ≡ value l alpha
  alpha-set_property v =
      (value-set_property l fb_id alpha v fb_id_ne_crtc_id (omega arith)).1
      ∙ ap (λ b. if b then some v else value l alpha) fb_id_ne_alpha

  fb-set_property : (v : ℕ) → value (set_property l fb_id v true).1 fb_id ≡ some v
  fb-set_property v =
      (value-set_property l fb_id fb_id v fb_id_ne_crtc_id (omega arith)).1
      ∙ ap (λ b. if b then some v else value l fb_id) fb_id_self

-- What a layer shows and needs, by its properties and its flags.
module _ (d : Layer) where
  is_visible-opaque :
      is_zero (value d alpha) ≡ false → is_nonzero (value d fb_id) ≡ true → is_visible d ≡ true
  unfolding is_visible
  is_visible-opaque opaque shown = elim (Bool-cases d.force_composition) [
    | inl f ↦ rw (opaque, f) refl
    | inr f ↦ rw (opaque, f) shown
  ]

  needs_composition-forced :
      is_zero (value d alpha) ≡ false
      → d.force_composition ≡ true
      → d.plane ≡ none
      → needs_composition d ≡ true
  unfolding needs_composition
  needs_composition-forced opaque forced unmapped = rw (opaque, forced, unmapped) refl

module _ (l : Layer) (unforced : l.force_composition ≡ false) where
  set_fb_composited-forced :
      set_fb_composited l true
      ≡ record (set_property l fb_id 0 true).1 { force_composition = true; changed = true }
  unfolding set_fb_composited
  set_fb_composited-forced = rw unforced refl

  -- A layer that is not transparent, nor mapped to a plane, and is not composited by force yet,
  -- while there is memory for a property: when it is composited by force, it has no framebuffer and
  -- needs composition, and a new allocation is due; setting FB_ID to a framebuffer then ends this,
  -- and the layer is visible with that framebuffer.
  pub composited_and_back :
      (fb : ℕ)
      → is_zero (value l alpha) ≡ false
      → l.plane ≡ none
      → (fb == 0) ≡ false
      → let c = set_fb_composited l true in
        let d = (set_property c fb_id fb true).1 in
        (has_fb c ≡ false)
        × (needs_composition c ≡ true)
        × (c.changed ≡ true)
        × (d.force_composition ≡ false)
        × (value d fb_id ≡ some fb)
        × (is_visible d ≡ true)
  composited_and_back fb opaque unmapped nonzero = rw set_fb_composited-forced (
    ap is_nonzero (fb-set_property l 0),
    needs_composition-forced composed (ap is_zero (alpha-set_property l 0) ∙ opaque) refl
        (plane-set_property l 0 true ∙ unmapped),
    refl,
    force-set_property composed fb,
    fb-set_property composed fb,
    is_visible-opaque (set_property composed fb_id fb true).1
        (ap is_zero (alpha-set_property composed fb ∙ alpha-set_property l 0) ∙ opaque)
        (ap is_nonzero (fb-set_property composed fb) ∙ ap not nonzero),
  )
    where
      composed : Layer
      composed = record (set_property l fb_id 0 true).1 { force_composition = true; changed = true }
