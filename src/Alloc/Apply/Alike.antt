-- ===== src/Alloc/Apply/Alike.antt =====
-- Two memories in which planes are asked for the same: the counters, priorities and previous values
-- that `liftoff_output_apply` writes ask for nothing.
use mathlib.Core.List.{map}
use libliftoff.Prelude.{
  ℕ, ◌≡◌, refl, ◌∙◌, inl, inr, false, List, [], ◌∷◌, Option, none, some, leb, suc, arith,
  Option-cases,
}
use libliftoff.Name.{crtc_id}
use libliftoff.Model.{
  Ptr, LayerProperty, Layer, Plane, Output, Heap, Commits, set_layer, set_output,
}
use libliftoff.Layer.{mark_clean, update_priority}
use libliftoff.Plane.{find_plane_prop, is_default}
use libliftoff.Plane.Settings.{settings_of, layer_settings}
use libliftoff.Alloc.Apply.{
  priority_period, over_layers, over_outputs, mark_layers_clean, update_layers_priority, log_reuse,
  with_commits,
}
use libliftoff.Alloc.Apply.Request.{shown_settings}

-- The planes are the same, and a layer asks a plane for the same properties.
pub record Alike (h h' : Heap) : Type 0 where
  pub planes : h'.planes ≡ h.planes
  pub plane : (p : Ptr) → h'.plane p ≡ h.plane p
  pub crtc :
      (l : Ptr) → (h'.output (h'.layer l).output).crtc_id ≡ (h.output (h.layer l).output).crtc_id
  pub props :
      (x : Plane) (l : Ptr) → settings_of x (h'.layer l).props ≡ settings_of x (h.layer l).props

Alike-refl : (h : Heap) → Alike h h
Alike-refl h = record { planes = refl; plane = λ p. refl; crtc = λ l. refl; props = λ x l. refl }

pub Alike-trans : {h i j : Heap} → Alike h i → Alike i j → Alike h j
Alike-trans a b = record {
  planes = b.planes ∙ a.planes;
  plane = λ p. b.plane p ∙ a.plane p;
  crtc = λ l. b.crtc l ∙ a.crtc l;
  props = λ x l. b.props x l ∙ a.props x l;
}

pub Alike-with_commits : (h : Heap) (c : Commits) → Alike h (with_commits h c)
Alike-with_commits h c = record {
  planes = refl;
  plane = λ p. refl;
  crtc = λ l. refl;
  props = λ x l. refl;
}

Alike-page_flip_counter :
    (h : Heap) (n : ℕ) → Alike h (record h { device = record h.device { page_flip_counter = n } })
Alike-page_flip_counter h n = record {
  planes = refl;
  plane = λ p. refl;
  crtc = λ l. refl;
  props = λ x l. refl;
}

Alike-set_output :
    (h : Heap) (o : Ptr) (x : Output)
    → x.crtc_id ≡ (h.output o).crtc_id
    → Alike h (set_output h o x)
Alike-set_output h o x same = record {
  planes = refl;
  plane = λ p. refl;
  crtc = λ l. ground arith;
  props = λ y l. refl;
}

module _ (f : Layer → Layer) (output : (l : Layer) → (f l).output ≡ l.output)
    (props : (x : Plane) (l : Layer) → settings_of x (f l).props ≡ settings_of x l.props) where
  Alike-set_layer : (h : Heap) (l : Ptr) → Alike h (set_layer h l (f (h.layer l)))
  Alike-set_layer h l = record {
    planes = refl;
    plane = λ p. refl;
    crtc = λ m. ground (arith, output (h.layer l));
    props = λ x m. ground (arith, props x (h.layer l));
  }

  Alike-over_layers : (ls : List Ptr) (h : Heap) → Alike h (over_layers f ls h)
  Alike-over_layers [] h = Alike-refl h
  Alike-over_layers (l ∷ ls) h =
      Alike-trans (Alike-set_layer h l) (Alike-over_layers ls (set_layer h l (f (h.layer l))))

  Alike-over_outputs : (os : List Ptr) (h : Heap) → Alike h (over_outputs f os h)
  Alike-over_outputs [] h = Alike-refl h
  Alike-over_outputs (o ∷ os) h =
      Alike-trans (Alike-over_layers (h.output o).layers h)
        (Alike-over_outputs os (over_layers f (h.output o).layers h))

abbrev clean_prop : LayerProperty → LayerProperty
clean_prop q = record q { prev_value = q.value }

settings_of-clean :
    (x : Plane) (qs : List LayerProperty) → settings_of x (map clean_prop qs) ≡ settings_of x qs
unfolding settings_of is_default
settings_of-clean x [] = refl
settings_of-clean x (q ∷ qs) = ground (arith, settings_of-clean x qs)

pub Alike-mark_layers_clean : (h : Heap) (o : Ptr) → Alike h (mark_layers_clean h o)
unfolding mark_layers_clean mark_clean
Alike-mark_layers_clean h o =
    Alike-trans (Alike-set_output h o (record (h.output o) { layers_changed = false }) refl) (
      Alike-over_layers mark_clean (λ l. refl) (λ x l. settings_of-clean x l.props)
        (h.output o).layers _)

pub Alike-update_layers_priority : (h : Heap) → Alike h (update_layers_priority h)
unfolding update_layers_priority update_priority
Alike-update_layers_priority h =
    let elapsed = leb priority_period (suc h.page_flip_counter) in
    Alike-trans (Alike-page_flip_counter h _) (
      Alike-over_outputs (λ l. update_priority l elapsed) (λ l. ground arith) (λ x l. ground arith)
        h.outputs _)

pub Alike-log_reuse : (h : Heap) (o : Ptr) → Alike h (log_reuse h o)
Alike-log_reuse h o = Alike-set_output h o _ refl

pub shown_settings-Alike :
    {h h' : Heap}
    → Alike h h'
    → (p : Ptr) (a : Option Ptr) → shown_settings h' p a ≡ shown_settings h p a
unfolding layer_settings
shown_settings-Alike {h = h} a p none = rw (shown_settings, a.plane p) refl
shown_settings-Alike {h = h} a p (some l) =
    rw (shown_settings, layer_settings, a.plane p)
      (elim (Option-cases (find_plane_prop crtc_id (h.plane p).props)) [
        | inl e ↦ rw (layer_settings, e) refl
        | inr (s, e) ↦ rw (layer_settings, e, a.crtc l, a.plane p, a.props (h.plane p) l) refl
      ])
