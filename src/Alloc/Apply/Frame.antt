-- ===== src/Alloc/Apply/Frame.antt =====
-- The parts of `liftoff_output_apply` that leave the pointers between planes, layers and outputs
-- alone.
use libliftoff.Prelude.{suc, ◌≡◌, refl, ◌∙◌, false, Bool, arith, List, [], ◌∷◌, leb}
use libliftoff.Model.{Ptr, Layer, Heap, set_layer}
use libliftoff.Layer.{mark_clean, update_priority}
use libliftoff.Links.{links, links-set_layer, links-set_output}
use libliftoff.Alloc.Apply.{
  priority_period, over_layers, over_outputs, mark_layers_clean, update_layers_priority, log_reuse,
  log_no_reuse,
}

module _ (f : Layer → Layer) (plane : (l : Layer) → (f l).plane ≡ l.plane)
    (output : (l : Layer) → (f l).output ≡ l.output) where
  pub links-over_layers : (ls : List Ptr) (h : Heap) → links (over_layers f ls h) ≡ links h
  links-over_layers [] h = refl
  links-over_layers (l ∷ ls) h =
      links-over_layers ls (set_layer h l (f (h.layer l)))
      ∙ links-set_layer h l (f (h.layer l)) (plane (h.layer l)) (output (h.layer l))

  links-over_outputs : (os : List Ptr) (h : Heap) → links (over_outputs f os h) ≡ links h
  links-over_outputs [] h = refl
  links-over_outputs (o ∷ os) h =
      links-over_outputs os (over_layers f (h.output o).layers h)
      ∙ links-over_layers (h.output o).layers h

mark_clean-plane : (l : Layer) → (mark_clean l).plane ≡ l.plane
unfolding mark_clean
mark_clean-plane l = refl

mark_clean-output : (l : Layer) → (mark_clean l).output ≡ l.output
unfolding mark_clean
mark_clean-output l = refl

update_priority-plane : (b : Bool) (l : Layer) → (update_priority l b).plane ≡ l.plane
unfolding update_priority
update_priority-plane b l = ground arith

update_priority-output : (b : Bool) (l : Layer) → (update_priority l b).output ≡ l.output
unfolding update_priority
update_priority-output b l = ground arith

pub links-mark_layers_clean : (h : Heap) (o : Ptr) → links (mark_layers_clean h o) ≡ links h
unfolding mark_layers_clean
links-mark_layers_clean h o =
    links-over_layers mark_clean mark_clean-plane mark_clean-output (h.output o).layers _
    ∙ links-set_output h o (record (h.output o) { layers_changed = false }) refl refl

pub links-update_layers_priority : (h : Heap) → links (update_layers_priority h) ≡ links h
unfolding update_layers_priority
links-update_layers_priority h =
    let elapsed = leb priority_period (suc h.page_flip_counter) in
    links-over_outputs (λ l. update_priority l elapsed) (update_priority-plane elapsed)
      (update_priority-output elapsed) h.outputs _

pub links-log_reuse : (h : Heap) (o : Ptr) → links (log_reuse h o) ≡ links h
links-log_reuse h o = links-set_output h o _ refl refl

pub links-log_no_reuse : (h : Heap) (o : Ptr) → links (log_no_reuse h o) ≡ links h
links-log_no_reuse h o = links-set_output h o _ refl refl
