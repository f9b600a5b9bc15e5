-- ===== src/Api/WellFormed.antt =====
-- Every memory that a client can reach is well formed.
use mathlib.Core.Path.{fun_ext, subst}
use libliftoff.Prelude.{
  ℕ, ◌≡◌, refl, sym, ap, ◌∙◌, inl, inr, Bool, List, [], ◌∷◌, Option, none, some, arith, Unique,
  Bool-cases, Option-cases,
}
use libliftoff.Name.{Name, name_eq, crtc_id, fb_id}
use libliftoff.Drm.{Drm}
use libliftoff.Model.{Ptr, Plane, Layer, Heap, set_layer}
use libliftoff.Links.{links, links-set_layer, IsLinked}
use libliftoff.Layer.{find_prop, end_forced, set_property, set_fb_composited}
use libliftoff.Layer.Life.{leave_plane, layer_create, layer_destroy}
use libliftoff.Layer.Life.Linked.{layer_create-IsLinked, layer_destroy-IsLinked}
use libliftoff.Output.{output_create, output_destroy, set_composition_layer, crtc_index_from}
use libliftoff.Output.Linked.{
  output_create-IsLinked, output_destroy-IsLinked, set_composition_layer-IsLinked,
}
use libliftoff.Plane.Life.Order.{IsOrdered}
use libliftoff.Plane.Life.Linked.{
  IsWellFormed, plane_create-IsWellFormed, plane_destroy-IsWellFormed,
}
use libliftoff.Alloc.Apply.Linked.{liftoff_output_apply-IsLinked}
use libliftoff.Alloc.Apply.Registry.{bare, Registry, registry-liftoff_output_apply}
use libliftoff.Api.{
  Call, create_plane, destroy_plane, create_output, destroy_output, choose_composition_layer,
  create_layer, destroy_layer, set_layer_property, force_composition, apply, Reachable, start,
  after,
}

IsOrdered-bare : (f : Ptr → Plane) (ps : List Ptr) → IsOrdered f ps → IsOrdered (λ p. bare (f p)) ps
IsOrdered-bare f [] s = tt
IsOrdered-bare f (p ∷ ps) s = (s.0, IsOrdered-bare f ps s.1)

IsOrdered-unbare :
    (f : Ptr → Plane) (ps : List Ptr) → IsOrdered (λ p. bare (f p)) ps → IsOrdered f ps
IsOrdered-unbare f [] s = tt
IsOrdered-unbare f (p ∷ ps) s = (s.0, IsOrdered-unbare f ps s.1)

-- The list of planes, and the planes without the layers they show.
abbrev Fixed : Type 0
Fixed = List Ptr × (Ptr → Plane)

abbrev fixed : Heap → Fixed
fixed h = (h.planes, λ p. bare (h.plane p))

-- Besides the pointers, they are all that matters.
IsWellFormed-fixed :
    (h h' : Heap) → IsWellFormed h → fixed h' ≡ fixed h → IsLinked (links h') → IsWellFormed h'
IsWellFormed-fixed h h' v same linked = record {
  linked = linked;
  unique = subst (λ (k : Fixed). Unique k.0) (sym same) v.unique;
  ordered = IsOrdered-unbare h'.plane h'.planes (
      subst (λ (k : Fixed). IsOrdered k.1 k.0) (sym same)
        (IsOrdered-bare h.plane h.planes v.ordered));
}

fixed-leave_plane : (h : Heap) (a : Option Ptr) → fixed (leave_plane h a) ≡ fixed h
fixed-leave_plane h none = refl
fixed-leave_plane h (some p) =
    ap (λ f. (h.planes, f))
      (fun_ext {f = (fixed (leave_plane h (some p))).1} {g = (fixed h).1} (λ q. ground arith))

fixed-layer_destroy : (h : Heap) (l : Ptr) → fixed (layer_destroy h (some l)) ≡ fixed h
unfolding layer_destroy
fixed-layer_destroy h l = fixed-leave_plane h (h.layer l).plane

fixed-layer_create : (h : Heap) (o l : Ptr) → fixed (layer_create h o (some l)).1 ≡ fixed h
unfolding layer_create
fixed-layer_create h o l = refl

fixed-output_create : (h : Heap) (crtc o : Ptr) → fixed (output_create h crtc (some o)).1 ≡ fixed h
unfolding output_create
fixed-output_create h crtc o = elim (Option-cases (crtc_index_from crtc 0 h.crtcs)) [
  | inl e ↦ rw (e, output_create)
  | inr (i, e) ↦ rw (e, output_create)
]

fixed-output_destroy : (h : Heap) (o : Ptr) → fixed (output_destroy h (some o)) ≡ fixed h
unfolding output_destroy
fixed-output_destroy h o = refl

fixed-set_composition_layer :
    (h : Heap) (o l : Ptr) (h' : Heap) → set_composition_layer h o l ≡ some h' → fixed h' ≡ fixed h
unfolding set_composition_layer
fixed-set_composition_layer h o l h' run = ground arith

-- Setting a property leaves the pointers of the layer alone.
pointers-set_property :
    (l : Layer) (n : Name) (v : ℕ) (memory : Bool)
    → ((set_property l n v memory).1.plane ≡ l.plane)
      × ((set_property l n v memory).1.output ≡ l.output)
unfolding set_property end_forced
pointers-set_property l n v memory = elim (Bool-cases (name_eq n crtc_id)) [
  | inl e ↦ rw e (refl, refl)
  | inr e ↦
      rw (e, set_property)
        (elim (Option-cases (find_prop n l.props)) [
          | inl f ↦ rw (f, set_property) (ground arith, ground arith)
          | inr (p, f) ↦ rw (f, set_property) (ground arith, ground arith)
        ])
]

pointers-set_fb_composited :
    (l : Layer) (memory : Bool)
    → ((set_fb_composited l memory).plane ≡ l.plane)
      × ((set_fb_composited l memory).output ≡ l.output)
unfolding set_fb_composited
pointers-set_fb_composited l memory = (
  ground (arith, pointers-set_property l fb_id 0 memory),
  ground (arith, pointers-set_property l fb_id 0 memory),
)

IsWellFormed-set_layer :
    (h : Heap) (p : Ptr) (l : Layer)
    → IsWellFormed h
    → (l.plane ≡ (h.layer p).plane) × (l.output ≡ (h.layer p).output)
    → IsWellFormed (set_layer h p l)
IsWellFormed-set_layer h p l v (e, f) = record {
  linked = subst IsLinked (sym (links-set_layer h p l e f)) v.linked;
  unique = v.unique;
  ordered = v.ordered;
}

some_inj : {a b : Heap} → some a ≡ some b → a ≡ b
some_inj e = ground arith

module _ (drm : Drm) where
  -- One call keeps the memory well formed.
  Call-IsWellFormed : {h h' : Heap} → Call drm h h' → IsWellFormed h → IsWellFormed h'
  Call-IsWellFormed {h} (create_plane kms id memory props_memory new) v =
      plane_create-IsWellFormed h v kms id memory props_memory new
  Call-IsWellFormed {h} (destroy_plane p here) v = plane_destroy-IsWellFormed h v p here
  Call-IsWellFormed {h} (create_output crtc o new) v =
      IsWellFormed-fixed h _ v (fixed-output_create h crtc o)
        (output_create-IsLinked h v.linked crtc o new)
  Call-IsWellFormed {h} (destroy_output o empty) v =
      IsWellFormed-fixed h _ v (fixed-output_destroy h o)
        (output_destroy-IsLinked h v.linked o empty)
  Call-IsWellFormed {h} (choose_composition_layer l h' alive run) v =
      let (g, done, linked) = set_composition_layer-IsLinked h v.linked l alive in
      IsWellFormed-fixed h h' v (fixed-set_composition_layer h (h.layer l).output l h' run)
        (subst (λ x. IsLinked (links x)) (some_inj (sym done ∙ run)) linked)
  Call-IsWellFormed {h} (create_layer o l here new) v =
      IsWellFormed-fixed h _ v (fixed-layer_create h o l)
        (layer_create-IsLinked h v.linked o l here new)
  Call-IsWellFormed {h} (destroy_layer l alive) v =
      IsWellFormed-fixed h _ v (fixed-layer_destroy h l) (layer_destroy-IsLinked h v.linked l alive)
  Call-IsWellFormed {h} (set_layer_property l n value memory) v =
      IsWellFormed-set_layer h l _ v (pointers-set_property (h.layer l) n value memory)
  Call-IsWellFormed {h} (force_composition l memory) v =
      IsWellFormed-set_layer h l _ v (pointers-set_fb_composited (h.layer l) memory)
  Call-IsWellFormed {h} (apply fuel o flags memory r here) v =
      IsWellFormed-fixed h _ v
        (ap (λ (k : Registry). (k.planes, k.plane))
          (registry-liftoff_output_apply drm fuel o flags memory (record { heap = h; req = r })))
        (liftoff_output_apply-IsLinked drm fuel o flags memory (record { heap = h; req = r })
          (record { listed = here; unique = v.unique; linked = v.linked }))

  -- In every memory that a client can reach from a new device by the calls of `Call`, planes,
  -- layers and outputs point at each other consistently, and the list of planes is in order and
  -- holds no plane twice.
  pub Reachable-IsWellFormed : {h : Heap} → Reachable drm h → IsWellFormed h
  Reachable-IsWellFormed (start crtcs plane layer output) = record {
    linked = record {
      shown_live = λ p l i e. cc;
      shown_mapped = λ p l i e. cc;
      mapped_plane = λ l p live e. cc (live.output);
      mapped_shown = λ l p live e. cc (live.output);
      owned = λ o l i j. cc;
      composition_listed = λ o c i e. cc;
    };
    unique = tt;
    ordered = tt;
  }
  Reachable-IsWellFormed (after w call) = Call-IsWellFormed call (Reachable-IsWellFormed w)
