-- ===== src/Alloc/Apply/Mapping.antt =====
-- The loops that unset the mappings of an output and put the best allocation into effect.
use mathlib.Core.Path.{fun_ext, subst}
use libliftoff.Prelude.{
  ◌≡◌, refl, sym, inl, inr, true, List, [], ◌∷◌, Option, none, arith, has, ◌==◌, Bool-cases,
  Option-cases,
}
use libliftoff.Model.{Ptr, Heap, update, set_layer, set_plane}
use libliftoff.Links.{links, IsLinked, unlink-IsLinked}
use libliftoff.Alloc.Apply.{unmap}

abbrev pub write_link : Heap → (p l : Ptr) → (a b : Option Ptr) → Heap
write_link h p l a b =
    set_layer (set_plane h p (record (h.plane p) { layer = a })) l
      (record (h.layer l) { plane = b })

pub links-write_link :
    (h : Heap) (p l : Ptr) (a b : Option Ptr)
    → links (write_link h p l a b) ≡ record (links h) {
      shown = update (links h).shown p a;
      mapped = update (links h).mapped l b;
    }
links-write_link h p l a b i = record {
  planes = h.planes;
  outputs = h.outputs;
  shown =
      fun_ext {f = (links (write_link h p l a b)).shown} {g = update (links h).shown p a}
        (λ q. ground arith) i;
  mapped =
      fun_ext {f = (links (write_link h p l a b)).mapped} {g = update (links h).mapped l b}
        (λ q. ground arith) i;
  owner =
      fun_ext {f = (links (write_link h p l a b)).owner} {g = (links h).owner} (λ q. ground arith)
        i;
  layers = λ o. (h.output o).layers;
  composition = λ o. (h.output o).composition_layer;
}

module _ (o : Ptr) where
  -- Unsetting the mappings keeps the pointers in agreement.
  pub unmap-IsLinked :
      (ps : List Ptr) (h : Heap)
      → ((p : Ptr) → has p ps ≡ true → has p h.planes ≡ true)
      → IsLinked (links h)
      → IsLinked (links (unmap o ps h))
  unfolding unmap
  unmap-IsLinked [] h sub v = v
  unmap-IsLinked (p ∷ ps) h sub v = elim (Option-cases (h.plane p).layer) [
    | inl e ↦ rw (e, unmap) (unmap-IsLinked ps h (λ q i. sub q (ground arith)) v)
    | inr (l, e) ↦
        rw (e, unmap)
          (elim (Bool-cases ((h.layer l).output == o)) [
            | inl mine ↦
                rw (mine, unmap)
                  (unmap-IsLinked ps (write_link h p l none none) (λ q i. sub q (ground arith))
                    (subst IsLinked (sym (links-write_link h p l none none))
                      (unlink-IsLinked (links h) v p l (sub p (ground arith)) e)))
            | inr other ↦ rw (other, unmap) (unmap-IsLinked ps h (λ q i. sub q (ground arith)) v)
          ])
  ]

  pub device-unmap : (ps : List Ptr) (h : Heap) → (unmap o ps h).device ≡ h.device
  unfolding unmap
  device-unmap [] h = refl
  device-unmap (p ∷ ps) h = elim (Option-cases (h.plane p).layer) [
    | inl e ↦ rw (e, unmap) (device-unmap ps h)
    | inr (l, e) ↦
        rw (e, unmap)
          (elim (Bool-cases ((h.layer l).output == o)) [
            | inl mine ↦ rw (mine, unmap) (device-unmap ps (write_link h p l none none))
            | inr other ↦ rw (other, unmap) (device-unmap ps h)
          ])
  ]
