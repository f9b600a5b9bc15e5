-- ===== src/Output/Linked.antt =====
-- The pointers agree after an output has been made or destroyed, or has got a composition layer.
use libliftoff.Prelude.{
  ◌≡◌, refl, inl, inr, false, [], some, arith, has, has-without, ==_refl, Option-cases,
}
use libliftoff.Model.{Ptr, Heap}
use libliftoff.Links.{links, IsLive, IsLinked}
use libliftoff.Output.{crtc_index_from, output_create, output_destroy, set_composition_layer}

module _ (h : Heap) (v : IsLinked (links h)) where
  -- If the pointers agree, making an output at an address that is not yet one of an output leaves
  -- them in agreement, whether or not the device has the CRTC.
  pub output_create-IsLinked :
      (crtc o : Ptr) → has o h.outputs ≡ false → IsLinked (links (output_create h crtc (some o)).1)
  unfolding output_create
  output_create-IsLinked crtc o new = elim (Option-cases (crtc_index_from crtc 0 h.crtcs)) [
    | inl e ↦ rw (e, output_create) v
    | inr (i, e) ↦
        rw (e, output_create)
          (record {
            shown_live = λ p m j q.
                let live = v.shown_live p m j q in
                record {
                  output = ground (arith, live.output);
                  listed = ground (arith, live.output, live.listed);
                };
            shown_mapped = v.shown_mapped;
            mapped_plane = λ m p live q.
                v.mapped_plane m p
                  (record {
                    output = ground (arith, live.output, live.listed);
                    listed = ground (arith, live.output, live.listed);
                  })
                  q;
            mapped_shown = λ m p live q.
                v.mapped_shown m p
                  (record {
                    output = ground (arith, live.output, live.listed);
                    listed = ground (arith, live.output, live.listed);
                  })
                  q;
            owned = λ o' m j q. ground (arith, v.owned o' m);
            composition_listed = λ o' c j q. ground (arith, v.composition_listed o' c);
          })
  ]

  -- If the pointers agree, destroying an output that has no layers left leaves them in agreement.
  pub output_destroy-IsLinked :
      (o : Ptr) → (h.output o).layers ≡ [] → IsLinked (links (output_destroy h (some o)))
  unfolding output_destroy
  output_destroy-IsLinked o empty = record {
    shown_live = λ p m j q.
        let live = v.shown_live p m j q in
        record {
          output =
              ground (arith, live.output, live.listed, has-without o (h.layer m).output h.outputs);
          listed = live.listed;
        };
    shown_mapped = v.shown_mapped;
    mapped_plane = λ m p live q.
        v.mapped_plane m p
          (record {
            output = ground (arith, live.output, has-without o (h.layer m).output h.outputs);
            listed = live.listed;
          })
          q;
    mapped_shown = λ m p live q.
        v.mapped_shown m p
          (record {
            output = ground (arith, live.output, has-without o (h.layer m).output h.outputs);
            listed = live.listed;
          })
          q;
    owned = λ o' m j q. v.owned o' m (ground (arith, has-without o o' h.outputs)) q;
    composition_listed =
        λ o' c j q. v.composition_listed o' c (ground (arith, has-without o o' h.outputs)) q;
  }

  -- If the pointers agree, giving its output a live layer as the composition layer fails no
  -- assertion and leaves them in agreement.
  pub set_composition_layer-IsLinked :
      (l : Ptr)
      → IsLive (links h) l
      → (h' : Heap) × (set_composition_layer h (h.layer l).output l ≡ some h') × IsLinked (links h')
  unfolding set_composition_layer
  set_composition_layer-IsLinked l alive = rw (==_refl (h.layer l).output) (
    _,
    refl,
    record {
      shown_live = λ p m j q.
          let live = v.shown_live p m j q in
          record { output = live.output; listed = ground (arith, live.listed) };
      shown_mapped = v.shown_mapped;
      mapped_plane = λ m p live q.
          v.mapped_plane m p (record { output = live.output; listed = ground (arith, live.listed) })
            q;
      mapped_shown = λ m p live q.
          v.mapped_shown m p (record { output = live.output; listed = ground (arith, live.listed) })
            q;
      owned = λ o m j q. v.owned o m j (ground arith);
      composition_listed = λ o c j q. ground (arith, v.composition_listed o c j, alive.listed);
    },
  )
