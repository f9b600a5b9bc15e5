-- ===== src/Example/Client/Ended.antt =====
-- The last steps of a program: its layers, its outputs and its device are destroyed.
use mathlib.Core.Path.{subst}
use libliftoff.Prelude.{
  ◌≡◌, refl, sym, ap, ◌&&◌, ◌∙◌, ◌++◌, true, List, [], ◌∷◌, Option, none, some, arith, has,
  has-without, false, Unique, ==_refl,
}
use libliftoff.Model.{Ptr, Heap}
use libliftoff.Output.{output_destroy}
use libliftoff.Plane.Life.{plane_destroy}
use libliftoff.Device.Life.{destroy_planes}
use libliftoff.Device.Life.WellFormed.{device_destroy_lem, planes-plane_destroy, planes_left}
use libliftoff.Api.{Reachable, after, destroy_plane, destroy_output}
use libliftoff.Api.WellFormed.{Reachable-IsWellFormed}
use libliftoff.Example.Client.{
  is_none, destroy_layer, destroy_layers, remove_output, destroy_device, tear_down,
}
use libliftoff.Example.World.{Env, Client}
use libliftoff.Example.Client.Sound.{
  somes, listed, append-nil, Left, Sound, Sound-follow, guarded-Sound,
}
use libliftoff.Example.Client.Held.{HoldsAll, Holds, held-is_live, HoldsAll-layer_destroy}

outputs-plane_destroy : (h : Heap) (p : Ptr) → (plane_destroy h p).outputs ≡ h.outputs
unfolding plane_destroy
outputs-plane_destroy h p = refl

no_member : (xs : List Ptr) → ((x : Ptr) → has x xs ≡ true → false ≡ true) → xs ≡ []
no_member [] none_has = refl
no_member (x ∷ xs) none_has = cc (none_has x (ground (arith, ==_refl x)))

module _ (env : Env) where
  destroy_layer-Sound :
      (l : Option Ptr) (items : List (Option Ptr)) (os : List Ptr) (c : Client)
      → HoldsAll env os (somes (l ∷ items)) c.heap
      → Sound env (λ _. HoldsAll env os (somes items)) (destroy_layer env l c)
  destroy_layer-Sound none items os c v = v
  destroy_layer-Sound (some l) items os c v =
      guarded-Sound env (λ _. HoldsAll env os (somes items)) _ c _
        (held-is_live env os (l ∷ somes items) c.heap l v (ground (arith, ==_refl l)))
        (HoldsAll-layer_destroy env os (somes items) l c.heap v)

  -- The layers are live when they are destroyed.
  pub destroy_layers-Sound :
      (items : List (Option Ptr)) (os : List Ptr) (c : Client)
      → HoldsAll env os (somes items) c.heap
      → Sound env (λ _. HoldsAll env os []) (destroy_layers env items c)
  destroy_layers-Sound [] os c v = v
  destroy_layers-Sound (l ∷ items) os c v =
      Sound-follow env (λ _. HoldsAll env os (somes items)) (λ _. HoldsAll env os [])
        (destroy_layer env l c) _ (destroy_layer-Sound l items os c v)
        (λ _ c v. destroy_layers-Sound items os c v)

  -- The outputs of the device are these, and have no layers.
  pub record Emptied (os : List Ptr) (h : Heap) : Type 0 where
    pub reach : Reachable env.drm h
    pub same : (o : Ptr) → has o h.outputs ≡ has o os
    pub empty : (o : Ptr) → has o os ≡ true → (h.output o).layers ≡ []
    pub alone : Unique os

  pub HoldsAll-Emptied : (os : List Ptr) (h : Heap) → HoldsAll env os [] h → Emptied os h
  HoldsAll-Emptied os h v = record {
    reach = v.reach;
    same = v.within.same;
    empty = λ o mine.
        no_member (h.output o).layers
          (λ l listed. v.within.covers o l (v.within.same o ∙ mine) listed);
    alone = v.within.alone;
  }

  Emptied-output_destroy :
      (o : Ptr) (os : List Ptr) (h : Heap)
      → Emptied (o ∷ os) h
      → Emptied os (output_destroy h (some o))
  unfolding output_destroy
  Emptied-output_destroy o os h v = record {
    reach = after v.reach (destroy_output o (v.empty o (ground (arith, ==_refl o))));
    same = λ x. has-without o x h.outputs ∙ ground (arith, v.same x, v.alone.0);
    empty = λ x mine. v.empty x (ground arith);
    alone = v.alone.1;
  }

  -- An output is there when it is destroyed.
  pub remove_output-Sound :
      (o : Option Ptr) (os : List Ptr) (c : Client)
      → Emptied (listed o ++ os) c.heap
      → Sound env (λ _. Emptied os) (remove_output env o c)
  remove_output-Sound none os c v = v
  remove_output-Sound (some o) os c v =
      guarded-Sound env (λ _. Emptied os) (has o c.heap.outputs && is_none (c.heap.output o).layers)
        c _ (rw (v.same o, ==_refl o, v.empty o (ground (arith, ==_refl o))) refl)
        (Emptied-output_destroy o os c.heap v)

  destroy_planes-Reachable :
      (ps : List Ptr) (h : Heap)
      → h.planes ≡ ps
      → Reachable env.drm h
      → Reachable env.drm (destroy_planes ps h) × ((destroy_planes ps h).outputs ≡ h.outputs)
  unfolding destroy_planes
  destroy_planes-Reachable [] h e v = (v, refl)
  destroy_planes-Reachable (p ∷ ps) h e v =
      let here : has p h.planes ≡ true = rw e (ground (arith, ==_refl p)) in
      let unique : Unique (p ∷ ps) = subst Unique e (Reachable-IsWellFormed env.drm v).unique in
      let left = planes-plane_destroy h p ∙ planes_left p ps h.planes e unique.0 in
      let (w, same) =
        destroy_planes-Reachable ps (plane_destroy h p) left (after v (destroy_plane p here)) in
      (w, same ∙ outputs-plane_destroy h p)

  -- In the end there is neither a plane nor an output.
  pub destroy_device-Sound :
      (c : Client) → Emptied [] c.heap → Sound env (Left env) (destroy_device env c)
  destroy_device-Sound c v =
      let none_left = no_member c.heap.outputs (λ x e. sym (v.same x) ∙ e) in
      let (ended, same) = destroy_planes-Reachable c.heap.planes c.heap refl v.reach in
      guarded-Sound env (Left env) _ c _ (ap is_none none_left) (record {
        reach = ended;
        allowed = λ e. cc;
        emptied = λ _. (
          (device_destroy_lem c.heap (Reachable-IsWellFormed env.drm v.reach)).0,
          same ∙ none_left,
        );
      })

  pub tear_down-Sound :
      (items : List (Option Ptr)) (o : Option Ptr) (c : Client)
      → Holds env o (somes items) c.heap
      → Sound env (Left env) (tear_down env items o c)
  tear_down-Sound items o c v =
      Sound-follow env (λ _. Holds env o []) (Left env) (destroy_layers env items c) _
        (destroy_layers-Sound items (listed o) c v)
        (λ _ c v.
          Sound-follow env (λ _. Emptied []) (Left env) (remove_output env o c) _
            (remove_output-Sound o [] c (
              subst (λ os. Emptied os c.heap) (sym (append-nil (listed o)))
                (HoldsAll-Emptied (listed o) c.heap v)))
            (λ _ c v. destroy_device-Sound c v))
