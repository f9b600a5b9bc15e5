-- ===== src/Example/Client/Held.antt =====
-- The memory of a program between its steps: within reach of the public functions, with the outputs
-- and the layers that the program holds.
use mathlib.Core.Path.{fun_ext, subst}
use libliftoff.Prelude.{
  ℕ, ◌≡◌, refl, sym, ap, ◌∙◌, inl, inr, Bool, true, List, [], ◌∷◌, ◌++◌, Option, none, some, arith,
  has, ==_refl, ◌==◌, Bool-cases,
}
use libliftoff.Name.{Name}
use libliftoff.Model.{Ptr, Output, Heap}
use libliftoff.Links.{links, IsLive}
use libliftoff.Layer.Life.Linked.{IsNew}
use libliftoff.Layer.Life.{leave_plane, layer_create, layer_destroy}
use libliftoff.Alloc.Apply.{liftoff_output_apply}
use libliftoff.Alloc.Apply.Registry.{Registry, registry-liftoff_output_apply}
use libliftoff.Api.{Reachable, after, create_layer, destroy_layer, set_layer_property, apply}
use libliftoff.Api.WellFormed.{Reachable-IsWellFormed}
use libliftoff.Example.World.{Env, Client, is_live}
use libliftoff.Example.Client.{set_properties, set_on}
use libliftoff.Example.Client.Sound.{listed, somes, Sound, guarded-Sound, crashed_Left}
use libliftoff.Example.Client.Within.{Within, grown, shrunk, Within-grown, Within-shrunk}

output-leave_plane : (h : Heap) (a : Option Ptr) → (leave_plane h a).output ≡ h.output
output-leave_plane h none = refl
output-leave_plane h (some p) = refl

outputs-leave_plane : (h : Heap) (a : Option Ptr) → (leave_plane h a).outputs ≡ h.outputs
outputs-leave_plane h none = refl
outputs-leave_plane h (some p) = refl

layers-layer_create :
    (h : Heap) (o l x : Ptr)
    → ((layer_create h o (some l)).1.output x).layers ≡ grown (λ o. (h.output o).layers) o l x
unfolding layer_create
layers-layer_create h o l x = ground arith

layers-layer_destroy :
    (h : Heap) (l x : Ptr)
    → ((layer_destroy h (some l)).output x).layers
      ≡ shrunk (λ o. (h.output o).layers) (h.layer l).output l x
unfolding layer_destroy
layers-layer_destroy h l x = elim (Bool-cases ((h.layer l).output == x)) [
  | inl e ↦ rw e refl
  | inr e ↦ rw e (ap (λ (f : Ptr → Output). (f x).layers) (output-leave_plane h (h.layer l).plane))
]

outputs-layer_destroy : (h : Heap) (l : Ptr) → (layer_destroy h (some l)).outputs ≡ h.outputs
unfolding layer_destroy
outputs-layer_destroy h l = outputs-leave_plane h (h.layer l).plane

-- An output, or a layer, that the program may use.
abbrev pub IsMine : List Ptr → Option Ptr → Type 0
IsMine os none = Unit {0}
IsMine os (some o) = has o os ≡ true

pub listed-IsMine : (o : Option Ptr) → IsMine (listed o) o
listed-IsMine none = tt
listed-IsMine (some o) = ground (arith, ==_refl o)

-- All of these are.
abbrev pub AreMine : List Ptr → List (Option Ptr) → Type 0
AreMine ls [] = Unit {0}
AreMine ls (l ∷ items) = IsMine ls l × AreMine ls items

AreMine-among :
    (ls : List Ptr) (items : List (Option Ptr))
    → ((x : Ptr) → has x (somes items) ≡ true → has x ls ≡ true)
    → AreMine ls items
AreMine-among ls [] among = tt
AreMine-among ls (none ∷ items) among = (tt, AreMine-among ls items among)
AreMine-among ls (some l ∷ items) among =
    (among l (ground (arith, ==_refl l)), AreMine-among ls items (λ x e. among x (ground arith)))

pub somes-AreMine : (items : List (Option Ptr)) → AreMine (somes items) items
somes-AreMine items = AreMine-among (somes items) items (λ x e. e)

module _ (env : Env) where
  pub record HoldsAll (os ls : List Ptr) (h : Heap) : Type 0 where
    pub reach : Reachable env.drm h
    pub within : Within os ls h.outputs (λ o. (h.output o).layers)

  -- The same for a program with one output at most.
  abbrev pub Holds : Option Ptr → List Ptr → Heap → Type 0
  Holds o ls h = HoldsAll (listed o) ls h

  -- A layer that the program holds is one of an output.
  pub held-IsLive :
      (os ls : List Ptr) (h : Heap) (l : Ptr)
      → HoldsAll os ls h
      → has l ls ≡ true
      → IsLive (links h) l
  held-IsLive os ls h l v here =
      let (o, there, listed) = v.within.somewhere l here in
      let at : (h.layer l).output ≡ o =
        (Reachable-IsWellFormed env.drm v.reach).linked.owned o l there listed in
      record {
        output = ap (λ x. has x h.outputs) at ∙ there;
        listed = ap (λ x. has l (h.output x).layers) at ∙ listed;
      }

  pub held-is_live :
      (os ls : List Ptr) (h : Heap) (l : Ptr)
      → HoldsAll os ls h
      → has l ls ≡ true
      → is_live h l ≡ true
  held-is_live os ls h l v here =
      let live = held-IsLive os ls h l v here in rw (live.output, live.listed) refl

  pub HoldsAll-layer_create :
      (os ls : List Ptr) (o l : Ptr) (h : Heap)
      → has o os ≡ true
      → IsNew (links h) l
      → HoldsAll os ls h
      → HoldsAll os (ls ++ l ∷ []) (layer_create h o (some l)).1
  unfolding layer_create
  HoldsAll-layer_create os ls o l h mine new v =
      let here = v.within.same o ∙ mine in
      record {
        reach = after v.reach (create_layer o l here new);
        within =
            subst (λ (f : Ptr → List Ptr). Within os (ls ++ l ∷ []) h.outputs f)
              (sym (fun_ext (layers-layer_create h o l)))
              (Within-grown os ls h.outputs (λ o. (h.output o).layers) o l here new v.within);
      }

  pub HoldsAll-layer_destroy :
      (os ls : List Ptr) (l : Ptr) (h : Heap)
      → HoldsAll os (l ∷ ls) h
      → HoldsAll os ls (layer_destroy h (some l))
  HoldsAll-layer_destroy os ls l h v =
      let alive = held-IsLive os (l ∷ ls) h l v (ground (arith, ==_refl l)) in
      let owned = (Reachable-IsWellFormed env.drm v.reach).linked.owned in
      let rest =
        Within-shrunk os ls h.outputs (λ o. (h.output o).layers) (h.layer l).output l
          (λ x there listed. sym (owned x l there listed)) v.within in
      record {
        reach = after v.reach (destroy_layer l alive);
        within =
            subst (λ (f : Ptr → List Ptr). Within os ls (layer_destroy h (some l)).outputs f)
              (sym (fun_ext (layers-layer_destroy h l)))
              (subst
                (λ xs. Within os ls xs (shrunk (λ o. (h.output o).layers) (h.layer l).output l))
                (sym (outputs-layer_destroy h l)) rest);
      }

  -- Setting properties changes no list.
  pub HoldsAll-set_properties :
      (l : Ptr) (ps : List (Name × ℕ)) (os ls : List Ptr) (c : Client)
      → HoldsAll os ls c.heap
      → HoldsAll os ls (set_properties env l ps c).heap
  HoldsAll-set_properties l [] os ls c v = v
  HoldsAll-set_properties l ((n, x) ∷ ps) os ls c v = HoldsAll-set_properties l ps os ls _ (record {
    reach = after v.reach (set_layer_property l n x (env.prop_memory c.time c.heap));
    within = v.within;
  })

  -- Nor does setting them on a layer that the program holds, and it may do so.
  pub set_on-Sound :
      (l : Option Ptr) (ps : List (Name × ℕ)) (os ls : List Ptr) (c : Client)
      → IsMine ls l
      → HoldsAll os ls c.heap
      → Sound env (λ _. HoldsAll os ls) (set_on env l ps c)
  set_on-Sound none ps os ls c mine v = crashed_Left env v.reach
  set_on-Sound (some l) ps os ls c mine v =
      guarded-Sound env (λ _. HoldsAll os ls) (is_live c.heap l) c _
        (held-is_live os ls c.heap l v mine) (HoldsAll-set_properties l ps os ls c v)

  -- However `liftoff_output_apply` ends, the lists are as before.
  pub HoldsAll-liftoff_output_apply :
      (os ls : List Ptr) (o : Ptr) (flags : ℕ) (memory : Bool) (r : env.drm.Req) (h : Heap)
      → has o os ≡ true
      → HoldsAll os ls h
      → HoldsAll os ls
          (liftoff_output_apply env.drm env.fuel o flags memory
            (record { heap = h; req = r })).1.heap
  HoldsAll-liftoff_output_apply os ls o flags memory r h mine v =
      let same =
        registry-liftoff_output_apply env.drm env.fuel o flags memory
          (record { heap = h; req = r }) in
      record {
        reach = after v.reach (apply env.fuel o flags memory r (v.within.same o ∙ mine));
        within =
            subst (λ (k : Registry). Within os ls k.outputs (λ o. (k.output o).layers)) (sym same)
              v.within;
      }
