-- ===== src/Example/Client/Shown.antt =====
-- The layers and the outputs of a program, from the first layer to the commit.
use mathlib.Core.Path.{fun_ext, subst}
use mathlib.Core.List.{map}
use libliftoff.Prelude.{
  ℕ, zero, suc, ◌≡◌, refl, sym, ap, ◌∙◌, inl, inr, List, [], ◌∷◌, ◌++◌, Option, none, some,
  Bool-cases, Option-cases,
}
use libliftoff.Errno.{Outcome, ok, err, abort, hang}
use libliftoff.Name.{Name, zpos}
use libliftoff.Model.{Ptr, Heap}
use libliftoff.Layer.Life.{layer_create}
use libliftoff.Alloc.Apply.{Session}
use libliftoff.Example.Modes.{Checked, stops, done}
use libliftoff.Example.Client.{
  new_placed_layer, show_fb, set_on, set_zpos, after_apply, apply_output, commit_request,
}
use libliftoff.Example.World.{Env, Client, Prog, add_each, DumbFb}
use libliftoff.Example.Client.Sound.{
  IsFresh, somes, listed, append-nil, Sound, Sound-follow, guarded-Sound, failed_Left, crashed_Left,
  hung_Left,
}
use libliftoff.Example.Client.Held.{
  IsMine, AreMine, HoldsAll, Holds, set_on-Sound, HoldsAll-layer_create, HoldsAll-set_properties,
  HoldsAll-liftoff_output_apply,
}

map_same : (items : List (Option Ptr)) → map (λ l. l) items ≡ items
map_same [] = refl
map_same (l ∷ items) = ap (λ ls. l ∷ ls) (map_same items)

module _ (env : Env) where
  abbrev pub HoldsMore : Option Ptr → List Ptr → Option Ptr → Heap → Type 0
  HoldsMore o ls l h = Holds env o (ls ++ listed l) h

  somes-cons :
      (ls : List Ptr) (l : Option Ptr) (items : List (Option Ptr))
      → (ls ++ listed l) ++ somes items ≡ ls ++ somes (l ∷ items)
  somes-cons ls none items = ap (λ xs. xs ++ somes items) (append-nil ls)
  somes-cons [] (some l) items = refl
  somes-cons (x ∷ ls) (some l) items = ap (λ xs. x ∷ xs) (somes-cons ls (some l) items)

  -- A loop that adds layers puts them behind the others, whatever else is said of the
  -- memory.
  module _ {A : Type 0} (of : A → Option Ptr) (add : ℕ → Client → Prog A)
      (H : List Ptr → Heap → Type 0)
      (adds : (i : ℕ) (ls : List Ptr) (c : Client)
        → H ls c.heap
        → Sound env (λ a. H (ls ++ listed (of a))) (add i c)) where
    pub add_each-Sound :
        (i n : ℕ) (ls : List Ptr) (c : Client)
        → H ls c.heap
        → Sound env (λ items. H (ls ++ somes (map of items))) (add_each add i n c)
    add_each-Sound i zero ls c v = subst (λ xs. H xs c.heap) (sym (append-nil ls)) v
    add_each-Sound i (suc n) ls c v =
        Sound-follow env (λ a. H (ls ++ listed (of a))) (λ items. H (ls ++ somes (map of items)))
          (add i c) _ (adds i ls c v)
          (λ a d w.
            Sound-follow env (λ items. H ((ls ++ listed (of a)) ++ somes (map of items)))
              (λ items. H (ls ++ somes (map of items))) (add_each add (suc i) n d) _
              (add_each-Sound (suc i) n (ls ++ listed (of a)) d w)
              (λ items e u. subst (λ xs. H xs e.heap) (somes-cons ls (of a) (map of items)) u))

  -- The same for layers that are kept as they are.
  pub add_layers-Sound :
      (add : ℕ → Client → Prog (Option Ptr)) (H : List Ptr → Heap → Type 0)
      → ((i : ℕ) (ls : List Ptr) (c : Client)
          → H ls c.heap
          → Sound env (λ a. H (ls ++ listed a)) (add i c))
      → (i n : ℕ) (ls : List Ptr) (c : Client) → H ls c.heap
      → Sound env (λ items. H (ls ++ somes items)) (add_each add i n c)
  add_layers-Sound add H adds i n ls c v =
      subst
        (λ (f : List (Option Ptr) → List (Option Ptr)).
          Sound env (λ items. H (ls ++ somes (f items))) (add_each add i n c))
        (fun_ext (λ items. map_same items)) (add_each-Sound (λ l. l) add H adds i n ls c v)

module _ (env : Env) (os : List Ptr) where
  module _ (fresh : IsFresh env) where
    -- A new layer comes behind the others.
    pub new_placed_layer-Sound :
        (o : Option Ptr) (props : List (Name × ℕ)) (ls : List Ptr) (c : Client)
        → IsMine os o
        → HoldsAll env os ls c.heap
        → Sound env (λ l. HoldsAll env os (ls ++ listed l)) (new_placed_layer env o props c)
    unfolding new_placed_layer layer_create
    new_placed_layer-Sound none props ls c mine v = crashed_Left env v.reach
    new_placed_layer-Sound (some o) props ls c mine v =
        guarded-Sound env (λ l. HoldsAll env os (ls ++ listed l)) _ c _ (v.within.same o ∙ mine)
          (elim (Option-cases (env.layer_calloc c.time c.heap)) [
            | inl e ↦ rw (e, layer_create) (crashed_Left env v.reach)
            | inr (l, e) ↦ rw e (
                HoldsAll-set_properties env l props os (ls ++ l ∷ []) _ (
                  HoldsAll-layer_create env os ls o l c.heap mine (fresh.layer c.time c.heap l e)
                    v))
          ])

    pub show_fb-Sound :
        (o : Option Ptr) (pick : Client → ℕ × Client) (props : ℕ → List (Name × ℕ)) (ls : List Ptr)
        (c : Client) (fb : Checked (Option DumbFb))
        → ((d : Client) → (pick d).1.heap ≡ d.heap)
        → IsMine os o
        → HoldsAll env os ls c.heap
        → Sound env (λ l. HoldsAll env os (ls ++ listed l)) (show_fb env o pick props c fb)
    show_fb-Sound o pick props ls c stops same mine v = crashed_Left env v.reach
    show_fb-Sound o pick props ls c (done none) same mine v =
        subst (λ xs. HoldsAll env os xs c.heap) (sym (append-nil ls)) v
    show_fb-Sound o pick props ls c (done (some fb)) same mine v =
        new_placed_layer-Sound o (props fb.id) ls _ mine
          (subst (HoldsAll env os ls) (sym (same c)) v)

  module _ (ls : List Ptr) where
    pub set_zpos-Sound :
        (i : ℕ) (items : List (Option Ptr)) (c : Client)
        → AreMine ls items
        → HoldsAll env os ls c.heap
        → Sound env (λ _. HoldsAll env os ls) (set_zpos env i items c)
    set_zpos-Sound i [] c mine v = v
    set_zpos-Sound i (l ∷ items) c (m, ms) v =
        Sound-follow env (λ _. HoldsAll env os ls) (λ _. HoldsAll env os ls)
          (set_on env l ((zpos, i) ∷ []) c) _ (set_on-Sound env l ((zpos, i) ∷ []) os ls c m v)
          (λ _ c v. set_zpos-Sound (suc i) items c ms v)

    after_apply-Sound :
        (x : Outcome × Session env.drm.Req) (c : Client)
        → HoldsAll env os ls x.1.heap
        → Sound env (λ _. HoldsAll env os ls) (after_apply env x c)
    after_apply-Sound (ok, s) c v = v
    after_apply-Sound (err e, s) c v = failed_Left env v.reach
    after_apply-Sound (abort, s) c v = crashed_Left env v.reach
    after_apply-Sound (hang, s) c v = hung_Left env v.reach

    pub apply_output-Sound :
        (o : Option Ptr) (flags : ℕ) (r : env.drm.Req) (c : Client)
        → IsMine os o
        → HoldsAll env os ls c.heap
        → Sound env (λ _. HoldsAll env os ls) (apply_output env o flags r c)
    unfolding apply_output
    apply_output-Sound none flags r c mine v = crashed_Left env v.reach
    apply_output-Sound (some o) flags r c mine v =
        guarded-Sound env (λ _. HoldsAll env os ls) _ c _ (v.within.same o ∙ mine)
          (after_apply-Sound _ _ (
            HoldsAll-liftoff_output_apply env os ls o flags (env.alloc_memory c.time c.heap) r
              c.heap mine v))

    pub commit_request-Sound :
        (flags : ℕ) (r : env.drm.Req) (c : Client)
        → HoldsAll env os ls c.heap
        → Sound env (λ _. HoldsAll env os ls) (commit_request env flags r c)
    unfolding commit_request
    commit_request-Sound flags r c v = elim (Bool-cases (env.commits c.heap r flags)) [
      | inl e ↦ rw (commit_request, e) v
      | inr e ↦ rw (commit_request, e) (failed_Left env v.reach)
    ]
