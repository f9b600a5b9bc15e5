-- ===== src/Example/Client/Opened.antt =====
-- A device without outputs, and a new output.
use mathlib.Core.Path.{fun_ext, subst}
use libliftoff.Prelude.{
  ℕ, ◌≡◌, refl, sym, ◌∙◌, has, false, Unique-append, inl, inr, List, [], ◌∷◌, ◌++◌, arith,
  has-append, ◌==◌, if◌then◌else◌, Bool-cases, Option-cases,
}
use libliftoff.Model.{Ptr, Heap}
use libliftoff.Output.{output_create, crtc_index_from}
use libliftoff.Api.{Reachable, after, create_output}
use libliftoff.Example.World.{Env}
use libliftoff.Example.Client.Sound.{IsFresh, listed, append-nil}
use libliftoff.Example.Client.Within.{Within}
use libliftoff.Example.Client.Held.{HoldsAll}

-- A new output has no layers.
abbrev opened : (Ptr → List Ptr) → Ptr → Ptr → List Ptr
opened f o x = if o == x then [] else f x

Within-opened :
    (os outputs : List Ptr) (f : Ptr → List Ptr) (o : Ptr)
    → has o outputs ≡ false
    → Within os [] outputs f
    → Within (os ++ o ∷ []) [] (o ∷ outputs) (opened f o)
Within-opened os outputs f o new v = record {
  same = λ x. ground (arith, v.same x, has-append x os (o ∷ []));
  somewhere = λ l e. cc;
  covers = λ x l there listed. elim (Bool-cases (o == x)) [
    | inl e ↦ rw e at listed
    | inr e ↦ v.covers x l (ground arith) (rw e at listed)
  ];
  unique = tt;
  alone = Unique-append os o v.alone (sym (v.same o) ∙ new);
}

module _ (env : Env) where
  -- A device without outputs.
  abbrev pub Bare : Heap → Type 0
  Bare h = Reachable env.drm h × (h.outputs ≡ [])

  -- The program has neither outputs nor layers.
  pub Bare-HoldsAll : (h : Heap) → Bare h → HoldsAll env [] [] h
  Bare-HoldsAll h (reach, none_yet) = record {
    reach = reach;
    within =
        subst (λ xs. Within [] [] xs (λ o. (h.output o).layers)) (sym none_yet)
          (record {
            same = λ o. refl;
            somewhere = λ l e. cc;
            covers = λ o l there listed. there;
            unique = tt;
            alone = tt;
          });
  }

  module _ (fresh : IsFresh env) where
    pub HoldsAll-output_create :
        (os : List Ptr) (crtc t : ℕ) (h : Heap)
        → HoldsAll env os [] h
        → let (o, h') = output_create h crtc (env.output_calloc t h) in
          HoldsAll env (os ++ listed o) [] h'
    unfolding output_create
    HoldsAll-output_create os crtc t h v = elim (Option-cases (crtc_index_from crtc 0 h.crtcs)) [
      | inl e ↦ rw (output_create, e) (subst (λ xs. HoldsAll env xs [] h) (sym (append-nil os)) v)
      | inr (i, e) ↦ elim (Option-cases (env.output_calloc t h)) [
        | inl f ↦
            rw (output_create, e, f) (subst (λ xs. HoldsAll env xs [] h) (sym (append-nil os)) v)
        | inr (o, f) ↦
            let new = fresh.output t h o f in
            let made = after v.reach (create_output crtc o new) in
            rw (output_create, e, f)
              (record {
                reach = rw (output_create, e) at made;
                within =
                    subst (λ (g : Ptr → List Ptr). Within (os ++ o ∷ []) [] (o ∷ h.outputs) g)
                      (fun_ext (λ x. ground arith))
                      (Within-opened os h.outputs (λ o. (h.output o).layers) o new v.within);
              })
      ]
    ]
