-- ===== src/Example/Multi/Opened.antt =====
-- The loop over the connectors of example/multi-output.c, and the outputs it leaves.
use mathlib.Core.Path.{subst}
use mathlib.Core.List.{append_assoc}
use libliftoff.Prelude.{
  ℕ, ◌≡◌, sym, ap, inl, inr, List, [], ◌∷◌, ◌++◌, Option, none, some, ◌==◌, Bool-cases,
}
use libliftoff.Model.{Ptr}
use libliftoff.Example.Modes.{Crtc, Resources, Checked, stops, done}
use libliftoff.Example.World.{Env, Client}
use libliftoff.Example.Client.Sound.{IsFresh, listed, append-nil, Sound, Sound-follow, crashed_Left}
use libliftoff.Example.Client.Opened.{HoldsAll-output_create}
use libliftoff.Example.Multi.{
  Screen, max_outputs, count_more, put_first, crtc_for, add_output, open_outputs,
}
use libliftoff.Example.Client.Held.{HoldsAll}

-- The addresses of the outputs.
abbrev pub owner_of : Option Screen → List Ptr
owner_of none = []
owner_of (some (o, crtc)) = listed o

abbrev pub owners : List Screen → List Ptr
owners [] = []
owners ((o, crtc) ∷ ss) = listed o ++ owners ss

owners-put_first :
    (os : List Ptr) (s : Option Screen) (ss : List Screen)
    → (os ++ owner_of s) ++ owners ss ≡ os ++ owners (put_first s ss)
owners-put_first os none ss = ap (λ xs. xs ++ owners ss) (append-nil os)
owners-put_first os (some (o, crtc)) ss = append_assoc os (listed o) (owners ss)

module _ (env : Env) where
  module _ (fresh : IsFresh env) where
    add_output-Sound :
        (n : ℕ) (x : Checked (Option Crtc)) (os : List Ptr) (c : Client)
        → HoldsAll env os [] c.heap
        → Sound env (λ s. HoldsAll env (os ++ owner_of s) []) (add_output env n x c)
    add_output-Sound n stops os c v = crashed_Left env v.reach
    add_output-Sound n (done none) os c v =
        subst (λ xs. HoldsAll env xs [] c.heap) (sym (append-nil os)) v
    add_output-Sound n (done (some crtc)) os c v =
        let w = HoldsAll-output_create env fresh os crtc.crtc_id c.time c.heap v in
        elim (Bool-cases (n == max_outputs)) [
          | inl e ↦ rw e (crashed_Left env w.reach)
          | inr e ↦ rw e w
        ]

    -- The outputs of the program are those that the loop has made.
    pub open_outputs-Sound :
        (res : Resources) (ids : List ℕ) (n : ℕ) (os : List Ptr) (c : Client)
        → HoldsAll env os [] c.heap
        → Sound env (λ ss. HoldsAll env (os ++ owners ss) []) (open_outputs env res ids n c)
    unfolding open_outputs
    open_outputs-Sound res [] n os c v =
        subst (λ xs. HoldsAll env xs [] c.heap) (sym (append-nil os)) v
    open_outputs-Sound res (id ∷ ids) n os c v =
        Sound-follow env (λ s. HoldsAll env (os ++ owner_of s) [])
          (λ ss. HoldsAll env (os ++ owners ss) [])
          (add_output env n (crtc_for env res (env.modes.get_connector id)) c) _
          (add_output-Sound n _ os c v)
          (λ s c v.
            Sound-follow env (λ ss. HoldsAll env ((os ++ owner_of s) ++ owners ss) [])
              (λ ss. HoldsAll env (os ++ owners ss) [])
              (open_outputs env res ids (count_more n s) c) _
              (open_outputs-Sound res ids (count_more n s) (os ++ owner_of s) c v)
              (λ ss c v. subst (λ xs. HoldsAll env xs [] c.heap) (owners-put_first os s ss) v))
