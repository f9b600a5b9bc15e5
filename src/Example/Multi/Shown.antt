-- ===== src/Example/Multi/Shown.antt =====
-- The layers of example/multi-output.c, from the first one to the commit.
use mathlib.Core.Path.{subst}
use mathlib.Core.List.{map, append_assoc}
use libliftoff.Prelude.{
  ℕ, ◌≡◌, refl, sym, ap, ◌∙◌, inl, inr, Bool, false, List, [], ◌∷◌, ◌++◌, Option, none, some, ◌==◌,
  Bool-cases,
}
use libliftoff.Model.{Ptr}
use libliftoff.Example.Client.{apply_output, dumb_fb_init}
use libliftoff.Example.World.{Env, Client, tick, format_of, placement, nonblock}
use libliftoff.Example.Client.Sound.{IsFresh, somes, listed, append-nil, Sound, Sound-follow}
use libliftoff.Example.Client.Shown.{add_layers-Sound, show_fb-Sound, apply_output-Sound}
use libliftoff.Example.Simple.{first_white}
use libliftoff.Example.Simple.Clean.{heap-first_white}
use libliftoff.Example.Multi.{
  Screen, layers_per_output, add_output_layer, output_layer_at, add_output_layers, apply_outputs,
}
use libliftoff.Example.Client.Held.{IsMine, AreMine, somes-AreMine, HoldsAll}
use libliftoff.Example.Multi.Opened.{owners}

-- The outputs that the program has.
abbrev pub outputs_of : List Screen → List (Option Ptr)
outputs_of ss = map (λ s. s.0) ss

owners_lem : (ss : List Screen) → somes (outputs_of ss) ≡ owners ss
owners_lem [] = refl
owners_lem ((none, crtc) ∷ ss) = owners_lem ss
owners_lem ((some o, crtc) ∷ ss) = ap (λ os. o ∷ os) (owners_lem ss)

pub owners-AreMine : (ss : List Screen) → AreMine (owners ss) (outputs_of ss)
owners-AreMine ss =
    subst (λ os. AreMine os (outputs_of ss)) (owners_lem ss) (somes-AreMine (outputs_of ss))

somes-append : (ls rest : List (Option Ptr)) → somes (ls ++ rest) ≡ somes ls ++ somes rest
somes-append [] rest = refl
somes-append (none ∷ ls) rest = somes-append ls rest
somes-append (some l ∷ ls) rest = ap (λ xs. l ∷ xs) (somes-append ls rest)

module _ (env : Env) (os : List Ptr) where
  module _ (fresh : IsFresh env) where
    add_output_layer-Sound :
        (o : Option Ptr) (x y width height : ℕ) (with_alpha : Bool) (ls : List Ptr) (c : Client)
        → IsMine os o
        → HoldsAll env os ls c.heap
        → Sound env
            (λ l. HoldsAll env os (ls ++ listed l))
            (add_output_layer env o x y width height with_alpha c)
    unfolding add_output_layer
    add_output_layer-Sound o x y width height with_alpha ls c mine v =
        show_fb-Sound env os fresh o first_white (λ fb. placement fb x y width height) ls (tick c)
          (dumb_fb_init env c.time (format_of with_alpha) width height) heap-first_white mine v

    output_layer_at-Sound :
        (s : Screen) (j : ℕ) (ls : List Ptr) (c : Client)
        → IsMine os s.0
        → HoldsAll env os ls c.heap
        → Sound env (λ l. HoldsAll env os (ls ++ listed l)) (output_layer_at env s j c)
    output_layer_at-Sound (o, crtc) j ls c mine v = elim (Bool-cases (j == 0)) [
      | inl e ↦ rw e (add_output_layer-Sound o 0 0 crtc.hdisplay crtc.vdisplay false ls c mine v)
      | inr e ↦ rw e (add_output_layer-Sound o _ _ 256 256 _ ls c mine v)
    ]

    -- The layers of the outputs come one behind the other.
    pub add_output_layers-Sound :
        (ss : List Screen) (ls : List Ptr) (c : Client)
        → AreMine os (outputs_of ss)
        → HoldsAll env os ls c.heap
        → Sound env (λ items. HoldsAll env os (ls ++ somes items)) (add_output_layers env ss c)
    unfolding add_output_layers
    add_output_layers-Sound [] ls c mine v =
        subst (λ xs. HoldsAll env os xs c.heap) (sym (append-nil ls)) v
    add_output_layers-Sound (s ∷ ss) ls c (m, ms) v =
        Sound-follow env (λ items. HoldsAll env os (ls ++ somes items))
          (λ items. HoldsAll env os (ls ++ somes items)) _ _
          (add_layers-Sound env (output_layer_at env s) (HoldsAll env os)
            (λ j ls c v. output_layer_at-Sound s j ls c m v) 0 layers_per_output ls c v)
          (λ items c v.
            Sound-follow env (λ rest. HoldsAll env os ((ls ++ somes items) ++ somes rest))
              (λ items. HoldsAll env os (ls ++ somes items)) _ _
              (add_output_layers-Sound ss (ls ++ somes items) c ms v)
              (λ rest c v.
                subst (λ xs. HoldsAll env os xs c.heap)
                  (append_assoc ls (somes items) (somes rest)
                    ∙ ap (λ xs. ls ++ xs) (sym (somes-append items rest)))
                  v))

  module _ (ls : List Ptr) where
    -- The outputs are applied one after the other.
    pub apply_outputs-Sound :
        (ss : List Screen) (r : env.drm.Req) (c : Client)
        → AreMine os (outputs_of ss)
        → HoldsAll env os ls c.heap
        → Sound env (λ _. HoldsAll env os ls) (apply_outputs env ss r c)
    unfolding apply_outputs
    apply_outputs-Sound [] r c mine v = v
    apply_outputs-Sound ((o, crtc) ∷ ss) r c (m, ms) v =
        Sound-follow env (λ _. HoldsAll env os ls) (λ _. HoldsAll env os ls)
          (apply_output env o nonblock r c) _ (apply_output-Sound env os ls o nonblock r c m v)
          (λ r c v. apply_outputs-Sound ss r c ms v)
