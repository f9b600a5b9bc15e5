-- ===== src/Example/Multi/Ended.antt =====
-- The last steps of example/multi-output.c: its layers, its outputs and its device are destroyed.
use libliftoff.Prelude.{List, [], ◌∷◌, Option}
use libliftoff.Model.{Ptr}
use libliftoff.Example.Client.{destroy_layers, remove_output}
use libliftoff.Example.World.{Env, Client}
use libliftoff.Example.Client.Sound.{somes, Left, Sound, Sound-follow}
use libliftoff.Example.Client.Ended.{
  Emptied, destroy_layers-Sound, HoldsAll-Emptied, remove_output-Sound, destroy_device-Sound,
}
use libliftoff.Example.Multi.{Screen, destroy_outputs, destroy_all}
use libliftoff.Example.Client.Held.{HoldsAll}
use libliftoff.Example.Multi.Opened.{owners}

module _ (env : Env) where
  destroy_outputs-Sound :
      (ss : List Screen) (c : Client)
      → Emptied env (owners ss) c.heap
      → Sound env (λ _. Emptied env []) (destroy_outputs env ss c)
  destroy_outputs-Sound [] c v = v
  destroy_outputs-Sound ((o, crtc) ∷ ss) c v =
      Sound-follow env (λ _. Emptied env (owners ss)) (λ _. Emptied env []) (remove_output env o c)
        _ (remove_output-Sound env o (owners ss) c v) (λ _ c v. destroy_outputs-Sound ss c v)

  -- In the end there is neither a plane nor an output.
  pub destroy_all-Sound :
      (ss : List Screen) (items : List (Option Ptr)) (c : Client)
      → HoldsAll env (owners ss) (somes items) c.heap
      → Sound env (Left env) (destroy_all env ss items c)
  destroy_all-Sound ss items c v =
      Sound-follow env (λ _. HoldsAll env (owners ss) []) (Left env) (destroy_layers env items c) _
        (destroy_layers-Sound env items (owners ss) c v)
        (λ _ c v.
          Sound-follow env (λ _. Emptied env []) (Left env) (destroy_outputs env ss c) _
            (destroy_outputs-Sound ss c (HoldsAll-Emptied env (owners ss) c.heap v))
            (λ _ c v. destroy_device-Sound env c v))
