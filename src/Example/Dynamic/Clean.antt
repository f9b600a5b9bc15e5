-- ===== src/Example/Dynamic/Clean.antt =====
-- However the program of example/dynamic.c ends, it has kept to the rules of the public functions.
use mathlib.Core.List.{map}
use libliftoff.Prelude.{◌≡◌, List, Option}
use libliftoff.Model.{Ptr, Heap}
use libliftoff.Example.World.{Env, Client}
use libliftoff.Example.Client.Sound.{Sound}
use libliftoff.Example.Client.Held.{Holds}
use libliftoff.Example.Dynamic.{ExampleLayer}

abbrev layers_of : List ExampleLayer → List (Option Ptr)
layers_of ls = map (λ l. l.layer) ls

module _ (env : Env) (o : Option Ptr) where
  -- The program goes on with a layer, or with a list, of the same `liftoff_layer`s.
  abbrev SameLayer : ExampleLayer → List Ptr → ExampleLayer → Heap → Type 0
  SameLayer l ls l' h = (l'.layer ≡ l.layer) × Holds env o ls h

  abbrev Same : List ExampleLayer → List Ptr → List ExampleLayer → Heap → Type 0
  Same items ls items' h = (layers_of items' ≡ layers_of items) × Holds env o ls h
