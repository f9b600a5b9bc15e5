-- ===== src/Example/Simple/Clean.antt =====
-- However the program of example/simple.c ends, it has kept to the rules of the public functions.
use libliftoff.Prelude.{◌≡◌, refl, inl, inr, Bool-cases}
use libliftoff.Example.World.{Client}
use libliftoff.Example.Client.Sound.{Sound}
use libliftoff.Example.Simple.{first_white}

pub heap-first_white : (c : Client) → (first_white c).1.heap ≡ c.heap
heap-first_white c = elim (Bool-cases c.is_first) [ inl e ↦ rw e refl | inr e ↦ rw e refl ]
