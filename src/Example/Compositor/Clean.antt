-- ===== src/Example/Compositor/Clean.antt =====
-- However the program of example/compositor.c ends, it has kept to the rules of the public functions.
use libliftoff.Model.{Layer, Output}
use libliftoff.Example.World.{Client}
use libliftoff.Example.Client.Sound.{Sound}
use libliftoff.Example.Client.Within.{Within}
