-- ===== src/Example/Multi/Clean.antt =====
-- However the program of example/multi-output.c ends, it has kept to the rules of the public
-- functions.
use libliftoff.Example.World.{Client}
use libliftoff.Example.Client.Sound.{Sound}
