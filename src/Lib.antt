-- ===== src/Lib.antt =====
-- libliftoff lays the layers of a compositor's output out on the planes of a KMS device. A client
-- makes a device, registers its planes, makes outputs and layers, sets properties on the layers,
-- and calls liftoff_output_apply, which chooses a layer for each plane by a search that asks the
-- kernel by test-only commits, and puts the result into the client's atomic request. Layers without
-- a plane are left to the client to composite.
--
-- Which file is about which code:
-- - Model, Links: the structs of include/private.h. An object is known by its address; the memory
--   holds an object at each address. Intrusive lists are lists of addresses. Links is the view of
--   the memory by its pointers alone, with the predicate that they agree.
-- - Name, Errno: the property names as bytes, with strcmp and the cut of strncpy; results of
--   fallible code. A call ends with 0, a negative errno, a failed assertion (abort), or an
--   exhausted loop bound (hang).
-- - Drm: what the code uses of libdrm and of the kernel, as an interface with the laws it relies
--   on: atomic requests with a cursor, and the answer to a test-only commit, which may differ from
--   call to call.
-- - Layer: the operations on one layer in layer.c. Layer/Life: liftoff_layer_create and
--   liftoff_layer_destroy, which change other objects.
-- - Plane: plane_apply and what it calls in plane.c. Plane/Life: liftoff_plane_create and
--   liftoff_plane_destroy, with the order of the list of planes.
-- - Output: output.c. Output/Lines: output_log_layers. Device: device_test_commit in device.c.
--   Device/Life: the other functions of device.c. Kms: what these ask libdrm about a device.
-- - Alloc: alloc.c. Alloc/Step is struct alloc_step and plane_step_init_next, Alloc/Compatible the
--   checks on a layer and a plane, Alloc/Choose output_choose_layers, Alloc/Realloc
--   layer_needs_realloc, Alloc/Apply liftoff_output_apply. Alloc/Buffer is output_choose_layers
--   once more, on the array step.alloc that all steps share and the array log_prefix of each step.
-- - Ring: list.c, by prev and next pointers in memory, and its lists of addresses. Log: log.c, by
--   the level, the handler and errno.
-- - Api: the public functions as steps from one memory to the next, with the memories in reach.
-- - Example: the programs of example/ as clients. Example/Modes and Example/Pixels are common.c and
--   composite of compositor.c, Example/World what the system answers and how a program ends,
--   Example/Client the steps that the programs share, Example/Simple simple.c, Example/Compositor
--   compositor.c, Example/Dynamic dynamic.c, Example/Multi multi-output.c.
-- - Prelude, Samples, Tests: shared names and lemmas, sample inputs, and runs and theorems at
--   these.
--
-- The search recurses on the list of planes that are left, so it needs no fuel. In Alloc/Choose the
-- array alloc that all steps share is the list of its valid items, which each step extends;
-- Alloc/Buffer has the array itself. The fuel in test_commit bounds how often one commit is asked
-- again after -EINTR or -EAGAIN; a run that needs more ends in hang. The kernel interrupts a call
-- only for a signal, so a fuel above the number of interrupted calls is enough. An int addition
-- wraps around at 2 ^ 31, where C leaves the sum undefined. Each allocation of memory takes an
-- argument that says whether there is any; in Example, where a program asks more than once, the
-- answer to a question for memory or a framebuffer depends on the time as well. A program of
-- Example that hands over an object after its end, or destroys an output before its layers or the
-- device before its outputs, ends at once as misusing it.
--
-- Not modelled: the floating-point colors of example/dynamic.c, the text of log messages, the
-- rounding of the double computed for some, leaks, and calls with a null pointer where the code
-- does not expect one. A freed object keeps its contents, but no list holds it. Property names of a
-- plane are compared whole, and are taken to end within their 32 bytes.
pub mod Prelude
pub mod Name
pub mod Errno
pub mod Drm
pub mod Kms
pub mod Model
pub mod Links
pub mod Ring
pub mod Log
pub mod Layer
pub mod Plane
pub mod Output
pub mod Device
pub mod Alloc
pub mod Api
pub mod Example
mod Samples
mod Tests
