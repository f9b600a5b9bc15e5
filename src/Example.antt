-- ===== src/Example.antt =====
-- The programs of example/, as clients of the public functions.
pub mod Modes
pub mod World
pub mod Client
pub mod Pixels
pub mod Simple
pub mod Compositor
pub mod Dynamic
pub mod Multi
