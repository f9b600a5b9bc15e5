-- ===== src/Alloc.antt =====
-- alloc.c: the choice of a layer for each plane, and what `liftoff_output_apply` does around it.
pub mod Step
pub mod Compatible
pub mod Choose
pub mod Realloc
pub mod Apply
pub mod Buffer
