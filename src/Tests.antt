-- ===== src/Tests.antt =====
-- Runs of the library at the sample device, and the theorems at such inputs.
mod Alloc
mod Search
mod Buffer
mod Layer
mod Plane
mod Device
mod Life
mod Order
mod Api
mod Ring
mod Lines
mod Request
mod Example
mod Multi
