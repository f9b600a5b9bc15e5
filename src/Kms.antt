-- ===== src/Kms.antt =====
-- What the code asks of libdrm about the resources of a device, which are not part of the
-- repository.
use libliftoff.Prelude.{ℕ, ◌≡◌, refl, List}
use libliftoff.Name.{Name}
use libliftoff.Errno.{Errno}

-- What a call returns, or `NULL` with errno set.
pub data Given (A : Type 0) : Type 0 where
  given : A → Given A
  lacking : Errno → Given A

abbrev pub then_given : {A B : Type 0} → Given A → (A → Given B) → Given B
then_given (given a) next = next a
then_given (lacking e) next = lacking e

pub then_given-eq :
    {A B : Type 0} (a : Given A) (next : A → Given B) {b : B}
    → then_given a next ≡ given b
    → (x : A) × (a ≡ given x) × (next x ≡ given b)
then_given-eq (given x) next run = (x, refl, run)
then_given-eq (lacking e) next run = cc

-- `drmModePlane`
pub record PlaneInfo : Type 0 where
  pub id : ℕ
  pub possible_crtcs : ℕ

-- `drmModePropertyRes`
pub record PropertyInfo : Type 0 where
  pub name : Name
  pub id : ℕ

pub record Kms : Type 0 where
  -- `drmModeGetResources`: the CRTCs.
  pub get_crtcs : Given (List ℕ)
  -- `drmModeGetPlaneResources`: the planes.
  pub get_planes : Given (List ℕ)
  -- `drmModeGetPlane`
  pub get_plane : ℕ → Given PlaneInfo
  -- `drmModeObjectGetProperties` of a plane: the ids of its properties with their values.
  pub get_properties : ℕ → Given (List (ℕ × ℕ))
  -- `drmModeGetProperty`
  pub get_property : ℕ → Given PropertyInfo
