-- ===== src/Tests/Request.antt =====
-- A request for a layer on the overlay plane, with the primary plane off.
use mathlib.Core.Path.{subst}
use libliftoff.Prelude.{
  ◌≡◌, refl, inl, inr, true, [], ◌∷◌, some, arith, has, ◌==◌, if◌then◌else◌, Bool-cases,
}
use libliftoff.Errno.{ok}
use libliftoff.Name.{name_eq}
use libliftoff.Model.{Ptr, Heap, set_plane}
use libliftoff.Plane.{find_plane_prop, is_default}
use libliftoff.Plane.Settings.{Settings, layer_settings}
use libliftoff.Alloc.Apply.{apply_current}
use libliftoff.Alloc.Apply.Request.{
  disable_settings, shown_settings, put_planes, apply_current-settings,
}
use libliftoff.Samples.{picky, desk}

abbrev showing : Heap
showing = set_plane desk 2 (record (desk.plane 2) { layer = some 13 })

abbrev settings : Ptr → Settings
settings p =
    if p == 1
    then (101, 0) ∷ (102, 0) ∷ []
    else (202, 42) ∷ (201, 8) ∷ (204, 50) ∷ (205, 50) ∷ (203, 200) ∷ []

settings_first : shown_settings showing 1 (showing.plane 1).layer ≡ some (settings 1)
unfolding disable_settings find_plane_prop name_eq
settings_first = refl

settings_second : shown_settings showing 2 (showing.plane 2).layer ≡ some (settings 2)
unfolding layer_settings find_plane_prop name_eq is_default
settings_second = refl

settings_shown :
    (p : Ptr)
    → has p showing.planes ≡ true
    → shown_settings showing p (showing.plane p).layer ≡ some (settings p)
settings_shown p i = elim (Bool-cases (p == 1)) [
  | inl e ↦
      let at : 1 ≡ p = ground arith in
      subst (λ q. shown_settings showing q (showing.plane q).layer ≡ some (settings q)) at
        settings_first
  | inr e ↦
      let at : 2 ≡ p = ground arith in
      subst (λ q. shown_settings showing q (showing.plane q).layer ≡ some (settings q)) at
        settings_second
]

apply_current-settings_example : apply_current picky showing [] ≡ (
  ok,
  put_planes picky (λ r o p v. (o, p, v) ∷ r) (λ r o p v. refl) showing settings (1 ∷ 2 ∷ []) [],
)
apply_current-settings_example =
    apply_current-settings picky (λ r o p v. (o, p, v) ∷ r) (λ r o p v. refl) showing settings []
      settings_shown
