-- ===== src/Tests/Plane.antt =====
-- The theorems on `plane_apply` at the sample device.
use libliftoff.Prelude.{◌≡◌, refl, [], ◌∷◌, some}
use libliftoff.Plane.{plane_apply}
use libliftoff.Plane.Apply.{Ends, plane_apply-Ends}
use libliftoff.Plane.Settings.{layer_settings, outcome, plane_apply-settings}
use libliftoff.Samples.{picky, desk}

plane_apply-Ends_example : Ends picky [] [] (plane_apply picky desk 2 (some 13) [])
plane_apply-Ends_example = plane_apply-Ends picky desk 2 13 []

plane_apply-settings_example :
    plane_apply picky desk 2 (some 13) []
    ≡ outcome picky (λ r o p v. (o, p, v) ∷ r) (λ r o p v. refl) 20 [] [] (layer_settings desk 2 13)
plane_apply-settings_example =
    plane_apply-settings picky (λ r o p v. (o, p, v) ∷ r) (λ r o p v. refl) desk 2 13 []
