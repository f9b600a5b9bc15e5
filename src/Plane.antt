-- ===== src/Plane.antt =====
-- plane.c: the properties of a plane, and what is put into an atomic request to show a layer on it.
pub mod Apply
pub mod Settings
pub mod Life
use libliftoff.Prelude.{
  ℕ, Bool, true, false, ◌&&◌, ◌||◌, List, [], ◌∷◌, Option, none, some, ◌==◌, if◌then◌else◌,
}
use libliftoff.Name.{Name, name_eq, fb_id, crtc_id, zpos, alpha, rotation}
use libliftoff.Errno.{Run, ok, err, einval, and_then, ◌>>=◌}
use libliftoff.Drm.{Drm, added, refused}
use libliftoff.Model.{Ptr, LayerProperty, PlaneProperty, Plane, Heap}

unfoldable pub find_plane_prop : Name → List PlaneProperty → Option PlaneProperty
find_plane_prop n [] = none
find_plane_prop n (p ∷ ps) = if name_eq p.name n then some p else find_plane_prop n ps

-- `plane_get_property`
abbrev pub plane_get_property : Plane → Name → Option PlaneProperty
plane_get_property p n = find_plane_prop n p.props

-- `liftoff_plane_get_id`
abbrev pub plane_get_id : Plane → ℕ
plane_get_id p = p.id

-- `DRM_MODE_ROTATE_0`
abbrev pub rotate_0 : ℕ
rotate_0 = 1

-- A layer property that a plane without it may ignore: full opacity, or no rotation.
unfoldable pub is_default : LayerProperty → Bool
is_default q =
    (name_eq q.name alpha && q.value == 0xFFFF) || (name_eq q.name rotation && q.value == rotate_0)

module _ (drm : Drm) where
  open drm use {Req, get_cursor, set_cursor, add_property}

  -- `plane_set_prop`
  unfoldable pub plane_set_prop : Plane → Req → PlaneProperty → ℕ → Run Req
  plane_set_prop p r q v = elim (add_property r p.id q.id v) [
    | added s ↦ (ok, s)
    | refused e ↦ (err e, r)
  ]

  -- `set_plane_prop_str`
  unfoldable pub set_plane_prop_str : Plane → Req → Name → ℕ → Run Req
  unfolding plane_set_prop
  set_plane_prop_str p r n v = elim (plane_get_property p n) [
    | none ↦ (err einval, r)
    | some q ↦ plane_set_prop p r q v
  ]

  -- The loop of `plane_apply`. `cursor` is where the request stood when `plane_apply` was called.
  unfoldable pub apply_props : Plane → (cursor : ℕ) → List LayerProperty → Req → Run Req
  unfolding plane_set_prop
  apply_props p cursor [] r = (ok, r)
  apply_props p cursor (q ∷ qs) r = elim (name_eq q.name zpos) [
    | true ↦ apply_props p cursor qs r
    | false ↦ elim (plane_get_property p q.name) [
      | none ↦ elim (is_default q) [
        | true ↦ apply_props p cursor qs r
        | false ↦ (err einval, set_cursor r cursor)
      ]
      | some s ↦
          and_then (plane_set_prop p r s q.value) (λ t e. (e, set_cursor t cursor))
            (apply_props p cursor qs)
    ]
  ]

  -- `plane_apply` with no layer: the plane is turned off.
  unfoldable pub plane_disable : Plane → Req → Run Req
  unfolding set_plane_prop_str
  plane_disable p r = set_plane_prop_str p r fb_id 0 >>= λ s. set_plane_prop_str p s crtc_id 0

  -- `plane_apply` with a layer.
  unfoldable pub plane_show : Plane → (crtc : ℕ) → List LayerProperty → Req → Run Req
  unfolding set_plane_prop_str apply_props
  plane_show p crtc props r =
      set_plane_prop_str p r crtc_id crtc >>= apply_props p (get_cursor r) props

  -- `plane_apply`
  unfoldable pub plane_apply : Heap → Ptr → Option Ptr → Req → Run Req
  unfolding plane_disable plane_show
  plane_apply h p none r = plane_disable (h.plane p) r
  plane_apply h p (some l) r =
      plane_show (h.plane p) (h.output (h.layer l).output).crtc_id (h.layer l).props r
