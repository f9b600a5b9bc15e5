-- ===== src/Plane/Settings.antt =====
-- What `plane_apply` asks for, as a list of property ids and values, while libdrm has memory.
use libliftoff.Prelude.{
  ℕ, ◌≡◌, refl, ap, ◌∙◌, inl, inr, List, [], ◌∷◌, Option, none, some, if◌then◌else◌, Bool-cases,
  Option-cases,
}
use libliftoff.Name.{name_eq, crtc_id, zpos}
use libliftoff.Errno.{Run, ok, err, einval}
use libliftoff.Drm.{Drm, added, Extends, Extends-trans, Extends-add, set_cursor-Extends}
use libliftoff.Model.{Ptr, LayerProperty, PlaneProperty, Plane, Heap}
use libliftoff.Plane.{
  find_plane_prop, is_default, plane_set_prop, set_plane_prop_str, apply_props, plane_show,
  plane_apply,
}

abbrev pub Settings : Type 0
Settings = List (ℕ × ℕ)

-- A setting more, unless the others cannot be had.
abbrev pub setting : ℕ → ℕ → Option Settings → Option Settings
setting i v none = none
setting i v (some xs) = some ((i, v) ∷ xs)

-- What a plane is asked for to show a layer with these properties: each of them, in order, but for
-- zpos and for those at their default that the plane lacks; `none` if it lacks another.
unfoldable pub settings_of : Plane → List LayerProperty → Option Settings
settings_of p [] = some []
settings_of p (q ∷ qs) =
    if name_eq q.name zpos then settings_of p qs else elim (find_plane_prop q.name p.props) [
      | none ↦ if is_default q then settings_of p qs else none
      | some s ↦ setting s.id q.value (settings_of p qs)
    ]

-- With the CRTC of the layer's output in front.
unfoldable pub layer_settings : Heap → (p l : Ptr) → Option Settings
unfolding settings_of
layer_settings h p l = elim (find_plane_prop crtc_id (h.plane p).props) [
  | none ↦ none
  | some s ↦
      setting s.id (h.output (h.layer l).output).crtc_id (settings_of (h.plane p) (h.layer l).props)
]

module _ (drm : Drm) (put : drm.Req → (o p v : ℕ) → drm.Req)
    (puts : (r : drm.Req) (o p v : ℕ) → drm.add_property r o p v ≡ added (put r o p v)) where
  open drm use {Req, get_cursor, set_cursor}

  -- The settings of one object, put behind a request.
  abbrev pub put_all : ℕ → Settings → Req → Req
  put_all o [] r = r
  put_all o ((i, v) ∷ xs) r = put_all o xs (put r o i v)

  abbrev pub outcome : ℕ → Req → Req → Option Settings → Run Req
  outcome o r s none = (err einval, r)
  outcome o r s (some xs) = (ok, put_all o xs s)

  pub plane_set_prop-put :
      (p : Plane) (s : PlaneProperty) (v : ℕ) (r : Req)
      → plane_set_prop drm p r s v ≡ (ok, put r p.id s.id v)
  unfolding plane_set_prop
  plane_set_prop-put p s v r = rw (plane_set_prop, puts r p.id s.id v)

  outcome-setting :
      (o i v : ℕ) (r s : Req) (xs : Option Settings)
      → outcome o r (put s o i v) xs ≡ outcome o r s (setting i v xs)
  outcome-setting o i v r s none = refl
  outcome-setting o i v r s (some xs) = refl

  apply_props-outcome :
      (p : Plane) (qs : List LayerProperty) (r s : Req)
      → Extends drm r s
      → apply_props drm p (get_cursor r) qs s ≡ outcome p.id r s (settings_of p qs)
  unfolding apply_props settings_of
  apply_props-outcome p [] r s ext = refl
  apply_props-outcome p (q ∷ qs) r s ext = elim (Bool-cases (name_eq q.name zpos)) [
    | inl e ↦ rw (e, apply_props, settings_of) (apply_props-outcome p qs r s ext)
    | inr e ↦
        rw (e, apply_props, settings_of)
          (elim (Option-cases (find_plane_prop q.name p.props)) [
            | inl lack ↦
                rw (lack, apply_props, settings_of)
                  (elim (Bool-cases (is_default q)) [
                    | inl d ↦ rw (d, apply_props, settings_of) (apply_props-outcome p qs r s ext)
                    | inr d ↦
                        rw (d, apply_props, settings_of)
                          (ap (λ (u : Req). (err einval, u)) (set_cursor-Extends drm ext))
                  ])
            | inr (x, found) ↦
                rw (found, apply_props, settings_of, plane_set_prop-put p x q.value s)
                  (apply_props-outcome p qs r _ (
                      Extends-trans drm ext
                        (Extends-add drm p.id x.id q.value (puts s p.id x.id q.value)))
                    ∙ outcome-setting p.id x.id q.value r s (settings_of p qs))
          ])
  ]

  -- While libdrm has memory, `plane_apply` puts exactly the settings of the layer behind the
  -- request, or answers -EINVAL and leaves the request as it was where the plane lacks CRTC_ID, or
  -- a property of the layer that is not at its default.
  pub plane_apply-settings :
      (h : Heap) (p l : Ptr) (r : Req)
      → plane_apply drm h p (some l) r ≡ outcome (h.plane p).id r r (layer_settings h p l)
  unfolding plane_apply plane_show set_plane_prop_str layer_settings
  plane_apply-settings h p l r = elim (Option-cases (find_plane_prop crtc_id (h.plane p).props)) [
    | inl e ↦ rw (e, set_plane_prop_str, layer_settings)
    | inr (s, e) ↦
        rw (e, set_plane_prop_str, layer_settings, plane_set_prop-put (h.plane p) s _ r)
          (apply_props-outcome (h.plane p) (h.layer l).props r _
              (Extends-add drm _ s.id _ (puts r _ s.id _))
            ∙ outcome-setting _ s.id _ r r (settings_of (h.plane p) (h.layer l).props))
  ]
