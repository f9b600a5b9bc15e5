-- ===== src/Alloc/Apply/Request.antt =====
-- What `apply_current` puts into the request.
use libliftoff.Prelude.{
  ℕ, ◌≡◌, refl, ap, ◌∙◌, inl, inr, List, [], ◌∷◌, Option, none, some, arith, Option-cases, has,
  true,
}
use libliftoff.Name.{Name, fb_id, crtc_id}
use libliftoff.Errno.{ok}
use libliftoff.Drm.{Drm, added}
use libliftoff.Model.{Ptr, Plane, PlaneProperty, Heap}
use libliftoff.Plane.{find_plane_prop, set_plane_prop_str, plane_disable, plane_apply}
use libliftoff.Plane.Settings.{
  Settings, layer_settings, put_all, outcome, plane_set_prop-put, plane_apply-settings,
}
use libliftoff.Alloc.Apply.{apply_planes, apply_current}

-- What turns a plane off.
unfoldable pub disable_settings : Plane → Option Settings
disable_settings p = elim (find_plane_prop fb_id p.props) [
  | none ↦ none
  | some s ↦ elim (find_plane_prop crtc_id p.props) [
    | none ↦ none
    | some t ↦ some ((s.id, 0) ∷ (t.id, 0) ∷ [])
  ]
]

-- What a plane is asked for: to show its layer, or to be off.
abbrev pub shown_settings : Heap → Ptr → Option Ptr → Option Settings
shown_settings h p none = disable_settings (h.plane p)
shown_settings h p (some l) = layer_settings h p l

some_inj : {xs ys : Settings} → some xs ≡ some ys → xs ≡ ys
some_inj e = ground arith

module _ (drm : Drm) (put : drm.Req → (o p v : ℕ) → drm.Req)
    (puts : (r : drm.Req) (o p v : ℕ) → drm.add_property r o p v ≡ added (put r o p v)) where
  -- The settings of planes, put behind a request.
  abbrev pub put_planes : Heap → (Ptr → Settings) → List Ptr → drm.Req → drm.Req
  put_planes h settings [] r = r
  put_planes h settings (p ∷ ps) r =
      put_planes h settings ps (put_all drm put puts (h.plane p).id (settings p) r)

  pub set_plane_prop_str-put :
      (p : Plane) (n : Name) (s : PlaneProperty) (v : ℕ) (r : drm.Req)
      → find_plane_prop n p.props ≡ some s
      → set_plane_prop_str drm p r n v ≡ (ok, put r p.id s.id v)
  unfolding set_plane_prop_str
  set_plane_prop_str-put p n s v r e =
      rw (e, set_plane_prop_str) (plane_set_prop-put drm put puts p s v r)

  plane_disable-settings :
      (p : Plane) (xs : Settings) (r : drm.Req)
      → disable_settings p ≡ some xs
      → plane_disable drm p r ≡ (ok, put_all drm put puts p.id xs r)
  unfolding disable_settings plane_disable
  plane_disable-settings p xs r e = elim (Option-cases (find_plane_prop fb_id p.props)) [
    | inl f ↦ cc (rw (f, disable_settings) at e)
    | inr (s, f) ↦ elim (Option-cases (find_plane_prop crtc_id p.props)) [
      | inl g ↦ cc (rw (f, disable_settings, g) at e)
      | inr (t, g) ↦
          let same : (s.id, 0) ∷ (t.id, 0) ∷ [] ≡ xs =
            some_inj (rw (f, disable_settings, g) at e) in
          rw (set_plane_prop_str-put p fb_id s 0 r f) (
            set_plane_prop_str-put p crtc_id t 0 (put r p.id s.id 0) g
            ∙ ap (λ ys. (ok, put_all drm put puts p.id ys r)) same)
    ]
  ]

  pub plane_apply-shown :
      (h : Heap) (p : Ptr) (a : Option Ptr) (xs : Settings) (r : drm.Req)
      → shown_settings h p a ≡ some xs
      → plane_apply drm h p a r ≡ (ok, put_all drm put puts (h.plane p).id xs r)
  unfolding plane_apply
  plane_apply-shown h p none xs r e = plane_disable-settings (h.plane p) xs r e
  plane_apply-shown h p (some l) xs r e =
      plane_apply-settings drm put puts h p l r ∙ ap (outcome drm put puts (h.plane p).id r r) e

  apply_planes-settings :
      (h : Heap) (c : ℕ) (settings : Ptr → Settings) (ps : List Ptr) (r : drm.Req)
      → ((p : Ptr) → has p ps ≡ true → shown_settings h p (h.plane p).layer ≡ some (settings p))
      → apply_planes drm h c ps r ≡ (ok, put_planes h settings ps r)
  unfolding apply_planes
  apply_planes-settings h c settings [] r s = refl
  apply_planes-settings h c settings (p ∷ ps) r s =
      rw (plane_apply-shown h p (h.plane p).layer (settings p) r (s p (ground arith)))
        (apply_planes-settings h c settings ps _ (λ q i. s q (ground arith)))

  -- While libdrm has memory, and every plane has the properties that its layer asks for, or those
  -- that turn it off if it shows none, `apply_current` succeeds and puts exactly these settings
  -- behind the request, plane after plane.
  pub apply_current-settings :
      (h : Heap) (settings : Ptr → Settings) (r : drm.Req)
      → ((p : Ptr)
          → has p h.planes ≡ true
          → shown_settings h p (h.plane p).layer ≡ some (settings p))
      → apply_current drm h r ≡ (ok, put_planes h settings h.planes r)
  unfolding apply_current
  apply_current-settings h settings r s =
      apply_planes-settings h (drm.get_cursor r) settings h.planes r s
