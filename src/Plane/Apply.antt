-- ===== src/Plane/Apply.antt =====
-- What `plane_apply` leaves in the request, on every branch.
use libliftoff.Prelude.{ℕ, ◌≡◌, refl, sym, inl, inr, List, [], ◌∷◌, some, Bool-cases, Option-cases}
use mathlib.Core.Path.{subst}
use libliftoff.Name.{Name, name_eq, crtc_id, zpos}
use libliftoff.Errno.{Errno, Run, ok, err, einval, and_then, ◌>>=◌}
use libliftoff.Drm.{
  Drm, Added, added, refused, Extends, Extends-trans, Extends-add, set_cursor-Extends,
}
use libliftoff.Model.{Ptr, LayerProperty, PlaneProperty, Plane, Heap}
use libliftoff.Plane.{
  find_plane_prop, is_default, plane_set_prop, set_plane_prop_str, apply_props, plane_show,
  plane_apply,
}

module _ (drm : Drm) where
  open drm use {Req, get_cursor, set_cursor, add_property}

  -- The run succeeds and leaves properties behind `r`, or fails with an errno and leaves `s`.
  pub data Ends (r s : Req) : Run Req → Type 0 where
    longer : {s' : Req} → Extends drm r s' → Ends r s (ok, s')
    failed : (e : Errno) → Ends r s (err e, s)

  plane_set_prop-Ends :
      (p : Plane) (r : Req) (q : PlaneProperty) (v : ℕ) → Ends r r (plane_set_prop drm p r q v)
  unfolding plane_set_prop
  plane_set_prop-Ends p r q v = go (add_property r p.id q.id v) refl
    where
      go :
          (a : Added Req)
          → add_property r p.id q.id v ≡ a
          → Ends r r (elim a [ added s ↦ (ok, s) | refused e ↦ (err e, r) ])
      go (added s) e = longer (Extends-add drm p.id q.id v e)
      go (refused e) _ = failed e

  -- A failure rolls the request back to the cursor of `r`.
  rollback-Ends :
      {r s : Req} {m : Run Req} (k : Req → Run Req)
      → Extends drm r s
      → Ends s s m
      → ((s' : Req) → Extends drm r s' → Ends r r (k s'))
      → Ends r r (and_then m (λ u e. (e, set_cursor u (get_cursor r))) k)
  rollback-Ends k ext (longer more) next = next _ (Extends-trans drm ext more)
  rollback-Ends {r} {s} k ext (failed e) next =
      subst (λ u. Ends r r (err e, u)) (sym (set_cursor-Extends drm ext)) (failed e)

  apply_props-Ends :
      (p : Plane) (qs : List LayerProperty) {r : Req} (s : Req)
      → Extends drm r s
      → Ends r r (apply_props drm p (get_cursor r) qs s)
  unfolding apply_props
  apply_props-Ends p [] s ext = longer ext
  apply_props-Ends p (q ∷ qs) {r} s ext = elim (Bool-cases (name_eq q.name zpos)) [
    | inl e ↦ rw (e, apply_props) (apply_props-Ends p qs s ext)
    | inr e ↦
        rw (e, apply_props)
          (elim (Option-cases (find_plane_prop q.name p.props)) [
            | inl none_found ↦
                rw (none_found, apply_props)
                  (elim (Bool-cases (is_default q)) [
                    | inl d ↦ rw (d, apply_props) (apply_props-Ends p qs s ext)
                    | inr d ↦
                        rw (d, apply_props)
                          (subst (λ u. Ends r r (err einval, u)) (sym (set_cursor-Extends drm ext))
                            (failed einval))
                  ])
            | inr (x, found) ↦
                rw (found, apply_props)
                  (rollback-Ends _ ext (plane_set_prop-Ends p s x q.value)
                    (λ s' more. apply_props-Ends p qs s' more))
          ])
  ]

  pub set_plane_prop_str-Ends :
      (p : Plane) (r : Req) (n : Name) (v : ℕ) → Ends r r (set_plane_prop_str drm p r n v)
  unfolding set_plane_prop_str
  set_plane_prop_str-Ends p r n v = elim (Option-cases (find_plane_prop n p.props)) [
    | inl e ↦ rw (e, set_plane_prop_str) (failed einval)
    | inr (q, e) ↦ rw (e, set_plane_prop_str) (plane_set_prop-Ends p r q v)
  ]

  bind-Ends :
      {r : Req} {m : Run Req} (k : Req → Run Req)
      → Ends r r m
      → ((s : Req) → Extends drm r s → Ends r r (k s))
      → Ends r r (m >>= k)
  bind-Ends k (longer ext) next = next _ ext
  bind-Ends k (failed e) next = failed e

  -- Putting a layer on a plane succeeds with properties added behind the request, or fails with an
  -- errno and leaves the request as it was.
  pub plane_apply-Ends :
      (h : Heap) (p l : Ptr) (r : Req) → Ends r r (plane_apply drm h p (some l) r)
  unfolding plane_apply plane_show
  plane_apply-Ends h p l r =
      bind-Ends _ (set_plane_prop_str-Ends (h.plane p) r crtc_id _)
        (λ s ext. apply_props-Ends (h.plane p) (h.layer l).props s ext)
