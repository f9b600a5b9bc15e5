-- ===== src/Alloc/Apply/Asked.antt =====
-- What a request holds after `apply_current` or the loop that disables planes has succeeded.
use mathlib.Core.Path.{subst}
use libliftoff.Prelude.{
  ℕ, ◌≡◌, refl, sym, ap, ◌∙◌, inl, inr, true, false, List, [], ◌∷◌, Option, none, some, arith, has,
  ◌==◌, if◌then◌else◌, Bool-cases, Option-cases,
}
use libliftoff.Name.{fb_id, crtc_id}
use libliftoff.Errno.{Run, ok, is_ok, >>=-eq-ok, and_then-eq-ok}
use libliftoff.Drm.{Drm, added}
use libliftoff.Model.{Ptr, Plane, Heap}
use libliftoff.Plane.{find_plane_prop, set_plane_prop_str, plane_disable, plane_apply}
use libliftoff.Plane.Settings.{Settings, put_all, outcome, plane_apply-settings}
use libliftoff.Alloc.Choose.{is_free}
use libliftoff.Alloc.Apply.{assert_not_einval, apply_planes, apply_current, disable_planes}
use libliftoff.Alloc.Apply.Request.{
  disable_settings, shown_settings, put_planes, set_plane_prop_str-put, plane_apply-shown,
}
use libliftoff.Alloc.Apply.Alike.{Alike, shown_settings-Alike}

abbrev or_empty : Option Settings → Settings
or_empty none = []
or_empty (some xs) = xs

-- What a plane is asked for, where it has the properties.
abbrev pub asked : Heap → Ptr → Option Ptr → Settings
asked h p a = or_empty (shown_settings h p a)

-- The planes that show no layer.
abbrev pub idle : Heap → List Ptr → List Ptr
idle h [] = []
idle h (p ∷ ps) = if is_free (h.plane p).layer then p ∷ idle h ps else idle h ps

module _ (drm : Drm) (put : drm.Req → (o p v : ℕ) → drm.Req)
    (puts : (r : drm.Req) (o p v : ℕ) → drm.add_property r o p v ≡ added (put r o p v)) where
  open drm use {Req}

  -- Every plane of the list has the properties that it is asked for, and `s` is `r` with these
  -- settings behind it, plane after plane.
  pub record Requested (h : Heap) (shows : Ptr → Option Ptr) (ps : List Ptr) (r s : Req)
      : Type 0 where
    pub covered :
        (p : Ptr) → has p ps ≡ true → shown_settings h p (shows p) ≡ some (asked h p (shows p))
    pub request : s ≡ put_planes drm put puts h (λ p. asked h p (shows p)) ps r

  plane_disable-none :
      (p : Plane) (r : Req) → disable_settings p ≡ none → is_ok (plane_disable drm p r).0 ≡ false
  unfolding disable_settings plane_disable set_plane_prop_str
  plane_disable-none p r e = elim (Option-cases (find_plane_prop fb_id p.props)) [
    | inl f ↦ rw (f, set_plane_prop_str) refl
    | inr (s, f) ↦ elim (Option-cases (find_plane_prop crtc_id p.props)) [
      | inl g ↦ rw (set_plane_prop_str-put drm put puts p fb_id s 0 r f, g, set_plane_prop_str) refl
      | inr (t, g) ↦ cc (rw (f, disable_settings, g) at e)
    ]
  ]

  plane_apply-none :
      (h : Heap) (p : Ptr) (a : Option Ptr) (r : Req)
      → shown_settings h p a ≡ none
      → is_ok (plane_apply drm h p a r).0 ≡ false
  unfolding plane_apply
  plane_apply-none h p none r e = plane_disable-none (h.plane p) r e
  plane_apply-none h p (some l) r e =
      ap (λ (m : Run Req). is_ok m.0)
        (plane_apply-settings drm put puts h p l r ∙ ap (outcome drm put puts (h.plane p).id r r) e)

  -- A plane that could be set up was asked for all that its layer needs.
  plane_apply-asked :
      (h : Heap) (p : Ptr) (a : Option Ptr) (r s : Req)
      → plane_apply drm h p a r ≡ (ok, s)
      → (shown_settings h p a ≡ some (asked h p a))
        × (s ≡ put_all drm put puts (h.plane p).id (asked h p a) r)
  plane_apply-asked h p a r s run = elim (Option-cases (shown_settings h p a)) [
    | inl e ↦ absurd (ground (arith, plane_apply-none h p a r e))
    | inr (xs, e) ↦ (
      rw e refl,
      ap (λ (m : Run Req). m.1) (sym run ∙ plane_apply-shown drm put puts h p a xs r e)
          ∙ ap (λ ys. put_all drm put puts (h.plane p).id (or_empty ys) r) (sym e),
    )
  ]

  assert_not_einval-eq-ok :
      (m : Run Req) (s : Req) → assert_not_einval drm m ≡ (ok, s) → m ≡ (ok, s)
  assert_not_einval-eq-ok m s e = ground arith

  module _ (h : Heap) where
    Requested-nil : {shows : Ptr → Option Ptr} {r s : Req} → s ≡ r → Requested h shows [] r s
    Requested-nil same = record { covered = λ p i. absurd (ground arith); request = same }

    Requested-cons :
        {shows : Ptr → Option Ptr} (p : Ptr) {ps : List Ptr} {r u s : Req}
        → (shown_settings h p (shows p) ≡ some (asked h p (shows p)))
          × (u ≡ put_all drm put puts (h.plane p).id (asked h p (shows p)) r)
        → Requested h shows ps u s
        → Requested h shows (p ∷ ps) r s
    Requested-cons {shows} p {ps} (here, added_here) later = record {
      covered = λ q i. elim (Bool-cases (p == q)) [
        | inl e ↦
            subst (λ x. shown_settings h x (shows x) ≡ some (asked h x (shows x))) (ground arith)
              here
        | inr e ↦ later.covered q (ground arith)
      ];
      request =
          later.request ∙ ap (put_planes drm put puts h (λ q. asked h q (shows q)) ps) added_here;
    }

    apply_planes-Requested :
        (c : ℕ) (ps : List Ptr) (r s : Req)
        → apply_planes drm h c ps r ≡ (ok, s)
        → Requested h (λ p. (h.plane p).layer) ps r s
    unfolding apply_planes
    apply_planes-Requested c [] r s run = Requested-nil (sym (ap (λ (m : Run Req). m.1) run))
    apply_planes-Requested c (p ∷ ps) r s run =
        let (u, first, more) = and_then-eq-ok _ _ _ run in
        Requested-cons p
          (plane_apply-asked h p (h.plane p).layer r u (assert_not_einval-eq-ok _ u first))
          (apply_planes-Requested c ps u s more)

    -- `apply_current` that succeeds has asked every plane for what it shows.
    pub apply_current-Requested :
        (r s : Req)
        → apply_current drm h r ≡ (ok, s)
        → Requested h (λ p. (h.plane p).layer) h.planes r s
    unfolding apply_current
    apply_current-Requested r s run = apply_planes-Requested (drm.get_cursor r) h.planes r s run

    -- The loop that disables planes asks those without a layer to be off.
    pub disable_planes-Requested :
        (ps : List Ptr) (r s : Req)
        → disable_planes drm h ps r ≡ (ok, s)
        → Requested h (λ p. none) (idle h ps) r s
    unfolding disable_planes
    disable_planes-Requested [] r s run = Requested-nil (sym (ap (λ (m : Run Req). m.1) run))
    disable_planes-Requested (p ∷ ps) r s run = elim (Bool-cases (is_free (h.plane p).layer)) [
      | inl e ↦
          let (u, first, more) = >>=-eq-ok _ _ (rw (e, disable_planes) at run) in
          rw e (
            Requested-cons p (plane_apply-asked h p none r u (assert_not_einval-eq-ok _ u first))
              (disable_planes-Requested ps u s more))
      | inr e ↦ rw e (disable_planes-Requested ps r s (rw (e, disable_planes) at run))
    ]

  put_planes-Alike :
      {h h' : Heap} (a : Alike h h') (shows : Ptr → Option Ptr) (ps : List Ptr) (r : Req)
      → put_planes drm put puts h' (λ p. asked h' p (shows p)) ps r
        ≡ put_planes drm put puts h (λ p. asked h p (shows p)) ps r
  put_planes-Alike a shows [] r = refl
  put_planes-Alike {h = h} a shows (p ∷ ps) r =
      rw (a.plane p, shown_settings-Alike a p (shows p)) (put_planes-Alike a shows ps _)

  -- What has been asked does not depend on the parts in which alike memories differ.
  pub Requested-Alike :
      {h h' : Heap} (a : Alike h h') {shows : Ptr → Option Ptr} {ps : List Ptr} {r s : Req}
      → Requested h shows ps r s
      → Requested h' shows ps r s
  Requested-Alike a {shows} {ps} {r} q = record {
    covered = λ p i. rw (shown_settings-Alike a p (shows p)) (q.covered p i);
    request = q.request ∙ sym (put_planes-Alike a shows ps r);
  }
