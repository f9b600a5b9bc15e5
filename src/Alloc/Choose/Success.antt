-- ===== src/Alloc/Choose/Success.antt =====
-- The search succeeds while libdrm has memory and the kernel answers.
use libliftoff.Prelude.{
  ℕ, ◌+◌, ◌<◌, ◌≡◌, refl, ap, ◌∙◌, ◌⊎◌, inl, inr, Bool, true, false, List, Option, none, some,
  Option-cases,
}
use libliftoff.Errno.{Errno, einval, Outcome, ok, err}
use libliftoff.Drm.{Drm, added}
use libliftoff.Model.{Ptr, Heap}
use libliftoff.Plane.{plane_apply}
use libliftoff.Plane.Settings.{layer_settings, outcome, plane_apply-settings}
use libliftoff.Device.{commit_loop, test_flags}
use libliftoff.Device.Retry.{retries, outcome_of, commit_loop-answer}
use libliftoff.Alloc.Step.{Step}
use libliftoff.Alloc.Compatible.{Task}
use libliftoff.Alloc.Choose.{Search, is_unsupported, output_choose_layers}
use libliftoff.Alloc.Choose.Valid.{IsCounted, IsOwned}
use libliftoff.Alloc.Choose.Ending.{choose-Good}

-- 0, or an error that says that the configuration is not supported.
abbrev pub is_verdict : Option Errno → Bool
is_verdict none = true
is_verdict (some e) = is_unsupported e

-- The documented behaviour of a kernel that is asked for a test-only commit: it may ask for some
-- tries, fewer than the fuel, and then says whether it supports the configuration.
pub record Responds (drm : Drm) (fuel clock : ℕ) (r : drm.Req) (flags : ℕ) : Type 0 where
  pub tries : ℕ
  pub few : tries < fuel
  pub again : (i : ℕ) → i < tries → retries (drm.commit (clock + i) r flags) ≡ true
  pub settled : retries (drm.commit (clock + tries) r flags) ≡ false
  pub verdict : is_verdict (drm.commit (clock + tries) r flags) ≡ true

module _ (drm : Drm) (put : drm.Req → (o p v : ℕ) → drm.Req)
    (puts : (r : drm.Req) (o p v : ℕ) → drm.add_property r o p v ≡ added (put r o p v)) (fuel : ℕ)
    (h : Heap) (t : Task) (owned : IsOwned h t.output)
    (responds : (clock : ℕ) (r : drm.Req) → Responds drm fuel clock r (test_flags t.flags)) where
  applies :
      (p l : Ptr) (r : drm.Req)
      → ((plane_apply drm h p (some l) r).0 ≡ err einval)
        ⊎ ((plane_apply drm h p (some l) r).0 ≡ ok)
  applies p l r = elim (Option-cases (layer_settings h p l)) [
    | inl e ↦ inl (
        ap (λ (m : Outcome × drm.Req). m.0) (plane_apply-settings drm put puts h p l r)
        ∙ ap (λ x. (outcome drm put puts (h.plane p).id r r x).0) e)
    | inr (xs, e) ↦ inr (
        ap (λ (m : Outcome × drm.Req). m.0) (plane_apply-settings drm put puts h p l r)
        ∙ ap (λ x. (outcome drm put puts (h.plane p).id r r x).0) e)
  ]

  answers :
      (a : Option Errno)
      → is_verdict a ≡ true
      → ((e : Errno) × (outcome_of a ≡ err e) × (is_unsupported e ≡ true)) ⊎ (outcome_of a ≡ ok)
  answers none v = inr refl
  answers (some e) v = inl (e, refl, v)

  commits :
      (clock : ℕ) (r : drm.Req)
      → ((e : Errno) × ((commit_loop drm fuel clock r (test_flags t.flags)).0 ≡ err e)
          × (is_unsupported e ≡ true))
        ⊎ ((commit_loop drm fuel clock r (test_flags t.flags)).0 ≡ ok)
  commits clock r =
      let a = responds clock r in
      let run =
        ap (λ (m : Outcome × ℕ). m.0)
          (commit_loop-answer drm fuel clock a.tries r (test_flags t.flags) a.few a.again
            a.settled) in
      elim (answers (drm.commit (clock + a.tries) r (test_flags t.flags)) a.verdict) [
        | inl (e, is, u) ↦ inl (e, run ∙ is, u)
        | inr is ↦ inr (run ∙ is)
      ]

  -- While libdrm has memory for the request, and the kernel says of each request, after fewer
  -- interrupted calls than the fuel, whether it supports it, the search succeeds from a step whose
  -- counts are right, over layers that know their output.
  pub choose-ok :
      (ps : List Ptr) (step : Step) (s : Search drm.Req)
      → IsCounted h t.output step
      → (output_choose_layers drm fuel h t ps step s).0 ≡ ok
  choose-ok = choose-Good drm fuel h t owned (λ o. o ≡ ok) refl applies commits
