-- ===== src/Alloc/Apply/Linked.antt =====
-- `liftoff_output_apply` keeps the pointers between planes, layers and outputs in agreement, however
-- it ends.
use mathlib.Core.Path.{subst}
use libliftoff.Prelude.{
  Unique, ℕ, zero, suc, ◌≡◌, refl, sym, ◌∙◌, inl, inr, Bool, true, false, List, [], ◌∷◌, Option,
  none, some, arith, has, length, replicate, Bool-cases,
}
use libliftoff.Errno.{Run, ok, err, abort, hang, and_then-cases}
use libliftoff.Drm.{Drm}
use libliftoff.Model.{Ptr, Device, Heap, Commits}
use libliftoff.Links.{Links, links, IsLinked}
use libliftoff.Alloc.Step.{Step, advance}
use libliftoff.Alloc.Choose.{Search, is_free, is_candidate, output_choose_layers}
use libliftoff.Alloc.Choose.Reach.{Reach, Found, same, better}
use libliftoff.Alloc.Choose.Sound.{choose-Improves}
use libliftoff.Alloc.Choose.Valid.{IsCounted, Fits, Distinct, Reach-IsCounted, Reach-Fits}
use libliftoff.Alloc.Realloc.{layer_needs_realloc}
use libliftoff.Alloc.Apply.{
  any_layer, unmapped, Session, reuse_previous_alloc, test_current, apply_current, apply_best,
  allocate, compute_alloc, after_reuse, liftoff_output_apply, task, first_step, first_search,
  with_commits, disable_planes, update_layers_priority,
}
use libliftoff.Alloc.Apply.Frame.{
  links-mark_layers_clean, links-update_layers_priority, links-log_reuse, links-log_no_reuse,
}
use libliftoff.Alloc.Apply.Mapping.{unmap-IsLinked, device-unmap}
use libliftoff.Alloc.Apply.Best.{CanMap, map_best_lem}

-- What `liftoff_output_apply` is called with: an output of the device, with pointers that agree, and
-- no plane twice.
pub record IsReady (k : Links) (o : Ptr) : Type 0 where
  pub listed : has o k.outputs ≡ true
  pub unique : Unique k.planes
  pub linked : IsLinked k

pub first-IsCounted : (h : Heap) (o : Ptr) → IsCounted h o first_step
first-IsCounted h o = record { idx = refl; distinct = tt; score = refl; composited = ground arith }

Distinct-replicate : (n : ℕ) → Distinct (replicate n none)
Distinct-replicate zero = tt
Distinct-replicate (suc n) = Distinct-replicate n

CanMap-replicate : (h : Heap) (ps : List Ptr) (n : ℕ) → CanMap h ps (replicate n none)
CanMap-replicate h [] n = tt
CanMap-replicate h (p ∷ ps) zero = tt
CanMap-replicate h (p ∷ ps) (suc n) = CanMap-replicate h ps n

free-none : (a : Option Ptr) → is_free a ≡ true → a ≡ none
free-none none e = refl
free-none (some x) e = cc

candidate-free : (h : Heap) (o p : Ptr) → is_candidate h o p ≡ true → (h.plane p).layer ≡ none
unfolding is_candidate
candidate-free h o p e = free-none (h.plane p).layer (ground arith)

Fits-CanMap :
    (h : Heap) (o : Ptr) (step fin : Step) (ps : List Ptr) (items : List (Option Ptr))
    → IsReady (links h) o
    → ((p : Ptr) → has p ps ≡ true → has p h.planes ≡ true)
    → Fits h o step fin ps items
    → CanMap h ps items
Fits-CanMap h o step fin [] items v sub fits = tt
Fits-CanMap h o step fin (p ∷ ps) [] v sub fits = tt
Fits-CanMap h o step fin (p ∷ ps) (none ∷ items) v sub fits =
    Fits-CanMap h o (advance h step p none) fin ps items v (λ q i. sub q (ground arith)) fits
Fits-CanMap h o step fin (p ∷ ps) (some l ∷ items) v sub (placed, fits) =
    let own = v.linked.owned o l v.listed placed.listed in
    (
      sub p (ground arith),
      candidate-free h o p placed.candidate,
      free-none (h.layer l).plane placed.unmapped,
      record { output = rw own v.listed; listed = rw own placed.listed },
      Fits-CanMap h o (advance h step p (some l)) fin ps items v (λ q i. sub q (ground arith)) fits,
    )

pub CanMap-commits :
    (h : Heap) (c : Commits) (ps : List Ptr) (items : List (Option Ptr))
    → CanMap h ps items
    → CanMap (with_commits h c) ps items
CanMap-commits h c [] items ready = tt
CanMap-commits h c (p ∷ ps) [] ready = tt
CanMap-commits h c (p ∷ ps) (none ∷ items) ready = CanMap-commits h c ps items ready
CanMap-commits h c (p ∷ ps) (some l ∷ items) (a, b, d, live, ready) = (
  a,
  b,
  d,
  record { output = live.output; listed = live.listed },
  CanMap-commits h c ps items ready,
)

module _ (drm : Drm) (fuel : ℕ) (h : Heap) (o : Ptr) (flags : ℕ) (v : IsReady (links h) o) where
  -- The items that the search from the first step finds can be mapped.
  pub choose-CanMap :
      (r : drm.Req) (s : Search drm.Req)
      → output_choose_layers drm fuel h (task h o flags) h.planes first_step (first_search h r)
        ≡ (ok, s)
      → Distinct s.best × CanMap h h.planes s.best
  choose-CanMap r s run =
      go
        (choose-Improves drm fuel h (task h o flags) h.planes first_step (first_search h r) s
          run).found
    where
      go :
          Found
            (task h o flags)
            (Reach drm fuel h (task h o flags) h.planes first_step r)
            (first_search h r)
            s
          → Distinct s.best × CanMap h h.planes s.best
      go (same b e) =
          rw b (Distinct-replicate (length h.planes), CanMap-replicate h h.planes (length h.planes))
      go (better fin w valid b e l) =
          let owned =
            λ (x : Ptr) (i : has x (h.output o).layers ≡ true). v.linked.owned o x v.listed i in
          let counted = Reach-IsCounted drm fuel h (task h o flags) owned w (first-IsCounted h o) in
          let (items, at, fits) = Reach-Fits drm fuel h (task h o flags) owned w in
          rw b (
            counted.distinct,
            rw at (Fits-CanMap h o first_step fin h.planes items v (λ p i. i) fits),
          )

  -- The end of the call, once the search has ended well.
  apply_best-IsLinked :
      (r : drm.Req) (s : Search drm.Req)
      → output_choose_layers drm fuel h (task h o flags) h.planes first_step (first_search h r)
        ≡ (ok, s)
      → IsLinked (links (apply_best drm fuel o (with_commits h s.commits) s).1.heap)
  unfolding apply_best
  apply_best-IsLinked r s run =
      let (d, ready) = choose-CanMap r s run in
      let (h', e, m) =
        map_best_lem h.planes s.best (with_commits h s.commits) v.unique d
          (CanMap-commits h s.commits h.planes s.best ready) v.linked in
      rw (e, apply_best)
        (and_then-cases (λ (x : Run (Session drm.Req)). IsLinked (links x.1.heap))
          (apply_current drm h' s.req) _ _
          (λ q _. subst IsLinked (sym (links-mark_layers_clean h' o)) m.linked) (λ q out. m.linked))

  allocate-IsLinked :
      (memory : Bool) (r : drm.Req) → IsLinked (links (allocate drm fuel o flags memory h r).1.heap)
  unfolding allocate
  allocate-IsLinked false r = v.linked
  allocate-IsLinked true r =
      and_then-cases (λ (x : Run (Session drm.Req)). IsLinked (links x.1.heap)) _ _ _
        (λ s run. apply_best-IsLinked r s run) (λ s out. v.linked)

module _ (drm : Drm) (fuel : ℕ) (o : Ptr) (flags : ℕ) where
  abbrev KeepsLinked : Run (Session drm.Req) → Type 0
  KeepsLinked x = IsLinked (links x.1.heap)

  -- The same, of the memory with all mappings of the output unset.
  pub unmapped-IsReady : (h : Heap) → IsReady (links h) o → IsReady (links (unmapped h o)) o
  unfolding unmapped
  unmapped-IsReady h v =
      let same = links-log_no_reuse h o in
      record {
        listed =
            subst (λ (d : Device). has o d.outputs ≡ true) (sym (device-unmap o h.planes _))
              v.listed;
        unique = subst (λ (d : Device). Unique d.planes) (sym (device-unmap o h.planes _)) v.unique;
        linked = unmap-IsLinked o h.planes _ (λ p i. i) (subst IsLinked (sym same) v.linked);
      }

  compute_alloc-IsLinked :
      (memory : Bool) (s : Session drm.Req)
      → IsReady (links s.heap) o
      → KeepsLinked (compute_alloc drm fuel o flags memory s)
  unfolding compute_alloc
  compute_alloc-IsLinked memory s v =
      let w = unmapped-IsReady s.heap v in
      and_then-cases KeepsLinked
        (disable_planes drm (unmapped s.heap o) (unmapped s.heap o).planes s.req) _ _
        (λ r _. allocate-IsLinked drm fuel (unmapped s.heap o) o flags w memory r)
        (λ r out. w.linked)

  -- Trying to use the previous allocation again changes no pointer.
  links-reuse_previous_alloc :
      (s : Session drm.Req) → links (reuse_previous_alloc drm fuel o flags s).1.heap ≡ links s.heap
  unfolding reuse_previous_alloc test_current
  links-reuse_previous_alloc s = elim (Bool-cases (s.heap.output o).layers_changed) [
    | inl e ↦ rw (e, reuse_previous_alloc)
    | inr e ↦
        rw (e, reuse_previous_alloc)
          (elim (Bool-cases
            (any_layer (λ l. layer_needs_realloc (s.heap.layer l)) (s.heap.output o).layers)) [
              | inl f ↦ rw f
              | inr f ↦ rw f (
                  and_then-cases (λ (x : Run (Session drm.Req)). links x.1.heap ≡ links s.heap)
                    (apply_current drm s.heap s.req) _ _ (λ r _. refl) (λ r out. refl))
            ])
  ]

  after_reuse-IsLinked :
      (memory : Bool) (x : Run (Session drm.Req))
      → IsReady (links x.1.heap) o
      → KeepsLinked (after_reuse drm fuel o flags memory x)
  unfolding after_reuse
  after_reuse-IsLinked memory (ok, s) v = subst IsLinked (sym (links-log_reuse s.heap o)) v.linked
  after_reuse-IsLinked memory (err e, s) v = compute_alloc-IsLinked memory s v
  after_reuse-IsLinked memory (abort, s) v = v.linked
  after_reuse-IsLinked memory (hang, s) v = v.linked

  -- However `liftoff_output_apply` ends, the pointers between planes, layers and outputs agree
  -- afterwards if they did before.
  pub liftoff_output_apply-IsLinked :
      (memory : Bool) (s : Session drm.Req)
      → IsReady (links s.heap) o
      → IsLinked (links (liftoff_output_apply drm fuel o flags memory s).1.heap)
  unfolding liftoff_output_apply
  liftoff_output_apply-IsLinked memory s v =
      let updated = record s { heap = update_layers_priority s.heap } in
      let same = links-reuse_previous_alloc updated ∙ links-update_layers_priority s.heap in
      after_reuse-IsLinked memory (reuse_previous_alloc drm fuel o flags updated)
        (subst (λ k. IsReady k o) (sym same) v)
