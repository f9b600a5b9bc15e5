-- ===== src/Alloc/Choose/Valid.antt =====
-- What every allocation in reach is like: the counts in its step are those of its items, no layer
-- is on two planes, and each layer may be on its plane.
use libliftoff.Prelude.{
  ℕ, suc, ◌≡◌, refl, sym, ◌∙◌, inl, inr, Bool, true, false, ◌||◌, List, [], ◌∷◌, ◌++◌, Option, none,
  some, arith, has, length, length-append, Option-cases, if◌then◌else◌, is_at,
}
use mathlib.Core.List.{append_assoc, append-nil}
use libliftoff.Prelude.Int.{to_int, ◌<ℤ◌}
use libliftoff.Model.{Ptr, Heap, is_primary}
use libliftoff.Drm.{Drm}
use libliftoff.Layer.{value, is_visible}
use libliftoff.Name.{zpos}
use libliftoff.Alloc.Step.{Step, advance, is_composition, scores}
use libliftoff.Alloc.Compatible.{
  Task, zpos_fits, has_allocated_layer_over, has_allocated_plane_under, allocated, any,
  is_composited_over, has_composited_layer_over, check_layer_plane_compatible,
}
use libliftoff.Alloc.Choose.{is_free, is_candidate, is_eligible}
use libliftoff.Alloc.Choose.Reach.{Reach, done, skip, place}

-- No layer stands twice.
abbrev pub Distinct : List (Option Ptr) → Type 0
Distinct [] = Unit {0}
Distinct (none ∷ items) = Distinct items
Distinct (some l ∷ items) = (allocated items l ≡ false) × Distinct items

-- How many of the items are layers other than the composition layer.
abbrev pub count_scored : Heap → List (Option Ptr) → ℕ
count_scored h [] = 0
count_scored h (a ∷ items) = if scores h a then suc (count_scored h items) else count_scored h items

-- Whether the composition layer of the output is among the items.
abbrev pub holds : Option Ptr → List (Option Ptr) → Bool
holds none items = false
holds (some c) items = allocated items c

pub allocated-append :
    (xs ys : List (Option Ptr)) (l : Ptr)
    → allocated (xs ++ ys) l ≡ (allocated xs l || allocated ys l)
allocated-append [] ys l = refl
allocated-append (x ∷ xs) ys l = ground (arith, allocated-append xs ys l)

count_scored-append :
    (h : Heap) (xs : List (Option Ptr)) (a : Option Ptr)
    → count_scored h (xs ++ a ∷ [])
      ≡ (if scores h a then suc (count_scored h xs) else count_scored h xs)
count_scored-append h [] a = refl
count_scored-append h (x ∷ xs) a = ground (arith, count_scored-append h xs a)

Distinct-none : (xs : List (Option Ptr)) → Distinct xs → Distinct (xs ++ none ∷ [])
Distinct-none [] d = tt
Distinct-none (none ∷ xs) d = Distinct-none xs d
Distinct-none (some x ∷ xs) d =
    (ground (arith, allocated-append xs (none ∷ []) x), Distinct-none xs d.1)

Distinct-some :
    (xs : List (Option Ptr)) (l : Ptr)
    → Distinct xs
    → allocated xs l ≡ false
    → Distinct (xs ++ some l ∷ [])
Distinct-some [] l d new = (refl, tt)
Distinct-some (none ∷ xs) l d new = Distinct-some xs l d new
Distinct-some (some x ∷ xs) l d new =
    (ground (arith, allocated-append xs (some l ∷ []) x), Distinct-some xs l d.1 (ground arith))

any_mono :
    (f g : Ptr → Bool) (xs : List Ptr)
    → ((x : Ptr) → g x ≡ true → f x ≡ true)
    → any f xs ≡ false
    → any g xs ≡ false
any_mono f g [] sub e = refl
any_mono f g (x ∷ xs) sub e = ground (arith, sub x, any_mono f g xs sub)

module _ (h : Heap) (output : Ptr) where
  -- The counts in a step are those of its items.
  pub record IsCounted (step : Step) : Type 0 where
    pub idx : step.plane_idx ≡ length step.alloc
    pub distinct : Distinct step.alloc
    pub score : step.score ≡ count_scored h step.alloc
    pub composited : step.composited ≡ holds (h.output output).composition_layer step.alloc

  -- Each layer in the list of an output points back to that output.
  abbrev pub IsOwned : Type 0
  IsOwned = (l : Ptr) → has l (h.output output).layers ≡ true → (h.layer l).output ≡ output

  -- What the search knows of a layer that it has put on a plane, with the planes before as in `step`.
  -- Against the layer that was put last on one that is not primary, a layer with a greater zpos has no
  -- layer wrongly over it there, and one with a smaller zpos no plane wrongly under its own.
  pub record IsPlaced (step final : Step) (p l : Ptr) : Type 0 where
    pub listed : has l (h.output output).layers ≡ true
    pub candidate : is_candidate h output p ≡ true
    pub unmapped : is_free (h.layer l).plane ≡ true
    pub unforced : (h.layer l).force_composition ≡ false
    pub visible : is_visible (h.layer l) ≡ true
    pub composition : is_primary (h.plane p) ≡ false → is_composition h l ≡ false
    pub uncovered :
        is_primary (h.plane p) ≡ false
        → has_composited_layer_over h (h.layer l).output final l ≡ false
    pub over_last :
        (z : ℕ)
        → value (h.layer l) zpos ≡ some z
        → step.last_layer_zpos <ℤ to_int z
        → has_allocated_layer_over h step l ≡ false
    pub under_last :
        (z : ℕ)
        → value (h.layer l) zpos ≡ some z
        → to_int z <ℤ step.last_layer_zpos
        → has_allocated_plane_under h step p l ≡ false

  -- Each plane is empty or has a layer that may be there.
  abbrev pub Fits : Step → Step → List Ptr → List (Option Ptr) → Type 0
  Fits step final [] [] = Unit {0}
  Fits step final [] (a ∷ items) = ⊥
  Fits step final (p ∷ ps) [] = ⊥
  Fits step final (p ∷ ps) (none ∷ items) = Fits (advance h step p none) final ps items
  Fits step final (p ∷ ps) (some l ∷ items) =
      IsPlaced step final p l × Fits (advance h step p (some l)) final ps items

  pub eligible-new :
      (step : Step) (l p : Ptr) → is_eligible h step l p ≡ true → allocated step.alloc l ≡ false
  unfolding is_eligible check_layer_plane_compatible
  eligible-new step l p e = ground arith

  over_mono :
      (step final : Step) (l : Ptr) (z : ℕ) (x : Ptr)
      → (allocated step.alloc x ≡ true → allocated final.alloc x ≡ true)
      → is_composited_over h final l z x ≡ true
      → is_composited_over h step l z x ≡ true
  unfolding is_composited_over
  over_mono step final l z x more e = ground arith

  -- An item more among the items covers no layer anew.
  covered_mono :
      (step final : Step) (l : Ptr)
      → ((x : Ptr) → allocated step.alloc x ≡ true → allocated final.alloc x ≡ true)
      → has_composited_layer_over h (h.layer l).output step l ≡ false
      → has_composited_layer_over h (h.layer l).output final l ≡ false
  unfolding has_composited_layer_over
  covered_mono step final l more e = elim (Option-cases (value (h.layer l) zpos)) [
    | inl n ↦ rw (n, has_composited_layer_over)
    | inr (z, n) ↦
        rw (n, has_composited_layer_over)
          (any_mono (is_composited_over h step l z) (is_composited_over h final l z) _
            (λ x i. over_mono step final l z x (more x) i) (rw (n, has_composited_layer_over) at e))
  ]

  holds-append :
      (c a : Option Ptr) (items : List (Option Ptr))
      → holds c (items ++ a ∷ []) ≡ (holds c items || elim c [ none ↦ false | some x ↦ is_at x a ])
  holds-append none a items = refl
  holds-append (some c) a items = ground (arith, allocated-append items (a ∷ []) c)

  pub advance-none : (p : Ptr) (step : Step) → IsCounted step → IsCounted (advance h step p none)
  advance-none p step v = record {
    idx = omega (arith, v.idx, length-append step.alloc (none ∷ []));
    distinct = Distinct-none step.alloc v.distinct;
    score = v.score ∙ sym (count_scored-append h step.alloc none);
    composited =
        ground
          (arith, v.composited, holds-append (h.output output).composition_layer none step.alloc);
  }

  pub advance-some :
      (p l : Ptr) (step : Step)
      → (h.layer l).output ≡ output
      → allocated step.alloc l ≡ false
      → IsCounted step
      → IsCounted (advance h step p (some l))
  advance-some p l step own new v = record {
    idx = omega (arith, v.idx, length-append step.alloc (some l ∷ []));
    distinct = Distinct-some step.alloc l v.distinct new;
    score = ground (arith, v.score, count_scored-append h step.alloc (some l));
    composited = rw own (
        ground (
          arith,
          v.composited,
          holds-append (h.output output).composition_layer (some l) step.alloc,
        ));
  }

  -- An eligible layer may be on the plane, as far as the finished allocation holds the items so far.
  eligible-IsPlaced :
      (step final : Step) (l p : Ptr)
      → has l (h.output output).layers ≡ true
      → is_candidate h output p ≡ true
      → is_eligible h step l p ≡ true
      → ((x : Ptr) → allocated step.alloc x ≡ true → allocated final.alloc x ≡ true)
      → IsPlaced step final p l
  unfolding is_eligible check_layer_plane_compatible zpos_fits
  eligible-IsPlaced step final l p listed candidate e more = record {
    listed = listed;
    candidate = candidate;
    unmapped = ground arith;
    unforced = ground arith;
    visible = ground arith;
    composition = ground arith;
    uncovered = λ over. covered_mono step final l more (ground arith);
    over_last = λ z has_zpos above. ground arith;
    under_last = λ z has_zpos below. ground arith;
  }

module _ (drm : Drm) (fuel : ℕ) (h : Heap) (t : Task) (owned : IsOwned h t.output) where
  -- The counts stay true to the end.
  pub Reach-IsCounted :
      {ps : List Ptr} {step fin : Step} {r : drm.Req}
      → Reach drm fuel h t ps step r fin
      → IsCounted h t.output step
      → IsCounted h t.output fin
  Reach-IsCounted done v = v
  Reach-IsCounted (skip {p} {step} w) v = Reach-IsCounted w (advance-none h t.output p step v)
  Reach-IsCounted (place {p} {step} l listed _ eligible _ _ w) v = Reach-IsCounted w (
      advance-some h t.output p l step (owned l listed) (eligible-new h t.output step l p eligible)
        v)

  -- The finished allocation holds the items so far, and then one for each plane that was left.
  pub Reach-Fits :
      {ps : List Ptr} {step fin : Step} {r : drm.Req}
      → Reach drm fuel h t ps step r fin
      → (items : List (Option Ptr)) × (fin.alloc ≡ step.alloc ++ items)
        × Fits h t.output step fin ps items
  Reach-Fits {step} done = ([], sym (append-nil step.alloc), tt)
  Reach-Fits (skip {step} w) =
      let (items, e, fits) = Reach-Fits w in
      (none ∷ items, e ∙ append_assoc step.alloc (none ∷ []) items, fits)
  Reach-Fits (place {p} {step} {fin} l listed candidate eligible _ _ w) =
      let (items, e, fits) = Reach-Fits w in
      let e' = e ∙ append_assoc step.alloc (some l ∷ []) items in
      (
        some l ∷ items,
        e',
        (
          eligible-IsPlaced h t.output step fin l p listed candidate eligible
              (λ x i. rw (e', allocated-append step.alloc (some l ∷ items) x, i)),
          fits,
        ),
      )
