-- ===== src/Alloc/Buffer.antt =====
-- `output_choose_layers` of alloc.c with the memory that its calls share: the array `step.alloc`
-- that `liftoff_output_apply` allocates once, and the log prefix of each step. `none` is an access
-- outside an array.
pub mod Arrays
pub mod Match
pub mod Refines
use libliftoff.Prelude.{
  ℕ, zero, suc, ◌+◌, ◌-◌, Bool, true, false, ◌&&◌, List, [], ◌∷◌, Option, none, some, take, length,
  replicate, leb, if◌then◌else◌,
}
use libliftoff.Prelude.Int.{ℤ, pos, int_max, ltb_ℤ, leb_ℤ}
use libliftoff.Errno.{Outcome, einval, Run, ok, err, abort, hang}
use libliftoff.Drm.{Drm}
use libliftoff.Model.{Ptr, Heap, is_primary}
use libliftoff.Plane.{plane_apply}
use libliftoff.Device.{test_commit}
use libliftoff.Alloc.Step.{Step, puts_composition, scores, layer_zpos, next_zpos}
use libliftoff.Alloc.Compatible.{Task, check_alloc_valid}
use libliftoff.Alloc.Choose.{Search, is_candidate, is_eligible, is_unsupported, rewind}

module _ {A : Type 0} where
  abbrev pub kept_head : A → Option (List A) → Option (List A)
  kept_head a none = none
  kept_head a (some xs) = some (a ∷ xs)

  -- `array[i] = a`
  abbrev pub store : (i : ℕ) → A → List A → Option (List A)
  store i a [] = none
  store zero a (x ∷ xs) = some (a ∷ xs)
  store (suc i) a (x ∷ xs) = kept_head x (store i a xs)

  -- What `memcpy` reads: the first `n` items.
  abbrev pub load : (n : ℕ) → List A → Option (List A)
  load zero xs = some []
  load (suc n) [] = none
  load (suc n) (x ∷ xs) = kept_head x (load n xs)

  -- `memset` of the first `n` items.
  abbrev pub memset : A → (n : ℕ) → List A → Option (List A)
  memset a zero xs = some xs
  memset a (suc n) [] = none
  memset a (suc n) (x ∷ xs) = kept_head a (memset a n xs)

abbrev pub one_more : Option ℕ → Option ℕ
one_more none = none
one_more (some n) = some (suc n)

-- `strlen`: the bytes before the first one that is 0.
abbrev pub strlen : List ℕ → Option ℕ
strlen [] = none
strlen (zero ∷ bs) = some 0
strlen (suc b ∷ bs) = one_more (strlen bs)

-- `sizeof(step->log_prefix)`
abbrev pub prefix_size : ℕ
prefix_size = 64

abbrev pub space : ℕ
space = 0x20

abbrev pub limit_len : ℕ → ℕ
limit_len len = if leb len (prefix_size - 1) then len else prefix_size - 1

-- A string of `len` spaces, in an array of bytes.
unfoldable pub blanks : (len : ℕ) → List ℕ → Option (List ℕ)
blanks len bytes = elim (memset space len bytes) [ none ↦ none | some spaces ↦ store len 0 spaces ]

-- The log prefix of the next step, whose array holds zeros, or what this has written for a layer
-- before it, which is the same.
unfoldable pub next_prefix : Option Ptr → List ℕ → Option (List ℕ)
unfolding blanks
next_prefix none bytes = some bytes
next_prefix (some l) bytes = elim (strlen bytes) [
  | none ↦ none
  | some n ↦ blanks (limit_len (n + 2)) (replicate prefix_size 0)
]

-- `struct alloc_step`, but for the pointer to the shared array.
pub record Mark : Type 0 where
  pub plane_idx : ℕ
  pub score : ℕ
  pub last_layer_zpos : ℤ
  pub composited : Bool
  pub log_prefix : List ℕ

-- `step` as `liftoff_output_apply` fills it in: `{0}`, and the four fields that it writes.
abbrev pub first_mark : Mark
first_mark = record {
  plane_idx = 0;
  score = 0;
  last_layer_zpos = int_max;
  composited = false;
  log_prefix = replicate prefix_size 0;
}

-- What all steps share.
pub record Shared (R : Type 0) : Type 0 where
  pub search : Search R
  pub alloc : List (Option Ptr)

-- A step as the checks read it: "only items up to plane_idx are valid".
abbrev pub view : Mark → List (Option Ptr) → Step
view m alloc = record {
  plane_idx = m.plane_idx;
  alloc = take m.plane_idx alloc;
  score = m.score;
  last_layer_zpos = m.last_layer_zpos;
  composited = m.composited;
}

abbrev pub next_mark : Heap → Mark → Ptr → Option Ptr → List ℕ → Mark
next_mark h prev p layer bytes = record {
  plane_idx = suc prev.plane_idx;
  score = if scores h layer then suc prev.score else prev.score;
  last_layer_zpos = next_zpos prev.last_layer_zpos (is_primary (h.plane p)) (layer_zpos h layer);
  composited = if puts_composition h layer then true else prev.composited;
  log_prefix = bytes;
}

-- A run that may access memory outside an array.
abbrev pub Access : Type 0 → Type 0
Access S = Option (Run S)

-- `if (ret != 0) return ret;`, and the rest of the function.
infixl 5 ◌>>>◌
abbrev pub ◌>>>◌ : {S : Type 0} → Access S → (S → Access S) → Access S
none >>> k = none
some (ok, s) >>> k = k s
some (err e, s) >>> k = some (err e, s)
some (abort, s) >>> k = some (abort, s)
some (hang, s) >>> k = some (hang, s)

module _ (drm : Drm) (fuel : ℕ) (h : Heap) (t : Task) where
  open drm use {Req, get_cursor}

  abbrev pub Rest : Type 0
  Rest = Mark → Shared Req → Access (Shared Req)

  abbrev pub rewind_shared : ℕ → Shared Req → Access (Shared Req)
  rewind_shared c s = some (ok, record s { search = rewind drm c s.search })

  -- The end of an allocation.
  unfoldable pub finish_shared : Rest
  finish_shared m s =
      if ltb_ℤ s.search.best_score (pos m.score) && check_alloc_valid t (view m s.alloc)
      then elim (load t.planes_len s.alloc) [
        | none ↦ none
        | some best ↦
            some
              (ok, record s { search = record s.search { best = best; best_score = pos m.score } })
      ]
      else some (ok, s)

  -- `plane_step_init_next`, and the search from there.
  unfoldable pub descend_shared : Rest → Ptr → Mark → Option Ptr → Shared Req → Access (Shared Req)
  unfolding next_prefix
  descend_shared rest p m layer s = elim (store m.plane_idx layer s.alloc) [
    | none ↦ none
    | some alloc ↦ elim (puts_composition h layer && m.composited) [
      | true ↦ some (abort, record s { alloc = alloc })
      | false ↦ elim (next_prefix layer m.log_prefix) [
        | none ↦ none
        | some bytes ↦ rest (next_mark h m p layer bytes) (record s { alloc = alloc })
      ]
    ]
  ]

  -- What follows the test-only commit of a layer on a plane.
  unfoldable pub after_commit_shared :
      Rest → (cursor : ℕ) → Ptr → Mark → Ptr → Outcome → Shared Req → Access (Shared Req)
  unfolding descend_shared
  after_commit_shared rest c p m l ok s = descend_shared rest p m (some l) s >>> rewind_shared c
  after_commit_shared rest c p m l (err e) s =
      if is_unsupported e then rewind_shared c s else some (err e, s)
  after_commit_shared rest c p m l abort s = some (abort, s)
  after_commit_shared rest c p m l hang s = some (hang, s)

  -- What follows `plane_apply` in the loop.
  unfoldable pub after_apply_shared :
      Rest → (cursor : ℕ) → Ptr → Mark → Ptr → Outcome → Shared Req → Access (Shared Req)
  unfolding after_commit_shared
  after_apply_shared rest c p m l ok s =
      let (ret, commits) = test_commit drm fuel s.search.commits s.search.req t.flags in
      after_commit_shared rest c p m l ret
        (record s { search = record s.search { commits = commits } })
  after_apply_shared rest c p m l (err einval) s = some (ok, s)
  after_apply_shared rest c p m l e s = some (e, s)

  -- One round of the loop over the layers.
  unfoldable pub visit_shared :
      Rest → (cursor : ℕ) → Ptr → Mark → Ptr → Shared Req → Access (Shared Req)
  unfolding after_apply_shared
  visit_shared rest c p m l s = elim (is_eligible h (view m s.alloc) l p) [
    | false ↦ some (ok, s)
    | true ↦
        let (ret, req) = plane_apply drm h p (some l) s.search.req in
        after_apply_shared rest c p m l ret (record s { search = record s.search { req = req } })
  ]

  -- The loop over the layers.
  unfoldable pub visit_all_shared :
      Rest → (cursor : ℕ) → Ptr → Mark → List Ptr → Shared Req → Access (Shared Req)
  unfolding visit_shared
  visit_all_shared rest c p m [] s = some (ok, s)
  visit_all_shared rest c p m (l ∷ ls) s =
      visit_shared rest c p m l s >>> visit_all_shared rest c p m ls

  -- A node of the search, at a plane.
  unfoldable pub node_shared : Rest → Ptr → Rest
  unfolding visit_all_shared
  node_shared rest p m s =
      let c = get_cursor s.search.req in
      elim (leb_ℤ (pos (m.score + (t.planes_len - m.plane_idx))) s.search.best_score) [
        | true ↦ some (ok, s)
        | false ↦
            (if is_candidate h t.output p
              then visit_all_shared rest c p m (h.output t.output).layers s
              else some (ok, s))
            >>> λ s'. descend_shared rest p m none s' >>> rewind_shared c
      ]

  -- `output_choose_layers`
  unfoldable pub choose_shared : List Ptr → Rest
  unfolding finish_shared node_shared
  choose_shared [] m s = finish_shared m s
  choose_shared (p ∷ ps) m s = node_shared (choose_shared ps) p m s
