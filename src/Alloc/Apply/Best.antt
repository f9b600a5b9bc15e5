-- ===== src/Alloc/Apply/Best.antt =====
-- The loop that puts the best allocation into effect: no assertion of it fails, each plane then
-- shows its item, and the pointers agree.
use mathlib.Core.Path.{subst}
use libliftoff.Prelude.{
  ◌≡◌, refl, sym, ◌∙◌, true, false, List, [], ◌∷◌, Option, none, some, arith, has, Unique,
}
use libliftoff.Model.{Ptr, Heap}
use libliftoff.Links.{links, IsLive, IsLinked, link-IsLinked}
use libliftoff.Alloc.Compatible.{allocated}
use libliftoff.Alloc.Choose.Valid.{Distinct}
use libliftoff.Alloc.Apply.{map_best}
use libliftoff.Alloc.Apply.Mapping.{write_link, links-write_link}

-- Each layer among the items is live and, like its plane, has no mapping yet.
abbrev pub CanMap : Heap → List Ptr → List (Option Ptr) → Type 0
CanMap h [] items = Unit {0}
CanMap h (p ∷ ps) [] = Unit {0}
CanMap h (p ∷ ps) (none ∷ items) = CanMap h ps items
CanMap h (p ∷ ps) (some l ∷ items) =
    (has p h.planes ≡ true)
    × ((h.plane p).layer ≡ none)
    × ((h.layer l).plane ≡ none)
    × IsLive (links h) l
    × CanMap h ps items

-- Each plane shows its item, or what it showed before if it has none.
abbrev pub Shows : (h h' : Heap) → List Ptr → List (Option Ptr) → Type 0
Shows h h' [] items = Unit {0}
Shows h h' (p ∷ ps) [] = Unit {0}
Shows h h' (p ∷ ps) (none ∷ items) = ((h'.plane p).layer ≡ (h.plane p).layer) × Shows h h' ps items
Shows h h' (p ∷ ps) (some l ∷ items) = ((h'.plane p).layer ≡ some l) × Shows h h' ps items

pub record IsMapped (h : Heap) (ps : List Ptr) (items : List (Option Ptr)) (h' : Heap)
    : Type 0 where
  pub linked : IsLinked (links h')
  pub shows : Shows h h' ps items
  pub other_planes : (p : Ptr) → has p ps ≡ false → (h'.plane p).layer ≡ (h.plane p).layer
  pub other_layers : (l : Ptr) → allocated items l ≡ false → (h'.layer l).plane ≡ (h.layer l).plane
  pub device : h'.device ≡ h.device
  pub output : h'.output ≡ h.output

IsLive-write :
    (h : Heap) (p l m : Ptr)
    → IsLive (links h) m
    → IsLive (links (write_link h p l (some l) (some p))) m
IsLive-write h p l m live =
    subst (λ k. IsLive k m) (sym (links-write_link h p l (some l) (some p)))
      (record { output = live.output; listed = live.listed })

CanMap-write :
    (h : Heap) (p l : Ptr) (ps : List Ptr) (items : List (Option Ptr))
    → has p ps ≡ false
    → allocated items l ≡ false
    → CanMap h ps items
    → CanMap (write_link h p l (some l) (some p)) ps items
CanMap-write h p l [] items new once ready = tt
CanMap-write h p l (q ∷ ps) [] new once ready = tt
CanMap-write h p l (q ∷ ps) (none ∷ items) new once ready =
    CanMap-write h p l ps items (ground arith) (ground arith) ready
CanMap-write h p l (q ∷ ps) (some m ∷ items) new once ready = (
  ready.0,
  ground arith,
  ground arith,
  IsLive-write h p l m ready.3,
  CanMap-write h p l ps items (ground arith) (ground arith) ready.4,
)

-- What the planes show is all that matters.
pub Shows-reframe :
    (h g h' g' : Heap) (ps : List Ptr) (items : List (Option Ptr))
    → ((p : Ptr) → has p ps ≡ true → (g.plane p).layer ≡ (h.plane p).layer)
    → ((p : Ptr) → (h'.plane p).layer ≡ (g'.plane p).layer)
    → Shows g g' ps items
    → Shows h h' ps items
Shows-reframe h g h' g' [] items same same' shows = tt
Shows-reframe h g h' g' (p ∷ ps) [] same same' shows = tt
Shows-reframe h g h' g' (p ∷ ps) (none ∷ items) same same' shows = (
  same' p ∙ shows.0 ∙ same p (ground arith),
  Shows-reframe h g h' g' ps items (λ q i. same q (ground arith)) same' shows.1,
)
Shows-reframe h g h' g' (p ∷ ps) (some m ∷ items) same same' shows = (
  same' p ∙ shows.0,
  Shows-reframe h g h' g' ps items (λ q i. same q (ground arith)) same' shows.1,
)

-- One round of the loop, put before those that follow.
IsMapped-cons :
    (h h' : Heap) (p l : Ptr) (ps : List Ptr) (items : List (Option Ptr))
    → has p ps ≡ false
    → allocated items l ≡ false
    → IsMapped (write_link h p l (some l) (some p)) ps items h'
    → IsMapped h (p ∷ ps) (some l ∷ items) h'
IsMapped-cons h h' p l ps items new once m = record {
  linked = m.linked;
  shows = (
    m.other_planes p new ∙ ground arith,
    Shows-reframe h (write_link h p l (some l) (some p)) h' h' ps items (λ q i. ground arith)
        (λ q. refl) m.shows,
  );
  other_planes = λ q i. m.other_planes q (ground arith) ∙ ground arith;
  other_layers = λ x i. m.other_layers x (ground arith) ∙ ground arith;
  device = m.device;
  output = m.output;
}

-- If the pointers agree, no plane stands twice, no layer is twice among the items, and each of
-- these layers is live and has, like its plane, no mapping yet, then putting the items into effect
-- fails no assertion, each plane with an item shows it afterwards, what is not among them keeps its
-- mapping, and the pointers agree.
pub map_best_lem :
    (ps : List Ptr) (items : List (Option Ptr)) (h : Heap)
    → Unique ps
    → Distinct items
    → CanMap h ps items
    → IsLinked (links h)
    → (h' : Heap) × (map_best ps items h ≡ some h') × IsMapped h ps items h'
unfolding map_best
map_best_lem [] items h u d ready v = (
  h,
  refl,
  record {
    linked = v;
    shows = tt;
    other_planes = λ p i. refl;
    other_layers = λ l i. refl;
    device = refl;
    output = refl;
  },
)
map_best_lem (p ∷ ps) [] h u d ready v = (
  h,
  refl,
  record {
    linked = v;
    shows = tt;
    other_planes = λ q i. refl;
    other_layers = λ l i. refl;
    device = refl;
    output = refl;
  },
)
map_best_lem (p ∷ ps) (none ∷ items) h u d ready v =
    let (h', e, m) = map_best_lem ps items h u.1 d ready v in
    (
      h',
      e,
      record {
        linked = m.linked;
        shows = (m.other_planes p u.0, m.shows);
        other_planes = λ q i. m.other_planes q (ground arith);
        other_layers = λ l i. m.other_layers l (ground arith);
        device = m.device;
        output = m.output;
      },
    )
map_best_lem (p ∷ ps) (some l ∷ items) h u d (here, free, unmapped, live, ready) v =
    let (h', e, m) =
      map_best_lem ps items (write_link h p l (some l) (some p)) u.1 d.1
        (CanMap-write h p l ps items u.0 d.0 ready)
        (subst IsLinked (sym (links-write_link h p l (some l) (some p)))
          (link-IsLinked (links h) v p l here live free unmapped)) in
    (h', rw (free, unmapped, map_best) e, IsMapped-cons h h' p l ps items u.0 d.0 m)
