-- ===== src/Ring/Chain.antt =====
-- Runs of nodes that are linked in both directions.
use libliftoff.Prelude.{◌≡◌, false, List, [], ◌∷◌, ◌++◌, Option, some, arith, has, ◌==◌, Unique}
use libliftoff.Model.{Ptr}
use libliftoff.Ring.{Ring, set_prev, set_next}

-- From `a` through the nodes to `b`, each points at the next and the next points back.
abbrev pub Chain : Ring → Ptr → List Ptr → Ptr → Type 0
Chain r a [] b = (r.next a ≡ some b) × (r.prev b ≡ some a)
Chain r a (x ∷ xs) b = (r.next a ≡ some x) × (r.prev x ≡ some a) × Chain r x xs b

-- The list of nodes of a ring around `list`: it comes back to `list`, and no node stands twice.
pub record IsRing (r : Ring) (list : Ptr) (xs : List Ptr) : Type 0 where
  pub chain : Chain r list xs list
  pub unique : Unique (list ∷ xs)

-- Writes elsewhere leave a chain alone.
pub Chain-set_next :
    (r : Ring) (a : Ptr) (xs : List Ptr) (b : Ptr) (n : Ptr) (v : Option Ptr)
    → has n (a ∷ xs) ≡ false
    → Chain r a xs b
    → Chain (set_next r n v) a xs b
Chain-set_next r a [] b n v off (f, g) = (ground arith, g)
Chain-set_next r a (x ∷ xs) b n v off (f, g, c) =
    (ground arith, g, Chain-set_next r x xs b n v (ground arith) c)

pub Chain-set_prev :
    (r : Ring) (a : Ptr) (xs : List Ptr) (b : Ptr) (n : Ptr) (v : Option Ptr)
    → has n xs ≡ false
    → (n == b) ≡ false
    → Chain r a xs b
    → Chain (set_prev r n v) a xs b
Chain-set_prev r a [] b n v off other (f, g) = (f, ground arith)
Chain-set_prev r a (x ∷ xs) b n v off other (f, g, c) =
    (f, ground arith, Chain-set_prev r x xs b n v (ground arith) other c)

pub Chain-append :
    (r : Ring) (a : Ptr) (xs : List Ptr) (m : Ptr) (ys : List Ptr) (b : Ptr)
    → Chain r a xs m
    → Chain r m ys b
    → Chain r a (xs ++ m ∷ ys) b
Chain-append r a [] m ys b (f, g) d = (f, g, d)
Chain-append r a (x ∷ xs) m ys b (f, g, c) d = (f, g, Chain-append r x xs m ys b c d)

pub Chain-split :
    (r : Ring) (a : Ptr) (xs : List Ptr) (m : Ptr) (ys : List Ptr) (b : Ptr)
    → Chain r a (xs ++ m ∷ ys) b
    → Chain r a xs m × Chain r m ys b
Chain-split r a [] m ys b (f, g, d) = ((f, g), d)
Chain-split r a (x ∷ xs) m ys b (f, g, c) =
    let (l, d) = Chain-split r x xs m ys b c in ((f, g, l), d)
