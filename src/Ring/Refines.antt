-- ===== src/Ring/Refines.antt =====
-- The operations on rings, as operations on the lists of their nodes.
use libliftoff.Prelude.{
  ◌≡◌, refl, ◌⊎◌, inl, inr, true, false, List, [], ◌∷◌, ◌++◌, some, arith, has, has-append, ◌==◌,
  ==_refl, Unique, Bool-cases,
}
use libliftoff.Model.{Ptr}
use libliftoff.Ring.{Ring, set_prev, set_next, list_insert}
use libliftoff.Ring.Chain.{Chain, IsRing, Chain-set_next, Chain-set_prev, Chain-append, Chain-split}

-- The node behind the start of a chain to `b`.
abbrev pub first : List Ptr → Ptr → Ptr
first [] b = b
first (x ∷ xs) b = x

-- The node in front of its end.
abbrev pub last : Ptr → List Ptr → Ptr
last a [] = a
last a (x ∷ xs) = last x xs

pub first-Chain :
    (r : Ring) (a : Ptr) (xs : List Ptr) (b : Ptr) → Chain r a xs b → r.next a ≡ some (first xs b)
first-Chain r a [] b c = c.0
first-Chain r a (x ∷ xs) b c = c.0

abbrev inserted : Ring → (a e n : Ptr) → Ring
inserted r a e n =
    set_prev (set_next (set_next (set_prev r e (some a)) e (some n)) a (some e)) n (some e)

list_insert-some :
    (r : Ring) (a e n : Ptr)
    → (e == a) ≡ false
    → r.next a ≡ some n
    → list_insert r a e ≡ some (inserted r a e n)
unfolding list_insert
list_insert-some r a e n other at =
    let differs : (a == e) ≡ false = ground arith in rw (at, differs, ==_refl e) refl

-- A chain that begins at `a`, with `e` put behind `a`.
Chain-inserted :
    (r : Ring) (a e : Ptr) (zs : List Ptr) (b : Ptr)
    → has e (a ∷ zs) ≡ false
    → (e == b) ≡ false
    → has a zs ≡ false
    → has b zs ≡ false
    → Unique zs
    → Chain r a zs b
    → Chain (inserted r a e (first zs b)) a (e ∷ zs) b
Chain-inserted r a e [] b new other once off u c =
    (ground arith, ground arith, (ground arith, ground arith))
Chain-inserted r a e (z ∷ zs) b new other once off u (f, g, c) = (
  ground arith,
  ground arith,
  (
    ground arith,
    ground arith,
    Chain-set_prev _ z zs b z (some e) u.0 (ground arith) (
        Chain-set_next _ z zs b a (some e) (ground arith) (
          Chain-set_next _ z zs b e (some z) (ground arith)
            (Chain-set_prev r z zs b e (some a) (ground arith) other c))),
  ),
)

-- A chain that ends at `a` does not notice.
Chain-kept :
    (r : Ring) (l : Ptr) (ys : List Ptr) (a e n : Ptr)
    → has a (l ∷ ys) ≡ false
    → has e (l ∷ ys) ≡ false
    → (e == a) ≡ false
    → has n ys ≡ false
    → (n == a) ≡ false
    → Chain r l ys a
    → Chain (inserted r a e n) l ys a
Chain-kept r l ys a e n off new other apart differs c =
    Chain-set_prev _ l ys a n (some e) apart differs (
      Chain-set_next _ l ys a a (some e) off (
        Chain-set_next _ l ys a e (some n) new
          (Chain-set_prev r l ys a e (some a) (ground arith) other c)))

pub Unique-append :
    (xs ys : List Ptr)
    → Unique (xs ++ ys)
    → Unique xs × Unique ys × ((x : Ptr) → has x xs ≡ true → has x ys ≡ false)
Unique-append [] ys u = (tt, u, λ x i. cc)
Unique-append (z ∷ xs) ys u =
    let (a, b, apart) = Unique-append xs ys u.1 in
    (
      (ground (arith, has-append z xs ys), a),
      b,
      λ x i. elim (Bool-cases (z == x)) [
        | inl e ↦ ground (arith, has-append z xs ys)
        | inr e ↦ apart x (ground arith)
      ],
    )

Unique-insert :
    (e : Ptr) (xs : List Ptr) (a : Ptr) (ys : List Ptr)
    → has e (xs ++ a ∷ ys) ≡ false
    → Unique (xs ++ a ∷ ys)
    → Unique (xs ++ a ∷ e ∷ ys)
Unique-insert e [] a ys new u = (ground (arith, u.0), (ground arith, u.1))
Unique-insert e (x ∷ xs) a ys new u = (
  ground (arith, has-append x xs (a ∷ ys), has-append x xs (a ∷ e ∷ ys)),
  Unique-insert e xs a ys (ground arith) u.1,
)

pub first-cases : (zs : List Ptr) (l : Ptr) → (first zs l ≡ l) ⊎ (has (first zs l) zs ≡ true)
first-cases [] l = inl refl
first-cases (z ∷ zs) l = inr (ground arith)

-- Putting a new node behind the head of a ring puts it in front of the list of its nodes.
pub list_insert-head :
    (r : Ring) (l e : Ptr) (xs : List Ptr)
    → IsRing r l xs
    → has e (l ∷ xs) ≡ false
    → (r' : Ring) × (list_insert r l e ≡ some r') × IsRing r' l (e ∷ xs)
list_insert-head r l e xs v new = (
  inserted r l e (first xs l),
  list_insert-some r l e (first xs l) (ground arith) (first-Chain r l xs l v.chain),
  record {
    chain = Chain-inserted r l e xs l new (ground arith) v.unique.0 v.unique.0 v.unique.1 v.chain;
    unique = (ground (arith, v.unique), (ground arith, v.unique.1));
  },
)

-- Putting a new node behind a node of a ring follows no null pointer, and puts it there into the list
-- of the nodes.
pub list_insert-after :
    (r : Ring) (l e : Ptr) (ys : List Ptr) (a : Ptr) (zs : List Ptr)
    → IsRing r l (ys ++ a ∷ zs)
    → has e (l ∷ ys ++ a ∷ zs) ≡ false
    → (r' : Ring) × (list_insert r a e ≡ some r') × IsRing r' l (ys ++ a ∷ e ∷ zs)
list_insert-after r l e ys a zs v new =
    let (c, d) = Chain-split r l ys a zs l v.chain in
    let (u, w, apart) = Unique-append ys (a ∷ zs) v.unique.1 in
    let e_off = has-append e ys (a ∷ zs) in
    let l_off = has-append l ys (a ∷ zs) in
    let n = first zs l in
    let back : (x : Ptr) → has x (a ∷ zs) ≡ true → has x ys ≡ false = λ x i.
      elim (Bool-cases (has x ys)) [
        | inl in_ys ↦ absurd (ground (arith, apart x in_ys))
        | inr off ↦ off
      ] in
    let (n_ys, n_a) : (has n ys ≡ false) × ((n == a) ≡ false) = elim (first-cases zs l) [
      | inl at_l ↦
          (rw at_l (ground (arith, l_off, v.unique.0)), rw at_l (ground (arith, l_off, v.unique.0)))
      | inr in_zs ↦ (back n (ground arith), ground (arith, w.0))
    ] in
    (
      inserted r a e n,
      list_insert-some r a e n (ground (arith, e_off)) (first-Chain r a zs l d),
      record {
        chain =
            Chain-append _ l ys a (e ∷ zs) l
              (Chain-kept r l ys a e n (ground (arith, l_off, v.unique.0, back a (ground arith)))
                (ground (arith, e_off)) (ground (arith, e_off)) n_ys n_a c)
              (Chain-inserted r a e zs l (ground (arith, e_off)) (ground arith) w.0
                (ground (arith, l_off, v.unique.0)) w.1 d);
        unique = (
          ground (arith, l_off, v.unique.0, has-append l ys (a ∷ e ∷ zs)),
          Unique-insert e ys a zs (ground arith) v.unique.1,
        );
      },
    )
