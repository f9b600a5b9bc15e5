-- ===== src/Ring/Removed.antt =====
-- Removing a node from a ring, and what the length and the emptiness of a ring are.
use libliftoff.Prelude.{
  ℕ, zero, suc, ◌+◌, ◌<◌, ◌≡◌, refl, ap, ◌∙◌, ◌↔◌, inl, inr, true, false, List, [], ◌∷◌, ◌++◌, none,
  some, arith, has, has-append, ◌==◌, Unique, Bool-cases, length, is_at,
}
use libliftoff.Model.{Ptr}
use libliftoff.Ring.{
  Ring, set_prev, set_next, list_init, list_remove, list_length, list_empty, count_from,
}
use libliftoff.Ring.Chain.{Chain, IsRing, Chain-set_next, Chain-set_prev, Chain-append, Chain-split}
use libliftoff.Ring.Refines.{first, first-Chain, first-cases, Unique-append}

abbrev removed : Ring → (a e n : Ptr) → Ring
removed r a e n = set_prev (set_next (set_prev (set_next r a (some n)) n (some a)) e none) e none

list_remove-some :
    (r : Ring) (a e n : Ptr)
    → (e == a) ≡ false
    → r.prev e ≡ some a
    → r.next e ≡ some n
    → list_remove r e ≡ some (removed r a e n)
unfolding list_remove
list_remove-some r a e n other before behind =
    let differs : (a == e) ≡ false = ground arith in
    rw (before, behind, differs)
      (ap (λ p. some (set_prev (set_next (set_prev (set_next r a (some n)) n p) e none) e none))
        before)

-- A chain that begins at `a`, with the first node taken out.
Chain-removed :
    (r : Ring) (a e : Ptr) (zs : List Ptr) (b : Ptr)
    → has e (a ∷ zs) ≡ false
    → (e == b) ≡ false
    → has a zs ≡ false
    → has b zs ≡ false
    → Unique zs
    → Chain r a (e ∷ zs) b
    → Chain (removed r a e (first zs b)) a zs b
Chain-removed r a e [] b new other once off u (f, g, (j, k)) = (ground arith, ground arith)
Chain-removed r a e (z ∷ zs) b new other once off u (f, g, (j, k, c)) = (
  ground arith,
  ground arith,
  Chain-set_prev _ z zs b e none (ground arith) other (
      Chain-set_next _ z zs b e none (ground arith) (
        Chain-set_prev _ z zs b z (some a) u.0 (ground arith)
          (Chain-set_next r z zs b a (some z) (ground arith) c))),
)

-- A chain that ends at `a` does not notice.
Chain-kept :
    (r : Ring) (l : Ptr) (ys : List Ptr) (a e n : Ptr)
    → has a (l ∷ ys) ≡ false
    → has e (l ∷ ys) ≡ false
    → (e == a) ≡ false
    → has n ys ≡ false
    → (n == a) ≡ false
    → Chain r l ys a
    → Chain (removed r a e n) l ys a
Chain-kept r l ys a e n off new other apart differs c =
    Chain-set_prev _ l ys a e none (ground arith) other (
      Chain-set_next _ l ys a e none new (
        Chain-set_prev _ l ys a n (some a) apart differs
          (Chain-set_next r l ys a a (some n) off c)))

Unique-remove :
    (e : Ptr) (xs : List Ptr) (a : Ptr) (ys : List Ptr)
    → Unique (xs ++ a ∷ e ∷ ys)
    → Unique (xs ++ a ∷ ys)
Unique-remove e [] a ys u = (ground (arith, u.0), u.1.1)
Unique-remove e (x ∷ xs) a ys u = (
  ground (arith, u.0, has-append x xs (a ∷ ys), has-append x xs (a ∷ e ∷ ys)),
  Unique-remove e xs a ys u.1,
)

-- The first node of a ring is taken out.
pub list_remove-head :
    (r : Ring) (l e : Ptr) (xs : List Ptr)
    → IsRing r l (e ∷ xs)
    → (r' : Ring) × (list_remove r e ≡ some r') × IsRing r' l xs
list_remove-head r l e xs v = (
  removed r l e (first xs l),
  list_remove-some r l e (first xs l) (ground (arith, v.unique.0)) v.chain.1
      (first-Chain r e xs l v.chain.2),
  record {
    chain =
        Chain-removed r l e xs l (ground (arith, v.unique.0, v.unique.1.0))
          (ground (arith, v.unique.0)) (ground (arith, v.unique.0)) (ground (arith, v.unique.0))
          v.unique.1.1 v.chain;
    unique = (ground (arith, v.unique.0), v.unique.1.1);
  },
)

-- Removing a node that stands behind another node of a ring follows no null pointer, and takes it out
-- of the list of the nodes.
pub list_remove-after :
    (r : Ring) (l e : Ptr) (ys : List Ptr) (a : Ptr) (zs : List Ptr)
    → IsRing r l (ys ++ a ∷ e ∷ zs)
    → (r' : Ring) × (list_remove r e ≡ some r') × IsRing r' l (ys ++ a ∷ zs)
list_remove-after r l e ys a zs v =
    let (c, d) = Chain-split r l ys a (e ∷ zs) l v.chain in
    let (u, w, apart) = Unique-append ys (a ∷ e ∷ zs) v.unique.1 in
    let l_off = has-append l ys (a ∷ e ∷ zs) in
    let n = first zs l in
    let back : (x : Ptr) → has x (a ∷ e ∷ zs) ≡ true → has x ys ≡ false = λ x i.
      elim (Bool-cases (has x ys)) [
        | inl in_ys ↦ absurd (ground (arith, apart x in_ys))
        | inr off ↦ off
      ] in
    let (n_ys, n_a) : (has n ys ≡ false) × ((n == a) ≡ false) = elim (first-cases zs l) [
      | inl at_l ↦
          (rw at_l (ground (arith, l_off, v.unique.0)), rw at_l (ground (arith, l_off, v.unique.0)))
      | inr in_zs ↦ (back n (ground arith), ground (arith, w.0))
    ] in
    (
      removed r a e n,
      list_remove-some r a e n (ground (arith, w.0)) d.1 (first-Chain r e zs l d.2),
      record {
        chain =
            Chain-append _ l ys a zs l
              (Chain-kept r l ys a e n (ground (arith, l_off, v.unique.0, back a (ground arith)))
                (ground (arith, l_off, v.unique.0, back e (ground arith))) (ground (arith, w.0))
                n_ys n_a c)
              (Chain-removed r a e zs l (ground (arith, w.0, w.1.0))
                (ground (arith, l_off, v.unique.0)) (ground (arith, w.0))
                (ground (arith, l_off, v.unique.0)) w.1.1 d);
        unique = (
          ground (arith, l_off, v.unique.0, has-append l ys (a ∷ zs)),
          Unique-remove e ys a zs v.unique.1,
        );
      },
    )

pub list_init-IsRing : (r : Ring) (l : Ptr) → IsRing (list_init r l) l []
unfolding list_init
list_init-IsRing r l = record { chain = (ground arith, ground arith); unique = (refl, tt) }

count_from-Chain :
    (r : Ring) (a : Ptr) (xs : List Ptr) (l : Ptr) (fuel c : ℕ)
    → Chain r a xs l
    → has l xs ≡ false
    → length xs < fuel
    → count_from r fuel l (r.next a) c ≡ some (c + length xs)
unfolding count_from
count_from-Chain r a [] l zero c (f, g) off h = absurd (omega arith)
count_from-Chain r a [] l (suc fuel) c (f, g) off h = ground arith
count_from-Chain r a (x ∷ xs) l zero c d off h = absurd (omega arith)
count_from-Chain r a (x ∷ xs) l (suc fuel) c (f, g, d) off h =
    ground (arith, count_from-Chain r x xs l fuel (suc c) d)

empty_iff :
    (r : Ring) (l : Ptr) (xs : List Ptr)
    → Chain r l xs l
    → has l xs ≡ false
    → (is_at l (r.next l) ≡ true) ↔ (xs ≡ [])
empty_iff r l [] c off = (λ e. refl, λ e. ground arith)
empty_iff r l (x ∷ xs) c off = (λ e. absurd (ground arith), λ e. cc)

-- The length of a ring is that of the list of its nodes, if the loop may run once for each node and
-- once more, and a ring is empty exactly when that list is.
pub length_and_empty :
    (r : Ring) (l : Ptr) (xs : List Ptr) (fuel : ℕ)
    → IsRing r l xs
    → length xs < fuel
    → (list_length r fuel l ≡ some (length xs)) × ((list_empty r l ≡ true) ↔ (xs ≡ []))
unfolding list_length list_empty
length_and_empty r l xs fuel v h = (
  count_from-Chain r l xs l fuel 0 v.chain v.unique.0 h ∙ ap (λ n. some n) (omega arith),
  empty_iff r l xs v.chain v.unique.0,
)
