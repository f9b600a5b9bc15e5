-- ===== src/Prelude/Lists.antt =====
-- Lists measured and searched by native numbers.
use Prim.Native.Nat.{ℕ, zero, suc, ◌+◌}
use mathlib.Core.Path.{◌≡◌, refl, ◌∙◌}
use mathlib.Core.List.{List, [], ◌∷◌, ◌++◌}
use mathlib.Core.Bool.{Bool, false, ◌||◌, ◌&&◌, not}
use mathlib.Core.Logic.{inl, inr}
use native.Mathlib.Omega.{arith}
use libliftoff.Prelude.Tests.{◌==◌, if◌then◌else◌, Bool-cases}

module _ {ℓ} {A : Type ℓ} where
  abbrev pub length : List A → ℕ
  length [] = 0
  length (x ∷ xs) = suc (length xs)

  abbrev pub take : ℕ → List A → List A
  take zero xs = []
  take (suc n) [] = []
  take (suc n) (x ∷ xs) = x ∷ take n xs

  abbrev pub replicate : ℕ → A → List A
  replicate zero a = []
  replicate (suc n) a = a ∷ replicate n a

  pub length-append : (xs ys : List A) → length (xs ++ ys) ≡ length xs + length ys
  length-append [] ys = omega arith
  length-append (x ∷ xs) ys = omega (arith, length-append xs ys)

abbrev pub has : ℕ → List ℕ → Bool
has a [] = false
has a (x ∷ xs) = x == a || has a xs

pub has-append : (a : ℕ) (xs ys : List ℕ) → has a (xs ++ ys) ≡ (has a xs || has a ys)
has-append a [] ys = refl
has-append a (x ∷ xs) ys = ground (arith, has-append a xs ys)

-- The list without an address.
abbrev pub without : ℕ → List ℕ → List ℕ
without a [] = []
without a (x ∷ xs) = if x == a then without a xs else x ∷ without a xs

pub has-without : (a b : ℕ) (xs : List ℕ) → has b (without a xs) ≡ (not (a == b) && has b xs)
has-without a b [] = ground arith
has-without a b (x ∷ xs) = ground (arith, has-without a b xs)

-- No address stands twice.
abbrev pub Unique : List ℕ → Type 0
Unique [] = Unit {0}
Unique (x ∷ xs) = (has x xs ≡ false) × Unique xs

pub Unique-without : (a : ℕ) (xs : List ℕ) → Unique xs → Unique (without a xs)
Unique-without a [] u = tt
Unique-without a (x ∷ xs) u = elim (Bool-cases (x == a)) [
  | inl e ↦ rw e (Unique-without a xs u.1)
  | inr e ↦ rw e (ground (arith, has-without a x xs), Unique-without a xs u.1)
]

-- A list grows by one address that is not in it.
pub Unique-append : (ls : List ℕ) (l : ℕ) → Unique ls → has l ls ≡ false → Unique (ls ++ l ∷ [])
Unique-append [] l u new = (refl, tt)
Unique-append (x ∷ ls) l u new =
    (has-append x ls (l ∷ []) ∙ ground arith, Unique-append ls l u.1 (ground arith))
