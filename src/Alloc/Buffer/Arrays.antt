-- ===== src/Alloc/Buffer/Arrays.antt =====
-- The arrays of the search: what is written in range, and what is read afterwards.
use libliftoff.Prelude.{
  ℕ, zero, suc, ◌+◌, ◌≤◌, ◌<◌, ◌≡◌, refl, sym, ap, ◌∙◌, List, [], ◌∷◌, ◌++◌, Option, none, some,
  take, length, replicate, arith,
}
use libliftoff.Model.{Ptr}
use libliftoff.Alloc.Buffer.{
  kept_head, store, load, memset, strlen, one_more, prefix_size, space, limit_len, blanks,
  next_prefix,
}

module _ {A : Type 0} where
  -- A write in range: the items before it stay, and the written one follows them.
  pub record Stored (i : ℕ) (a : A) (xs ys : List A) : Type 0 where
    pub run : store i a xs ≡ some ys
    pub len : length ys ≡ length xs
    pub before : take i ys ≡ take i xs
    pub item : take (suc i) ys ≡ take i xs ++ a ∷ []

  pub store_lem : (i : ℕ) (a : A) (xs : List A) → i < length xs → (ys : List A) × Stored i a xs ys
  store_lem i a [] lt = absurd (omega (arith, lt))
  store_lem zero a (x ∷ xs) lt =
      (a ∷ xs, record { run = refl; len = refl; before = refl; item = refl })
  store_lem (suc i) a (x ∷ xs) lt =
      let (ys, s) = store_lem i a xs (omega (arith, lt)) in
      (
        x ∷ ys,
        record {
          run = ap (kept_head x) s.run;
          len = ap suc s.len;
          before = ap (λ zs. x ∷ zs) s.before;
          item = ap (λ zs. x ∷ zs) s.item;
        },
      )

  pub load_lem : (n : ℕ) (xs : List A) → n ≤ length xs → load n xs ≡ some (take n xs)
  load_lem zero xs le = refl
  load_lem (suc n) [] le = absurd (omega (arith, le))
  load_lem (suc n) (x ∷ xs) le = ap (kept_head x) (load_lem n xs (omega (arith, le)))

-- The array of a log prefix holds a string.
pub record IsString (bytes : List ℕ) : Type 0 where
  pub size : length bytes ≡ prefix_size
  pub len : ℕ
  pub ended : strlen bytes ≡ some len

abbrev Blank : (n : ℕ) (bytes : List ℕ) → Type 0
Blank n bytes =
    (spaces : List ℕ) × (ended : List ℕ) × (memset space n bytes ≡ some spaces)
    × (store n 0 spaces ≡ some ended)
    × (length ended ≡ length bytes)
    × (strlen ended ≡ some n)

blank : (n : ℕ) (bytes : List ℕ) → n < length bytes → Blank n bytes
blank n [] lt = absurd (omega (arith, lt))
blank zero (b ∷ bytes) lt = (b ∷ bytes, 0 ∷ bytes, refl, refl, refl, refl)
blank (suc n) (b ∷ bytes) lt =
    let (spaces, ended, set, stored, len, str) = blank n bytes (omega (arith, lt)) in
    (
      space ∷ spaces,
      space ∷ ended,
      ap (kept_head space) set,
      ap (kept_head space) stored,
      ap suc len,
      ap one_more str,
    )

limit_len_lt : (n : ℕ) → limit_len n < prefix_size
limit_len_lt n = ground arith

blanks_lem :
    (n : ℕ) (bytes : List ℕ)
    → n < length bytes
    → length bytes ≡ prefix_size
    → (next : List ℕ) × (blanks n bytes ≡ some next) × IsString next
unfolding blanks
blanks_lem n bytes lt size =
    let (spaces, ended, set, stored, len, str) = blank n bytes lt in
    (ended, rw (blanks, set, stored) refl, record { size = len ∙ size; len = n; ended = str })

-- The prefix of the next step is built in range, and ends in the array, however deep the search is.
pub next_prefix_lem :
    (layer : Option Ptr) (bytes : List ℕ)
    → IsString bytes
    → (next : List ℕ) × (next_prefix layer bytes ≡ some next) × IsString next
unfolding next_prefix
next_prefix_lem none bytes s = (bytes, refl, s)
next_prefix_lem (some l) bytes s =
    let (next, run, string) =
      blanks_lem (limit_len (s.len + 2)) (replicate prefix_size 0) (limit_len_lt (s.len + 2))
        refl in
    (next, rw (next_prefix, s.ended) run, string)

module _ {A : Type 0} where
  take-take : (n : ℕ) (xs : List A) → take n (take (suc n) xs) ≡ take n xs
  take-take zero xs = refl
  take-take (suc n) [] = refl
  take-take (suc n) (x ∷ xs) = ap (λ ys. x ∷ ys) (take-take n xs)

  -- Lists that agree on some items agree on fewer.
  pub take_fewer :
      (n : ℕ) (xs ys : List A) → take (suc n) xs ≡ take (suc n) ys → take n xs ≡ take n ys
  take_fewer n xs ys e = sym (take-take n xs) ∙ ap (take n) e ∙ take-take n ys
