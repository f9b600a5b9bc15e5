-- ===== src/Example/Client/Within.antt =====
-- The outputs of a program and the layers of all of them, as lists of addresses.
use libliftoff.Prelude.{
  ◌≡◌, ap, ◌∙◌, inl, inr, true, false, List, [], ◌∷◌, ◌++◌, arith, has, has-append, has-without,
  ◌||◌, ◌&&◌, not, without, Unique, Unique-append, ==_refl, ◌==◌, if◌then◌else◌, Bool-cases,
}
use libliftoff.Model.{Ptr}

-- The outputs are these, and the layers of all of them are those.
pub record Within (os ls outputs : List Ptr) (layers : Ptr → List Ptr) : Type 0 where
  pub same : (o : Ptr) → has o outputs ≡ has o os
  pub somewhere :
      (l : Ptr) → has l ls ≡ true → (o : Ptr) × (has o outputs ≡ true) × (has l (layers o) ≡ true)
  pub covers : (o l : Ptr) → has o outputs ≡ true → has l (layers o) ≡ true → has l ls ≡ true
  pub unique : Unique ls
  pub alone : Unique os

-- The list of layers of one output grows by one at its end.
abbrev pub grown : (Ptr → List Ptr) → (o l : Ptr) → Ptr → List Ptr
grown f o l x = if o == x then f o ++ l ∷ [] else f x

has-grown :
    (f : Ptr → List Ptr) (o l x y : Ptr)
    → has y (grown f o l x) ≡ (has y (f x) || (if o == x then l == y else false))
has-grown f o l x y = elim (Bool-cases (o == x)) [
  | inl e ↦
      let at : o ≡ x = ground arith in
      rw e
        (has-append y (f o) (l ∷ []) ∙ ap (λ z. has y (f z) || (l == y || false)) at ∙ ground arith)
  | inr e ↦ rw e (ground arith)
]

-- One layer leaves the list of one output.
abbrev pub shrunk : (Ptr → List Ptr) → (o l : Ptr) → Ptr → List Ptr
shrunk f o l x = if o == x then without l (f o) else f x

has-shrunk :
    (f : Ptr → List Ptr) (o l x y : Ptr)
    → has y (shrunk f o l x) ≡ (has y (f x) && not (o == x && l == y))
has-shrunk f o l x y = elim (Bool-cases (o == x)) [
  | inl e ↦
      let at : o ≡ x = ground arith in
      rw e (has-without l y (f o) ∙ ap (λ z. not (l == y) && has y (f z)) at ∙ ground arith)
  | inr e ↦ rw e (ground arith)
]

module _ (os ls outputs : List Ptr) (f : Ptr → List Ptr) (o l : Ptr) where
  -- A new layer of one of the outputs is one more.
  pub Within-grown :
      has o outputs ≡ true
      → ((x : Ptr) → has x outputs ≡ true → has l (f x) ≡ false)
      → Within os ls outputs f
      → Within os (ls ++ l ∷ []) outputs (grown f o l)
  Within-grown here new v = record {
    same = v.same;
    somewhere = λ y e. elim (Bool-cases (has y ls)) [
      | inl old ↦
          let (x, there, listed) = v.somewhere y old in
          (x, there, has-grown f o l x y ∙ ground arith)
      | inr other ↦
          (o, here, has-grown f o l o y ∙ ground (arith, has-append y ls (l ∷ []), ==_refl o))
    ];
    covers = λ x y there listed.
        has-append y ls (l ∷ []) ∙ ground (arith, has-grown f o l x y, v.covers x y there);
    unique = Unique-append ls l v.unique (elim (Bool-cases (has l ls)) [
      | inl old ↦ let (x, there, listed) = v.somewhere l old in ground (arith, new x there)
      | inr other ↦ other
    ]);
    alone = v.alone;
  }

  -- One layer less, where only that output lists it.
  pub Within-shrunk :
      ((x : Ptr) → has x outputs ≡ true → has l (f x) ≡ true → x ≡ o)
      → Within os (l ∷ ls) outputs f
      → Within os ls outputs (shrunk f o l)
  Within-shrunk only v = record {
    same = v.same;
    somewhere = λ y e.
        let (x, there, listed) = v.somewhere y (ground arith) in
        (x, there, has-shrunk f o l x y ∙ ground (arith, v.unique.0));
    covers = λ x y there listed.
        ground (arith, has-shrunk f o l x y, v.covers x y there, only x there, ==_refl o);
    unique = v.unique.1;
    alone = v.alone;
  }
