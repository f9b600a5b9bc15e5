-- ===== src/Layer/Property.antt =====
-- What a layer holds after `liftoff_layer_set_property` and the calls built on it.
use libliftoff.Prelude.{
  ℕ, zero, suc, inl, inr, ◌≤◌, ◌≡◌, refl, ap, ◌<◌, Bool, true, false, List, [], ◌∷◌, ◌++◌, none,
  some, arith, Bool-cases, length-append, if◌then◌else◌, length, take, Option-cases,
}
use libliftoff.Name.{Name, name_eq, crtc_id, name_eq_refl, eq_of_name_eq}
use libliftoff.Errno.{ok}
use libliftoff.Model.{Layer, LayerProperty}
use libliftoff.Layer.{
  find_prop, value_of, value, write_value, new_property, set_property, end_forced,
}

take-all : (k : ℕ) (n : Name) → length n ≤ k → take k n ≡ n
take-all zero [] h = refl
take-all (suc k) [] h = refl
take-all zero (x ∷ xs) h = absurd (omega arith)
take-all (suc k) (x ∷ xs) h = ap (λ ys. x ∷ ys) (take-all k xs (omega arith))

value-write :
    (n m : Name) (v : ℕ) (ps : List LayerProperty) (p : LayerProperty)
    → find_prop n ps ≡ some p
    → value_of (find_prop m (write_value n v ps))
      ≡ (if name_eq n m then some v else value_of (find_prop m ps))
unfolding find_prop write_value
value-write n m v [] p h = cc
value-write n m v (q ∷ ps) p h = ground (
  arith,
  value-write n m v ps p,
  eq_of_name_eq q.name n,
  eq_of_name_eq q.name m,
  eq_of_name_eq n m,
  name_eq_refl n,
)

value-append :
    (n m : Name) (q : LayerProperty) (ps : List LayerProperty)
    → q.name ≡ n
    → find_prop n ps ≡ none
    → value_of (find_prop m (ps ++ q ∷ []))
      ≡ (if name_eq n m then some q.value else value_of (find_prop m ps))
unfolding find_prop
value-append n m q [] e miss = rw e (ground arith)
value-append n m q (p ∷ ps) e miss =
    ground
      (arith, value-append n m q ps e, eq_of_name_eq p.name m, eq_of_name_eq n m, name_eq_refl n)

props-end_forced : (n : Name) (l : Layer) → (end_forced n l).props ≡ l.props
unfolding end_forced
props-end_forced n l = ground arith

module _ (l : Layer) (n m : Name) (v : ℕ) (other : name_eq n crtc_id ≡ false) where
  pub set_property-old :
      {p : LayerProperty} (memory : Bool)
      → find_prop n l.props ≡ some p
      → set_property l n v memory
        ≡ (ok, end_forced n (record l { props = write_value n v l.props }))
  unfolding set_property
  set_property-old memory e = rw (other, e)

  set_property-new :
      find_prop n l.props ≡ none
      → set_property l n v true
        ≡ (ok, end_forced n (record l { props = l.props ++ new_property n v ∷ []; changed = true }))
  unfolding set_property
  set_property-new e = rw (other, e)

  -- Setting a property of at most 31 bytes, other than CRTC_ID, succeeds while memory lasts; the
  -- layer then has that value under that name and what it had under every other.
  pub value-set_property :
      length n ≤ 31
      → ((set_property l n v true).0 ≡ ok)
        × (value (set_property l n v true).1 m ≡ (if name_eq n m then some v else value l m))
  value-set_property short = elim (Option-cases (find_prop n l.props)) [
    | inl e ↦ rw (set_property-new e) (
      refl,
      rw (props-end_forced n _)
          (value-append n m (new_property n v) l.props (take-all 31 n short) e),
    )
    | inr (p, e) ↦
        rw (set_property-old true e)
          (refl, rw (props-end_forced n _) (value-write n m v l.props p e))
  ]

-- The names of the properties fit into `char name[32]`.
abbrev pub IsStored : List LayerProperty → Type 0
IsStored [] = Unit {0}
IsStored (p ∷ ps) = (length p.name ≤ 31) × IsStored ps

name_eq-length : (a b : Name) → name_eq a b ≡ true → length a ≡ length b
name_eq-length a b e = ap length (eq_of_name_eq a b e)

find_long :
    (n : Name) (ps : List LayerProperty) → IsStored ps → 31 < length n → find_prop n ps ≡ none
unfolding find_prop
find_long n [] s long = refl
find_long n (p ∷ ps) s long = elim (Bool-cases (name_eq p.name n)) [
  | inl e ↦ absurd (omega (arith, name_eq-length p.name n e))
  | inr e ↦ rw e (find_long n ps s.1 long)
]

take-le : (k : ℕ) (n : Name) → length (take k n) ≤ k
take-le zero n = omega arith
take-le (suc k) [] = omega arith
take-le (suc k) (x ∷ xs) = omega (arith, take-le k xs)

IsStored-append :
    (ps : List LayerProperty) (q : LayerProperty)
    → IsStored ps
    → length q.name ≤ 31
    → IsStored (ps ++ q ∷ [])
IsStored-append [] q s h = (h, tt)
IsStored-append (p ∷ ps) q s h = (s.0, IsStored-append ps q s.1 h)

crtc_id-short : (n : Name) → 31 < length n → name_eq n crtc_id ≡ false
crtc_id-short n long = elim (Bool-cases (name_eq n crtc_id)) [
  | inl e ↦ absurd (omega (arith, name_eq-length n crtc_id e))
  | inr e ↦ e
]

-- A name of more than 31 bytes is stored without its end, so it is not found again: while memory
-- lasts, each call adds a property to a layer whose names fit, and the layer never has a value
-- under that name.
pub set_property_long :
    (l : Layer) (n : Name) (v : ℕ)
    → IsStored l.props
    → 31 < length n
    → ((set_property l n v true).0 ≡ ok)
      × (length (set_property l n v true).1.props ≡ suc (length l.props))
      × (value (set_property l n v true).1 n ≡ none)
set_property_long l n v s long =
    let added = l.props ++ new_property n v ∷ [] in
    rw (set_property-new l n n v (crtc_id-short n long) (find_long n l.props s long)) (
      refl,
      rw (props-end_forced n _) (omega (arith, length-append l.props (new_property n v ∷ []))),
      rw (props-end_forced n _)
          (ap value_of (find_long n added (IsStored-append l.props _ s (take-le 31 n)) long)),
    )
