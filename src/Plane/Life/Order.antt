-- ===== src/Plane/Life/Order.antt =====
-- The order of the list of planes: primary planes first, then the others from the nearest to the
-- eye to the farthest.
use libliftoff.Prelude.{
  ◌≡◌, refl, inl, inr, true, false, ◌&&◌, ◌||◌, not, List, [], ◌∷◌, arith, has, has-without,
  without, ◌==◌, Bool-cases,
}
use libliftoff.Prelude.Int.{ℤ, leb_ℤ, ◌≤ℤ◌}
use libliftoff.Model.{Ptr, Plane, update, is_primary}
use libliftoff.Plane.Life.{insert_plane}

-- Behind a plane that is not primary there are only such planes, none of a greater zpos.
abbrev pub IsOrdered : (Ptr → Plane) → List Ptr → Type 0
IsOrdered f [] = Unit {0}
IsOrdered f (p ∷ ps) =
    (is_primary (f p) ≡ false
      → (q : Ptr) → has q ps ≡ true
      → (is_primary (f q) ≡ false) × ((f q).zpos ≤ℤ (f p).zpos))
    × IsOrdered f ps

pub has-insert_plane :
    (f : Ptr → Plane) (p q : Ptr) (z : ℤ) (ps : List Ptr)
    → has q (insert_plane f p z ps) ≡ (p == q || has q ps)
unfolding insert_plane
has-insert_plane f p q z [] = refl
has-insert_plane f p q z (x ∷ ps) = ground (arith, has-insert_plane f p q z ps)

module _ (f : Ptr → Plane) (p : Ptr) (plane : Plane) where
  pub IsOrdered-update :
      (ps : List Ptr) → has p ps ≡ false → IsOrdered f ps → IsOrdered (update f p plane) ps
  IsOrdered-update [] new s = tt
  IsOrdered-update (q ∷ ps) new s =
      (λ e r i. ground (arith, s.0 (ground arith) r i), IsOrdered-update ps (ground arith) s.1)

  -- A plane that is not primary is put at its place.
  pub insert_plane-IsOrdered :
      (ps : List Ptr)
      → has p ps ≡ false
      → is_primary plane ≡ false
      → IsOrdered f ps
      → IsOrdered (update f p plane) (insert_plane f p plane.zpos ps)
  unfolding insert_plane
  insert_plane-IsOrdered [] new other s = (λ e r i. cc, tt)
  insert_plane-IsOrdered (q ∷ ps) new other s =
      elim (Bool-cases (not (is_primary (f q)) && leb_ℤ (f q).zpos plane.zpos)) [
        | inl e ↦
            rw (e, insert_plane)
              (
                λ low r i. elim (Bool-cases (q == r)) [
                  | inl same ↦ ground arith
                  | inr differs ↦ ground (arith, s.0 (ground arith) r (ground arith))
                ],
                IsOrdered-update (q ∷ ps) new s,
              )
        | inr e ↦
            rw (e, insert_plane)
              (
                λ low r i. elim (Bool-cases (p == r)) [
                  | inl same ↦ ground arith
                  | inr differs ↦ ground (
                    arith,
                    s.0 (ground arith) r (ground (arith, has-insert_plane f p r plane.zpos ps)),
                  )
                ],
                insert_plane-IsOrdered ps (ground arith) other s.1,
              )
      ]

pub IsOrdered-without :
    (f : Ptr → Plane) (p : Ptr) (ps : List Ptr) → IsOrdered f ps → IsOrdered f (without p ps)
IsOrdered-without f p [] s = tt
IsOrdered-without f p (q ∷ ps) s = elim (Bool-cases (q == p)) [
  | inl e ↦ rw e (IsOrdered-without f p ps s.1)
  | inr e ↦
      rw e (λ low r i. s.0 low r (ground (arith, has-without p r ps)), IsOrdered-without f p ps s.1)
]
