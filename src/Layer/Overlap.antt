-- ===== src/Layer/Overlap.antt =====
-- When two layers intersect: `layer_intersects` against the pixels that the layers cover.
use libliftoff.Prelude.{
  ℕ, ◌+◌, ◌^◌, ◌<◌, ◌≡◌, ◌↔◌, true, arith, Option, none, some, inl, inr, Bool-cases,
}
use libliftoff.Prelude.Int.{
  ℤ, pos, pos_part, neg_part, ◌≤ℤ◌, ◌<ℤ◌, ltb_ℤ, IsInt, add_int, add_int-exact, to_int-IsInt,
}
use libliftoff.Model.{Layer}
use libliftoff.Layer.{Rect, get_rect, int_or_zero, rects_meet, intersects}

-- The integer `p` is one of the `w` integers from `x` on.
pub record Within (x w p : ℤ) : Type 0 where
  pub from : x ≤ℤ p
  pub below : pos_part p + neg_part x + neg_part w < neg_part p + pos_part x + pos_part w

-- The rectangle covers the pixel.
pub record Covers (r : Rect) (px py : ℤ) : Type 0 where
  pub column : Within r.x r.width px
  pub row : Within r.y r.height py

-- An `int` holds the end of the interval, which is not empty.
pub record IsSpan (x w : ℤ) : Type 0 where
  pub nonempty : pos 0 <ℤ w
  pub fits : pos_part x + pos_part w < 2 ^ 31 + (neg_part x + neg_part w)

-- A layer with a rectangle that is not empty, and whose right and lower ends an `int` holds.
pub record IsBox (r : Rect) : Type 0 where
  pub columns : IsSpan r.x r.width
  pub rows : IsSpan r.y r.height

int_or_zero-IsInt : (v : Option ℕ) → IsInt (int_or_zero v)
int_or_zero-IsInt none = omega arith
int_or_zero-IsInt (some v) = to_int-IsInt v

-- The end that the code computes is the end.
span_end :
    (x w : ℤ)
    → IsInt x
    → IsInt w
    → IsSpan x w
    → pos_part (add_int x w) + (neg_part x + neg_part w)
      ≡ neg_part (add_int x w) + (pos_part x + pos_part w)
span_end x w hx hw s = add_int-exact x w hx hw s.fits (omega arith)

-- Two intervals meet when each begins before the other ends.
meets-Within :
    (x w x' w' : ℤ)
    → IsInt x
    → IsInt w
    → IsInt x'
    → IsInt w'
    → IsSpan x w
    → IsSpan x' w'
    → ltb_ℤ x (add_int x' w') ≡ true
    → ltb_ℤ x' (add_int x w) ≡ true
    → (p : ℤ) × Within x w p × Within x' w' p
meets-Within x w x' w' hx hw hx' hw' s s' before after = elim (Bool-cases (ltb_ℤ x x')) [
  | inl e ↦ (x', ground (arith, span_end x w hx hw s), ground arith)
  | inr e ↦ (x, ground arith, ground (arith, span_end x' w' hx' hw' s'))
]

Within-meets :
    (x w x' w' p : ℤ)
    → IsInt x
    → IsInt w
    → IsInt x'
    → IsInt w'
    → IsSpan x w
    → IsSpan x' w'
    → Within x w p
    → Within x' w' p
    → (ltb_ℤ x (add_int x' w') ≡ true) × (ltb_ℤ x' (add_int x w) ≡ true)
Within-meets x w x' w' p hx hw hx' hw' s s' i i' =
    (ground (arith, span_end x' w' hx' hw' s'), ground (arith, span_end x w hx hw s))

module _ (a b : Layer) where
  abbrev SharePixel : Type 0
  SharePixel = (px : ℤ) × (py : ℤ) × Covers (get_rect a) px py × Covers (get_rect b) px py

  -- Two layers whose rectangles are not empty, and whose right and lower ends an `int` holds,
  -- intersect exactly when some pixel is covered by both.
  pub intersects_iff :
      IsBox (get_rect a)
      → IsBox (get_rect b)
      → (intersects a b ≡ true)
        ↔ ((px : ℤ) × (py : ℤ) × Covers (get_rect a) px py × Covers (get_rect b) px py)
  unfolding intersects
  intersects_iff s s' = (there, back)
    where
      there : rects_meet (get_rect a) (get_rect b) ≡ true → SharePixel
      there e =
          let (px, c, c') =
            meets-Within _ _ _ _ (int_or_zero-IsInt _) (int_or_zero-IsInt _) (int_or_zero-IsInt _)
              (int_or_zero-IsInt _) s.columns s'.columns (ground arith) (ground arith) in
          let (py, r, r') =
            meets-Within _ _ _ _ (int_or_zero-IsInt _) (int_or_zero-IsInt _) (int_or_zero-IsInt _)
              (int_or_zero-IsInt _) s.rows s'.rows (ground arith) (ground arith) in
          (px, py, record { column = c; row = r }, record { column = c'; row = r' })

      back : SharePixel → rects_meet (get_rect a) (get_rect b) ≡ true
      back (px, py, c, c') =
          let (e, e') =
            Within-meets _ _ _ _ px (int_or_zero-IsInt _) (int_or_zero-IsInt _)
              (int_or_zero-IsInt _) (int_or_zero-IsInt _) s.columns s'.columns c.column c'.column in
          let (f, f') =
            Within-meets _ _ _ _ py (int_or_zero-IsInt _) (int_or_zero-IsInt _)
              (int_or_zero-IsInt _) (int_or_zero-IsInt _) s.rows s'.rows c.row c'.row in
          rw (e, f, e', f')
