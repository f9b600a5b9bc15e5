-- ===== src/Example/Pixels/Bounds.antt =====
-- When `composite` and `dumb_fb_fill` stay inside the framebuffers.
use libliftoff.Prelude.{
  ℕ, zero, suc, ◌+◌, ◌-◌, ◌*◌, ◌%◌, ◌^◌, ◌≤◌, ◌<◌, ◌≡◌, refl, ap, ◌∙◌, inl, inr, true, List, [],
  ◌∷◌, Option, none, some, arith, length, take, Bool-cases,
}
use libliftoff.Prelude.Int.{ℤ, pos, pos_part, ltb_ℤ, to_int, add_int, bits}
use libliftoff.Example.World.{DumbFb}
use libliftoff.Alloc.Buffer.{kept_head, load}
use libliftoff.Alloc.Buffer.Arrays.{load_lem}
use libliftoff.Example.Pixels.{
  overwrite, write_at, read_at, memcpy, row_bytes, cut_width, row, dst_offset, copy_to, copy_rows,
  composite,
}

length-take : (n : ℕ) (xs : List ℕ) → n ≤ length xs → length (take n xs) ≡ n
length-take zero xs le = refl
length-take (suc n) [] le = absurd (omega (arith, le))
length-take (suc n) (x ∷ xs) le = ap suc (length-take n xs (omega (arith, le)))

load_short : (n : ℕ) (xs : List ℕ) → length xs < n → load n xs ≡ none
load_short zero xs lt = absurd (omega (arith, lt))
load_short (suc n) [] lt = refl
load_short (suc n) (x ∷ xs) lt = ap (kept_head x) (load_short n xs (omega (arith, lt)))

overwrite_lem :
    (xs ys : List ℕ)
    → length xs ≤ length ys
    → (zs : List ℕ) × (overwrite xs ys ≡ some zs) × (length zs ≡ length ys)
overwrite_lem [] ys le = (ys, refl, refl)
overwrite_lem (x ∷ xs) [] le = absurd (omega (arith, le))
overwrite_lem (x ∷ xs) (y ∷ ys) le =
    let (zs, run, len) = overwrite_lem xs ys (omega (arith, le)) in
    (x ∷ zs, ap (kept_head x) run, ap suc len)

write_at_lem :
    (a : ℕ) (xs ys : List ℕ)
    → a + length xs ≤ length ys
    → (zs : List ℕ) × (write_at a xs ys ≡ some zs) × (length zs ≡ length ys)
write_at_lem zero xs ys le = overwrite_lem xs ys (omega (arith, le))
write_at_lem (suc a) xs [] le = absurd (omega (arith, le))
write_at_lem (suc a) xs (y ∷ ys) le =
    let (zs, run, len) = write_at_lem a xs ys (omega (arith, le)) in
    (y ∷ zs, ap (kept_head y) run, ap suc len)

read_at_lem :
    (b n : ℕ) (xs : List ℕ)
    → b + n ≤ length xs
    → (ys : List ℕ) × (read_at b n xs ≡ some ys) × (length ys ≡ n)
read_at_lem zero n xs le =
    let fits : n ≤ length xs = omega (arith, le) in
    (take n xs, load_lem n xs fits, length-take n xs fits)
read_at_lem (suc b) n [] le = absurd (omega (arith, le))
read_at_lem (suc b) n (x ∷ xs) le = read_at_lem b n xs (omega (arith, le))

read_at_short : (b n : ℕ) (xs : List ℕ) → length xs < n → read_at b n xs ≡ none
read_at_short zero n xs lt = load_short n xs lt
read_at_short (suc b) n [] lt = refl
read_at_short (suc b) n (x ∷ xs) lt = read_at_short b n xs (omega (arith, lt))

memcpy_lem :
    (a : ℕ) (dst : List ℕ) (b : ℕ) (src : List ℕ) (n : ℕ)
    → a + n ≤ length dst
    → b + n ≤ length src
    → (dst' : List ℕ) × (memcpy a dst b src n ≡ some dst') × (length dst' ≡ length dst)
unfolding memcpy
memcpy_lem a dst b src n fits reads =
    let (xs, got, len) = read_at_lem b n src reads in
    let (dst', run, same) = write_at_lem a xs dst (omega (arith, len, fits)) in
    (dst', rw (memcpy, got) run, same)

row_fits : (s y h : ℕ) → y < h → s * y + s ≤ s * h
row_fits s y h lt =
    let d = h - y - 1 in let e : h ≡ y + 1 + d = omega (arith, lt) in rw e (omega arith)

-- The framebuffer has room for its rows, a row for its pixels, and its size is a 32-bit number.
pub record IsMapped (fb : DumbFb) (bytes : List ℕ) : Type 0 where
  pub rows : fb.stride * fb.height ≤ length bytes
  pub wide : 4 * fb.width ≤ fb.stride
  pub small : length bytes < 2 ^ 32

visible_lem : (y height : ℕ) → ltb_ℤ (pos y) (to_int height) ≡ true → y < height
unfolding to_int
visible_lem y height e = ground arith

count-le : (height : ℕ) → pos_part (to_int height) ≤ height
unfolding to_int
count-le height = ground arith

-- A framebuffer that has a row has few pixels in it.
narrow :
    (fb : DumbFb) (bytes : List ℕ) (y : ℕ) → IsMapped fb bytes → y < fb.height → fb.width < 2 ^ 30
narrow fb bytes y mapped lt =
    let r = row_fits fb.stride y fb.height lt in
    omega (arith, r, mapped.rows, mapped.wide, mapped.small)

row_bytes-le :
    (dst_x src_width dst_width : ℕ)
    → dst_x ≤ dst_width
    → src_width < 2 ^ 30
    → dst_width < 2 ^ 30
    → (dst_x * 4 + row_bytes dst_x src_width dst_width ≤ 4 * dst_width)
      × (row_bytes dst_x src_width dst_width ≤ 4 * src_width)
unfolding cut_width add_int to_int bits
row_bytes-le x sw dw le small_sw small_dw = (ground arith, ground arith)

module _ (dst_fb src_fb : DumbFb) (dst_x : ℕ) (dst_y : ℤ) (src : List ℕ)
    (src_mapped : IsMapped src_fb src) (le : dst_x ≤ dst_fb.width) where
  -- One row stays inside.
  copy_to-some :
      (i : ℕ) (y : Option ℕ) (dst : List ℕ)
      → i < src_fb.height
      → IsMapped dst_fb dst
      → (dst' : List ℕ) × (copy_to dst_fb src_fb dst_x dst_y src i y dst ≡ some dst')
        × (length dst' ≡ length dst)
  copy_to-some i none dst lt mapped = (dst, refl, refl)
  copy_to-some i (some y) dst lt mapped = elim (Bool-cases (ltb_ℤ (pos y) (to_int dst_fb.height))) [
    | inr e ↦ (dst, rw e refl, refl)
    | inl e ↦
        let under = visible_lem y dst_fb.height e in
        let d = row_fits dst_fb.stride y dst_fb.height under in
        let r = row_fits src_fb.stride i src_fb.height lt in
        let (in_dst, in_src) =
          row_bytes-le dst_x src_fb.width dst_fb.width le (narrow src_fb src i src_mapped lt)
            (narrow dst_fb dst y mapped under) in
        let (dst', run, len) =
          memcpy_lem (dst_offset dst_fb src_fb dst_x dst_y src y) dst (src_fb.stride * i % 2 ^ 32)
            src (row_bytes dst_x src_fb.width dst_fb.width)
            (omega (arith, d, in_dst, mapped.rows, mapped.wide, mapped.small))
            (omega (arith, r, in_src, src_mapped.rows, src_mapped.wide, src_mapped.small)) in
        (dst', rw e run, len)
  ]

  copy_rows-some :
      (i n : ℕ) (dst : List ℕ)
      → i + n ≤ src_fb.height
      → IsMapped dst_fb dst
      → (dst' : List ℕ) × (copy_rows dst_fb src_fb dst_x dst_y src i n dst ≡ some dst')
        × (length dst' ≡ length dst)
  unfolding copy_rows
  copy_rows-some i zero dst fits mapped = (dst, refl, refl)
  copy_rows-some i (suc n) dst fits mapped =
      let (next, run, len) = copy_to-some i (row dst_y i) dst (omega (arith, fits)) mapped in
      let (last, rest, same) =
        copy_rows-some (suc i) n next (omega (arith, fits))
          (record { rows = rw len mapped.rows; wide = mapped.wide; small = rw len mapped.small }) in
      (last, rw (copy_rows, run) rest, same ∙ len)

-- If both framebuffers are mapped with room for their rows, their rows with room for their pixels,
-- and their sizes are 32-bit numbers, then `composite` reads and writes inside them, whichever rows
-- hang over at the top or at the bottom and however far the source hangs over to the right, as long
-- as it starts no further right than the destination ends.
pub composite-some :
    (dst_fb src_fb : DumbFb) (dst_x dst_y : ℤ) (dst src : List ℕ)
    → IsMapped dst_fb dst
    → IsMapped src_fb src
    → pos_part dst_x ≤ dst_fb.width
    → (dst' : List ℕ) × (composite dst_fb src_fb dst_x dst_y dst src ≡ some dst')
      × (length dst' ≡ length dst)
unfolding composite
composite-some dst_fb src_fb dst_x dst_y dst src d s le =
    copy_rows-some dst_fb src_fb (pos_part dst_x) dst_y src s le 0 (pos_part (to_int src_fb.height))
      dst (omega (arith, count-le src_fb.height)) d

row_bytes_large : (x sw dw : ℕ) → dw < x → x + sw < 2 ^ 31 → 2 ^ 32 ≤ row_bytes x sw dw
unfolding cut_width add_int to_int bits
row_bytes_large x sw dw gt small = ground arith

fits_int : (height : ℕ) → height < 2 ^ 31 → to_int height ≡ pos height
unfolding to_int
fits_int height small = ground arith

copy_rows-none :
    (dst_fb src_fb : DumbFb) (x : ℕ) (dst_y : ℤ) (src : List ℕ) (n y : ℕ) (dst : List ℕ)
    → row dst_y 0 ≡ some y
    → y < dst_fb.height
    → dst_fb.height < 2 ^ 31
    → 0 < n
    → length src < row_bytes x src_fb.width dst_fb.width
    → copy_rows dst_fb src_fb x dst_y src 0 n dst ≡ none
unfolding copy_rows memcpy
copy_rows-none dst_fb src_fb x dst_y src zero y dst first under low some_row short =
    absurd (omega (arith, some_row))
copy_rows-none dst_fb src_fb x dst_y src (suc n) y dst first under low some_row short =
    let visible : ltb_ℤ (pos y) (to_int dst_fb.height) ≡ true =
      rw (fits_int dst_fb.height low) (ground arith) in
    rw
      (
        copy_rows,
        first,
        visible,
        memcpy,
        read_at_short (src_fb.stride * 0 % 2 ^ 32) (row_bytes x src_fb.width dst_fb.width) src
            short,
      )
      refl

-- Where the source starts further right than the destination ends, its first row is one of the
-- destination's, and no sum or height is too large for `int`, the width turns negative, and
-- `composite` copies bytes from outside the source.
pub composite-none :
    (dst_fb src_fb : DumbFb) (dst_x dst_y : ℤ) (dst src : List ℕ) (y : ℕ)
    → IsMapped src_fb src
    → dst_fb.width < pos_part dst_x
    → pos_part dst_x + src_fb.width < 2 ^ 31
    → row dst_y 0 ≡ some y
    → y < dst_fb.height
    → dst_fb.height < 2 ^ 31
    → 0 < src_fb.height
    → src_fb.height < 2 ^ 31
    → composite dst_fb src_fb dst_x dst_y dst src ≡ none
unfolding composite
composite-none dst_fb src_fb dst_x dst_y dst src y s gt small first under low some_row short =
    copy_rows-none dst_fb src_fb (pos_part dst_x) dst_y src (pos_part (to_int src_fb.height)) y dst
      first under low (rw (fits_int src_fb.height short) some_row)
      (omega (arith, row_bytes_large (pos_part dst_x) src_fb.width dst_fb.width gt small, s.small))
