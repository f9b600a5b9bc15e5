-- ===== src/Example/Pixels.antt =====
-- What example/common.c and example/compositor.c do with the bytes of framebuffers. `none` is an
-- access outside the mapped memory.
pub mod Bounds
use libliftoff.Prelude.{
  ℕ, zero, suc, ◌+◌, ◌-◌, ◌*◌, ◌/◌, ◌%◌, ◌^◌, List, [], ◌∷◌, Option, none, some, leb, ltb,
  if◌then◌else◌,
}
use libliftoff.Prelude.Int.{ℤ, pos, negsuc, pos_part, ltb_ℤ, to_int, add_int}
use libliftoff.Example.World.{DumbFb}
use libliftoff.Alloc.Buffer.{kept_head, load}

-- The bytes of a mapped framebuffer; `none` for `MAP_FAILED`.
abbrev pub Mapped : Type 0
Mapped = Option (List ℕ)

-- `dumb_fb_map`, with what the ioctl answers and what `mmap` gives.
abbrev pub dumb_fb_map : (offset : Option ℕ) → (mmap : ℕ → Mapped) → Mapped
dumb_fb_map none mmap = none
dumb_fb_map (some offset) mmap = mmap offset

-- The bytes of a 32-bit word, the lowest first.
abbrev pub word : ℕ → List ℕ → List ℕ
word c rest = c % 2 ^ 8 ∷ c / 2 ^ 8 % 2 ^ 8 ∷ c / 2 ^ 16 % 2 ^ 8 ∷ c / 2 ^ 24 % 2 ^ 8 ∷ rest

abbrev pub then_word : ℕ → Option (List ℕ) → Option (List ℕ)
then_word c none = none
then_word c (some rest) = some (word c rest)

-- The loop of `dumb_fb_fill`, for `n` words.
unfoldable pub fill_words : (n : ℕ) → (color : ℕ) → List ℕ → Option (List ℕ)
fill_words zero color bytes = some bytes
fill_words (suc n) color (a ∷ b ∷ c ∷ d ∷ bytes) = then_word color (fill_words n color bytes)
fill_words (suc n) color bytes = none

-- `dumb_fb_fill`; a framebuffer that is not mapped is left alone.
unfoldable pub dumb_fb_fill : DumbFb → (color : ℕ) → Mapped → Option Mapped
unfolding fill_words
dumb_fb_fill fb color none = some none
dumb_fb_fill fb color (some bytes) = elim (fill_words (fb.size / 4) color bytes) [
  | none ↦ none
  | some filled ↦ some (some filled)
]

-- The bytes written over the first ones of an array.
abbrev pub overwrite : List ℕ → List ℕ → Option (List ℕ)
overwrite [] ys = some ys
overwrite (x ∷ xs) [] = none
overwrite (x ∷ xs) (y ∷ ys) = kept_head x (overwrite xs ys)

-- The bytes written at an offset.
abbrev pub write_at : (offset : ℕ) → List ℕ → List ℕ → Option (List ℕ)
write_at zero xs ys = overwrite xs ys
write_at (suc a) xs [] = none
write_at (suc a) xs (y ∷ ys) = kept_head y (write_at a xs ys)

-- `n` bytes read at an offset.
abbrev pub read_at : (offset n : ℕ) → List ℕ → Option (List ℕ)
read_at zero n xs = load n xs
read_at (suc b) n [] = none
read_at (suc b) n (x ∷ xs) = read_at b n xs

-- `memcpy(dst + a, src + b, n)`
unfoldable pub memcpy : (a : ℕ) → List ℕ → (b : ℕ) → List ℕ → (n : ℕ) → Option (List ℕ)
memcpy a dst b src n = elim (read_at b n src) [ none ↦ none | some xs ↦ write_at a xs dst ]

-- `src_width` once it has been cut to the destination, for a `dst_x` that is not negative. The
-- difference is one of `uint32_t`.
unfoldable pub cut_width : (dst_x src_width dst_width : ℕ) → ℤ
unfolding add_int
cut_width dst_x src_width dst_width =
    if ltb_ℤ (to_int dst_width) (add_int (pos dst_x) (to_int src_width))
    then to_int (dst_width + 2 ^ 32 - dst_x)
    else to_int src_width

-- `width * sizeof(uint32_t)`: a negative width turns into a large `size_t`.
abbrev pub bytes_of : ℤ → ℕ
bytes_of (pos n) = 4 * n
bytes_of (negsuc n) = 2 ^ 64 - 4 * suc n

abbrev pub row_bytes : (dst_x src_width dst_width : ℕ) → ℕ
row_bytes dst_x src_width dst_width = bytes_of (cut_width dst_x src_width dst_width)

-- A row that is not negative.
abbrev pub not_above : ℤ → Option ℕ
not_above (pos n) = some n
not_above (negsuc n) = none

-- `dst_y + i`, unless it is negative.
unfoldable pub row : (dst_y : ℤ) → (i : ℕ) → Option ℕ
unfolding add_int
row dst_y i = not_above (add_int dst_y (pos i))

module _ (dst_fb src_fb : DumbFb) (dst_x : ℕ) (dst_y : ℤ) (src : List ℕ) where
  -- `dst_fb->stride * y + dst_x * sizeof(uint32_t)`, the product in 32 bits.
  abbrev pub dst_offset : (y : ℕ) → ℕ
  dst_offset y = dst_fb.stride * y % 2 ^ 32 + dst_x * 4

  abbrev pub copy_to : (i : ℕ) → Option ℕ → List ℕ → Option (List ℕ)
  copy_to i none dst = some dst
  copy_to i (some y) dst =
      if ltb_ℤ (pos y) (to_int dst_fb.height)
      then memcpy (dst_offset y) dst (src_fb.stride * i % 2 ^ 32) src
          (row_bytes dst_x src_fb.width dst_fb.width)
      else some dst

  -- The loop over `n` rows of the source, from the row `i` on.
  unfoldable pub copy_rows : (i n : ℕ) → List ℕ → Option (List ℕ)
  unfolding memcpy row
  copy_rows i zero dst = some dst
  copy_rows i (suc n) dst = elim (copy_to i (row dst_y i) dst) [
    | none ↦ none
    | some dst' ↦ copy_rows (suc i) n dst'
  ]

-- `composite`, on framebuffers that are mapped; that `mmap` can fail is not looked at.
unfoldable pub composite :
    (dst_fb src_fb : DumbFb) → (dst_x dst_y : ℤ) → (dst src : List ℕ) → Option (List ℕ)
unfolding copy_rows
composite dst_fb src_fb dst_x dst_y dst src =
    copy_rows dst_fb src_fb (pos_part dst_x) dst_y src 0 (pos_part (to_int src_fb.height)) dst
