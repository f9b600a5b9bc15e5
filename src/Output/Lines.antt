-- ===== src/Output/Lines.antt =====
-- `output_log_layers` of output.c: the lines that it logs, before they are put into words.
use libliftoff.Prelude.{
  ℕ, ◌+◌, ◌*◌, ◌/◌, ◌%◌, ◌^◌, ◌≡◌, ◌↔◌, Bool, ◌||◌, not, List, [], ◌∷◌, ◌++◌, map, length, arith,
  if◌then◌else◌, is_at,
}
use libliftoff.Prelude.Int.{ℤ, to_int}
use libliftoff.Name.{Name, codes, name_eq, crtc_x, crtc_y}
use libliftoff.Model.{Ptr, LayerProperty, Heap}
use libliftoff.Layer.{has_fb}
use libliftoff.Log.{Logger, log_has, debug}

-- `fp16_to_double`: a numerator over 0xFFFF.
unfoldable pub fp16_to_double : ℕ → ℕ
fp16_to_double v = v / 2 ^ 16 * 0xFFFF + v % 2 ^ 16

pub data Line : Type 0 where
  heading : (crtc layers : ℕ) → Line
  forced : Ptr → Line
  shown : Ptr → (is_composition_layer : Bool) → Line
  signed : Name → ℤ → Line
  fixed : Name → (over_0xFFFF : ℕ) → Line
  plain : Name → ℕ → Line

abbrev pub is_source : Name → Bool
is_source n =
    name_eq n (codes "SRC_X")
    || name_eq n (codes "SRC_Y")
    || name_eq n (codes "SRC_W")
    || name_eq n (codes "SRC_H")

-- One round of the loop over the properties of a layer.
unfoldable pub property_line : LayerProperty → Line
unfolding fp16_to_double
property_line q =
    if name_eq q.name crtc_x || name_eq q.name crtc_y
    then signed q.name (to_int q.value)
    else if is_source q.name
    then fixed q.name (fp16_to_double q.value)
    else plain q.name q.value

-- One round of the loop over the layers.
unfoldable pub layer_lines : Heap → (output layer : Ptr) → List Line
unfolding property_line
layer_lines h o l =
    let props = map property_line (h.layer l).props in
    if (h.layer l).force_composition
    then forced l ∷ props
    else if not (has_fb (h.layer l))
    then []
    else shown l (is_at l (h.output o).composition_layer) ∷ props

abbrev pub lines_of : Heap → Ptr → List Ptr → List Line
lines_of h o [] = []
lines_of h o (l ∷ ls) = layer_lines h o l ++ lines_of h o ls

-- `output_log_layers`
unfoldable pub output_log_layers : {H : Type 0} → Logger H → Heap → Ptr → List Line
unfolding log_has layer_lines
output_log_layers g h o =
    if not (log_has g debug)
    then []
    else heading (h.output o).crtc_id (length (h.output o).layers)
      ∷ lines_of h o (h.output o).layers

-- The number that is logged for a 16.16 fixed-point number is that number exactly when it is whole,
-- rounding to double left aside.
pub fp16_to_double_lem : (v : ℕ) → (fp16_to_double v * 2 ^ 16 ≡ v * 0xFFFF) ↔ (v % 2 ^ 16 ≡ 0)
unfolding fp16_to_double
fp16_to_double_lem v = (λ e. omega arith, λ e. omega arith)
