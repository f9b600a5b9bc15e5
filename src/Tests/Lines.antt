-- ===== src/Tests/Lines.antt =====
-- What is logged of the sample device.
use libliftoff.Prelude.{◌*◌, ◌%◌, ◌^◌, ◌≡◌, ◌↔◌, refl, true, false, [], ◌∷◌, ℕ}
use libliftoff.Name.{name_eq, crtc_w, crtc_h, crtc_x, fb_id}
use libliftoff.Prelude.Int.{to_int, pos}
use libliftoff.Layer.{find_prop}
use libliftoff.Log.{Logger, initial, log_set_priority, debug}
use libliftoff.Output.Lines.{
  heading, shown, signed, plain, fp16_to_double, output_log_layers, fp16_to_double_lem,
}
use libliftoff.Samples.{desk}

abbrev verbose : Logger ℕ
verbose = log_set_priority initial debug

desk_lines :
    output_log_layers verbose desk 1
    ≡ heading 42 3
      ∷ shown 11 true
      ∷ plain fb_id 5
      ∷ shown 12 false
      ∷ plain fb_id 7
      ∷ plain crtc_w 100
      ∷ plain crtc_h 100
      ∷ shown 13 false
      ∷ plain fb_id 8
      ∷ plain crtc_w 50
      ∷ plain crtc_h 50
      ∷ signed crtc_x (pos 200)
      ∷ []
unfolding output_log_layers log_set_priority find_prop name_eq to_int
desk_lines = refl

-- One half.
fp16_to_double_lem_example :
    (fp16_to_double 0x8000 * 2 ^ 16 ≡ 0x8000 * 0xFFFF) ↔ (0x8000 % 2 ^ 16 ≡ 0)
fp16_to_double_lem_example = fp16_to_double_lem 0x8000
