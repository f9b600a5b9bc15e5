-- ===== src/Example/Simple.antt =====
-- example/simple.c.
pub mod Clean
use libliftoff.Prelude.{ℕ, ◌*◌, ◌%◌, Bool, true, false, List, Option, ◌==◌, if◌then◌else◌}
use libliftoff.Model.{Ptr}
use libliftoff.Example.Modes.{Crtc}
use libliftoff.Example.Client.{
  dumb_fb_init, show_fb, set_zpos, apply_output, commit_request, tear_down, open_device,
  open_output, with_output,
}
use libliftoff.Example.World.{
  Env, Client, tick, Exit, Prog, follow, exit_of, white, next_color, add_each, nonblock, format_of,
  placement,
}

-- The first layer is white.
abbrev pub first_white : Client → ℕ × Client
first_white c = if c.is_first then (white, record c { is_first = false }) else next_color c

-- `LAYERS_LEN`
abbrev pub layers_len : ℕ
layers_len = 4

module _ (env : Env) where
  -- `add_layer`
  unfoldable pub add_layer :
      Option Ptr → (x y width height : ℕ) → (with_alpha : Bool) → Client → Prog (Option Ptr)
  unfolding dumb_fb_init
  add_layer o x y width height with_alpha c =
      show_fb env o first_white (λ fb. placement fb x y width height) (tick c)
        (dumb_fb_init env c.time (format_of with_alpha) width height)

  -- The layer at an index: the first one covers the output.
  abbrev pub layer_at : Option Ptr → Crtc → (i : ℕ) → Client → Prog (Option Ptr)
  layer_at o crtc i c =
      if i == 0
      then add_layer o 0 0 crtc.hdisplay crtc.vdisplay false c
      else add_layer o (100 * i) (100 * i) 256 256 (i % 2 == 1) c

  -- Once the layers are there.
  abbrev pub show_layers : Option Ptr → List (Option Ptr) → Client → Prog Exit
  show_layers o ls c = follow (set_zpos env 0 ls c) (λ _ c.
      follow (apply_output env o nonblock env.request c)
        (λ r c. follow (commit_request env nonblock r c) (λ _ c. tear_down env ls o c)))

  -- `main`
  unfoldable pub simple_main : Client → Exit × Client
  unfolding add_layer
  simple_main c = exit_of (
      with_output env
        (λ (o, crtc) c. follow (add_each (layer_at o crtc) 0 layers_len c) (show_layers o)) c)
