-- ===== src/Example/Compositor.antt =====
-- example/compositor.c.
pub mod Clean
use libliftoff.Prelude.{
  ℕ, zero, suc, ◌*◌, ◌%◌, Bool, true, false, has, ◌&&◌, List, [], ◌∷◌, Option, none, some, ◌==◌,
  ◌||◌, not, leb, if◌then◌else◌,
}
use libliftoff.Model.{Ptr, Heap}
use libliftoff.Layer.{needs_composition}
use libliftoff.Output.{set_composition_layer}
use libliftoff.Example.Modes.{Crtc}
use libliftoff.Example.Client.{
  dumb_fb_init, show_fb, set_zpos, apply_output, commit_request, tear_down, open_device,
  open_output, with_output,
}
use libliftoff.Example.World.{
  Env, Client, tick, guarded, is_live, Exit, returns, crashes, Prog, going, stopped, follow,
  exit_of, white, next_color, add_each, nonblock, format_of, placement,
}

abbrev pub pick_color : (is_white : Bool) → Client → ℕ × Client
pick_color is_white c = if is_white then (white, c) else next_color c

-- `MAX_LAYERS_LEN`
abbrev pub max_layers_len : ℕ
max_layers_len = 16

-- The loop that composites the layers that need it, from the index `i` on; the bytes are those of
-- `composite`.
unfoldable pub composite_layers : (i : ℕ) → List (Option Ptr) → Client → Prog (Unit {0})
composite_layers i [] c = going tt c
composite_layers i (none ∷ ls) c = stopped crashes c
composite_layers i (some l ∷ ls) c = guarded (is_live c.heap l) c (
    composite_layers (suc i) ls (
      if needs_composition (c.heap.layer l) then record c { composited = i ∷ c.composited } else c))

abbrev pub chosen : Option Heap → Client → Prog (Unit {0})
chosen none c = stopped crashes c
chosen (some h) c = going tt (record c { heap = h })

-- `liftoff_output_set_composition_layer`
abbrev pub choose_composition : Option Ptr → Option Ptr → Client → Prog (Unit {0})
choose_composition none l c = stopped crashes c
choose_composition (some o) none c = stopped crashes c
choose_composition (some o) (some l) c =
    guarded (has o c.heap.outputs && is_live c.heap l) c
      (chosen (set_composition_layer c.heap o l) c)

-- The layers behind the first one.
abbrev pub behind_first : List (Option Ptr) → List (Option Ptr)
behind_first [] = []
behind_first (l ∷ ls) = ls

module _ (env : Env) where
  -- `add_layer`
  unfoldable pub add_composited_layer :
      Option Ptr
      → (x y width height : ℕ) → (with_alpha is_white : Bool) → Client
      → Prog (Option Ptr)
  unfolding dumb_fb_init
  add_composited_layer o x y width height with_alpha is_white c =
      show_fb env o (pick_color is_white) (λ fb. placement fb x y width height) (tick c)
        (dumb_fb_init env c.time (format_of with_alpha) width height)

  -- The layer at an index: the first one covers the output.
  abbrev pub composited_layer_at : Option Ptr → Crtc → (i : ℕ) → Client → Prog (Option Ptr)
  composited_layer_at o crtc i c =
      if i == 0
      then add_composited_layer o 0 0 crtc.hdisplay crtc.vdisplay false true c
      else add_composited_layer o (100 * i) (100 * i) 256 256 (i % 2 == 1) false c

  -- Once the layers are there; `l` is the composition layer.
  abbrev pub show_composited : Option Ptr → Option Ptr → List (Option Ptr) → Client → Prog Exit
  show_composited o l ls c = follow (set_zpos env 0 (l ∷ []) c) (λ _ c.
      follow (set_zpos env 0 ls c) (λ _ c. follow (choose_composition o l c) (λ _ c.
        follow (apply_output env o nonblock env.request c) (λ r c.
          follow (composite_layers 1 (behind_first ls) c) (λ _ c.
            follow (commit_request env nonblock r c) (λ _ c. tear_down env (l ∷ ls) o c))))))

  -- From the composition layer on.
  abbrev pub add_all : (layers_len : ℕ) → Option Ptr → Crtc → Client → Prog Exit
  add_all layers_len o crtc c =
      follow (add_composited_layer o 0 0 crtc.hdisplay crtc.vdisplay false true c)
        (λ l c. follow (add_each (composited_layer_at o crtc) 0 layers_len c) (show_composited o l))

  -- `main`, with the number of layers that the options ask for.
  unfoldable pub compositor_main : (layers_len : ℕ) → Client → Exit × Client
  unfolding add_composited_layer composite_layers
  compositor_main layers_len c = exit_of (
      if layers_len == 0 || not (leb layers_len max_layers_len)
      then stopped (returns 1) c
      else with_output env (λ (o, crtc) c. add_all layers_len o crtc c) c)
