-- ===== src/Example/Multi.antt =====
-- example/multi-output.c.
pub mod Opened
pub mod Shown
pub mod Ended
pub mod Clean
use libliftoff.Prelude.{
  ℕ, suc, ◌*◌, ◌%◌, Bool, false, List, [], ◌∷◌, ◌++◌, Option, none, some, ◌==◌, if◌then◌else◌,
}
use libliftoff.Model.{Ptr, Heap}
use libliftoff.Output.{output_create, output_destroy}
use libliftoff.Device.Life.{device_destroy}
use libliftoff.Example.Modes.{Connector, Crtc, Resources, Checked, stops, done, pick_crtc}
use libliftoff.Example.World.{
  Env, Client, tick, Exit, returns, crashes, Prog, going, stopped, follow, exit_of, add_each,
  nonblock, format_of, placement,
}
use libliftoff.Example.Client.{
  dumb_fb_init, show_fb, set_zpos, apply_output, commit_request, destroy_layers, remove_output,
  destroy_device, open_device,
}
use libliftoff.Example.Simple.{first_white}

-- `MAX_OUTPUTS` and `LAYERS_PER_OUTPUT`
abbrev pub max_outputs : ℕ
max_outputs = 32

abbrev pub layers_per_output : ℕ
layers_per_output = 4

-- An output and its CRTC: what the arrays `outputs` and `crtcs` hold at one index.
abbrev pub Screen : Type 0
Screen = Option Ptr × Crtc

-- `!crtc->mode_valid`
abbrev pub usable : Checked (Option Crtc) → Checked (Option Crtc)
usable stops = stops
usable (done none) = done none
usable (done (some crtc)) = if crtc.mode_valid then done (some crtc) else done none

-- One more output, or none.
abbrev pub count_more : (outputs_len : ℕ) → Option Screen → ℕ
count_more n none = n
count_more n (some s) = suc n

abbrev pub put_first : Option Screen → List Screen → List Screen
put_first none ss = ss
put_first (some s) ss = s ∷ ss

module _ (env : Env) where
  -- The CRTC for a connector; `none` where the loop goes on to the next one.
  abbrev pub crtc_for : Resources → Option Connector → Checked (Option Crtc)
  crtc_for res none = stops
  crtc_for res (some k) =
      if k.is_connected then usable (pick_crtc env.modes res (some k)) else done none

  -- The output at the index `outputs_len`. Writing it past the end of the arrays counts as a crash.
  abbrev pub add_output : (outputs_len : ℕ) → Checked (Option Crtc) → Client → Prog (Option Screen)
  add_output n stops c = stopped crashes c
  add_output n (done none) c = going none c
  add_output n (done (some crtc)) c =
      let (o, h) = output_create c.heap crtc.crtc_id (env.output_calloc c.time c.heap) in
      if n == max_outputs
      then stopped crashes (record (tick c) { heap = h })
      else going (some (o, crtc)) (record (tick c) { heap = h })

  -- The loop over the connectors that are left.
  unfoldable pub open_outputs : Resources → List ℕ → (outputs_len : ℕ) → Client → Prog (List Screen)
  open_outputs res [] n c = going [] c
  open_outputs res (id ∷ ids) n c =
      follow (add_output n (crtc_for res (env.modes.get_connector id)) c)
        (λ s c. follow (open_outputs res ids (count_more n s) c) (λ ss c. going (put_first s ss) c))

  -- `add_layer`
  unfoldable pub add_output_layer :
      Option Ptr → (x y width height : ℕ) → (with_alpha : Bool) → Client → Prog (Option Ptr)
  unfolding dumb_fb_init
  add_output_layer o x y width height with_alpha c =
      show_fb env o first_white (λ fb. placement fb x y width height) (tick c)
        (dumb_fb_init env c.time (format_of with_alpha) width height)

  -- The layer of an output at an index: the first one covers it.
  abbrev pub output_layer_at : Screen → (j : ℕ) → Client → Prog (Option Ptr)
  output_layer_at (o, crtc) j c =
      if j == 0
      then add_output_layer o 0 0 crtc.hdisplay crtc.vdisplay false c
      else add_output_layer o (100 * j) (100 * j) 256 256 (j % 2 == 1) c

  -- The layers of all outputs.
  unfoldable pub add_output_layers : List Screen → Client → Prog (List (Option Ptr))
  unfolding add_output_layer
  add_output_layers [] c = going [] c
  add_output_layers (s ∷ ss) c =
      follow (add_each (output_layer_at s) 0 layers_per_output c)
        (λ ls c. follow (add_output_layers ss c) (λ rest c. going (ls ++ rest) c))

  -- `liftoff_output_apply` of each output, on the one request.
  unfoldable pub apply_outputs : List Screen → env.drm.Req → Client → Prog env.drm.Req
  unfolding apply_output
  apply_outputs [] r c = going r c
  apply_outputs ((o, crtc) ∷ ss) r c = follow (apply_output env o nonblock r c) (apply_outputs ss)

  -- `liftoff_output_destroy` of each output.
  abbrev pub destroy_outputs : List Screen → Client → Prog (Unit {0})
  destroy_outputs [] c = going tt c
  destroy_outputs ((o, crtc) ∷ ss) c = follow (remove_output env o c) (λ _. destroy_outputs ss)

  -- The layers, the outputs and the device are destroyed.
  abbrev pub destroy_all : List Screen → List (Option Ptr) → Client → Prog Exit
  destroy_all ss ls c =
      follow (destroy_layers env ls c)
        (λ _ c. follow (destroy_outputs ss c) (λ _. destroy_device env))

  -- Once the layers are there.
  abbrev pub show_outputs : List Screen → List (Option Ptr) → Client → Prog Exit
  show_outputs ss ls c = follow (set_zpos env 0 ls c) (λ _ c.
      follow (apply_outputs ss env.request c)
        (λ r c. follow (commit_request env nonblock r c) (λ _ c. destroy_all ss ls c)))

  -- Once the outputs are there, if there are any.
  abbrev pub use_outputs : List Screen → Client → Prog Exit
  use_outputs [] c = stopped (returns 1) c
  use_outputs (s ∷ ss) c = follow (add_output_layers (s ∷ ss) c) (show_outputs (s ∷ ss))

  abbrev pub on_connectors : Option Resources → Client → Prog Exit
  on_connectors none c = stopped crashes c
  on_connectors (some res) c = follow (open_outputs res res.connectors 0 c) use_outputs

  -- `main`
  unfoldable pub multi_output_main : Client → Exit × Client
  unfolding open_outputs add_output_layers apply_outputs
  multi_output_main c =
      exit_of (follow (open_device env c) (λ _ c. on_connectors env.modes.get_resources c))
