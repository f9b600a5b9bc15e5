-- ===== src/Example/Dynamic.antt =====
-- example/dynamic.c, but for its colors, which are floating-point numbers.
pub mod Clean
use mathlib.Core.List.{map}
use libliftoff.Prelude.{
  ℕ, zero, suc, ◌+◌, ◌*◌, ◌%◌, Bool, true, false, has, List, [], ◌∷◌, Option, none, some, ◌==◌,
  if◌then◌else◌,
}
use libliftoff.Errno.{Outcome, ok, err, abort, hang}
use libliftoff.Name.{Name, fb_id, crtc_x, crtc_y, crtc_w, crtc_h, zpos}
use libliftoff.Model.{Ptr}
use libliftoff.Alloc.Apply.{Session, liftoff_output_apply}
use libliftoff.Example.Modes.{Crtc, Checked, stops, done}
use libliftoff.Example.World.{
  DumbFb, Env, Client, tick, guarded, Exit, returns, crashes, hangs, Prog, going, stopped, follow,
  exit_of, add_each, source_size, format_of,
}
use libliftoff.Example.Client.{dumb_fb_init, new_placed_layer, set_on, tear_down, with_output}

-- `struct example_layer`, with the ids of its two framebuffers.
pub record ExampleLayer : Type 0 where
  pub fb0 : ℕ
  pub fb1 : ℕ
  pub front_fb : ℕ
  pub x : ℕ
  pub y : ℕ
  pub layer : Option Ptr

-- A layer in zeroed memory.
abbrev pub no_layer : ExampleLayer
no_layer = record { fb0 = 0; fb1 = 0; front_fb = 0; x = 0; y = 0; layer = none }

-- What happens while the program waits: whether `poll` finds something in each round, and how many
-- page flips `drmHandleEvent` then hands to `page_flip_handler`.
pub record Events : Type 0 where
  pub polls : ℕ → Bool
  pub flips : ℕ → ℕ

-- `DRM_MODE_ATOMIC_NONBLOCK | DRM_MODE_PAGE_FLIP_EVENT`
abbrev pub draw_flags : ℕ
draw_flags = 0x0201

-- `LAYERS_LEN`, `active_layer_idx`, and the rounds of the loop that waits.
abbrev pub dynamic_layers_len : ℕ
dynamic_layers_len = 4

abbrev pub active_layer_idx : ℕ
active_layer_idx = 2

abbrev pub rounds : ℕ
rounds = 120

-- The framebuffer in front.
abbrev pub front_id : ExampleLayer → ℕ
front_id l = if l.front_fb == 0 then l.fb0 else l.fb1

-- `layer->front_fb = (layer->front_fb + 1) % 2`
abbrev pub flipped : ExampleLayer → ExampleLayer
flipped l = record l { front_fb = (l.front_fb + 1) % 2 }

module _ (env : Env) where
  -- The layer, once both framebuffers are there; nothing else is set without them.
  abbrev pub init_with :
      Option Ptr
      → (width height : ℕ) → (x y : ℕ) → Client
      → (first second : Checked (Option DumbFb)) → Prog ExampleLayer
  init_with o width height x y c stops second = stopped crashes c
  init_with o width height x y c (done none) second = going (record no_layer { x = x; y = y }) c
  init_with o width height x y c (done (some a)) stops = stopped crashes c
  init_with o width height x y c (done (some a)) (done none) =
      going (record no_layer { fb0 = a.id; x = x; y = y }) c
  init_with o width height x y c (done (some a)) (done (some b)) =
      follow
        (new_placed_layer env o ((crtc_w, width) ∷ (crtc_h, height) ∷ source_size width height) c)
        (λ l c. going (record { fb0 = a.id; fb1 = b.id; front_fb = 0; x = x; y = y; layer = l }) c)

  -- `init_layer`, with the position that `main` gives the layer behind it.
  unfoldable pub init_layer :
      Option Ptr → (width height : ℕ) → (with_alpha : Bool) → (x y : ℕ) → Client → Prog ExampleLayer
  unfolding dumb_fb_init
  init_layer o width height with_alpha x y c =
      init_with o width height x y (tick (tick c))
        (dumb_fb_init env c.time (format_of with_alpha) width height)
        (dumb_fb_init env (suc c.time) (format_of with_alpha) width height)

  -- The layer at an index: the first one covers the output.
  abbrev pub dynamic_layer_at : Option Ptr → Crtc → (i : ℕ) → Client → Prog ExampleLayer
  dynamic_layer_at o crtc i c =
      if i == 0
      then init_layer o crtc.hdisplay crtc.vdisplay false 0 0 c
      else init_layer o 100 100 (i % 2 == 1) (100 * i) (100 * i) c

  -- `draw_layer`
  unfoldable pub draw_layer : ExampleLayer → Client → Prog ExampleLayer
  draw_layer l c =
      let l' = flipped l in
      follow (set_on env l.layer ((fb_id, front_id l') ∷ (crtc_x, l.x) ∷ (crtc_y, l.y) ∷ []) c)
        (λ _ c. going l' c)

  -- The loop that sets zpos and draws each layer, from the index `i` on.
  unfoldable pub raise_and_draw : (i : ℕ) → List ExampleLayer → Client → Prog (List ExampleLayer)
  unfolding draw_layer
  raise_and_draw i [] c = going [] c
  raise_and_draw i (l ∷ ls) c = follow (set_on env l.layer ((zpos, i) ∷ []) c) (λ _ c.
      follow (draw_layer l c)
        (λ l c. follow (raise_and_draw (suc i) ls c) (λ ls c. going (l ∷ ls) c)))

  -- `draw_layer` of the layer at an index.
  abbrev pub draw_at : (i : ℕ) → List ExampleLayer → Client → Prog (List ExampleLayer)
  draw_at i [] c = going [] c
  draw_at zero (l ∷ ls) c = follow (draw_layer l c) (λ l c. going (l ∷ ls) c)
  draw_at (suc i) (l ∷ ls) c = follow (draw_at i ls c) (λ ls c. going (l ∷ ls) c)

  -- The program goes on after an errno, as nobody looks at what `draw` returns.
  abbrev pub after_draw : Outcome × Session env.drm.Req → Client → Prog (Unit {0})
  after_draw (ok, s) c = going tt (record c { heap = s.heap })
  after_draw (err e, s) c = going tt (record c { heap = s.heap })
  after_draw (abort, s) c = stopped crashes (record c { heap = s.heap })
  after_draw (hang, s) c = stopped hangs (record c { heap = s.heap })

  abbrev pub apply_drawn : Option Ptr → Client → Prog (Unit {0})
  apply_drawn none c = stopped crashes c
  apply_drawn (some o) c = guarded (has o c.heap.outputs) c (
      after_draw
        (liftoff_output_apply env.drm env.fuel o draw_flags (env.alloc_memory c.time c.heap)
          (record { heap = c.heap; req = env.request }))
        (tick c))

  -- `draw`. Whether the commit at its end succeeds changes nothing that is kept.
  unfoldable pub draw : Option Ptr → List ExampleLayer → Client → Prog (List ExampleLayer)
  draw o ls c =
      follow (draw_at active_layer_idx ls c) (λ ls c. follow (apply_drawn o c) (λ _ c. going ls c))

  -- `page_flip_handler`, called `n` times.
  unfoldable pub draw_often :
      (n : ℕ) → Option Ptr → List ExampleLayer → Client → Prog (List ExampleLayer)
  unfolding draw
  draw_often zero o ls c = going ls c
  draw_often (suc n) o ls c = follow (draw o ls c) (draw_often n o)

  -- The loop that waits for events: `n` rounds, from the round `i` on.
  unfoldable pub wait :
      Events → (i n : ℕ) → Option Ptr → List ExampleLayer → Client → Prog (List ExampleLayer)
  unfolding draw_often
  wait events i zero o ls c = going ls c
  wait events i (suc n) o ls c =
      follow (if events.polls i then draw_often (events.flips i) o ls c else stopped (returns 1) c)
        (wait events (suc i) n o)

  -- Once the layers are there.
  abbrev pub animate : Events → Option Ptr → List ExampleLayer → Client → Prog Exit
  animate events o ls c = follow (raise_and_draw 0 ls c) (λ ls c. follow (draw o ls c) (λ ls c.
      follow (wait events 0 rounds o ls c) (λ ls c. tear_down env (map (λ l. l.layer) ls) o c)))

  -- `main`
  unfoldable pub dynamic_main : Events → Client → Exit × Client
  unfolding init_layer raise_and_draw wait
  dynamic_main events c = exit_of (
      with_output env
        (λ (o, crtc) c.
          follow (add_each (dynamic_layer_at o crtc) 0 dynamic_layers_len c) (animate events o))
        c)
