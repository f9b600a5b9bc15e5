-- ===== src/Example/Client/Steps.antt =====
-- The first and the last steps of a program: the device and its output are made, and destroyed.
use mathlib.Core.Path.{subst}
use libliftoff.Prelude.{
  ℕ, ◌≡◌, refl, ◌∙◌, inl, inr, Bool, true, false, List, [], ◌∷◌, Option, none, some, arith,
  Bool-cases, if◌then◌else◌,
}
use libliftoff.Errno.{Outcome, err, enomem}
use libliftoff.Kms.{Kms, Given, given, lacking, then_given-eq}
use libliftoff.Model.{Ptr, Plane, Layer, Output, Device, Heap}
use libliftoff.Plane.Life.{Scan, plane_create, finish_plane, add_plane, is_registered, read_plane}
use libliftoff.Device.Life.{new_device, device_create, register_planes, register_all_planes}
use libliftoff.Api.{Reachable, start, after, create_plane}
use libliftoff.Example.Modes.{
  Connector, Crtc, Resources, Checked, stops, done, pick_connector, pick_crtc,
}
use libliftoff.Example.Client.{
  on_device, open_device, on_crtc, on_connector, on_resources, open_output, with_output,
}
use libliftoff.Example.World.{Env, Client, Exit, returns, Prog, stopped, at_start}
use libliftoff.Example.Client.Sound.{IsFresh, Left, Sound, failed_Left, crashed_Left, Sound-follow}
use libliftoff.Example.Client.Held.{Holds}
use libliftoff.Example.Client.Opened.{Bare, Bare-HoldsAll, HoldsAll-output_create}

outputs-finish_plane :
    (h : Heap) (p : Ptr) (s : Given Scan) → (finish_plane h p s).1.outputs ≡ h.outputs
unfolding finish_plane add_plane
outputs-finish_plane h p (lacking e) = refl
outputs-finish_plane h p (given s) = elim (Bool-cases s.has_type) [
  | inl e ↦ rw (finish_plane, e) refl
  | inr e ↦ rw (finish_plane, e) refl
]

outputs-plane_create :
    (kms : Kms) (h : Heap) (id : ℕ) (memory : Option Ptr) (props_memory : Bool)
    → (plane_create kms h id memory props_memory).1.outputs ≡ h.outputs
unfolding plane_create
outputs-plane_create kms h id memory props_memory =
    elim (Bool-cases (is_registered h.plane id h.planes)) [
      | inl e ↦ rw (plane_create, e) refl
      | inr e ↦
          rw (plane_create, e)
            (elim memory
              as (λ memory.
                (elim memory as (λ _. Given Ptr × Heap) [
                  | none ↦ (lacking enomem, h)
                  | some p ↦ finish_plane h p (read_plane kms id props_memory)
                ]).1.outputs
                ≡ h.outputs) [
                  | none ↦ refl
                  | some p ↦ outputs-finish_plane h p (read_plane kms id props_memory)
                ])
    ]

given_inj : {a b : Device} → given a ≡ given b → a ≡ b
given_inj e = ground arith

-- The device that `liftoff_device_create` makes has no planes and no outputs.
new_device_lem :
    (kms : Kms) (memory : Bool) (descriptor : Given ℕ) (crtcs_memory : Bool) (d : Device)
    → device_create kms memory descriptor crtcs_memory ≡ given d
    → (crtcs : List ℕ) × (new_device crtcs ≡ d)
unfolding device_create
new_device_lem kms false descriptor crtcs_memory d e = cc
new_device_lem kms true descriptor crtcs_memory d e =
    let (fd, _, rest) = then_given-eq descriptor _ e in
    let (crtcs, _, last) = then_given-eq kms.get_crtcs _ rest in
    (
      crtcs,
      elim (Bool-cases crtcs_memory) [
        | inl f ↦ given_inj (rw f at last)
        | inr f ↦ cc (rw f at last)
      ],
    )

module _ (env : Env) where
  next_plane-Bare :
      (a : Given Ptr) (rest : Outcome × Heap) (h : Heap)
      → Bare env h
      → Bare env rest.1
      → Bare env (elim a as (λ _. Outcome × Heap) [ given p ↦ rest | lacking e ↦ (err e, h) ]).1
  next_plane-Bare (given p) rest h v w = w
  next_plane-Bare (lacking e) rest h v w = v

  module _ (fresh : IsFresh env) where
    register_planes-Bare :
        (ids : List ℕ) (h : Heap)
        → Bare env h
        → Bare env (register_planes env.kms env.plane_calloc env.plane_props_memory ids h).1
    unfolding register_planes
    register_planes-Bare [] h v = v
    register_planes-Bare (id ∷ ids) h v =
        let memory = env.plane_calloc h in
        let w : Bare env (plane_create env.kms h id memory env.plane_props_memory).1 = (
          after v.0 (create_plane env.kms id memory env.plane_props_memory (fresh.plane h)),
          outputs-plane_create env.kms h id memory env.plane_props_memory ∙ v.1,
        ) in
        next_plane-Bare _ _ _ w (register_planes-Bare ids _ w)

    register_all_planes-Bare :
        (h : Heap)
        → Bare env h
        → Bare env (register_all_planes env.kms env.plane_calloc env.plane_props_memory h).1
    unfolding register_all_planes
    register_all_planes-Bare h v =
        elim env.kms.get_planes
          as (λ a.
            Bare env
              (elim a as (λ _. Outcome × Heap) [
                | given ids ↦ register_planes env.kms env.plane_calloc env.plane_props_memory ids h
                | lacking e ↦ (err e, h)
              ]).1) [ given ids ↦ register_planes-Bare ids h v | lacking e ↦ v ]

    on_device-Sound :
        (a : Given Device) (c : Client)
        → device_create env.kms env.device_memory env.descriptor env.crtcs_memory ≡ a
        → Reachable env.drm c.heap
        → Sound env (λ _. Bare env) (on_device env a c)
    on_device-Sound (lacking e) c same v = failed_Left env v
    on_device-Sound (given d) c same v =
        let (crtcs, is_new) = new_device_lem _ _ _ _ d same in
        register_all_planes-Bare (record c.heap { device = d })
          (subst (λ d. Bare env (record c.heap { device = d })) is_new
            (start crtcs c.heap.plane c.heap.layer c.heap.output, refl))

    unless_refused-Sound :
        {A : Type 0} (P : A → Heap → Type 0) (b : Bool) (m : Prog A) (c : Client)
        → Reachable env.drm c.heap
        → Sound env P m
        → Sound env P (if b then m else stopped (returns 1) c)
    unless_refused-Sound P true m c v w = w
    unless_refused-Sound P false m c v w = failed_Left env v

    -- Opening the device leaves it without outputs, whichever call fails.
    pub open_device-Sound :
        (c : Client) → Reachable env.drm c.heap → Sound env (λ _. Bare env) (open_device env c)
    unfolding open_device
    open_device-Sound c v =
        unless_refused-Sound (λ _. Bare env) env.opens _ c v
          (unless_refused-Sound (λ _. Bare env) env.is_atomic _ c v (on_device-Sound _ c refl v))

    on_crtc-Sound :
        (res : Resources) (x : Checked (Option Crtc)) (c : Client)
        → Bare env c.heap
        → Sound env (λ a. Holds env a.0 []) (on_crtc env res x c)
    on_crtc-Sound res stops c v = crashed_Left env v.0
    on_crtc-Sound res (done none) c v = crashed_Left env v.0
    on_crtc-Sound res (done (some crtc)) c v =
        let w =
          HoldsAll-output_create env fresh [] crtc.crtc_id c.time c.heap
            (Bare-HoldsAll env c.heap v) in
        unless_refused-Sound (λ a. Holds env a.0 []) crtc.mode_valid _ _ w.reach w

    on_connector-Sound :
        (res : Resources) (x : Checked (Option Connector)) (c : Client)
        → Bare env c.heap
        → Sound env (λ a. Holds env a.0 []) (on_connector env res x c)
    on_connector-Sound res stops c v = crashed_Left env v.0
    on_connector-Sound res (done k) c v = on_crtc-Sound res (pick_crtc env.modes res k) c v

    on_resources-Sound :
        (x : Option Resources) (c : Client)
        → Bare env c.heap
        → Sound env (λ a. Holds env a.0 []) (on_resources env x c)
    on_resources-Sound none c v = crashed_Left env v.0
    on_resources-Sound (some res) c v =
        on_connector-Sound res (pick_connector env.modes res.connectors) c v

    -- Opening an output leaves one without layers, if there is memory for it.
    pub open_output-Sound :
        (c : Client) → Bare env c.heap → Sound env (λ a. Holds env a.0 []) (open_output env c)
    unfolding open_output
    open_output-Sound c v = on_resources-Sound env.modes.get_resources c v

    -- A program that does right by its output does so from its start.
    pub with_output-Sound :
        (use_output : Option Ptr × Crtc → Client → Prog Exit)
        → ((a : Option Ptr × Crtc) (c : Client)
            → Holds env a.0 [] c.heap
            → Sound env (Left env) (use_output a c))
        → (plane : Ptr → Plane) (layer : Ptr → Layer) (output : Ptr → Output)
        → Sound env (Left env) (with_output env use_output (at_start plane layer output))
    with_output-Sound use_output right plane layer output =
        let c = at_start plane layer output in
        Sound-follow env (λ _. Bare env) (Left env) (open_device env c) _
          (open_device-Sound c (start [] plane layer output))
          (λ _ c v.
            Sound-follow env (λ a. Holds env a.0 []) (Left env) (open_output env c) use_output
              (open_output-Sound c v) right)
