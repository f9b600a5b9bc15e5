-- ===== src/Example/World.antt =====
-- The world that the programs of example/ run in, their memory, and their ways to end.
use libliftoff.Prelude.{
  has, ◌&&◌, ltb, ◌-◌, ℕ, zero, suc, ◌+◌, ◌%◌, ◌*◌, ◌^◌, Bool, true, List, [], ◌∷◌, Option, ◌==◌,
  if◌then◌else◌,
}
use libliftoff.Name.{Name, codes, fb_id, crtc_x, crtc_y, crtc_w, crtc_h}
use libliftoff.Drm.{Drm}
use libliftoff.Kms.{Kms, Given}
use libliftoff.Model.{Ptr, Plane, Layer, Output, Heap}
use libliftoff.Device.Life.{new_device}
use libliftoff.Example.Modes.{Modes}

-- `struct drm_mode_create_dumb` as the kernel fills it in.
pub record Dumb : Type 0 where
  pub handle : ℕ
  pub pitch : ℕ
  pub size : ℕ

-- `struct dumb_fb`; `format` is 0, as nothing sets it.
pub record DumbFb : Type 0 where
  pub format : ℕ
  pub width : ℕ
  pub height : ℕ
  pub stride : ℕ
  pub size : ℕ
  pub handle : ℕ
  pub id : ℕ

-- `DRM_FORMAT_ARGB8888` and `DRM_FORMAT_XRGB8888`
abbrev pub argb : ℕ
argb = 0x34325241

abbrev pub xrgb : ℕ
xrgb = 0x34325258

-- What the programs ask the system and libdrm. The answer to a question for memory or a framebuffer
-- may depend on the time, so that the same question may be answered in different ways.
pub record Env : Type 1 where
  pub drm : Drm
  pub kms : Kms
  pub modes : Modes
  -- The bound on how often one test-only commit is asked again.
  pub fuel : ℕ
  -- `open` and `drmSetClientCap`
  pub opens : Bool
  pub is_atomic : Bool
  -- What `malloc` and `calloc` give, and what `dup` returns.
  pub device_memory : Bool
  pub descriptor : Given ℕ
  pub crtcs_memory : Bool
  pub plane_calloc : Heap → Option Ptr
  pub plane_props_memory : Bool
  pub output_calloc : (time : ℕ) → Heap → Option Ptr
  pub layer_calloc : (time : ℕ) → Heap → Option Ptr
  pub prop_memory : (time : ℕ) → Heap → Bool
  pub alloc_memory : (time : ℕ) → Heap → Bool
  -- `DRM_IOCTL_MODE_CREATE_DUMB` and `drmModeAddFB2`
  pub create_dumb : (time width height bpp : ℕ) → Option Dumb
  pub add_fb : (time width height format handle stride : ℕ) → Option ℕ
  -- `drmModeAtomicAlloc`, and whether `drmModeAtomicCommit` takes the finished request.
  pub request : drm.Req
  pub commits : Heap → drm.Req → (flags : ℕ) → Bool

-- The memory of a program: that of the library, its static variables, which framebuffers it has
-- filled with which color, which CRTCs it has turned off, and which layers it has composited. The
-- time passes with each question to the system.
pub record Client : Type 0 where
  pub heap : Heap
  pub time : ℕ
  pub is_first : Bool
  pub color_idx : ℕ
  pub fills : List (ℕ × ℕ)
  pub disabled : List ℕ
  pub composited : List ℕ

-- The status that `main` returns, a null pointer followed or an assertion failed, or a retry loop
-- that the fuel does not see to its end. A program misuses an object when it hands one to a
-- public function that has been destroyed, or a layer whose output has, and when it destroys an
-- output that still has layers, or a device that still has outputs.
pub data Exit : Type 0 where
  returns : ℕ → Exit
  crashes : Exit
  hangs : Exit
  misuses : Exit

pub data Prog (A : Type 0) : Type 0 where
  going : A → Client → Prog A
  stopped : Exit → Client → Prog A

abbrev pub follow : {A B : Type 0} → Prog A → (A → Client → Prog B) → Prog B
follow (going a c) k = k a c
follow (stopped e c) k = stopped e c

-- The program goes on only if the object that it hands over is there: C leaves undefined what
-- follows the use of one that is not.
abbrev pub guarded : {A : Type 0} → Bool → Client → Prog A → Prog A
guarded may c m = if may then m else stopped misuses c

abbrev pub tick : Client → Client
tick c = record c { time = suc c.time }

-- The layer is in the list of its output, and its output in that of the device.
abbrev pub is_live : Heap → Ptr → Bool
is_live h l = has (h.layer l).output h.outputs && has l (h.output (h.layer l).output).layers

-- How a program that has run to its end exits.
abbrev pub exit_of : Prog Exit → Exit × Client
exit_of (going e c) = (e, c)
exit_of (stopped e c) = (e, c)

-- The four colors that layers take in turn.
abbrev pub colors : ℕ → ℕ
colors i =
    if i == 0
    then 0xFFFF0000
    else if i == 1
    then 0xFF00FF00
    else if i == 2
    then 0xFF0000FF
    else 0xFFFFFF00

abbrev pub white : ℕ
white = 0xFFFFFFFF

-- The colors in turn.
abbrev pub next_color : Client → ℕ × Client
next_color c = (colors c.color_idx, record c { color_idx = (c.color_idx + 1) % 4 })

-- A loop that adds layers: `n` of them, from the index `i` on.
abbrev pub add_each :
    {A : Type 0} → (add : ℕ → Client → Prog A) → (i n : ℕ) → Client → Prog (List A)
add_each add i zero c = going [] c
add_each add i (suc n) c =
    follow (add i c) (λ l c. follow (add_each add (suc i) n c) (λ ls c. going (l ∷ ls) c))

-- The memory of a program when it starts: whatever it is, there is no device yet.
abbrev pub at_start : (Ptr → Plane) → (Ptr → Layer) → (Ptr → Output) → Client
at_start plane layer output = record {
  heap = record { device = new_device []; plane = plane; layer = layer; output = output };
  time = 0;
  is_first = true;
  color_idx = 0;
  fills = [];
  disabled = [];
  composited = [];
}

-- `DRM_MODE_ATOMIC_NONBLOCK`
abbrev pub nonblock : ℕ
nonblock = 0x0200

-- `v << 16` of an `int`, converted to `uint64_t`. C leaves an overflow undefined; the machine wraps.
abbrev pub shifted : ℕ → ℕ
shifted v = let w = v * 2 ^ 16 % 2 ^ 32 in if ltb w (2 ^ 31) then w else w + (2 ^ 64 - 2 ^ 32)

-- The size of the source, in 16.16 fixed-point numbers.
abbrev pub source_size : (width height : ℕ) → List (Name × ℕ)
source_size width height =
    (codes "SRC_X", 0)
    ∷ (codes "SRC_Y", 0)
    ∷ (codes "SRC_W", shifted width)
    ∷ (codes "SRC_H", shifted height)
    ∷ []

abbrev pub placement : (fb x y width height : ℕ) → List (Name × ℕ)
placement fb x y width height =
    (fb_id, fb)
    ∷ (crtc_x, x)
    ∷ (crtc_y, y)
    ∷ (crtc_w, width)
    ∷ (crtc_h, height)
    ∷ source_size width height

abbrev pub format_of : (with_alpha : Bool) → ℕ
format_of with_alpha = if with_alpha then argb else xrgb
