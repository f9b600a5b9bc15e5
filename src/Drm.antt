-- ===== src/Drm.antt =====
-- What the library uses of libdrm and of the kernel behind it, which are not part of the repository:
-- the property list of an atomic request with its cursor, and the answer to a test-only commit.
-- Everything that submits a request takes a value of this interface.
use libliftoff.Prelude.{ℕ, suc, ◌≤◌, ◌≡◌, refl, ◌∙◌, arith, Option}
use libliftoff.Errno.{Errno}

-- `drmModeAtomicAddProperty`: the longer request, or a negative errno.
pub data Added (R : Type 0) : Type 0 where
  added : R → Added R
  refused : Errno → Added R

pub record Drm : Type 1 where
  pub Req : Type 0
  pub get_cursor : Req → ℕ
  pub set_cursor : Req → ℕ → Req
  pub add_property : Req → (object property value : ℕ) → Added Req
  -- `drmModeAtomicCommit`, called as the given number of ioctl: 0 or a negative errno.
  pub commit : ℕ → Req → (flags : ℕ) → Option Errno
  -- Setting the cursor to where it stands changes nothing.
  pub set_cursor-get_cursor : (r : Req) → set_cursor r (get_cursor r) ≡ r
  -- An added property stands at the cursor, which moves on by one,
  pub get_cursor-add :
      (r s : Req) (o p v : ℕ) → add_property r o p v ≡ added s → get_cursor s ≡ suc (get_cursor r)
  -- so that setting the cursor back takes it away.
  pub set_cursor-add :
      (r s : Req) (o p v c : ℕ)
      → add_property r o p v ≡ added s
      → c ≤ get_cursor r
      → set_cursor s c ≡ set_cursor r c

module _ (drm : Drm) where
  open drm use {Req, get_cursor, set_cursor, add_property}

  -- `s` is `r` with properties added behind it.
  pub record Extends (r s : Req) : Type 0 where
    pub longer : get_cursor r ≤ get_cursor s
    pub rolls_back : (c : ℕ) → c ≤ get_cursor r → set_cursor s c ≡ set_cursor r c

  pub Extends-refl : (r : Req) → Extends r r
  Extends-refl r = record { longer = omega arith; rolls_back = λ c h. refl }

  pub Extends-trans : {r s t : Req} → Extends r s → Extends s t → Extends r t
  Extends-trans e f = record {
    longer = omega (arith, e.longer, f.longer);
    rolls_back = λ c h. f.rolls_back c (omega arith) ∙ e.rolls_back c h;
  }

  pub Extends-add : {r s : Req} (o p v : ℕ) → add_property r o p v ≡ added s → Extends r s
  Extends-add {r} {s} o p v e = record {
    longer = omega (arith, drm.get_cursor-add r s o p v e);
    rolls_back = λ c h. drm.set_cursor-add r s o p v c e h;
  }

  -- The cursor of the shorter request brings it back.
  pub set_cursor-Extends : {r s : Req} → Extends r s → set_cursor s (get_cursor r) ≡ r
  set_cursor-Extends {r} e = e.rolls_back (get_cursor r) (omega arith) ∙ drm.set_cursor-get_cursor r
