-- ===== src/Name.antt =====
-- Property names, the `char name[DRM_PROP_NAME_LEN]` of include/private.h: the bytes before the
-- terminating zero.
use Prim.Native.Char.{code}
use Prim.Native.String.{String}
use libliftoff.Prelude.{ℕ, ◌≡◌, refl, Bool, true, false, ◌&&◌, List, [], ◌∷◌, arith, ◌==◌, take}

abbrev pub Name : Type 0
Name = List ℕ

-- The bytes of an ASCII literal.
abbrev pub codes : String → Name
codes String.[] = []
codes (String.◌∷◌ c s) = code c ∷ codes s

-- `strcmp(a, b) == 0`.
unfoldable pub name_eq : Name → Name → Bool
name_eq [] [] = true
name_eq [] (y ∷ ys) = false
name_eq (x ∷ xs) [] = false
name_eq (x ∷ xs) (y ∷ ys) = x == y && name_eq xs ys

-- `strncpy(dst, name, DRM_PROP_NAME_LEN - 1)` into zeroed memory: 31 bytes at most.
abbrev pub stored : Name → Name
stored n = take 31 n

pub name_eq_refl : (a : Name) → name_eq a a ≡ true
unfolding name_eq
name_eq_refl [] = refl
name_eq_refl (x ∷ xs) = ground (arith, name_eq_refl xs)

pub eq_of_name_eq : (a b : Name) → name_eq a b ≡ true → a ≡ b
unfolding name_eq
eq_of_name_eq [] [] h = refl
eq_of_name_eq [] (y ∷ ys) h = cc
eq_of_name_eq (x ∷ xs) [] h = cc
eq_of_name_eq (x ∷ xs) (y ∷ ys) h = ground (arith, eq_of_name_eq xs ys)

-- The names that the code asks for.
abbrev pub fb_id : Name
fb_id = codes "FB_ID"

abbrev pub crtc_id : Name
crtc_id = codes "CRTC_ID"

abbrev pub crtc_x : Name
crtc_x = codes "CRTC_X"

abbrev pub crtc_y : Name
crtc_y = codes "CRTC_Y"

abbrev pub crtc_w : Name
crtc_w = codes "CRTC_W"

abbrev pub crtc_h : Name
crtc_h = codes "CRTC_H"

abbrev pub zpos : Name
zpos = codes "zpos"

abbrev pub alpha : Name
alpha = codes "alpha"

abbrev pub rotation : Name
rotation = codes "rotation"

abbrev pub in_fence_fd : Name
in_fence_fd = codes "IN_FENCE_FD"

abbrev pub fb_damage_clips : Name
fb_damage_clips = codes "FB_DAMAGE_CLIPS"

abbrev pub type_name : Name
type_name = codes "type"
