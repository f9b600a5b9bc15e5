-- ===== src/Example/Client/Sound.antt =====
-- What is said of the memory of a program, wherever it goes on or ends.
use libliftoff.Prelude.{
  ℕ, Bool, true, ◌≡◌, ◌≢◌, refl, ap, false, List, [], ◌∷◌, ◌++◌, Option, none, some, has,
}
use libliftoff.Model.{Ptr, Heap}
use libliftoff.Links.{links}
use libliftoff.Layer.Life.Linked.{IsNew}
use libliftoff.Api.{Reachable}
use libliftoff.Example.World.{
  Env, Client, Exit, misuses, guarded, returns, crashes, hangs, Prog, going, stopped, follow,
  exit_of,
}

-- `calloc` gives no address that is in use.
pub record IsFresh (env : Env) : Type 0 where
  pub plane : (h : Heap) (p : Ptr) → env.plane_calloc h ≡ some p → has p h.planes ≡ false
  pub output :
      (t : ℕ) (h : Heap) (o : Ptr) → env.output_calloc t h ≡ some o → has o h.outputs ≡ false
  pub layer : (t : ℕ) (h : Heap) (l : Ptr) → env.layer_calloc t h ≡ some l → IsNew (links h) l

-- The layers that are not `NULL`.
abbrev pub somes : List (Option Ptr) → List Ptr
somes [] = []
somes (none ∷ ls) = somes ls
somes (some l ∷ ls) = l ∷ somes ls

-- The list of one more layer, if there is one.
abbrev pub listed : Option Ptr → List Ptr
listed none = []
listed (some l) = l ∷ []

-- It stands in front of the others.
pub listed-somes :
    (l : Option Ptr) (items : List (Option Ptr)) → listed l ++ somes items ≡ somes (l ∷ items)
listed-somes none items = refl
listed-somes (some l) items = refl

pub append-nil : (ls : List Ptr) → ls ++ [] ≡ ls
append-nil [] = refl
append-nil (l ∷ ls) = ap (λ xs. l ∷ xs) (append-nil ls)

module _ (env : Env) where
  -- The memory that a program leaves: within reach of the public functions, nothing misused, and
  -- without planes and outputs if the program returns 0.
  pub record Left (e : Exit) (h : Heap) : Type 0 where
    pub reach : Reachable env.drm h
    pub allowed : e ≢ misuses
    pub emptied : e ≡ returns 0 → (h.planes ≡ []) × (h.outputs ≡ [])

  -- The program goes on with what `P` says, or has left its memory.
  abbrev pub Sound : {A : Type 0} → (A → Heap → Type 0) → Prog A → Type 0
  Sound P (going a c) = P a c.heap
  Sound P (stopped e c) = Left e c.heap

  pub Sound-follow :
      {A B : Type 0} (P : A → Heap → Type 0) (Q : B → Heap → Type 0) (m : Prog A)
      (k : A → Client → Prog B)
      → Sound P m
      → ((a : A) (c : Client) → P a c.heap → Sound Q (k a c))
      → Sound Q (follow m k)
  Sound-follow P Q (going a c) k p next = next a c p
  Sound-follow P Q (stopped e c) k p next = p

  pub exit_of-Sound : (m : Prog Exit) → Sound Left m → Left (exit_of m).0 (exit_of m).1.heap
  exit_of-Sound (going e c) v = v
  exit_of-Sound (stopped e c) v = v

  -- What a program may do it does.
  pub guarded-Sound :
      {A : Type 0} (P : A → Heap → Type 0) (may : Bool) (c : Client) (m : Prog A)
      → may ≡ true
      → Sound P m
      → Sound P (guarded may c m)
  guarded-Sound P may c m e v = rw e v

  ended_early : (e : Exit) {h : Heap} → e ≢ returns 0 → e ≢ misuses → Reachable env.drm h → Left e h
  ended_early e early allowed reach = record {
    reach = reach;
    allowed = allowed;
    emptied = λ same. absurd (early same);
  }

  pub failed_Left : {h : Heap} → Reachable env.drm h → Left (returns 1) h
  failed_Left = ended_early (returns 1) (λ e. cc) (λ e. cc)

  pub crashed_Left : {h : Heap} → Reachable env.drm h → Left crashes h
  crashed_Left = ended_early crashes (λ e. cc) (λ e. cc)

  pub hung_Left : {h : Heap} → Reachable env.drm h → Left hangs h
  hung_Left = ended_early hangs (λ e. cc) (λ e. cc)
