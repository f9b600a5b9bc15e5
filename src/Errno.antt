-- ===== src/Errno.antt =====
-- How a call of the library ends: 0, a negative errno, a failed assertion, or a retry loop that the
-- fuel of the model does not see to its end.
use libliftoff.Prelude.{ℕ, ◌≡◌, refl, ◌⊎◌, inl, inr, Bool, true, false}

-- The errno values that the code names, and the rest.
pub data Errno : Type 0 where
  einval erange enospc eintr eagain enomem eexist : Errno
  other : ℕ → Errno

pub data Outcome : Type 0 where
  ok : Outcome
  err : Errno → Outcome
  -- A failed `assert`.
  abort : Outcome
  -- The fuel of a retry loop ran out.
  hang : Outcome

-- A state after a run, with the way the run ended.
abbrev pub Run : Type 0 → Type 0
Run S = Outcome × S

-- `if (ret != 0) return ret;`, and the rest of the function.
abbrev pub and_then : {S T : Type 0} → Run S → (S → Outcome → T) → (S → T) → T
and_then (ok, s) stop next = next s
and_then (err e, s) stop next = stop s (err e)
and_then (abort, s) stop next = stop s abort
and_then (hang, s) stop next = stop s hang

abbrev pub stop_with : {S : Type 0} → S → Outcome → Run S
stop_with s r = (r, s)

infixl 5 ◌>>=◌
abbrev pub ◌>>=◌ : {S : Type 0} → Run S → (S → Run S) → Run S
m >>= k = and_then m stop_with k

-- `ret == 0`.
abbrev pub is_ok : Outcome → Bool
is_ok ok = true
is_ok (err e) = false
is_ok abort = false
is_ok hang = false

pub Outcome-cases : (r : Outcome) → (r ≡ ok) ⊎ (is_ok r ≡ false)
Outcome-cases ok = inl refl
Outcome-cases (err e) = inr refl
Outcome-cases abort = inr refl
Outcome-cases hang = inr refl

-- A chain that ends well went well in its first part.
pub >>=-eq-ok :
    {S : Type 0} (m : Run S) (k : S → Run S) {t : S}
    → (m >>= k) ≡ (ok, t)
    → (s : S) × (m ≡ (ok, s)) × (k s ≡ (ok, t))
>>=-eq-ok (ok, s) k h = (s, refl, h)
>>=-eq-ok (err e, s) k h = cc
>>=-eq-ok (abort, s) k h = cc
>>=-eq-ok (hang, s) k h = cc

-- What follows a call, whichever way it ended.
pub and_then-cases :
    {S T : Type 0} (P : T → Type 0) (m : Run S) (stop : S → Outcome → T) (next : S → T)
    → ((s : S) → m ≡ (ok, s) → P (next s))
    → ((s : S) (o : Outcome) → P (stop s o))
    → P (and_then m stop next)
and_then-cases P (ok, s) stop next good bad = good s refl
and_then-cases P (err e, s) stop next good bad = bad s (err e)
and_then-cases P (abort, s) stop next good bad = bad s abort
and_then-cases P (hang, s) stop next good bad = bad s hang

pub and_then-eq-ok :
    {S T : Type 0} (m : Run S) (wrap : S → T) (next : S → Run T) {t : T}
    → and_then m (λ s o. (o, wrap s)) next ≡ (ok, t)
    → (s : S) × (m ≡ (ok, s)) × (next s ≡ (ok, t))
and_then-eq-ok (ok, s) wrap next h = (s, refl, h)
and_then-eq-ok (err e, s) wrap next h = cc
and_then-eq-ok (abort, s) wrap next h = cc
and_then-eq-ok (hang, s) wrap next h = cc
