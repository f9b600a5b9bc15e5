-- ===== src/Device/Retry.antt =====
-- The retry loop of `device_test_commit`, and the flags that the kernel is given.
use libliftoff.Prelude.{
  ℕ, zero, suc, ◌+◌, ◌%◌, ◌/◌, ◌<◌, ◌≡◌, ◌≢◌, refl, ◌∙◌, Bool, true, false, ◌&&◌, Option, none,
  some, arith, ◌==◌, if◌then◌else◌,
}
use mathlib.Core.Path.{subst}
use native.Mathlib.Nat.{add-zero}
use libliftoff.Errno.{Errno, Outcome, ok, err, abort}
use libliftoff.Drm.{Drm}
use libliftoff.Model.{Commits}
use libliftoff.Device.{is_retry, commit_loop, test_commit, test_flags}

-- Whether the kernel asks for another try.
abbrev pub retries : Option Errno → Bool
retries none = false
retries (some e) = is_retry e

abbrev pub outcome_of : Option Errno → Outcome
outcome_of none = ok
outcome_of (some e) = err e

module _ (drm : Drm) where
  commit_loop-again :
      (n clock : ℕ) (r : drm.Req) (flags : ℕ)
      → retries (drm.commit clock r flags) ≡ true
      → commit_loop drm (suc n) clock r flags ≡ commit_loop drm n (suc clock) r flags
  unfolding commit_loop
  commit_loop-again n clock r flags again = ground arith

  commit_loop-first :
      (n clock : ℕ) (r : drm.Req) (flags : ℕ)
      → retries (drm.commit clock r flags) ≡ false
      → commit_loop drm (suc n) clock r flags ≡ (outcome_of (drm.commit clock r flags), suc clock)
  unfolding commit_loop
  commit_loop-first n clock r flags final = ground arith

  -- With more fuel than interrupted calls the loop ends with the first answer that is neither -EINTR
  -- nor -EAGAIN.
  pub commit_loop-answer :
      (n clock j : ℕ) (r : drm.Req) (flags : ℕ)
      → j < n
      → ((i : ℕ) → i < j → retries (drm.commit (clock + i) r flags) ≡ true)
      → retries (drm.commit (clock + j) r flags) ≡ false
      → commit_loop drm n clock r flags
        ≡ (outcome_of (drm.commit (clock + j) r flags), suc (clock + j))
  commit_loop-answer zero clock j r flags h again final = elim h [ ]
  commit_loop-answer (suc n) clock zero r flags h again final =
      let e : clock + zero ≡ clock = omega arith in
      rw e (commit_loop-first n clock r flags (rw e at final))
  commit_loop-answer (suc n) clock (suc j) r flags h again final =
      let e : clock + suc j ≡ suc clock + j = omega arith in
      commit_loop-again n clock r flags (rw (add-zero clock) at (again 0 (omega arith)))
      ∙ rw e (
          commit_loop-answer n (suc clock) j r flags (omega arith)
            (λ i lt.
              subst (λ c. retries (drm.commit c r flags) ≡ true) (omega arith)
                (again (suc i) (omega arith)))
            (rw e at final))

  -- If the kernel's answers do not depend on when it is asked, neither does that of the loop.
  pub commit_loop-steady :
      ((c c' : ℕ) (r : drm.Req) (flags : ℕ) → drm.commit c r flags ≡ drm.commit c' r flags)
      → (n c c' : ℕ) (r : drm.Req) (flags : ℕ)
      → (commit_loop drm n c r flags).0 ≡ (commit_loop drm n c' r flags).0
  unfolding commit_loop
  commit_loop-steady same zero c c' r flags = refl
  commit_loop-steady same (suc n) c c' r flags =
      ground (arith, same c c' r flags, commit_loop-steady same n (suc c) (suc c') r flags)

  -- The loop fails no assertion.
  pub commit_loop-ne-abort :
      (n clock : ℕ) (r : drm.Req) (flags : ℕ) → (commit_loop drm n clock r flags).0 ≢ abort
  unfolding commit_loop
  commit_loop-ne-abort zero clock r flags = λ e. cc
  commit_loop-ne-abort (suc n) clock r flags =
      ground (arith, commit_loop-ne-abort n (suc clock) r flags)

  pub test_commit-ne-abort :
      (fuel : ℕ) (c : Commits) (r : drm.Req) (flags : ℕ)
      → (test_commit drm fuel c r flags).0 ≢ abort
  unfolding test_commit
  test_commit-ne-abort fuel c r flags = commit_loop-ne-abort fuel c.clock r (test_flags flags)

-- Whether no flags under the bound fail the test, which is tried from the top.
no_flags_fail : (test : ℕ → Bool) → (bound : ℕ) → Bool
no_flags_fail test zero = true
no_flags_fail test (suc top) = if test top then no_flags_fail test top else false

test_of_no_flags_fail :
    (test : ℕ → Bool) (bound flags : ℕ)
    → flags < bound
    → no_flags_fail test bound ≡ true
    → test flags ≡ true
unfolding no_flags_fail
test_of_no_flags_fail test zero flags under all = elim under [ ]
test_of_no_flags_fail test (suc top) flags under all =
    ground (arith, test_of_no_flags_fail test top flags)

abbrev flags_kept : ℕ → Bool
flags_kept f =
    test_flags f % 2 == 0
    && test_flags f / 0x100 % 2 == 1
    && test_flags f / 2 % 0x80 == f / 2 % 0x80
    && test_flags f / 0x200 == f / 0x200

flags_table : no_flags_fail flags_kept 0x800 ≡ true
unfolding no_flags_fail test_flags
flags_table = refl

-- The kernel is asked with `DRM_MODE_ATOMIC_TEST_ONLY`, without `DRM_MODE_PAGE_FLIP_EVENT`, and with
-- every other flag as the caller gave it; for flags below 0x800, which are all that atomic commits
-- have.
pub test_flags_lem :
    (f : ℕ)
    → f < 0x800
    → (test_flags f % 2 ≡ 0)
      × (test_flags f / 0x100 % 2 ≡ 1)
      × (test_flags f / 2 % 0x80 ≡ f / 2 % 0x80)
      × (test_flags f / 0x200 ≡ f / 0x200)
test_flags_lem f small = ground (arith, test_of_no_flags_fail flags_kept 0x800 f small flags_table)
