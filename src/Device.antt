-- ===== src/Device.antt =====
-- device.c: the test-only commit.
pub mod Retry
pub mod Life
use Prim.Native.Nat.{bit_and, bit_or}
use libliftoff.Prelude.{ℕ, zero, suc, ◌-◌, ◌^◌, Bool, true, false, none, some}
use libliftoff.Errno.{Errno, eintr, eagain, Outcome, ok, err, hang}
use libliftoff.Drm.{Drm}
use libliftoff.Model.{Commits}

-- `DRM_MODE_PAGE_FLIP_EVENT` and `DRM_MODE_ATOMIC_TEST_ONLY`
abbrev pub page_flip_event : ℕ
page_flip_event = 0x01

abbrev pub atomic_test_only : ℕ
atomic_test_only = 0x0100

-- `DRM_MODE_ATOMIC_TEST_ONLY | (flags & ~DRM_MODE_PAGE_FLIP_EVENT)`
unfoldable pub test_flags : ℕ → ℕ
test_flags flags = bit_or atomic_test_only (bit_and flags (2 ^ 32 - 1 - page_flip_event))

-- `ret == -EINTR || ret == -EAGAIN`
abbrev pub is_retry : Errno → Bool
is_retry eintr = true
is_retry eagain = true
is_retry _ = false

module _ (drm : Drm) where
  -- The loop that asks again while the call is interrupted, `n` times at most.
  unfoldable pub commit_loop : (n : ℕ) → (clock : ℕ) → drm.Req → (flags : ℕ) → Outcome × ℕ
  commit_loop zero clock r flags = (hang, clock)
  commit_loop (suc n) clock r flags = elim (drm.commit clock r flags) [
    | none ↦ (ok, suc clock)
    | some e ↦ elim (is_retry e) [
      | true ↦ commit_loop n (suc clock) r flags
      | false ↦ (err e, suc clock)
    ]
  ]

  -- `device_test_commit`. `fuel` bounds the loop.
  unfoldable pub test_commit : (fuel : ℕ) → Commits → drm.Req → (flags : ℕ) → Outcome × Commits
  unfolding commit_loop test_flags
  test_commit fuel c r flags =
      let (ret, clock) = commit_loop fuel c.clock r (test_flags flags) in
      (ret, record { test_commit_counter = suc c.test_commit_counter; clock = clock })
