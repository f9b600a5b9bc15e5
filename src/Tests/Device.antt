-- ===== src/Tests/Device.antt =====
-- The theorems on `device_test_commit` at a kernel that is interrupted twice.
use libliftoff.Prelude.{
  ℕ, suc, ◌+◌, ◌%◌, ◌/◌, ◌<◌, ◌≡◌, refl, true, [], some, arith, leb, if◌then◌else◌,
}
use libliftoff.Errno.{eintr, erange}
use libliftoff.Drm.{Drm}
use libliftoff.Device.{commit_loop, test_flags}
use libliftoff.Device.Retry.{retries, outcome_of, commit_loop-answer, test_flags_lem}
use libliftoff.Samples.{drm_of}

abbrev interrupted : Drm
interrupted = drm_of (λ clock r. if leb clock 1 then some eintr else some erange)

interrupted-again : (i : ℕ) → i < 2 → retries (interrupted.commit (0 + i) [] 0x100) ≡ true
interrupted-again i lt = ground arith

commit_loop-answer_example :
    commit_loop interrupted 3 0 [] 0x100
    ≡ (outcome_of (interrupted.commit (0 + 2) [] 0x100), suc (0 + 2))
commit_loop-answer_example =
    commit_loop-answer interrupted 3 0 2 [] 0x100 (omega arith) interrupted-again refl

test_flags_lem_example :
    (test_flags 0x401 % 2 ≡ 0)
    × (test_flags 0x401 / 0x100 % 2 ≡ 1)
    × (test_flags 0x401 / 2 % 0x80 ≡ 0x401 / 2 % 0x80)
    × (test_flags 0x401 / 0x200 ≡ 0x401 / 0x200)
test_flags_lem_example = test_flags_lem 0x401 (omega arith)
