-- ===== src/Alloc/Buffer/Match.antt =====
-- When a run of the search on the shared array does what the search on lists does.
use libliftoff.Prelude.{ℕ, ◌≡◌, refl, ap, ◌∙◌, List, Option, some, take, length}
use libliftoff.Errno.{Outcome, Run, ok, err, abort, hang, ◌>>=◌}
use libliftoff.Model.{Ptr}
use libliftoff.Alloc.Choose.{Search}
use libliftoff.Alloc.Buffer.{Shared, Access, ◌>>>◌}

-- The run stays inside its arrays, ends as the run on lists does, and leaves the first `n` items of
-- the shared array as they were.
pub record Matches {R : Type 0} (n : ℕ) (alloc : List (Option Ptr)) (shared : Access (Shared R))
    (run : Run (Search R)) : Type 0 where
  pub after : List (Option Ptr)
  pub ends : shared ≡ some (run.0, record { search = run.1; alloc = after })
  pub len : length after ≡ length alloc
  pub before : take n after ≡ take n alloc

module _ {R : Type 0} {n : ℕ} {alloc : List (Option Ptr)} where
  -- Nothing happens to the array.
  pub Matches-stay :
      (o : Outcome) (s : Search R)
      → Matches n alloc (some (o, record { search = s; alloc = alloc })) (o, s)
  Matches-stay o s = record { after = alloc; ends = refl; len = refl; before = refl }

  pub Matches-bind :
      {shared : Access (Shared R)} (run : Run (Search R)) (next : Shared R → Access (Shared R))
      (k : Search R → Run (Search R))
      → Matches n alloc shared run
      → ((s : Search R) (after : List (Option Ptr))
          → length after ≡ length alloc
          → take n after ≡ take n alloc
          → Matches n after (next (record { search = s; alloc = after })) (k s))
      → Matches n alloc (shared >>> next) (run >>= k)
  Matches-bind (ok, s) next k m more =
      let m' = more s m.after m.len m.before in
      record {
        after = m'.after;
        ends = ap (λ x. x >>> next) m.ends ∙ m'.ends;
        len = m'.len ∙ m.len;
        before = m'.before ∙ m.before;
      }
  Matches-bind (err e, s) next k m more = record {
    after = m.after;
    ends = ap (λ x. x >>> next) m.ends;
    len = m.len;
    before = m.before;
  }
  Matches-bind (abort, s) next k m more = record {
    after = m.after;
    ends = ap (λ x. x >>> next) m.ends;
    len = m.len;
    before = m.before;
  }
  Matches-bind (hang, s) next k m more = record {
    after = m.after;
    ends = ap (λ x. x >>> next) m.ends;
    len = m.len;
    before = m.before;
  }
