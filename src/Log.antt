-- ===== src/Log.antt =====
-- log.c: which messages reach a handler, and which handler. The text of a message is a parameter.
use libliftoff.Prelude.{ℕ, Bool, Option, none, some, leb, if◌then◌else◌}

-- `LIFTOFF_SILENT`, `LIFTOFF_ERROR` and `LIFTOFF_DEBUG`
abbrev pub silent : ℕ
silent = 0

abbrev pub error : ℕ
error = 1

abbrev pub debug : ℕ
debug = 2

-- `log_stderr`, or a handler of the client.
pub data Handler (H : Type 0) : Type 0 where
  log_stderr : Handler H
  custom : H → Handler H

-- The two static variables.
pub record Logger (H : Type 0) : Type 0 where
  pub priority : ℕ
  pub handler : Handler H

-- `errno = prev_errno`
abbrev pub restore : (prev errno : ℕ) → ℕ
restore prev errno = prev

module _ {H : Type 0} where
  abbrev pub initial : Logger H
  initial = record { priority = error; handler = log_stderr }

  -- `liftoff_log_set_priority`
  unfoldable pub log_set_priority : Logger H → ℕ → Logger H
  log_set_priority g p = record g { priority = p }

  -- `liftoff_log_set_handler`
  unfoldable pub log_set_handler : Logger H → Option H → Logger H
  log_set_handler g none = record g { handler = log_stderr }
  log_set_handler g (some f) = record g { handler = custom f }

  -- `log_has`
  unfoldable pub log_has : Logger H → ℕ → Bool
  log_has g p = leb p g.priority

  -- `liftoff_log`: the handler that is called with the message, if any.
  unfoldable pub log : {M : Type 0} → Logger H → ℕ → M → Option (Handler H × ℕ × M)
  unfolding log_has
  log g p m = if log_has g p then some (g.handler, p, m) else none

  -- errno after a call of `liftoff_log`. A handler is a program that may change it, as `run` says.
  abbrev pub errno_after :
      {M : Type 0} (run : Handler H → ℕ → M → ℕ → ℕ) → Option (Handler H × ℕ × M) → ℕ → ℕ
  errno_after run none errno = errno
  errno_after run (some (f, p, m)) errno = run f p m errno

  -- `liftoff_log_errno`: the call of `liftoff_log`, and errno after it.
  unfoldable pub log_errno :
      {M : Type 0} (text : ℕ → M) (run : Handler H → ℕ → M → ℕ → ℕ)
      → Logger H
      → ℕ
      → (errno : ℕ) → Option (Handler H × ℕ × M) × ℕ
  unfolding log
  log_errno text run g p errno =
      let called = log g p (text errno) in (called, restore errno (errno_after run called errno))
