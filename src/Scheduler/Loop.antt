-- ===== src/Scheduler/Loop.antt =====
-- nc/scheduler.py: `run`, after the readiness check: the turns of one timer invocation.
pub mod Breaker
use neocortex.Scheduler.Handlers.{say}
use neocortex.State.Incidents.{incident}
use neocortex.Scheduler.Escalate.{escalate_unanswered_questions}
use neocortex.Scheduler.Turn.{StepResult}
use neocortex.State.Exec.{Exec, Host, gets, modify_host, now, ok, pure, ◌>>=◌, ◌>>◌}
use neocortex.State.Tables.{Db}
use neocortex.Config.{Config}
use neocortex.Prelude.{
  Bool, Option, String, [], any, decimal, false, if◌then◌else◌, is_some, leb, ltb, none, some, suc,
  true, zero, ℕ, ◌+◌, ◌==◌, ◌||◌, ◌∷◌,
}

-- A provider retry is still ahead.
abbrev pub later_than : ℕ → Option ℕ → Bool
later_than t none = false
later_than t (some u) = ltb t u

abbrev pub retry_pending : ℕ → ℕ → Db → Bool
retry_pending t u db =
    any (λ r. later_than t r.defer_until) db.runs.rows
    || any (λ p. later_than u p.defer_until) db.preflight_attempts.rows

abbrev pub stop_text : ℕ → String
stop_text n = say ("circuit breaker: " ∷ decimal n ∷ " consecutive failed turns\n" ∷ [])

abbrev pub gets_host : {A : Type 0} → (Host → A) → Exec A
gets_host f w = (ok (f w.host), w)

-- The breaker writes STOP once enough turns have failed in a row.
unfoldable pub check_breaker : Config → Exec (Option Bool)
unfolding incident
check_breaker cfg = do
  failures ← gets_host (λ h. h.failures)
  if leb cfg.max_consecutive_failures failures
      then (do
        _ ←
            incident "circuit_breaker"
              (say (decimal failures ∷ " consecutive failed turns; stopping" ∷ []))
        modify_host (λ h. record h { stop = some (stop_text failures) })
        pure (some true))
      else pure none

unfoldable pub after_step : Config → StepResult → Exec (Option Bool)
unfolding check_breaker
after_step cfg StepResult.deferred = pure (some true)
after_step cfg StepResult.preflight_failed = pure (some false)
after_step cfg StepResult.idle = pure (some true)
after_step cfg _ = check_breaker cfg

module _ (step : Exec StepResult) where
  -- One pass of the `while` body; `some b` returns b, `none` goes on.
  unfoldable pub round : Config → Exec (Option Bool)
  unfolding escalate_unanswered_questions after_step
  round cfg = do
    t ← now
    u ← now
    waiting ← gets (retry_pending t u)
    stopped ← gets_host (λ h. is_some h.stop)
    if waiting || stopped
        then pure (some true)
        else (do escalate_unanswered_questions cfg; result ← step; after_step cfg result)

  -- `while max_turns == 0 or turns < max_turns`; `none` is fuel run out.
  unfoldable pub run_turns : ℕ → Config → ℕ → ℕ → Exec (Option Bool)
  unfolding round
  run_turns zero cfg max_turns turns = pure none
  run_turns (suc fuel) cfg max_turns turns =
      if max_turns == 0 || ltb turns max_turns
      then (round cfg >>= λ r. elim r [
        | some b ↦ pure (some b)
        | none ↦ run_turns fuel cfg max_turns (turns + 1)
      ])
      else pure (some true)
