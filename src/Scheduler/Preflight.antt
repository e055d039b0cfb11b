-- ===== src/Scheduler/Preflight.antt =====
-- nc/scheduler.py: `_preflight_selected`. The probe of the adapter is an argument; the pairs that
-- this invocation has probed are passed along.
use neocortex.Scheduler.Handlers.{say}
use neocortex.State.Runs.{record_preflight_attempt}
use neocortex.Session.{is_temporary}
use neocortex.State.Incidents.{incident}
use neocortex.Scheduler.Turn.{StepResult}
use neocortex.State.Tables.{Role}
use neocortex.State.Exec.{Exec, pure, when, ◌>>=◌, ◌>>◌}
use neocortex.Prelude.{
  Bool, List, Option, String, [], any, false, if◌then◌else◌, is_some, none, some, str_eq, true, ℕ,
  ◌&&◌, ◌∷◌,
}

-- What the probe of one adapter and model returned or raised.
pub data Probe : Type 0 where
  ready : String → Option ℕ → Option String → Probe
  -- category, diagnostic, detail, usage, evidence path, whether the transport is ACP
  not_ready : Option String → String → String → Option ℕ → Option String → Bool → Probe
  -- a typed provider error with its category, diagnostic and text
  provider_error : String → String → Probe
  crashed : String → Probe

-- `_defer_until`, which reads a reset time from a diagnostic.
abbrev pub ResetReader : Type 0
ResetReader = String → Option ℕ

abbrev pub crash_detail : String → String → String → String
crash_detail model category diagnostic =
    say ("model " ∷ model ∷ " is not usable (" ∷ category ∷ "): " ∷ diagnostic ∷ [])

abbrev pub or_text : Option String → String → String
or_text none d = d
or_text (some s) d = if str_eq s "" then d else s

abbrev pub is_temporary_opt : Option String → Bool
is_temporary_opt none = false
is_temporary_opt (some c) = is_temporary c

-- A refusal: temporary ones wait for the timer, all others become an incident.
unfoldable pub refuse :
    ResetReader
    → Role
    → String
    → String
    → Option String
    → String
    → String
    → Option ℕ
    → Option String
    → Bool
    → Exec (Option StepResult)
unfolding record_preflight_attempt incident
refuse reset role adapter model category diagnostic detail usage evidence is_acp =
    if is_temporary_opt category
    then (do
      record_preflight_attempt role adapter model (or_text category "") detail
          (if is_acp then none else reset diagnostic) usage evidence
      pure (some StepResult.deferred))
    else (do
      when (is_some evidence) (
          record_preflight_attempt role adapter model (or_text category "local_error") detail none
            usage evidence)
      _ ← incident "preflight" detail
      pure (some StepResult.preflight_failed))

unfoldable pub judge_probe : ResetReader → Role → String → String → Probe → Exec (Option StepResult)
unfolding refuse record_preflight_attempt incident
judge_probe reset role adapter model (ready detail usage evidence) = do
  when (is_some evidence)
      (record_preflight_attempt role adapter model "success" detail none usage evidence)
  pure none
judge_probe reset role adapter model (not_ready category diagnostic detail usage evidence acp) =
    refuse reset role adapter model category diagnostic detail usage evidence acp
judge_probe reset role adapter model (provider_error category diagnostic) =
    refuse reset role adapter model (some category) diagnostic
      (crash_detail model category diagnostic) none none false
judge_probe reset role adapter model (crashed text) = do
  _ ← incident "preflight" text
  pure (some StepResult.preflight_failed)

abbrev pub same_pair : String × String → String × String → Bool
same_pair (a, m) (b, n) = str_eq a b && str_eq m n

-- Outside `run` nothing is probed; inside, each pair once.
unfoldable pub preflight_selected :
    ResetReader
    → Bool
    → Role
    → String × String
    → Probe
    → List (String × String)
    → Exec (Option StepResult × List (String × String))
unfolding judge_probe
preflight_selected reset in_run role pair probe probed =
    if in_run && (if any (same_pair pair) probed then false else true)
    then (do r ← judge_probe reset role pair.0 pair.1 probe; pure (r, pair ∷ probed))
    else pure (none, probed)
