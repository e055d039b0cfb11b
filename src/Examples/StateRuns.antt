-- ===== src/Examples/StateRuns.antt =====
-- Inputs of the theorems on the state and on the backup.
use neocortex.State.Runs.{start_run}
use neocortex.Json.{specs_eq}
use neocortex.Prelude.{blank}
use neocortex.Examples.Sample.{sample_backup, sample_db, sample_world}
use neocortex.BackupWorker.{Host, is_due, run_once}
use neocortex.State.Reviews.{claim_plan_review}
use neocortex.State.Reviews.Claim.{claim_exclusive}
use neocortex.State.Exec.{cancelled_task, err, has_findings, ok}
use neocortex.State.Cancel.Final.{cancelled_never_runs}
use neocortex.State.Cancel.{cancel_idle, cancel_known, cancel_row, cancel_task}
use neocortex.State.Approve.{approve_proposal, decide}
use neocortex.State.Approve.Atomic.{WroteFindings, failed_approval_atomic}
use neocortex.Prelude.{
  List, Option, String, [], any, arith, false, find, if◌then◌else◌, none, refl, some, true, ◌+◌,
  ◌∷◌, ◌≡◌, ◌≤◌, ◌⊎◌,
}
use neocortex.Json.{Json}
use neocortex.BackupWorker.Coverage.{IsOrdered, fallback_not_recorded, run_once_keeps_events}
use neocortex.State.Tables.{BackupState, Role}

cancelled_never_runs_example :
    start_run "worker-p-T003"
      (some "p-T003")
      Role.worker
      "m1"
      "log"
      (cancel_task "p-T003" "not needed" (sample_world 0)).1
    ≡ (err cancelled_task, (cancel_task "p-T003" "not needed" (sample_world 0)).1)
unfolding cancel_task cancel_known cancel_row cancel_idle find any blank
cancelled_never_runs_example =
    cancelled_never_runs "p-T003" "not needed" "worker-p-T003" Role.worker "m1" "log"
      (sample_world 0) (cancel_task "p-T003" "not needed" (sample_world 0)).1 true refl

abbrev pub one_finding : List Json → List String → Option (List String)
one_finding specs known = some ("no acceptance check" ∷ [])

failed_approval_atomic_example :
    let after = (approve_proposal one_finding 1 false (sample_world 0)).1.db in
    (after ≡ sample_db) ⊎ ((has_findings ≡ has_findings) × WroteFindings 1 sample_db after)
unfolding approve_proposal decide find
failed_approval_atomic_example =
    failed_approval_atomic one_finding 1 false (sample_world 0) has_findings refl

claim_exclusive_example :
    claim_plan_review 1 [] "p" "m2" (claim_plan_review 1 [] "p" "m2" (sample_world 0)).1
    ≡ (ok none, (claim_plan_review 1 [] "p" "m2" (sample_world 0)).1)
unfolding claim_plan_review find specs_eq
claim_exclusive_example =
    claim_exclusive 1 [] "p" "m2" "p" "m2" (sample_world 0)
      (claim_plan_review 1 [] "p" "m2" (sample_world 0)).1 1 refl

abbrev pub good_host : Host
good_host = record { available = true; destination = none; snapshot = none; events = 1 }

run_once_keeps_events_example :
    let b' = (run_once 1 good_host 5000 sample_backup).0 in
    IsOrdered b'
    × (1 ≤ b'.acknowledged_generation)
    × (b'.acknowledged_generation ≤ 2)
    × (b'.dirty_generation
        ≡ 2 + (if (run_once 1 good_host 5000 sample_backup).1 then good_host.events else 0))
run_once_keeps_events_example = run_once_keeps_events 1 good_host 5000 sample_backup (omega arith)

abbrev pub quiet_backup : BackupState
quiet_backup = record {
  dirty_generation = 2;
  acknowledged_generation = 2;
  last_attempt_at = some 1000;
  last_success_at = some 1000;
  last_error = none;
}

fallback_not_recorded_example :
    let r = run_once 1 good_host 5000 quiet_backup in
    (r.1 ≡ true)
    × (r.0.last_success_at ≡ some 1000)
    × (r.0.acknowledged_generation ≡ 2)
    × (is_due 1 6000 r.0.last_success_at ≡ true)
fallback_not_recorded_example =
    fallback_not_recorded 1 good_host 5000 6000 quiet_backup refl refl refl refl refl (omega arith)
