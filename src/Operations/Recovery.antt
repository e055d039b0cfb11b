-- ===== src/Operations/Recovery.antt =====
-- nc/operations.py: `recover_runs`. The process columns of a run come from `owners`, by its id;
-- `interrupted_at` is not modelled.
pub mod Closes
pub mod Quiet
use neocortex.State.Rows.{update_agent, update_runs}
use neocortex.State.Query.{is_open, is_running, run_is}
use neocortex.Operations.Ownership.{
  Owner, Ownership, Processes, is_live, is_uncertain, owner_status,
}
use neocortex.State.Exec.{
  raise_if, pure, ◌>>=◌, ◌>>◌, Exec, ambiguous_owner, bad_run_ids, changed_run, finished_run, gets,
  live_owner, modify, no_run_ids, now, reason_required, transaction, uncertain_owner, unknown_runs,
}
use neocortex.Prelude.{
  Bool, List, String, [], any, blank, false, find, if◌then◌else◌, keep, none, null, some, strip,
  true, update, ℕ, ◌&&◌, ◌==◌, ◌||◌, ◌∷◌,
}
use neocortex.State.Tables.{AgentState, Db, ReviewAttempt, ReviewStatus, Run, RunOutcome}

abbrev pub mem : ℕ → List ℕ → Bool
mem n ids = any (λ m. m == n) ids

-- `len(set(run_ids)) == len(run_ids)`
unfoldable pub distinct : List ℕ → Bool
distinct [] = true
distinct (n ∷ ids) = (if mem n ids then false else true) && distinct ids

abbrev pub bad_ids : List ℕ → Bool
bad_ids ids = (if distinct ids then false else true) || any (λ n. n == 0) ids

-- `WHERE id IN (...) ORDER BY id`
abbrev pub selected_runs : List ℕ → Db → List Run
selected_runs ids db = keep (λ r. mem r.id ids) db.runs.rows

abbrev pub are_missing : List ℕ → List Run → Bool
are_missing ids rows = any (λ n. if any (run_is n) rows then false else true) ids

-- The claim of a plan review by the run.
abbrev pub runs_attempt : ℕ → ReviewAttempt → Bool
runs_attempt rid a = a.run_id == rid && is_running a.status

abbrev pub release_attempts : ℕ → Db → Db
release_attempts rid db = record db {
  review_attempts = record db.review_attempts {
    rows =
        update (runs_attempt rid) (λ a. record a { status = ReviewStatus.retryable })
          db.review_attempts.rows;
  };
}

abbrev pub release_review : ℕ → Db → Db
release_review review db = record db {
  plan_reviews = record db.plan_reviews {
    rows =
        update (λ v. v.id == review && is_running v.status)
          (λ v. record v { status = ReviewStatus.retryable }) db.plan_reviews.rows;
  };
}

-- `UPDATE plan_review_attempt` and `UPDATE plan_review`, where the run holds a claim.
abbrev pub release : ℕ → Db → Db
release rid db = elim (find (runs_attempt rid) db.review_attempts.rows) [
  | none ↦ db
  | some a ↦ release_review a.review_id (release_attempts rid db)
]

abbrev pub interrupt : ℕ → String → Run → Run
interrupt at reason r = record r {
  outcome = some RunOutcome.interrupted;
  ended_at = some at;
  recovered_at = some at;
  recovery_reason = some (strip reason);
}

-- `WHERE id=? AND ended_at IS NULL`
abbrev pub open_run : ℕ → Run → Bool
open_run rid r = run_is rid r && is_open r

-- The writes for one run.
unfoldable pub recover_writes : ℕ → String → Run → Db → Db
unfolding strip
recover_writes at reason r db = release r.id (
    update_agent r.agent_id (λ a. record a { state = AgentState.blocked; updated_at = at })
      (update_runs (open_run r.id) (interrupt at reason) db))

unfoldable pub recover_each : ℕ → String → List Run → Exec (Unit {0})
unfolding recover_writes
recover_each at reason [] = pure tt
recover_each at reason (r ∷ rows) = do
  changes ← gets (λ db. any (open_run r.id) db.runs.rows)
  raise_if (if changes then false else true) changed_run
  modify (recover_writes at reason r)
  recover_each at reason rows

module _ (os : Processes) (owners : ℕ → Owner) where
  abbrev pub status_of : Run → Ownership
  status_of r = owner_status os (owners r.id)

  abbrev pub is_legacy : Run → Bool
  is_legacy r = (owners r.id).ownership_version == 0

  abbrev pub held : Run → Bool
  held r = is_live (status_of r)

  abbrev pub ambiguous : Run → Bool
  ambiguous r = is_uncertain (status_of r) && (if is_legacy r then false else true)

  abbrev pub legacy : Run → Bool
  legacy r = is_uncertain (status_of r) && is_legacy r

  -- On the rows that the transaction found.
  unfoldable pub recover_rows : List ℕ → String → Bool → List Run → Exec (List Run)
  unfolding recover_each
  recover_rows ids reason acknowledged rows = do
    raise_if (are_missing ids rows) unknown_runs
    raise_if (any (λ r. if is_open r then false else true) rows) finished_run
    raise_if (any held rows) live_owner
    raise_if (any ambiguous rows) ambiguous_owner
    raise_if (any legacy rows && (if acknowledged then false else true)) uncertain_owner
    at ← now
    recover_each at reason rows
    pure rows

  unfoldable pub recover_selected : List ℕ → String → Bool → Exec (List Run)
  unfolding recover_rows
  recover_selected ids reason acknowledged = do
    rows ← gets (selected_runs ids)
    recover_rows ids reason acknowledged rows

  unfoldable pub recover_runs : List ℕ → String → Bool → Exec (List Run)
  unfolding recover_selected distinct
  recover_runs ids reason acknowledged = do
    raise_if (null ids) no_run_ids
    raise_if (bad_ids ids) bad_run_ids
    raise_if (blank reason) reason_required
    transaction (recover_selected ids reason acknowledged)
