-- ===== src/State/Proposals.antt =====
-- nc/state.py: proposals, their approval and rejection. `check_proposal` is nc/proposals.py's linter.
use neocortex.Prelude.{
  is_some, not, ℕ, String, Bool, true, false, ◌&&◌, List, map, Option, none, some, find, update,
  any, all, str_eq, blank, ◌==◌, if◌then◌else◌,
}
use neocortex.Json.{Json, as_dict, get, is_str}
use neocortex.State.Tables.{ProposalStatus, Proposal, Db, insert}
use neocortex.State.Exec.{
  type_error, Exec, pure, gets, or_raise, raise_if, modify, now, transaction, ◌>>=◌, ◌>>◌,
  unknown_proposal, not_pending, malformed_specs, bad_revision, integrity_error, reason_required,
}
use neocortex.State.Query.{is_pending, project_by_id, proposal_is}
use neocortex.State.Rows.{update_proposal, backup_dirty}

abbrev pub proposal_by_id : ℕ → Db → Option Proposal
proposal_by_id pid db = find (proposal_is pid) db.proposals.rows

-- `_pending_proposal`
unfoldable pub pending_proposal : ℕ → Exec Proposal
pending_proposal pid = do
  row ← gets (proposal_by_id pid)
  p ← or_raise row unknown_proposal
  raise_if (if is_pending p.status then false else true) not_pending
  pure p

-- `isinstance(task, dict) and task.get("project") == project_id`
abbrev pub is_spec_of : String → Json → Bool
is_spec_of pid v = elim (as_dict v) [ none ↦ false | some fs ↦ is_str pid (get "project" fs) ]

-- A revision that this planner may still replace.
abbrev pub open_revision : ℕ → String → String → Db → Bool
open_revision rid source pid db =
    any
      (λ r.
        r.original_id == rid
        && str_eq r.planner_id source
        && (elim r.replacement_id [ none ↦ true | some n ↦ false ])
        && any (λ p. p.id == r.original_id && str_eq p.project_id pid) db.proposals.rows)
      db.revisions

abbrev pub set_replacement : ℕ → ℕ → Db → Db
set_replacement rid new db = record db {
  revisions =
      update (λ r. r.original_id == rid) (λ r. record r { replacement_id = some new }) db.revisions;
}

unfoldable pub reject_proposal : ℕ → String → Exec (Unit {0})
unfolding pending_proposal
reject_proposal pid reason = do
  raise_if (blank reason) reason_required
  transaction (do
    _ ← pending_proposal pid
    at ← now
    modify (
        update_proposal pid (λ p. record p {
          status = ProposalStatus.rejected;
          decided_at = some at;
          reason = some reason;
        }))
    backup_dirty)

abbrev pub foreign_specs : String → List Json → Bool
foreign_specs pid specs = if all (is_spec_of pid) specs then false else true

module _ (check : List Json → List String → Option (List String)) where
  -- `_proposal_findings`; the linter raises on a spec that it cannot read.
  unfoldable pub proposal_findings : List Json → Exec (List String)
  proposal_findings specs = do
    existing ← gets (λ db. map (λ t. t.id) db.tasks)
    or_raise (check specs existing) type_error

  abbrev pub new_proposal : String → String → String → List Json → List String → ℕ → ℕ → Proposal
  new_proposal pid source rationale specs findings at new = record {
    id = new;
    project_id = pid;
    source = source;
    rationale = rationale;
    spec = specs;
    status = ProposalStatus.pending;
    created_at = at;
    decided_at = none;
    reason = none;
    findings = findings;
  }

  -- The statements of the transaction in `add_proposal`, with the foreign key of the project.
  unfoldable pub insert_proposal : String → String → String → List Json → Option ℕ → Exec ℕ
  unfolding proposal_findings
  insert_proposal pid source rationale specs revision = do
    allowed ←
        gets (λ db. elim revision [ none ↦ true | some rid ↦ open_revision rid source pid db ])
    raise_if (if allowed then false else true) bad_revision
    at ← now
    findings ← proposal_findings specs
    known ← gets (project_by_id pid)
    raise_if (not (is_some known)) integrity_error
    modify (λ db. record db {
      proposals = insert (new_proposal pid source rationale specs findings at) db.proposals;
    })
    backup_dirty
    new ← gets (λ db. db.proposals.seq)
    modify (λ db. elim revision [ none ↦ db | some rid ↦ set_replacement rid new db ])
    pure new

  unfoldable pub add_proposal : String → String → String → List Json → Option ℕ → Exec ℕ
  unfolding insert_proposal
  add_proposal pid source rationale specs revision = do
    raise_if (foreign_specs pid specs) malformed_specs
    transaction (insert_proposal pid source rationale specs revision)
