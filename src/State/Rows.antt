-- ===== src/State/Rows.antt =====
-- The statements that write one table, and `set_task`, `set_agent`, `_backup_dirty`.
use neocortex.Prelude.{ℕ, suc, String, Bool, false, ◌||◌, Option, none, some, update, is_some}
use neocortex.State.Tables.{
  TaskStatus, AgentState, Task, Agent, Message, Run, Incident, Proposal, Db, insert,
}
use neocortex.State.Exec.{Exec, modify, now, transaction, when, ◌>>=◌, ◌>>◌}
use neocortex.State.Query.{task_is, agent_is, proposal_is, status_eq}

abbrev pub update_task : String → (Task → Task) → Db → Db
update_task tid f db = record db { tasks = update (task_is tid) f db.tasks }

abbrev pub update_agent : String → (Agent → Agent) → Db → Db
update_agent aid f db = record db { agents = update (agent_is aid) f db.agents }

abbrev pub update_messages : (Message → Bool) → (Message → Message) → Db → Db
update_messages p f db = record db {
  messages = record db.messages { rows = update p f db.messages.rows };
}

abbrev pub update_runs : (Run → Bool) → (Run → Run) → Db → Db
update_runs p f db = record db { runs = record db.runs { rows = update p f db.runs.rows } }

abbrev pub update_proposal : ℕ → (Proposal → Proposal) → Db → Db
update_proposal pid f db = record db {
  proposals = record db.proposals { rows = update (proposal_is pid) f db.proposals.rows };
}

abbrev pub insert_message : (ℕ → Message) → Db → Db
insert_message row db = record db { messages = insert row db.messages }

abbrev pub insert_incident : (ℕ → Incident) → Db → Db
insert_incident row db = record db { incidents = insert row db.incidents }

abbrev pub mark_dirty : Db → Db
mark_dirty db = record db {
  backup = record db.backup { dirty_generation = suc db.backup.dirty_generation };
}

-- `_backup_dirty`
abbrev pub backup_dirty : Exec (Unit {0})
backup_dirty = modify mark_dirty

-- The keyword arguments of `set_task`; a missing one leaves its column alone.
pub record TaskFields : Type 0 where
  pub status : Option TaskStatus
  pub attempts : Option ℕ
  pub merge_commit : Option String
  pub result : Option String

abbrev pub no_fields : TaskFields
no_fields = record { status = none; attempts = none; merge_commit = none; result = none }

abbrev pub or_else {ℓ} : {A : Type ℓ} → Option A → A → A
or_else none a = a
or_else (some b) a = b

abbrev pub over {ℓ} : {A : Type ℓ} → Option A → Option A → Option A
over none a = a
over (some b) a = some b

abbrev pub write_fields : TaskFields → ℕ → Task → Task
write_fields f at t = record t {
  status = or_else f.status t.status;
  attempts = or_else f.attempts t.attempts;
  merge_commit = over f.merge_commit t.merge_commit;
  result = over f.result t.result;
  updated_at = at;
}

-- An accepted task, or a recorded merge, asks for a backup.
abbrev pub asks_backup : TaskFields → Bool
asks_backup f =
    elim f.status [ none ↦ false | some s ↦ status_eq s TaskStatus.done ] || is_some f.merge_commit

unfoldable pub set_task : String → TaskFields → Exec (Unit {0})
set_task tid f = do
  at ← now
  transaction (do modify (update_task tid (write_fields f at)); when (asks_backup f) backup_dirty)

unfoldable pub set_agent : String → AgentState → Exec (Unit {0})
set_agent aid s = do
  at ← now
  modify (update_agent aid (λ a. record a { state = s; updated_at = at }))

-- `set_agent(id, turns=..., memo=...)`
unfoldable pub set_turns : String → ℕ → String → Exec (Unit {0})
set_turns aid turns memo = do
  at ← now
  modify (update_agent aid (λ a. record a { turns = turns; memo = memo; updated_at = at }))
