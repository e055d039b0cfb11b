-- ===== src/State/Mail.antt =====
-- nc/state.py: agents and messages.
use neocortex.State.Rows.{insert_message, update_messages}
use neocortex.State.Query.{agent_by_id, message_is, project_by_id, task_by_id}
use neocortex.Json.{Json}
use neocortex.State.Tables.{Agent, AgentState, Db, Message, MessageKind, Role}
use neocortex.Prelude.{
  [], if◌then◌else◌, is_some, str_eq, ◌&&◌, ◌++◌, ◌∷◌, ℕ, String, Bool, true, false, List, Option,
  none, some, any, keep,
}
use neocortex.State.Exec.{Exec, gets, integrity_error, modify, now, pure, raise_if, ◌>>=◌, ◌>>◌}

abbrev pub new_agent : String → Role → String → Option String → String → ℕ → Agent
new_agent aid role pid tid model at = record {
  id = aid;
  role = role;
  project_id = pid;
  task_id = tid;
  state = AgentState.runnable;
  model = model;
  turns = 0;
  memo = "";
  created_at = at;
  updated_at = at;
}

-- The primary key and the two foreign keys of `agent`.
abbrev pub agent_fits : String → String → Option String → Db → Bool
agent_fits aid pid tid db =
    (if is_some (agent_by_id aid db) then false else true)
    && is_some (project_by_id pid db)
    && (elim tid [ none ↦ true | some t ↦ is_some (task_by_id t db) ])

unfoldable pub add_agent : String → Role → String → Option String → String → Exec String
add_agent aid role pid tid model = do
  at ← now
  fits ← gets (agent_fits aid pid tid)
  raise_if (if fits then false else true) integrity_error
  modify (λ db. record db { agents = db.agents ++ new_agent aid role pid tid model at ∷ [] })
  pure aid

-- The foreign key of `in_reply_to`.
abbrev pub reply_fits : Option ℕ → Db → Bool
reply_fits none db = true
reply_fits (some mid) db = any (message_is mid) db.messages.rows

abbrev pub new_message :
    MessageKind → String → String → Json → Option String → Option ℕ → ℕ → ℕ → Message
new_message kind sender recipient payload tid reply at mid = record {
  id = mid;
  kind = kind;
  sender = sender;
  recipient = recipient;
  task_id = tid;
  payload = payload;
  in_reply_to = reply;
  delivered = false;
  created_at = at;
}

unfoldable pub send : MessageKind → String → String → Json → Option String → Option ℕ → Exec ℕ
send kind sender recipient payload tid reply = do
  at ← now
  fits ← gets (reply_fits reply)
  raise_if (if fits then false else true) integrity_error
  modify (insert_message (new_message kind sender recipient payload tid reply at))
  gets (λ db. db.messages.seq)

-- Rows stand in the order of their ids.
unfoldable pub inbox : String → Bool → Db → List Message
inbox recipient undelivered_only db =
    keep
      (λ m.
        str_eq m.recipient recipient
        && (if undelivered_only then (if m.delivered then false else true) else true))
      db.messages.rows

unfoldable pub mark_delivered : List ℕ → Exec (Unit {0})
mark_delivered [] = pure tt
mark_delivered (mid ∷ ids) =
    modify (update_messages (message_is mid) (λ m. record m { delivered = true }))
    >> mark_delivered ids
