-- ===== src/State/Incidents.antt =====
-- nc/state.py: incidents and their resolution.
pub mod Once
use neocortex.State.Rows.{insert_incident}
use neocortex.State.Tables.{Db, Incident}
use neocortex.Prelude.{
  List, if◌then◌else◌, keep, prefix, update, ◌&&◌, ◌==◌, ℕ, String, Bool, true, false, Option, none,
  some, find,
}
use neocortex.State.Exec.{
  Exec, gets, modify, now, pure, raise, transaction, unknown_incident, ◌>>=◌, ◌>>◌,
}

abbrev pub new_incident : String → String → ℕ → ℕ → Incident
new_incident kind detail at n = record {
  id = n;
  kind = kind;
  detail = prefix 4000 detail;
  resolved = false;
  created_at = at;
  resolved_at = none;
  resolution_note = none;
}

unfoldable pub incident : String → String → Exec ℕ
incident kind detail = do
  at ← now
  modify (insert_incident (new_incident kind detail at))
  gets (λ db. db.incidents.seq)

unfoldable pub open_incidents : Db → List Incident
open_incidents db = keep (λ i. if i.resolved then false else true) db.incidents.rows

abbrev pub settle : String → ℕ → Incident → Incident
settle reason at i = record i {
  resolved = true;
  resolved_at = some at;
  resolution_note = some reason;
}

abbrev pub update_incidents : (Incident → Bool) → (Incident → Incident) → Db → Db
update_incidents p f db = record db {
  incidents = record db.incidents { rows = update p f db.incidents.rows };
}

abbrev pub incident_by_id : ℕ → Db → Option Incident
incident_by_id n db = find (λ i. i.id == n) db.incidents.rows

-- On the row that the transaction found.
unfoldable pub resolve_row : ℕ → String → Option Incident → Exec Bool
resolve_row n reason none = raise unknown_incident
resolve_row n reason (some i) = if i.resolved then pure false else (do
  at ← now
  modify
      (update_incidents (λ j. j.id == n && (if j.resolved then false else true)) (settle reason at))
  pure true)

unfoldable pub resolve_incident : ℕ → String → Exec Bool
resolve_incident n reason = transaction (do row ← gets (incident_by_id n); resolve_row n reason row)

unfoldable pub resolve_open_incidents : String → Exec (Unit {0})
resolve_open_incidents reason = do
  at ← now
  modify (update_incidents (λ j. if j.resolved then false else true) (settle reason at))
