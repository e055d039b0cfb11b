-- ===== src/State/Incidents/Once.antt =====
-- nc/state.py: two calls of `resolve_incident` on one incident.
use neocortex.State.Incidents.{resolve_row, incident_by_id, resolve_incident, settle}
use neocortex.State.Exec.{World, ok}
use neocortex.State.Tables.{Incident}
use neocortex.Prelude.{
  none, Option, String, false, if◌then◌else◌, refl, ℕ, ◌&&◌, ◌==◌, List, [], arith, find, some,
  true, update, ◌∷◌, ◌≡◌,
}

-- An open row that a search finds is settled by the update.
found_row :
    (n : ℕ) (reason : String) (at : ℕ) (xs : List Incident) (i : Incident)
    → find (λ j. j.id == n) xs ≡ some i
    → i.resolved ≡ false
    → find
        (λ j. j.id == n)
        (update (λ j. j.id == n && (if j.resolved then false else true)) (settle reason at) xs)
      ≡ some (settle reason at i)
unfolding find update
found_row n reason at [] i e h = cc
found_row n reason at (x ∷ xs) i e h = ground (arith, found_row n reason at xs i)

resolved_again :
    (n : ℕ) (reason : String) (w : World) (i : Incident)
    → incident_by_id n w.db ≡ some i
    → i.resolved ≡ true
    → resolve_incident n reason w ≡ (ok false, w)
unfolding resolve_incident resolve_row
resolved_again n reason w i e h = ground arith

resolve_row_cases :
    (n : ℕ) (reason : String) (o : Option Incident) (w w' : World)
    → resolve_row n reason o w ≡ (ok true, w')
    → (i : Incident) × (o ≡ some i)
      × (i.resolved ≡ false)
      × (w'.db.incidents.rows
          ≡ update
              (λ j. j.id == n && (if j.resolved then false else true))
              (settle reason (w.clock w.reads))
              w.db.incidents.rows)
unfolding resolve_row
resolve_row_cases n reason none w w' e = cc
resolve_row_cases n reason (some i) w w' e = (i, refl, ground arith, ground arith)

resolve_incident_cases :
    (n : ℕ) (reason : String) (w w' : World)
    → resolve_incident n reason w ≡ (ok true, w')
    → resolve_row n reason (incident_by_id n w.db) w ≡ (ok true, w')
unfolding resolve_incident
resolve_incident_cases n reason w w' e = ground arith

-- After `resolve_incident` has resolved an incident, the incident carries that reason and time, and
-- a second call, with whatever reason, returns False and changes nothing.
pub first_resolution_kept :
    (n : ℕ) (reason later : String) (w w' : World)
    → resolve_incident n reason w ≡ (ok true, w')
    → ((i : Incident) × (incident_by_id n w.db ≡ some i)
        × (incident_by_id n w'.db ≡ some (settle reason (w.clock w.reads) i)))
      × (resolve_incident n later w' ≡ (ok false, w'))
first_resolution_kept n reason later w w' e =
    let (i, found, fresh, wrote) =
      resolve_row_cases n reason (incident_by_id n w.db) w w'
        (resolve_incident_cases n reason w w' e) in
    let kept : incident_by_id n w'.db ≡ some (settle reason (w.clock w.reads) i) =
      rw wrote (found_row n reason (w.clock w.reads) w.db.incidents.rows i found fresh) in
    ((i, found, kept), resolved_again n later w' (settle reason (w.clock w.reads) i) kept refl)
