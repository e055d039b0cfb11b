-- ===== src/Session/Planner/Effects.antt =====
-- nc/turn.py: `run_planner_turn` as a whole, by the outcome it returns.
use neocortex.Session.Planner.Finish.{
  finish_planner-Keeps, finish_planner-recorded, finish_planner-returns, planner_read-failed,
  start_run-recorded, defer_split,
}
use neocortex.State.Proposals.{new_proposal}
use neocortex.Config.{Config, model_for}
use neocortex.Json.{Json}
use mathlib.Core.Path.{subst}
use neocortex.Session.Planner.Records.{Proposes, applied_plan-Proposes, applied_idle, recorded}
use neocortex.State.Feedback.{pending_revision}
use neocortex.State.Rows.{or_else}
use neocortex.State.Mail.{inbox}
use neocortex.State.Runs.{start_run}
use neocortex.Session.Planner.{
  or_raise, after_planner, reset_of, run_planner_turn, start_planner, tokens_of, applied_plan,
  finish_planner, planner_acknowledges, planner_read,
}
use neocortex.Session.{write_defer, Outcome, SessionEnd}
use neocortex.Prelude.{
  map, suc, sym, ◌∙◌, List, Option, String, ap, arith, false, none, refl, some, true, ℕ, ◌≡◌,
}
use neocortex.State.Exec.{
  ◌>>=◌, ◌>>◌, World, ok, ◌>>=◌, ◌>>◌, World, ok, ◌>>=◌, ◌>>◌, World, ok, ◌>>=◌, ◌>>◌, World, ok,
  ◌>>=◌, ◌>>◌, World, ok, no_model, now, ◌>>=◌, ◌>>◌, World, ok, >>=-eq-ok, Error, ◌>>=◌, ◌>>◌,
  World, ok, Exec, World, modify, ok,
}
use neocortex.State.Tables.{insert, Revision, Role, Agent, OutcomeKind}

module _ (check : List Json → List String → Option (List String)) (error_str : Error → String) where
  -- The part of the turn that has effects besides the run's row.
  effects :
      Agent → Option Revision → ℕ → List ℕ → Option ℕ → Option Outcome → Outcome → Exec Outcome
  effects agent revision rid ids tokens host o =
      applied_plan check error_str agent revision host o >>= λ o'.
      finish_planner agent rid ids tokens host o'

  -- How a turn that returned got there.
  effects_split :
      (agent : Agent) (revision : Option Revision) (rid : ℕ) (ids : List ℕ) (tokens : Option ℕ)
      (host : Option Outcome) (o o' : Outcome) (w w' : World)
      → effects agent revision rid ids tokens host o w ≡ (ok o', w')
      → (p : Outcome) × (u : World) × (applied_plan check error_str agent revision host o w
          ≡ (ok p, u))
        × (or_else host p ≡ o')
        × ((finish_planner agent rid ids tokens host p u).1 ≡ w')
  unfolding effects
  effects_split agent revision rid ids tokens host o o' w w' e =
      let m = applied_plan check error_str agent revision host o in
      let (p, returned, rest) =
        >>=-eq-ok m (λ o'. finish_planner agent rid ids tokens host o') w o' w' e in
      let u = (m w).1 in
      let result : ok (or_else host p) ≡ ok o' =
        sym (finish_planner-returns agent rid ids tokens host p u) ∙ ap (λ r. r.0) rest in
      (p, u, ap (λ r. (r, u)) returned, ground (arith, result), ap (λ r. r.1) rest)

  host_applied :
      (agent : Agent) (revision : Option Revision) (host o p : Outcome) (w u : World)
      → applied_plan check error_str agent revision (some host) o w ≡ (ok p, u)
      → w ≡ u
  unfolding applied_plan
  host_applied agent revision host o p w u e = ap (λ r. r.1) e

  effects_idle :
      (agent : Agent) (revision : Option Revision) (rid : ℕ) (ids : List ℕ) (tokens : Option ℕ)
      (host : Option Outcome) (o o' : Outcome) (w w' : World)
      → effects agent revision rid ids tokens host o w ≡ (ok o', w')
      → planner_acknowledges o'.kind ≡ false
      → recorded w'.db ≡ recorded w.db
  effects_idle agent revision rid ids tokens none o o' w w' e h =
      let (p, u, applied, same, done) =
        effects_split agent revision rid ids tokens none o o' w w' e in
      let idle : planner_acknowledges p.kind ≡ false = rw same h in
      ap (λ v. recorded v.db) (sym done)
      ∙ finish_planner-recorded agent rid ids tokens none p u (rw idle refl)
      ∙ ap recorded (applied_idle check error_str agent revision o p w u applied idle)
  effects_idle agent revision rid ids tokens (some host) o o' w w' e h =
      let (p, u, applied, same, done) =
        effects_split agent revision rid ids tokens (some host) o o' w w' e in
      ap (λ v. recorded v.db) (sym done)
      ∙ finish_planner-recorded agent rid ids tokens (some host) p u refl
      ∙ ap (λ v. recorded v.db) (sym (host_applied agent revision host o p w u applied))

  effects-Proposes :
      (agent : Agent) (revision : Option Revision) (rid : ℕ) (ids : List ℕ) (tokens : Option ℕ)
      (host : Option Outcome) (o o' : Outcome) (w w' : World)
      → ((h : Outcome) → host ≡ some h → h.kind ≡ OutcomeKind.fail)
      → effects agent revision rid ids tokens host o w ≡ (ok o', w')
      → o'.kind ≡ OutcomeKind.done
      → Proposes check error_str agent o' w.db w'.db.proposals
  effects-Proposes agent revision rid ids tokens none o o' w w' fails e h =
      let (p, u, applied, same, done) =
        effects_split agent revision rid ids tokens none o o' w w' e in
      let kept : u.db.proposals ≡ w'.db.proposals =
        ap (λ d. d.1) (sym (finish_planner-Keeps agent rid ids tokens none p u))
        ∙ ap (λ v. v.db.proposals) done in
      subst (λ q. Proposes check error_str agent q w.db w'.db.proposals) same
        (subst (Proposes check error_str agent p w.db) kept
          (applied_plan-Proposes check error_str agent revision o p w u applied (rw same h)))
  effects-Proposes agent revision rid ids tokens (some host) o o' w w' fails e h =
      let (p, u, applied, same, done) =
        effects_split agent revision rid ids tokens (some host) o o' w w' e in
      let failed : host.kind ≡ OutcomeKind.fail = fails host refl in
      absurd (ground (arith, failed, h, same))

  -- A turn that returned: what it has done before its effects touches none of the three tables.
  turn_split :
      (cfg : Config) (agent : Agent) (log : String) (s : SessionEnd) (w w' : World) (o : Outcome)
      → run_planner_turn check error_str cfg agent log s w ≡ (ok o, w')
      → (revision : Option Revision) × (rid : ℕ) × (ids : List ℕ) × (v : World) × (recorded v.db
          ≡ recorded w.db)
        × (effects agent revision rid ids
              (tokens_of s)
              (planner_read "Planner" s).0
              (planner_read "Planner" s).1
              v
            ≡ (ok o, w'))
  unfolding run_planner_turn after_planner effects
  turn_split cfg agent log s w w' o e =
      let revision = pending_revision agent.id w.db in
      let ids = map (λ m. m.id) (inbox agent.id true w.db) in
      let found = planner_read "Planner" s in
      let eff = λ (rid : ℕ). effects agent revision rid ids (tokens_of s) found.0 found.1 in
      let after = λ (rid : ℕ). write_defer rid (reset_of s) >> eff rid in
      let begin =
        λ (rid : ℕ). now >>= λ at. modify (start_planner agent.project_id at) >> after rid in
      let (model, named, e1) =
        >>=-eq-ok (or_raise (model_for cfg Role.planner) no_model)
          (λ model. start_run agent.id none Role.planner model log >>= begin) w o w' e in
      let (rid, started, e2) =
        >>=-eq-ok (start_run agent.id none Role.planner model log) begin w o w' e1 in
      let u = (start_run agent.id none Role.planner model log w).1 in
      let t : World = record u {
        db = start_planner agent.project_id (u.clock u.reads) u.db;
        reads = suc u.reads;
      } in
      let (v, same, e3) = defer_split rid (reset_of s) (eff rid) t w' o e2 in
      (revision, rid, ids, v, same ∙ start_run-recorded agent.id none Role.planner model log w, e3)

  -- A planner's turn that returns an outcome other than DONE and ASK has recorded nothing: tasks,
  -- proposals and messages are as before, so what was in the planner's inbox stays undelivered. It
  -- holds too where the host failed after the planner wrote a plan, and where the plan is refused.
  pub planner_turn_idle :
      (cfg : Config) (agent : Agent) (log : String) (s : SessionEnd) (w w' : World) (o : Outcome)
      → run_planner_turn check error_str cfg agent log s w ≡ (ok o, w')
      → planner_acknowledges o.kind ≡ false
      → recorded w'.db ≡ recorded w.db
  planner_turn_idle cfg agent log s w w' o e h =
      let (revision, rid, ids, v, same, rest) = turn_split cfg agent log s w w' o e in
      effects_idle agent revision rid ids (tokens_of s) (planner_read "Planner" s).0
        (planner_read "Planner" s).1 o v w' rest h
      ∙ same

  -- A planner's turn that returns DONE has added exactly one proposal: pending, of the planner and its
  -- project, with one to five tasks that passed the checks of the plan, and the findings of the linter
  -- against the tasks there were.
  pub planner_turn-Proposes :
      (cfg : Config) (agent : Agent) (log : String) (s : SessionEnd) (w w' : World) (o : Outcome)
      → run_planner_turn check error_str cfg agent log s w ≡ (ok o, w')
      → o.kind ≡ OutcomeKind.done
      → Proposes check error_str agent o w.db w'.db.proposals
  planner_turn-Proposes cfg agent log s w w' o e h =
      let (revision, rid, ids, v, same, rest) = turn_split cfg agent log s w w' o e in
      let (specs, checked, adds) =
        effects-Proposes agent revision rid ids (tokens_of s) (planner_read "Planner" s).0
          (planner_read "Planner" s).1 o v w' (planner_read-failed "Planner" s) rest h in
      let (findings, at, linted, added) = adds in
      (
        specs,
        checked,
        (
          findings,
          at,
          ap (λ d. check specs (map (λ t. t.id) d.0)) (sym same) ∙ linted,
          added
              ∙ ap
                  (λ d.
                    insert
                      (new_proposal check agent.project_id agent.id o.summary specs findings at)
                      d.2)
                  same,
        ),
      )
