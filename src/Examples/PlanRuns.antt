-- ===== src/Examples/PlanRuns.antt =====
-- Concrete turns of a planner and of a plan critic, and assessments of sessions.
use neocortex.Json.{lookup, items, strings}
use neocortex.Prelude.{update, blank, all, keep}
use neocortex.Protocol.{Outcome}
use neocortex.Json.{specs_eq}
use neocortex.Prelude.{decimal}
use neocortex.State.Runs.{start_run}
use neocortex.Examples.Sample.{
  sample_agent, sample_config, sample_db, sample_outcome, sample_proposal, sample_world,
}
use neocortex.Session.Planner.{run_planner_turn}
use neocortex.Session.PlanCritic.{run_plan_critic_turn}
use neocortex.Session.Planner.Effects.{planner_turn_idle, planner_turn-Proposes}
use neocortex.Config.{model_for}
use neocortex.Session.PlanCritic.Inert.{decided, plan_critic_inert}
use neocortex.State.Reviews.{claim_plan_review, critic_id}
use neocortex.Session.Planner.Records.{Proposes, recorded}
use neocortex.Prelude.{List, Option, String, [], any, false, find, none, refl, some, ◌∷◌, ◌≡◌}
use neocortex.Json.{Json, cons, dict, end, field, list, nil, str}
use neocortex.Session.PlanCritic.Ends.{IsEnded, claimed_review_ends}
use neocortex.State.Exec.{World, World, World, World, Error, World}
use neocortex.Session.{raised, finished, Assessment, SessionEnd, read, unavailable}
use neocortex.State.Tables.{Agent, AgentState, OutcomeKind, Role}

abbrev pub sample_planner : Agent
sample_planner = record (sample_agent Role.planner "planner-p" AgentState.runnable) {
  task_id = none;
}

abbrev planning_world : World
planning_world = record (sample_world 0) {
  db = record sample_db { agents = sample_planner ∷ sample_db.agents };
}

abbrev no_findings : List Json → List String → Option (List String)
no_findings specs ids = some []

abbrev no_text : Error → String
no_text e = "error"

abbrev calm : Assessment
calm = record { failed = false; category = "none"; diagnostic = ""; reset_at = none }

abbrev texts : String → Json
texts s = list (cons (str s) nil)

abbrev sample_spec : Json
sample_spec = dict (
    field "project" (str "p") (
      field "title" (str "Printer") (
        field "objective" (str "Write it") (
          field "acceptance" (texts "$ make test")
            (field "boundaries" (texts "The parser stays as it is") end)))))

abbrev sample_plan : Outcome
sample_plan = record (sample_outcome OutcomeKind.done "") {
  raw = field "proposal" (list (cons sample_spec nil)) end;
}

abbrev planned : SessionEnd
planned = finished (some 900) calm (read sample_plan)

planner_turn_idle_example :
    recorded
      (run_planner_turn no_findings no_text sample_config sample_planner "log"
        (raised none "adapter failed")
        planning_world).1.db
    ≡ recorded planning_world.db
unfolding run_planner_turn any find
planner_turn_idle_example =
    planner_turn_idle no_findings no_text sample_config sample_planner "log"
      (raised none "adapter failed") planning_world
      (run_planner_turn no_findings no_text sample_config sample_planner "log"
        (raised none "adapter failed") planning_world).1
      (unavailable "Planner" "adapter failed") refl refl

planner_turn-Proposes_example :
    Proposes no_findings no_text sample_planner sample_plan planning_world.db
      (run_planner_turn no_findings no_text sample_config sample_planner "log" planned
        planning_world).1.db.proposals
unfolding run_planner_turn any find lookup items blank strings all keep update
planner_turn-Proposes_example =
    planner_turn-Proposes no_findings no_text sample_config sample_planner "log" planned
      planning_world
      (run_planner_turn no_findings no_text sample_config sample_planner "log" planned
        planning_world).1
      sample_plan refl refl

abbrev reviewed : SessionEnd
reviewed = finished none calm (
    read (record (sample_outcome OutcomeKind.done "") {
      raw = field "recommendation" (str "approve") (field "findings" (list nil) end);
    }))

plan_critic_inert_example :
    decided
      (run_plan_critic_turn no_text sample_config sample_proposal "log" reviewed
        planning_world).1.db
    ≡ decided planning_world.db
plan_critic_inert_example =
    plan_critic_inert no_text sample_config sample_proposal "log" reviewed planning_world

abbrev claimed_world : World
claimed_world = (claim_plan_review 1 [] "p" "m3" planning_world).1

claimed_review_ends_example :
    IsEnded 1
      (run_plan_critic_turn no_text sample_config sample_proposal "log" reviewed planning_world)
unfolding claim_plan_review start_run any find model_for specs_eq decimal
claimed_review_ends_example =
    claimed_review_ends no_text sample_config sample_proposal "log" "m3" reviewed 1 1 planning_world
      claimed_world (start_run (critic_id 1) none Role.plan_critic "m3" "log" claimed_world).1 refl
      refl refl
