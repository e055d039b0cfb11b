-- ===== src/Session/Planner/Records.antt =====
-- nc/turn.py: what `run_planner_turn` records, for each outcome it returns.
use mathlib.Core.Path.{subst}
use neocortex.Session.Plan.{planner_specs}
use neocortex.State.Mail.{send}
use neocortex.Session.Planner.{
  applied_plan, planner_acknowledges, is_protocol_error, protocol_failure, settle_plan, value_error,
  raise, apply_plan, original_of, Outcome, ask_owner,
}
use neocortex.State.Proposals.{
  foreign_specs, insert_proposal, add_proposal, new_proposal, proposal_findings,
}
use neocortex.Prelude.{
  false, ◌⊎◌, refl, sym, ◌∙◌, Bool-cases, blank, not, str_eq, ◌||◌, ap, List, Option, Option-cases,
  String, arith, inl, inr, map, none, some, ℕ, ◌≡◌,
}
use neocortex.Json.{Json}
use neocortex.State.Exec.{
  ◌>>=◌, World, pure, ok, err, ◌>>=◌, World, pure, ok, err, >>=-eq-ok, ◌>>=◌, World, pure, ok, err,
  ◌>>=◌, World, pure, ok, err, Exec, Result, lift, World, ok, err, transaction, World, ok, err,
  malformed_specs, raise_if-err, transaction-err, World, ok, err, Error, World, err, ok,
}
use neocortex.State.Tables.{
  OutcomeKind, Revision, Agent, Db, Message, Proposal, Table, Task, insert,
}

-- What a planner's turn may add to.
abbrev pub recorded : Db → List Task × Table Message × Table Proposal
recorded db = (db.tasks, db.messages, db.proposals)

abbrev pub task_ids : Db → List String
task_ids db = map (λ t. t.id) db.tasks

module _ (check : List Json → List String → Option (List String)) where
  -- One row more, with the findings of the linter.
  abbrev pub AddsProposal : String → String → String → List Json → Db → Table Proposal → Type 0
  AddsProposal pid source rationale specs db proposals =
      (findings : List String) × (at : ℕ) × (check specs (task_ids db) ≡ some findings)
      × (proposals
          ≡ insert (new_proposal check pid source rationale specs findings at) db.proposals)

  add_proposal-ok :
      (pid source rationale : String) (specs : List Json) (revision : Option ℕ) (w w' : World)
      (n : ℕ)
      → add_proposal check pid source rationale specs revision w ≡ (ok n, w')
      → AddsProposal pid source rationale specs w.db w'.db.proposals
  unfolding add_proposal insert_proposal proposal_findings
  add_proposal-ok pid source rationale specs none w w' n e =
      elim (Option-cases (check specs (task_ids w.db))) [
        | inl c ↦ absurd (ground (arith, c, e))
        | inr (findings, c) ↦ (findings, w.clock w.reads, c, ground (arith, c, e))
      ]
  add_proposal-ok pid source rationale specs (some r) w w' n e =
      elim (Option-cases (check specs (task_ids w.db))) [
        | inl c ↦ absurd (ground (arith, c, e))
        | inr (findings, c) ↦ (findings, w.clock w.reads, c, ground (arith, c, e))
      ]

  add_proposal-err :
      (pid source rationale : String) (specs : List Json) (revision : Option ℕ) (w w' : World)
      (x : Error)
      → add_proposal check pid source rationale specs revision w ≡ (err x, w')
      → w'.db ≡ w.db
  unfolding add_proposal
  add_proposal-err pid source rationale specs revision w w' x e =
      let body = insert_proposal check pid source rationale specs revision in
      elim (raise_if-err (foreign_specs pid specs) malformed_specs x (transaction body) w w' e) [
        | inl same ↦ ap (λ v. v.db) same
        | inr left ↦ transaction-err body w w' x left
      ]

  -- A question that is refused has written nothing.
  ask_owner-err :
      (agent : Agent) (o : Outcome) (w w' : World) (x : Error)
      → ask_owner agent o w ≡ (err x, w')
      → w'.db ≡ w.db
  unfolding send
  ask_owner-err agent o w w' x e =
      elim (Bool-cases (not (str_eq o.to "owner") || blank o.question)) [
        | inl b ↦ ground (arith, b, e)
        | inr b ↦ absurd (ground (arith, b, e))
      ]

module _ (check : List Json → List String → Option (List String)) (error_str : Error → String) where
  -- The effects of an outcome of kind DONE.
  propose : Agent → Option Revision → Outcome → List Json → Exec (Unit {0})
  propose agent revision o specs =
      add_proposal check agent.project_id agent.id o.summary specs (original_of revision) >>= λ _.
      pure tt

  propose_split-err :
      (r : Result ℕ × World) (w w' : World) (x : Error)
      → ((y : Error) (v : World) → r ≡ (err y, v) → v.db ≡ w.db)
      → ((λ _. r) >>= λ _. pure tt) w ≡ (err x, w')
      → w'.db ≡ w.db
  propose_split-err (ok n, v) w w' x h e = absurd (ground arith)
  propose_split-err (err y, v) w w' x h e = ap (λ r. r.1.db) (sym e) ∙ h y v refl

  propose-err :
      (agent : Agent) (revision : Option Revision) (o : Outcome) (r : Result (List Json))
      (w w' : World) (x : Error)
      → (lift r >>= λ specs. propose agent revision o specs) w ≡ (err x, w')
      → w'.db ≡ w.db
  unfolding propose
  propose-err agent revision o (err y) w w' x e = ap (λ r. r.1.db) (sym e)
  propose-err agent revision o (ok specs) w w' x e =
      propose_split-err
        (add_proposal check agent.project_id agent.id o.summary specs (original_of revision) w) w w'
        x
        (λ y v f.
          add_proposal-err check agent.project_id agent.id o.summary specs (original_of revision) w
            v y f)
        e

  kind_apply : Agent → Option Revision → Outcome → OutcomeKind → Exec (Unit {0})
  kind_apply agent revision o OutcomeKind.done =
      lift (planner_specs check agent.project_id o) >>= λ specs. propose agent revision o specs
  kind_apply agent revision o OutcomeKind.ask = ask_owner agent o
  kind_apply agent revision o OutcomeKind.yielded =
      raise (value_error "planner must record one proposal or ask the owner a question")
  kind_apply agent revision o OutcomeKind.fail = pure tt
  kind_apply agent revision o OutcomeKind.no_outcome = pure tt

  kind_apply-same :
      (agent : Agent) (revision : Option Revision) (o : Outcome) (k : OutcomeKind)
      → o.kind ≡ k
      → apply_plan check error_str agent revision o ≡ kind_apply agent revision o k
  unfolding apply_plan kind_apply propose
  kind_apply-same agent revision o OutcomeKind.done e = rw e refl
  kind_apply-same agent revision o OutcomeKind.ask e = rw e refl
  kind_apply-same agent revision o OutcomeKind.yielded e = rw e refl
  kind_apply-same agent revision o OutcomeKind.fail e = rw e refl
  kind_apply-same agent revision o OutcomeKind.no_outcome e = rw e refl

  kind_apply-err :
      (agent : Agent) (revision : Option Revision) (o : Outcome) (k : OutcomeKind) (w w' : World)
      (x : Error)
      → kind_apply agent revision o k w ≡ (err x, w')
      → w'.db ≡ w.db
  unfolding kind_apply
  kind_apply-err agent revision o OutcomeKind.done w w' x e =
      propose-err agent revision o (planner_specs check agent.project_id o) w w' x e
  kind_apply-err agent revision o OutcomeKind.ask w w' x e = ask_owner-err check agent o w w' x e
  kind_apply-err agent revision o OutcomeKind.yielded w w' x e = ap (λ r. r.1.db) (sym e)
  kind_apply-err agent revision o OutcomeKind.fail w w' x e = absurd (ground arith)
  kind_apply-err agent revision o OutcomeKind.no_outcome w w' x e = absurd (ground arith)

  -- What `except (ValueError, TypeError)` leaves of an attempt.
  settled :
      (r : Result (Unit {0}) × World) (o o' : Outcome) (w v : World)
      → settle_plan check error_str (λ _. r) o w ≡ (ok o', v)
      → ((r.0 ≡ ok tt) × (r.1 ≡ v) × (o ≡ o'))
        ⊎ ((x : Error) × (r ≡ (err x, v)) × (protocol_failure check error_str x ≡ o'))
  settled (ok u, u') o o' w v e = inl (refl, ap (λ r. r.1) e, ground (arith, e))
  settled (err x, u') o o' w v e = elim (Bool-cases (is_protocol_error x)) [
    | inl caught ↦ inr (x, ground (arith, caught, e), ground (arith, caught, e))
    | inr passed ↦ absurd (ground (arith, passed, e))
  ]

  -- The proposal that a plan of this outcome adds.
  abbrev pub Proposes : Agent → Outcome → Db → Table Proposal → Type 0
  Proposes agent o db proposals =
      (specs : List Json) × (planner_specs check agent.project_id o ≡ ok specs)
      × AddsProposal check agent.project_id agent.id o.summary specs db proposals

  propose-ok :
      (agent : Agent) (revision : Option Revision) (o : Outcome) (r : Result (List Json))
      (w w' : World)
      → (lift r >>= λ specs. propose agent revision o specs) w ≡ (ok tt, w')
      → (specs : List Json) × (r ≡ ok specs)
        × AddsProposal check agent.project_id agent.id o.summary specs w.db w'.db.proposals
  unfolding propose
  propose-ok agent revision o (err x) w w' e = absurd (ground arith)
  propose-ok agent revision o (ok specs) w w' e =
      let m = add_proposal check agent.project_id agent.id o.summary specs (original_of revision) in
      let (n, added, rest) = >>=-eq-ok m (λ _. pure tt) w tt w' e in
      (
        specs,
        refl,
        subst (AddsProposal check agent.project_id agent.id o.summary specs w.db)
            (ap (λ r. r.1.db.proposals) rest)
            (add_proposal-ok check agent.project_id agent.id o.summary specs (original_of revision)
              w (m w).1 n (ap (λ r. (r, (m w).1)) added)),
      )

  -- An outcome that is no plan and no question asks for nothing.
  kind_apply-idle :
      (agent : Agent) (revision : Option Revision) (o : Outcome) (k : OutcomeKind) (w : World)
      → planner_acknowledges k ≡ false
      → (kind_apply agent revision o k w).1 ≡ w
  unfolding kind_apply
  kind_apply-idle agent revision o OutcomeKind.done w h = absurd (ground arith)
  kind_apply-idle agent revision o OutcomeKind.ask w h = absurd (ground arith)
  kind_apply-idle agent revision o OutcomeKind.yielded w h = refl
  kind_apply-idle agent revision o OutcomeKind.fail w h = refl
  kind_apply-idle agent revision o OutcomeKind.no_outcome w h = refl

  -- What a plan that was applied, or refused, has recorded.
  pub applied_idle :
      (agent : Agent) (revision : Option Revision) (o o' : Outcome) (w v : World)
      → applied_plan check error_str agent revision none o w ≡ (ok o', v)
      → planner_acknowledges o'.kind ≡ false
      → v.db ≡ w.db
  unfolding applied_plan
  applied_idle agent revision o o' w v e h =
      let k = o.kind in
      let r = kind_apply agent revision o k w in
      let e' : settle_plan check error_str (λ _. r) o w ≡ (ok o', v) =
        subst (λ m. settle_plan check error_str m o w ≡ (ok o', v))
          (kind_apply-same agent revision o k refl) e in
      elim (settled r o o' w v e') [
        | inl (returned, at, same) ↦
            let idle : planner_acknowledges k ≡ false = rw same h in
            ap (λ u. u.db) (sym at) ∙ ap (λ u. u.db) (kind_apply-idle agent revision o k w idle)
        | inr (x, raised, same) ↦ kind_apply-err agent revision o k w v x raised
      ]

  pub applied_plan-Proposes :
      (agent : Agent) (revision : Option Revision) (o o' : Outcome) (w v : World)
      → applied_plan check error_str agent revision none o w ≡ (ok o', v)
      → o'.kind ≡ OutcomeKind.done
      → Proposes agent o' w.db v.db.proposals
  unfolding applied_plan kind_apply
  applied_plan-Proposes agent revision o o' w v e h =
      let k = o.kind in
      let r = kind_apply agent revision o k w in
      let e' : settle_plan check error_str (λ _. r) o w ≡ (ok o', v) =
        subst (λ m. settle_plan check error_str m o w ≡ (ok o', v))
          (kind_apply-same agent revision o k refl) e in
      elim (settled r o o' w v e') [
        | inl (returned, at, same) ↦
            let is_done : k ≡ OutcomeKind.done = rw same h in
            let chain : kind_apply agent revision o OutcomeKind.done w ≡ (ok tt, v) =
              subst (λ j. kind_apply agent revision o j w ≡ (ok tt, v)) is_done
                (ap (λ x. (x, r.1)) returned ∙ ap (λ u. (ok tt, u)) at) in
            subst (λ q. Proposes agent q w.db v.db.proposals) same
              (propose-ok agent revision o (planner_specs check agent.project_id o) w v chain)
        | inr (x, raised, same) ↦ absurd (ground (arith, same, h))
      ]
