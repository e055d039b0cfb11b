-- ===== src/Session/Planner/Finish.antt =====
-- nc/turn.py: the parts of `run_planner_turn` around its effects.
use neocortex.Session.Planner.Records.{recorded}
use neocortex.State.Feedback.{pending_revision}
use neocortex.State.Rows.{or_else, update_agent, update_messages}
use neocortex.State.Query.{message_is}
use neocortex.State.Mail.{mark_delivered}
use neocortex.State.Runs.{start_run, end_run}
use neocortex.Session.Inbox.{delivered_returns, then_rest}
use neocortex.Session.Planner.{
  close_planner, finish_planner, has_failed, planner_acknowledges, planner_read, planner_state,
}
use neocortex.Session.{write_defer, raised, unreadable, finished, Outcome, SessionEnd, read}
use neocortex.Prelude.{
  List, Option, String, [], ap, arith, false, is_some, none, not, refl, some, true, ℕ, ◌&&◌, ◌∷◌,
  ◌≡◌,
}
use neocortex.State.Exec.{
  ◌>>=◌, ◌>>◌, World, pure, ok, ◌>>=◌, ◌>>◌, World, pure, ok, ◌>>=◌, ◌>>◌, World, pure, ok, ◌>>=◌,
  ◌>>◌, World, pure, ok, ◌>>=◌, ◌>>◌, World, pure, ok, ◌>>=◌, ◌>>◌, World, pure, ok, ◌>>=◌, ◌>>◌,
  World, pure, ok, Exec, World, gets, modify, ok, when,
}
use neocortex.State.Tables.{Role, Agent, Db, OutcomeKind, Proposal, Table, Task}
use neocortex.State.Keeps.{>>-Keeps, Keeps, when-Keeps}

abbrev pub work_view : Db → List Task × Table Proposal
work_view db = (db.tasks, db.proposals)

pub mark_delivered-Keeps : (ids : List ℕ) → Keeps work_view (mark_delivered ids)
unfolding mark_delivered
mark_delivered-Keeps [] w = refl
mark_delivered-Keeps (i ∷ ids) w =
    mark_delivered-Keeps ids
      (modify (update_messages (message_is i) (λ m. record m { delivered = true })) w).1

pub finish_rest : Agent → ℕ → Option ℕ → Option Outcome → Outcome → Exec Outcome
unfolding pending_revision end_run
finish_rest agent rid tokens host o = do
  end_run rid o.kind o.summary tokens
  revises ← gets (λ db. is_some (pending_revision agent.id db))
  modify (update_agent agent.id (close_planner agent host o (planner_state host o.kind revises)))
  pure (or_else host o)

pub finish_rest-Keeps :
    (agent : Agent) (rid : ℕ) (tokens : Option ℕ) (host : Option Outcome) (o : Outcome)
    → Keeps work_view (finish_rest agent rid tokens host o)
unfolding finish_rest end_run
finish_rest-Keeps agent rid tokens host o w = refl

pub finish_planner-Keeps :
    (agent : Agent) (rid : ℕ) (ids : List ℕ) (tokens : Option ℕ) (host : Option Outcome)
    (o : Outcome)
    → Keeps work_view (finish_planner agent rid ids tokens host o)
unfolding finish_planner finish_rest
finish_planner-Keeps agent rid ids tokens host o =
    let b = not (has_failed host) && planner_acknowledges o.kind in
    >>-Keeps work_view (when b (mark_delivered ids)) (finish_rest agent rid tokens host o)
      (when-Keeps work_view b (mark_delivered ids) (mark_delivered-Keeps ids))
      (finish_rest-Keeps agent rid tokens host o)

-- Where nothing is acknowledged, the messages stay too.
pub finish_planner-recorded :
    (agent : Agent) (rid : ℕ) (ids : List ℕ) (tokens : Option ℕ) (host : Option Outcome)
    (o : Outcome) (w : World)
    → not (has_failed host) && planner_acknowledges o.kind ≡ false
    → recorded (finish_planner agent rid ids tokens host o w).1.db ≡ recorded w.db
unfolding finish_planner
finish_planner-recorded agent rid ids tokens host o w h = rw h refl

pub finish_planner-returns :
    (agent : Agent) (rid : ℕ) (ids : List ℕ) (tokens : Option ℕ) (host : Option Outcome)
    (o : Outcome) (w : World)
    → (finish_planner agent rid ids tokens host o w).0 ≡ ok (or_else host o)
unfolding finish_planner finish_rest
finish_planner-returns agent rid ids tokens host o w =
    let b = not (has_failed host) && planner_acknowledges o.kind in
    ap (λ r. r.0)
      (then_rest (when b (mark_delivered ids)) (finish_rest agent rid tokens host o) w
        (delivered_returns b ids w))

-- A failure of the host is no plan.
pub planner_read-failed :
    (speaker : String) (s : SessionEnd) (h : Outcome)
    → (planner_read speaker s).0 ≡ some h
    → h.kind ≡ OutcomeKind.fail
unfolding planner_read
planner_read-failed speaker (finished tokens a (read o)) h e = ground arith
planner_read-failed speaker (finished tokens a (unreadable text)) h e = ground arith
planner_read-failed speaker (raised (some a) text) h e = ground arith
planner_read-failed speaker (raised none text) h e = ground arith

pub start_run-recorded :
    (aid : String) (tid : Option String) (role : Role) (model log : String) (w : World)
    → recorded (start_run aid tid role model log w).1.db ≡ recorded w.db
unfolding start_run
start_run-recorded aid tid role model log w = ground arith

pub defer_split :
    (rid : ℕ) (until : Option ℕ) (k : Exec Outcome) (w w' : World) (o : Outcome)
    → (write_defer rid until >> k) w ≡ (ok o, w')
    → (v : World) × (recorded v.db ≡ recorded w.db) × (k v ≡ (ok o, w'))
defer_split rid none k w w' o e = (w, refl, e)
defer_split rid (some t) k w w' o e = ((write_defer rid (some t) w).1, refl, e)
