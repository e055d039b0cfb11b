-- ===== src/Session/Inbox.antt =====
-- nc/turn.py: the inbox over one call of `run_turn`.
use neocortex.State.Rows.{set_turns, update_messages}
use neocortex.State.Query.{message_is}
use neocortex.State.Mail.{inbox, mark_delivered}
use neocortex.State.Runs.{end_run, start_run}
use neocortex.State.Exec.{Result, err, ◌>>◌, >>=-eq-ok, Exec, modify, pure, when, World, ok}
use neocortex.Protocol.{Outcome}
use neocortex.Prelude.{
  ◌+◌, Bool, String, [], ap, arith, if◌then◌else◌, map, none, some, sym, true, ◌&&◌, ◌∙◌, ◌∷◌,
  Bool-cases, List, Option, false, inl, inr, refl, ℕ, ◌≡◌,
}
use neocortex.Session.{
  memo_or, finished, SessionEnd, after_session, host_failure, no_outcome_for, raised, read,
  run_turn, unreadable, write_defer, Assessment, acknowledges, finish_turn, host_failed,
  is_temporary,
}
use neocortex.State.Tables.{Role, Agent}

finish_turn-messages :
    (agent : Agent) (rid : ℕ) (ids : List ℕ) (tokens : Option ℕ) (outcome : Outcome) (w : World)
    → acknowledges outcome.kind ≡ false
    → (finish_turn agent rid ids tokens outcome w).1.db.messages ≡ w.db.messages
unfolding finish_turn
finish_turn-messages agent rid ids tokens outcome w h = rw h refl

pub mark_delivered-returns : (ids : List ℕ) (w : World) → (mark_delivered ids w).0 ≡ ok tt
unfolding mark_delivered
mark_delivered-returns [] w = refl
mark_delivered-returns (i ∷ ids) w =
    mark_delivered-returns ids
      (modify (update_messages (message_is i) (λ m. record m { delivered = true })) w).1

pub delivered_returns :
    (b : Bool) (ids : List ℕ) (w : World) → (when b (mark_delivered ids) w).0 ≡ ok tt
delivered_returns true ids w = mark_delivered-returns ids w
delivered_returns false ids w = refl

then_rest_of :
    (r : Result (Unit {0}) × World) (k : Exec Outcome) (w : World)
    → r.0 ≡ ok tt
    → ((λ _. r) >> k) w ≡ k r.1
then_rest_of (ok u, v) k w h = refl
then_rest_of (err e, v) k w h = cc

pub then_rest :
    (m : Exec (Unit {0})) (k : Exec Outcome) (w : World) → (m w).0 ≡ ok tt → (m >> k) w ≡ k (m w).1
then_rest m k w h = then_rest_of (m w) k w h

pub finish_turn-returns :
    (agent : Agent) (rid : ℕ) (ids : List ℕ) (tokens : Option ℕ) (outcome : Outcome) (w : World)
    → (finish_turn agent rid ids tokens outcome w).0 ≡ ok outcome
unfolding finish_turn
finish_turn-returns agent rid ids tokens outcome w =
    let v = (end_run rid outcome.kind outcome.summary tokens w).1 in
    let rest =
      set_turns agent.id (agent.turns + (if outcome.host_deferred then 0 else 1))
        (memo_or outcome.memo agent.memo)
      >> pure outcome in
    ap (λ r. r.0)
      (then_rest (when (acknowledges outcome.kind) (mark_delivered ids)) rest v
        (delivered_returns (acknowledges outcome.kind) ids v))

finish_turn-kept :
    (agent : Agent) (rid : ℕ) (ids : List ℕ) (tokens : Option ℕ) (outcome : Outcome) (w : World)
    (o : Outcome)
    → acknowledges o.kind ≡ false
    → (finish_turn agent rid ids tokens outcome w).0 ≡ ok o
    → (finish_turn agent rid ids tokens outcome w).1.db.messages ≡ w.db.messages
finish_turn-kept agent rid ids tokens outcome w o h e =
    let returns = finish_turn-returns agent rid ids tokens outcome w in
    let same : outcome ≡ o = cc in finish_turn-messages agent rid ids tokens outcome w (rw same h)

after_defer :
    (until : Option ℕ) (rid : ℕ) (m : Exec Outcome) (w : World) (o : Outcome)
    → ((v : World)
        → v.db.messages ≡ w.db.messages
        → (m v).0 ≡ ok o
        → (m v).1.db.messages ≡ w.db.messages)
    → ((write_defer rid until >> m) w).0 ≡ ok o
    → ((write_defer rid until >> m) w).1.db.messages ≡ w.db.messages
after_defer none rid m w o k e = k w refl e
after_defer (some t) rid m w o k e = k (write_defer rid (some t) w).1 refl e

host_failed-messages :
    (agent : Agent) (rid : ℕ) (tokens : Option ℕ) (a : Assessment) (outcome : Outcome) (w : World)
    → (host_failed agent rid tokens a outcome w).1.db.messages ≡ w.db.messages
unfolding host_failed
host_failed-messages agent rid tokens a outcome w = elim (Bool-cases (is_temporary a.category)) [
  | inl wait ↦ rw wait refl
  | inr stop ↦ rw stop refl
]

either :
    (b : Bool) (m n : Exec Outcome) (w : World) (o : Outcome)
    → ((m w).0 ≡ ok o → (m w).1.db.messages ≡ w.db.messages)
    → ((n w).0 ≡ ok o → (n w).1.db.messages ≡ w.db.messages)
    → ((if b then m else n) w).0 ≡ ok o
    → ((if b then m else n) w).1.db.messages ≡ w.db.messages
either true m n w o k l e = k e
either false m n w o k l e = l e

after_session-kept :
    (agent : Agent) (rid : ℕ) (ids : List ℕ) (s : SessionEnd) (w : World) (o : Outcome)
    → acknowledges o.kind ≡ false
    → (after_session agent rid ids s w).0 ≡ ok o
    → (after_session agent rid ids s w).1.db.messages ≡ w.db.messages
unfolding after_session
after_session-kept agent rid ids (finished tokens a (read out)) w o h e =
    let m = host_failed agent rid tokens a out in
    let n = finish_turn agent rid ids tokens out in
    after_defer a.reset_at rid (if a.failed then m else n) w o
      (λ v same r.
        either a.failed m n v o (λ f. host_failed-messages agent rid tokens a out v)
          (λ f. finish_turn-kept agent rid ids tokens out v o h f) r
        ∙ same)
      e
after_session-kept agent rid ids (finished tokens a (unreadable text)) w o h e =
    let out = no_outcome_for agent.role text in
    let m = end_run rid out.kind out.summary tokens >> pure (host_failure agent.role a) in
    let n = finish_turn agent rid ids tokens out in
    after_defer a.reset_at rid (if a.failed && is_temporary a.category then m else n) w o
      (λ v same r.
        either (a.failed && is_temporary a.category) m n v o (λ f. refl)
          (λ f. finish_turn-kept agent rid ids tokens out v o h f) r
        ∙ same)
      e
after_session-kept agent rid ids (raised (some a) text) w o h e =
    after_defer a.reset_at rid (finish_turn agent rid ids none (host_failure agent.role a)) w o
      (λ v same r. finish_turn-kept agent rid ids none (host_failure agent.role a) v o h r ∙ same) e
after_session-kept agent rid ids (raised none text) w o h e =
    finish_turn-kept agent rid ids none (no_outcome_for agent.role text) w o h e

-- Starting a run writes no message.
start_run-messages :
    (aid : String) (tid : Option String) (role : Role) (model log : String) (w w' : World) (n : ℕ)
    → start_run aid tid role model log w ≡ (ok n, w')
    → w'.db.messages ≡ w.db.messages
unfolding start_run
start_run-messages aid tid role model log w w' n e = ground arith

-- When `run_turn` returns an outcome that acknowledges nothing (a failure of the agent or the host, or
-- no outcome), the message table is as before the turn: what was in the inbox stays undelivered.
pub unacknowledged_inbox_kept :
    (agent : Agent) (log_path : String) (session : SessionEnd) (w w' : World) (o : Outcome)
    → run_turn agent log_path session w ≡ (ok o, w')
    → acknowledges o.kind ≡ false
    → w'.db.messages ≡ w.db.messages
unfolding run_turn
unacknowledged_inbox_kept agent log_path session w w' o e h =
    let ids = map (λ m. m.id) (inbox agent.id true w.db) in
    let (rid, started, ended) =
      >>=-eq-ok (start_run agent.id agent.task_id agent.role agent.model log_path)
        (λ rid. after_session agent rid ids session) w o w' e in
    let v = (start_run agent.id agent.task_id agent.role agent.model log_path w).1 in
    let kept = after_session-kept agent rid ids session v o h (ap (λ r. r.0) ended) in
    sym (ap (λ r. r.1.db.messages) ended)
    ∙ kept
    ∙ start_run-messages agent.id agent.task_id agent.role agent.model log_path w v rid
        (ap (λ r. (r, v)) started)
