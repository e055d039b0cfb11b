-- ===== src/Session/Assessed.antt =====
-- nc/turn.py and nc/adapters.py: a turn whose session is assessed by `assess_session`.
use neocortex.Protocol.{Outcome}
use neocortex.State.Mail.{inbox}
use neocortex.Session.Inbox.{finish_turn-returns, unacknowledged_inbox_kept}
use neocortex.State.Runs.{end_run, start_run}
use neocortex.Adapters.Assess.Clean.{assess_session-IsFailed, is_clean_session}
use mathlib.Core.Path.{subst}
use neocortex.State.Exec.{◌>>◌, World, pure, ok, >>=-eq-ok, Exec, Result}
use neocortex.Adapters.Assess.{Platform, SessionResult, assess_session}
use neocortex.Prelude.{
  Bool, Bool-cases, ap, if◌then◌else◌, inl, inr, map, none, not, refl, some, ◌&&◌, ◌∙◌, List,
  Option, String, false, true, ℕ, ◌≡◌,
}
use neocortex.Session.{
  finish_turn, is_temporary, no_outcome_for, run_turn, write_defer, finished, unreadable,
  Assessment, OutcomeRead, SessionEnd, acknowledges, after_session, host_failed, host_failure, read,
}
use neocortex.State.Tables.{Agent}

-- The session of an adapter that returned a result, with the outcome file as it was read.
abbrev pub returned_session : Platform → String → SessionResult → OutcomeRead → SessionEnd
returned_session host adapter r file = finished r.tokens (assess_session host adapter r) file

quiet_after :
    (rid : ℕ) (until : Option ℕ) (m : Exec Outcome) (w : World) (o : Outcome)
    → ((v : World) → (m v).0 ≡ ok o → acknowledges o.kind ≡ false)
    → ((write_defer rid until >> m) w).0 ≡ ok o
    → acknowledges o.kind ≡ false
quiet_after rid none m w o k e = k w e
quiet_after rid (some t) m w o k e = k (write_defer rid (some t) w).1 e

host_failed-returns :
    (agent : Agent) (rid : ℕ) (tokens : Option ℕ) (a : Assessment) (out : Outcome) (w : World)
    → (host_failed agent rid tokens a out w).0 ≡ ok (host_failure agent.role a)
unfolding host_failed
host_failed-returns agent rid tokens a out w = elim (Bool-cases (is_temporary a.category)) [
  | inl wait ↦ rw wait refl
  | inr final ↦ rw final refl
]

quiet_of :
    (p o : Outcome) (r : Result Outcome)
    → acknowledges p.kind ≡ false
    → r ≡ ok p
    → r ≡ ok o
    → acknowledges o.kind ≡ false
quiet_of p o r h e f = let same : p ≡ o = cc in rw (← same) h

quiet_either :
    (b : Bool) (m n : Exec Outcome) (v : World) (o : Outcome)
    → ((m v).0 ≡ ok o → acknowledges o.kind ≡ false)
    → ((n v).0 ≡ ok o → acknowledges o.kind ≡ false)
    → ((if b then m else n) v).0 ≡ ok o
    → acknowledges o.kind ≡ false
quiet_either true m n v o k l e = k e
quiet_either false m n v o k l e = l e

-- Where the host failed, no outcome acknowledges the inbox.
failed_quiet :
    (agent : Agent) (rid : ℕ) (ids : List ℕ) (tokens : Option ℕ) (a : Assessment)
    (file : OutcomeRead) (w : World) (o : Outcome)
    → a.failed ≡ true
    → (after_session agent rid ids (finished tokens a file) w).0 ≡ ok o
    → acknowledges o.kind ≡ false
unfolding after_session host_failure no_outcome_for
failed_quiet agent rid ids tokens a (read out) w o h e =
    let m = host_failed agent rid tokens a out in
    let n = finish_turn agent rid ids tokens out in
    quiet_after rid a.reset_at m w o
      (λ v f.
        quiet_of (host_failure agent.role a) o (m v).0 refl
          (host_failed-returns agent rid tokens a out v) f)
      (subst (λ b. ((write_defer rid a.reset_at >> (if b then m else n)) w).0 ≡ ok o) h e)
failed_quiet agent rid ids tokens a (unreadable text) w o h e =
    let out = no_outcome_for agent.role text in
    let m = end_run rid out.kind out.summary tokens >> pure (host_failure agent.role a) in
    let n = finish_turn agent rid ids tokens out in
    let b = a.failed && is_temporary a.category in
    quiet_after rid a.reset_at (if b then m else n) w o
      (λ v f.
        quiet_either b m n v o (λ g. quiet_of (host_failure agent.role a) o (m v).0 refl refl g)
          (λ g. quiet_of out o (n v).0 refl (finish_turn-returns agent rid ids tokens out v) g) f)
      e

-- A turn whose session is not clean acknowledges nothing: whatever outcome the agent wrote, the turn
-- returns none that is DONE, ASK or YIELD, and the message table is as it was.
pub unclean_session_inert :
    (agent : Agent) (log adapter : String) (host : Platform) (r : SessionResult)
    (file : OutcomeRead) (w w' : World) (o : Outcome)
    → run_turn agent log (returned_session host adapter r file) w ≡ (ok o, w')
    → is_clean_session host adapter r ≡ false
    → (acknowledges o.kind ≡ false) × (w'.db.messages ≡ w.db.messages)
unfolding run_turn
unclean_session_inert agent log adapter host r file w w' o e h =
    let s = returned_session host adapter r file in
    let failed : (assess_session host adapter r).failed ≡ true =
      assess_session-IsFailed host adapter r ∙ ap not h in
    let ids = map (λ m. m.id) (inbox agent.id true w.db) in
    let (rid, started, ended) =
      >>=-eq-ok (start_run agent.id agent.task_id agent.role agent.model log)
        (λ rid. after_session agent rid ids s) w o w' e in
    let v = (start_run agent.id agent.task_id agent.role agent.model log w).1 in
    let quiet =
      failed_quiet agent rid ids r.tokens (assess_session host adapter r) file v o failed
        (ap (λ x. x.0) ended) in
    (quiet, unacknowledged_inbox_kept agent log s w w' o e quiet)
