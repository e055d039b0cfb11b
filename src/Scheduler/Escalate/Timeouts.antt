-- ===== src/Scheduler/Escalate/Timeouts.antt =====
-- nc/scheduler.py: the incidents that `_escalate_unanswered_questions` inserts.
use neocortex.State.Rows.{insert_incident}
use neocortex.Scheduler.Escalate.{
  escalate_each, escalate_unanswered_questions, is_overdue, escalate_one, reported, still_overdue,
  timeout_detail, timeout_incident,
}
use neocortex.State.Exec.{◌>>◌, Exec, Result, err, ok, World}
use neocortex.Config.{Config}
use neocortex.Prelude.{
  true, Bool, Bool-cases, List, String, [], any, arith, eq_iff, false, if◌then◌else◌, inl, inr,
  keep, length, refl, str_eq, suc, ℕ, ◌&&◌, ◌++◌, ◌+◌, ◌∷◌, ◌≡◌, ◌≤◌,
}
use neocortex.State.Tables.{Agent, Db, Incident}

abbrev pub is_timeout : String → Incident → Bool
is_timeout detail i = str_eq i.kind "ask_timeout" && str_eq i.detail detail

-- How many timeouts with this text are recorded.
abbrev pub timeouts : String → Db → ℕ
timeouts detail db = length (keep (is_timeout detail) db.incidents.rows)

kept_append :
    {A : Type 0} (p : A → Bool) (xs : List A) (y : A)
    → length (keep p (xs ++ y ∷ [])) ≡ length (keep p xs) + (if p y then 1 else 0)
unfolding keep
kept_append p [] y = ground arith
kept_append p (x ∷ xs) y = ground (arith, kept_append p xs y)

kept_zero : {A : Type 0} (p : A → Bool) (xs : List A) → any p xs ≡ false → length (keep p xs) ≡ 0
unfolding any keep
kept_zero p [] e = refl
kept_zero p (x ∷ xs) e = ground (arith, kept_zero p xs)

one_more : (n : ℕ) (b : Bool) → n ≡ 0 → n + (if b then 1 else 0) ≤ 1
one_more n true e = omega arith
one_more n false e = omega arith

none_more : (n : ℕ) (b : Bool) → n ≤ 1 → b ≡ false → n + (if b then 1 else 0) ≤ 1
none_more n true h e = cc
none_more n false h e = omega arith

-- Inserting a timeout whose text is not recorded keeps every text recorded at most once.
inserted_once :
    (detail fresh : String) (at : ℕ) (db : Db)
    → reported fresh db ≡ false
    → timeouts detail db ≤ 1
    → timeouts detail (insert_incident (timeout_incident fresh at) db) ≤ 1
inserted_once detail fresh at db e h =
    let row = timeout_incident fresh at (suc db.incidents.seq) in
    let grown = kept_append (is_timeout detail) db.incidents.rows row in
    elim (Bool-cases (str_eq fresh detail)) [
      | inl same ↦
          let text : fresh ≡ detail = ground (arith, eq_iff fresh detail) in
          let none_yet : timeouts detail db ≡ 0 =
            kept_zero (is_timeout detail) db.incidents.rows (rw⁻¹ text e) in
          rw grown (one_more (timeouts detail db) (is_timeout detail row) none_yet)
      | inr other ↦
          rw grown (none_more (timeouts detail db) (is_timeout detail row) h (rw other refl))
    ]

escalate_one-once :
    (detail : String) (cfg : Config) (a : Agent) (w : World)
    → timeouts detail w.db ≤ 1
    → timeouts detail (escalate_one cfg a w).1.db ≤ 1
unfolding escalate_one
escalate_one-once detail cfg a w h =
    let at = w.clock w.reads in
    let limit = w.clock (suc w.reads) in
    elim (Bool-cases (still_overdue cfg limit a w.db)) [
      | inl due ↦ elim (Bool-cases (reported (timeout_detail a) w.db)) [
        | inl known ↦ rw (due, known) h
        | inr fresh ↦ rw (due, fresh) (inserted_once detail (timeout_detail a) at w.db fresh h)
      ]
      | inr early ↦ rw early h
    ]

both :
    (detail : String) (r : Result (Unit {0}) × World) (k : Exec (Unit {0})) (w : World)
    → timeouts detail r.1.db ≤ 1
    → timeouts detail (k r.1).1.db ≤ 1
    → timeouts detail (((λ _. r) >> k) w).1.db ≤ 1
both detail (ok u, v) k w h l = l
both detail (err e, v) k w h l = h

escalate_each-once :
    (detail : String) (cfg : Config) (agents : List Agent) (w : World)
    → timeouts detail w.db ≤ 1
    → timeouts detail (escalate_each cfg agents w).1.db ≤ 1
unfolding escalate_each
escalate_each-once detail cfg [] w h = h
escalate_each-once detail cfg (a ∷ rest) w h =
    both detail (escalate_one cfg a w) (escalate_each cfg rest) w
      (escalate_one-once detail cfg a w h)
      (escalate_each-once detail cfg rest (escalate_one cfg a w).1
        (escalate_one-once detail cfg a w h))

-- If a text is recorded at most once as a timeout, resolved or not, it still is after the escalation
-- of unanswered questions.
pub escalation_once :
    (detail : String) (cfg : Config) (w : World)
    → timeouts detail w.db ≤ 1
    → timeouts detail (escalate_unanswered_questions cfg w).1.db ≤ 1
unfolding escalate_unanswered_questions
escalation_once detail cfg w h =
    let at = w.clock w.reads in
    escalate_each-once detail cfg (keep (λ a. is_overdue cfg at a w.db) w.db.agents)
      (record w { reads = suc w.reads }) h
