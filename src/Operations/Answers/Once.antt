-- ===== src/Operations/Answers/Once.antt =====
-- nc/operations.py: `answer_message` on a question that has been answered.
use neocortex.Operations.Ownership.{truthy}
use neocortex.State.Runs.{names_cancelled}
use neocortex.State.Query.{message_is}
use neocortex.Operations.Answers.{
  answer_known, answer_message, answer_row, answer_writes, answerable_question, message_by_id,
  resume_task,
}
use neocortex.State.Exec.{
  transaction-raised, ok, err, transaction, Error, World, answer_required, cancelled_task, err,
  not_answerable, ok, raise_if-passed, transaction, transaction-ok,
}
use neocortex.State.Tables.{Db, Message}
use neocortex.Prelude.{
  Bool, Bool-cases, List, Option, String, [], ap, arith, blank, false, find, find-update,
  if◌then◌else◌, inl, inr, none, refl, some, true, ℕ, ◌&&◌, ◌++◌, ◌∙◌, ◌∷◌, ◌≡◌,
}

resume_task-messages :
    (at : ℕ) (o : Option String) (db : Db) → (resume_task at o db).messages ≡ db.messages
resume_task-messages at none db = refl
resume_task-messages at (some tid) db = refl

abbrev claims : Message → Message → Bool
claims q m = message_is q.id m && (if m.delivered then false else true)

abbrev deliver : Message → Message
deliver m = record m { delivered = true }

find-append :
    {A : Type 0} (p : A → Bool) (xs ys : List A) (x : A)
    → find p xs ≡ some x
    → find p (xs ++ ys) ≡ some x
unfolding find
find-append p [] ys x e = cc
find-append p (y ∷ xs) ys x e = ground (arith, find-append p xs ys x)

-- The writes mark the question.
claimed_question :
    (mid at : ℕ) (text : String) (q : Message) (db : Db)
    → message_by_id mid db ≡ some q
    → q.delivered ≡ false
    → message_by_id mid (answer_writes q text at db) ≡ some (deliver q)
unfolding answer_writes
claimed_question mid at text q db e h = rw (resume_task-messages at (truthy q.task_id) _) (
    find-append (message_is mid) _ _ (deliver q) (
      find-update (message_is mid) (claims q) deliver db.messages.rows q (λ y. refl) e
      ∙ ground (arith, h)))

answerable_undelivered :
    (q : Message) (db : Db) → answerable_question q db ≡ true → q.delivered ≡ false
unfolding answerable_question
answerable_undelivered q db h = ground arith

not_answerable_again : (q : Message) (db : Db) → answerable_question (deliver q) db ≡ false
unfolding answerable_question
not_answerable_again q db = ground arith

-- A call that returned found a question that could be answered.
answer_row_cases :
    (text aid : String) (o : Option Message) (w w' : World)
    → answer_row text o w ≡ (ok aid, w')
    → (q : Message) × (o ≡ some q)
      × (answerable_question q w.db ≡ true)
      × (w'.db ≡ answer_writes q text (w.clock w.reads) w.db)
unfolding answer_row
answer_row_cases text aid none w w' e = cc
answer_row_cases text aid (some q) w w' e = (q, refl, ground arith, ground arith)

answered_row :
    (text : String) (q : Message) (w : World)
    → (x : Error) × (answer_row text (some (deliver q)) w ≡ (err x, w))
unfolding answer_row
answered_row text q w = elim (Bool-cases (names_cancelled q.task_id q.sender w.db)) [
  | inl h ↦ (cancelled_task, rw h refl)
  | inr h ↦ (not_answerable, rw (h, not_answerable_again q w.db) refl)
]

answer_message_cases :
    (mid : ℕ) (text aid : String) (w w' : World)
    → answer_message mid text w ≡ (ok aid, w')
    → answer_row text (message_by_id mid w.db) w ≡ (ok aid, w')
unfolding answer_message answer_known
answer_message_cases mid text aid w w' e =
    let (there, h) =
      raise_if-passed (blank text) answer_required (transaction (answer_known mid text)) w w' aid
        e in
    transaction-ok (answer_known mid text) w w' aid h

refused_answer :
    (mid : ℕ) (text : String) (w : World) (x : Error)
    → answer_row text (message_by_id mid w.db) w ≡ (err x, w)
    → (y : Error) × (answer_message mid text w ≡ (err y, w))
unfolding answer_message answer_known
refused_answer mid text w x h = elim (Bool-cases (blank text)) [
  | inl e ↦ (answer_required, rw e refl)
  | inr e ↦ (x, rw e (transaction-raised (answer_known mid text) w x h))
]

-- A question is answered at most once: after a call of `answer_message` that returned, every later
-- call for the same message raises and leaves the state as it is, whatever its text.
pub answered_once :
    (mid : ℕ) (text aid again : String) (w w' : World)
    → answer_message mid text w ≡ (ok aid, w')
    → (x : Error) × (answer_message mid again w' ≡ (err x, w'))
answered_once mid text aid again w w' e =
    let (q, found, fits, after) =
      answer_row_cases text aid (message_by_id mid w.db) w w'
        (answer_message_cases mid text aid w w' e) in
    let marked : message_by_id mid w'.db ≡ some (deliver q) =
      ap (message_by_id mid) after
      ∙ claimed_question mid (w.clock w.reads) text q w.db found
          (answerable_undelivered q w.db fits) in
    let (x, h) = answered_row again q w' in refused_answer mid again w' x (rw marked h)
