-- ===== src/State/Reviews/Claim.antt =====
-- nc/state.py: two calls of `claim_plan_review` for one text.
use neocortex.State.Query.{is_retryable}
use neocortex.State.Reviews.{
  is_current, add_review, claim_current, claim_plan_review, claim_row, claimable, review_for,
  review_of, start_retry, take_claim,
}
use neocortex.State.Exec.{Exec, pure, transaction, World, ok}
use neocortex.State.Tables.{PlanReview, ReviewStatus}
use neocortex.Json.{Json}
use neocortex.Prelude.{
  ap, find, Bool-cases, inl, inr, Bool, List, Option, String, arith, false, find-update,
  if◌then◌else◌, is_some, none, refl, some, true, ℕ, ◌&&◌, ◌==◌, ◌≡◌,
}

take_claim_cases :
    (project model : String) (inserted : Bool) (r : PlanReview) (w w' : World) (n : ℕ)
    → take_claim project model inserted r w ≡ (ok (some n), w')
    → (claimable inserted r.status ≡ true)
      × (w'.db.plan_reviews.rows ≡ (start_retry r.id w.db).plan_reviews.rows)
unfolding take_claim
take_claim_cases project model inserted r w w' n e = ground arith

claim_row_cases :
    (project model : String) (inserted : Bool) (o : Option PlanReview) (w w' : World) (n : ℕ)
    → claim_row project model inserted o w ≡ (ok (some n), w')
    → (r : PlanReview) × (o ≡ some r) × (take_claim project model inserted r w ≡ (ok (some n), w'))
unfolding claim_row
claim_row_cases project model inserted none w w' n e = cc
claim_row_cases project model inserted (some r) w w' n e = (r, refl, e)

claim_cases :
    (pid : ℕ) (spec : List Json) (project model : String) (w w' : World) (n : ℕ)
    → claim_plan_review pid spec project model w ≡ (ok (some n), w')
    → claim_current pid spec project model w ≡ (ok (some n), w')
unfolding claim_plan_review
claim_cases pid spec project model w w' n e = ground arith

-- A claimable row that is started is running.
started_from :
    (inserted : Bool) (r : PlanReview) (s : ReviewStatus)
    → r.status ≡ s
    → claimable inserted s ≡ true
    → (if r.id == r.id && is_retryable r.status
        then record r { status = ReviewStatus.running }
        else r).status
      ≡ ReviewStatus.running
started_from inserted r ReviewStatus.running e h =
    rw e (elim (Bool-cases (r.id == r.id)) [ inl same ↦ rw same refl | inr apart ↦ rw apart refl ])
started_from inserted r ReviewStatus.retryable e h = ground arith
started_from inserted r ReviewStatus.done e h = cc
started_from inserted r ReviewStatus.failed e h = cc

started :
    (inserted : Bool) (r : PlanReview)
    → claimable inserted r.status ≡ true
    → (if r.id == r.id && is_retryable r.status
        then record r { status = ReviewStatus.running }
        else r).status
      ≡ ReviewStatus.running
started inserted r h = started_from inserted r r.status refl h

take_refused :
    (project model : String) (r : PlanReview) (w : World)
    → r.status ≡ ReviewStatus.running
    → take_claim project model false r w ≡ (ok none, w)
unfolding take_claim
take_refused project model r w h = rw h refl

current_refused :
    (pid : ℕ) (spec : List Json) (project model : String) (w : World) (r : PlanReview)
    → review_for pid spec w.db ≡ some r
    → r.status ≡ ReviewStatus.running
    → claim_current pid spec project model w ≡ (ok none, w)
unfolding claim_current claim_row find
current_refused pid spec project model w r e h = rw e (rw e (take_refused project model r w h))

-- Under the guard and the transaction, what returns nothing and writes nothing still does so.
guarded :
    (b : Bool) (m : Exec (Option ℕ)) (w : World)
    → m w ≡ (ok none, w)
    → transaction (if b then m else pure none) w ≡ (ok none, w)
guarded true m w h = ap (λ r. transaction (λ _. r) w) h
guarded false m w h = refl

claimed_refused :
    (pid : ℕ) (spec : List Json) (project model : String) (w : World) (r : PlanReview)
    → review_for pid spec w.db ≡ some r
    → r.status ≡ ReviewStatus.running
    → claim_plan_review pid spec project model w ≡ (ok none, w)
unfolding claim_plan_review
claimed_refused pid spec project model w r e h =
    guarded (is_current pid spec w.db) (claim_current pid spec project model) w
      (current_refused pid spec project model w r e h)

-- After a call of `claim_plan_review` has claimed the review of a proposal's text, another call for
-- the same text, for whatever project and model, claims nothing and changes nothing.
pub claim_exclusive :
    (pid : ℕ) (spec : List Json) (project model project' model' : String) (w w' : World) (n : ℕ)
    → claim_plan_review pid spec project model w ≡ (ok (some n), w')
    → claim_plan_review pid spec project' model' w' ≡ (ok none, w')
unfolding claim_current
claim_exclusive pid spec project model project' model' w w' n e =
    let v = record w { db = add_review pid spec w.db } in
    let inserted = (if is_some (review_for pid spec w.db) then false else true) in
    let (r, found, taken) =
      claim_row_cases project model inserted (review_for pid spec v.db) v w' n
        (claim_cases pid spec project model w w' n e) in
    let (free, wrote) = take_claim_cases project model inserted r v w' n taken in
    let after : review_for pid spec w'.db
        ≡ some (
            if r.id == r.id && is_retryable r.status
            then record r { status = ReviewStatus.running }
            else r) =
      rw wrote (
        find-update (review_of pid spec) (λ q. q.id == r.id && is_retryable q.status)
          (λ q. record q { status = ReviewStatus.running }) v.db.plan_reviews.rows r (λ y. refl)
          found) in
    claimed_refused pid spec project' model' w' _ after (started inserted r free)
