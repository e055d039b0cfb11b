-- ===== src/Session/PlanCritic/Ends.antt =====
-- nc/turn.py: how `run_plan_critic_turn` ends once its run has started.
use mathlib.Core.Path.{subst}
use neocortex.Session.Planner.{reset_of}
use neocortex.Session.{
  raised, unreadable, finished, SessionEnd, failure_of, is_temporary, read, unavailable,
  write_defer,
}
use neocortex.Config.{Config, model_for}
use neocortex.State.Runs.{start_run, end_run}
use neocortex.State.Reviews.{
  claim_plan_review, critic_id, complete_plan_review, is_current, running_review,
}
use neocortex.State.Exec.{
  ◌>>=◌, ◌>>◌, World, ok, err, >>=-ok, modify, now, raise, ◌>>=◌, ◌>>◌, World, ok, err, Error, Exec,
  err, lift, World, ok, Result, World, ok,
}
use neocortex.Json.{Json}
use neocortex.State.Tables.{Proposal, Role, Db, PlanReview, ReviewStatus}
use neocortex.Session.PlanCritic.{
  add_attempt, advice, after_review, claim_result, claimed_turn, host_gave_up, record_advice,
  review_failure, run_plan_critic_turn, settle_review, take_advice, Outcome, Claim, close_critic,
  finish_critic, give_up, released,
}
use neocortex.Prelude.{
  sym, ◌∙◌, Option, if◌then◌else◌, none, some, suc, text_append, ◌&&◌, Bool, Bool-cases, List,
  String, [], any, arith, false, inl, inr, not, refl, true, update, ℕ, ◌==◌, ◌∷◌, ◌≡◌,
}

-- No row of the review is running.
abbrev pub is_idle_review : ℕ → Db → Bool
is_idle_review review db = not (any (running_review review) db.plan_reviews.rows)

-- The call returned, and the review is not running.
abbrev pub IsEnded : ℕ → Result Outcome × World → Type 0
IsEnded review r = (o : Outcome) × (r.0 ≡ ok o) × (is_idle_review review r.1.db ≡ true)

set_review_idle :
    (review : ℕ) (deferred : Bool) (text : String) (rows : List PlanReview)
    → any (running_review review) (
        update
          (λ r. r.id == review)
          (λ r. record r { status = released deferred; recommendation = text })
          rows)
      ≡ false
unfolding any update
set_review_idle review deferred text [] = refl
set_review_idle review true text (r ∷ rows) = ground (arith, set_review_idle review true text rows)
set_review_idle review false text (r ∷ rows) =
    ground (arith, set_review_idle review false text rows)

-- Rewriting the running rows to a status that is not running.
stopped_idle :
    (review : ℕ) (f : PlanReview → PlanReview) (rows : List PlanReview)
    → ((r : PlanReview) → running_review review (f r) ≡ false)
    → any (running_review review) (update (running_review review) f rows) ≡ false
unfolding any update
stopped_idle review f [] stop = refl
stopped_idle review f (r ∷ rows) stop = ground (arith, stop r, stopped_idle review f rows stop)

give_up-IsEnded :
    (c : Claim) (deferred : Bool) (text : String) (o result : Outcome) (w : World)
    → IsEnded c.review (give_up c deferred text o result w)
unfolding give_up finish_critic end_run close_critic
give_up-IsEnded c deferred text o result w =
    (result, refl, rw (set_review_idle c.review deferred text w.db.plan_reviews.rows) refl)

-- The review after a completion, kept or not.
complete_idle :
    (rid pid : ℕ) (spec : List Json) (run : ℕ) (findings : List String) (text : String) (w : World)
    → (b : Bool) × ((complete_plan_review rid pid spec run findings text w).0 ≡ ok b)
      × (is_idle_review rid (complete_plan_review rid pid spec run findings text w).1.db ≡ true)
unfolding complete_plan_review
complete_idle rid pid spec run findings text w =
    let done_rows =
      stopped_idle rid
        (λ r. record r { status = ReviewStatus.done; findings = findings; recommendation = text })
        w.db.plan_reviews.rows (λ r. ground arith) in
    let failed_rows =
      stopped_idle rid
        (λ r. record r {
          status = ReviewStatus.failed;
          recommendation = "proposal changed while review was running";
        })
        w.db.plan_reviews.rows (λ r. ground arith) in
    elim (Bool-cases (is_current pid spec w.db)) [
      | inr stale ↦ (false, ground (arith, stale), ground (arith, stale, failed_rows))
      | inl current ↦ elim (Bool-cases (any (running_review rid) w.db.plan_reviews.rows)) [
        | inl runs ↦ (true, ground (arith, current, runs), ground (arith, current, runs, done_rows))
        | inr rests ↦
            (false, ground (arith, current, rests), ground (arith, current, rests, done_rows))
      ]
    ]

module _ (error_str : Error → String) where
  -- The end of a turn whose advice was recorded or refused.
  settled_by :
      (c : Claim) (r : Result Outcome × World)
      → is_idle_review c.review r.1.db ≡ true
      → (w : World) → IsEnded c.review (settle_review error_str c (λ _. r) w)
  unfolding finish_critic end_run close_critic
  settled_by c (ok o, v) h w = (o, refl, h)
  settled_by c (err e, v) h w =
      give_up-IsEnded c false (review_failure error_str e).summary (review_failure error_str e)
        (review_failure error_str e) v

  settled_raised :
      (c : Claim) (e : Error) (w : World) → IsEnded c.review (settle_review error_str c (raise e) w)
  settled_raised c e w =
      give_up-IsEnded c false (review_failure error_str e).summary (review_failure error_str e)
        (review_failure error_str e) w

  record_advice_idle :
      (c : Claim) (p : Proposal) (o : Outcome) (a : String × List String) (w : World)
      → is_idle_review c.review (record_advice c p o a w).1.db ≡ true
  unfolding record_advice
  record_advice_idle c p o a w =
      let (b, e, idle) = complete_idle c.review p.id p.spec c.run a.1 a.0 w in
      ground (arith, e, idle)

  take_advice-IsEnded :
      (c : Claim) (p : Proposal) (o : Outcome) (r : Result (String × List String)) (w : World)
      → IsEnded c.review (settle_review error_str c (lift r >>= λ a. record_advice c p o a) w)
  take_advice-IsEnded c p o (ok a) w =
      settled_by c (record_advice c p o a w) (record_advice_idle c p o a w) w
  take_advice-IsEnded c p o (err e) w = settled_raised c e w

  IsEnded-if :
      (review : ℕ) (b : Bool) (m n : Exec Outcome) (w : World)
      → IsEnded review (m w)
      → IsEnded review (n w)
      → IsEnded review ((if b then m else n) w)
  IsEnded-if review true m n w h k = h
  IsEnded-if review false m n w h k = k

  after_review-IsEnded :
      (review run : ℕ) (p : Proposal) (s : SessionEnd) (w : World)
      → IsEnded review (after_review error_str review run p s w)
  unfolding after_review host_gave_up take_advice
  after_review-IsEnded review run p (finished tokens a (read o)) w =
      let c : Claim = record { review = review; run = run; tokens = tokens } in
      IsEnded-if review a.failed (host_gave_up error_str c a o) (take_advice error_str c p o) w
        (give_up-IsEnded c (is_temporary a.category)
          (text_append "host session failed: " a.category) o (failure_of "Plan review" a) w)
        (take_advice-IsEnded c p o (advice o) w)
  after_review-IsEnded review run p (finished tokens a (unreadable text)) w =
      let c : Claim = record { review = review; run = run; tokens = tokens } in
      let o = unavailable "Plan review" text in
      let failure = failure_of "Plan review" a in
      IsEnded-if review (a.failed && is_temporary a.category)
        (give_up c true failure.summary o failure) (give_up c false o.summary o o) w
        (give_up-IsEnded c true failure.summary o failure w)
        (give_up-IsEnded c false o.summary o o w)
  after_review-IsEnded review run p (raised (some a) text) w =
      let o = failure_of "Plan review" a in
      give_up-IsEnded (record { review = review; run = run; tokens = none }) true o.summary o o w
  after_review-IsEnded review run p (raised none text) w =
      let o = unavailable "Plan review" text in
      give_up-IsEnded (record { review = review; run = run; tokens = none }) false o.summary o o w

  deferred-IsEnded :
      (review run : ℕ) (p : Proposal) (s : SessionEnd) (until : Option ℕ) (w : World)
      → IsEnded review ((write_defer run until >> after_review error_str review run p s) w)
  deferred-IsEnded review run p s none w = after_review-IsEnded review run p s w
  deferred-IsEnded review run p s (some t) w =
      after_review-IsEnded review run p s (write_defer run (some t) w).1

  -- A plan critic's turn that has claimed a review and started its run returns, whatever the session
  -- and the outcome file give, and then the review is not running: it is done, failed, or open to a
  -- retry.
  pub claimed_review_ends :
      (cfg : Config) (p : Proposal) (log model : String) (s : SessionEnd) (review run : ℕ)
      (w v u : World)
      → model_for cfg Role.plan_critic ≡ some model
      → claim_plan_review p.id p.spec p.project_id model w ≡ (ok (some review), v)
      → start_run (critic_id review) none Role.plan_critic model log v ≡ (ok run, u)
      → IsEnded review (run_plan_critic_turn error_str cfg p log s w)
  unfolding run_plan_critic_turn claim_result claimed_turn
  claimed_review_ends cfg p log model s review run w v u named claimed started =
      let rest = λ (r : ℕ). write_defer r (reset_of s) >> after_review error_str review r p s in
      let begun =
        >>=-ok (start_run (critic_id review) none Role.plan_critic model log)
          (λ r. now >>= λ at. modify (add_attempt review r at) >> rest r) v u run started in
      let taken =
        >>=-ok (claim_plan_review p.id p.spec p.project_id model)
          (λ claim. claim_result error_str model log p s claim) w v (some review) claimed in
      rw named (
        subst (IsEnded review) (sym (taken ∙ begun)) (
          deferred-IsEnded review run p s (reset_of s)
            (record u { db = add_attempt review run (u.clock u.reads) u.db; reads = suc u.reads })))
