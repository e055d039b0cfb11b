-- ===== src/State/Approve/Atomic.antt =====
-- nc/state.py: what a refused `approve_proposal` leaves behind.
use neocortex.State.Rows.{update_proposal}
use neocortex.State.Proposals.{pending_proposal, proposal_findings}
use neocortex.State.Approve.{approve_proposal, check_and_decide, create_tasks, decide, decide_on}
use neocortex.Json.{Json}
use neocortex.State.Tables.{Db, Proposal}
use neocortex.Prelude.{
  ◌≢◌, Bool, List, Option, String, ap, arith, false, if◌then◌else◌, inl, inr, none, null, refl,
  some, sym, true, ℕ, ◌||◌, ◌≡◌, ◌⊎◌,
}
use mathlib.Core.Path.{subst}
use neocortex.State.Exec.{
  Exec, Error, Result, World, err, has_findings, ok, or_raise, pure, transaction, ◌>>=◌, >>=-eq-ok,
}

created-never_none :
    (r : Result (List String) × World) (v w' : World)
    → ((λ _. r) >>= λ ids. pure (some ids)) v ≢ (ok none, w')
created-never_none (ok ids, u) v w' = λ e. cc
created-never_none (err x, u) v w' = λ e. cc

-- A branch that creates tasks does not refuse; the other writes nothing.
chosen :
    (b : Bool) (m : Exec (List String)) (v w' : World)
    → (if b then (m >>= λ ids. pure (some ids)) else pure none) v ≡ (ok none, w')
    → w' ≡ v
chosen true m v w' e = absurd (created-never_none (m v) v w' e)
chosen false m v w' e = sym (ap (λ s. s.1) e)

-- The findings that a refusal wrote, and nothing else.
abbrev pub WroteFindings : ℕ → Db → Db → Type 0
WroteFindings pid before after =
    (findings : List String) × (after
      ≡ update_proposal pid (λ q. record q { findings = findings }) before)

module _ (check : List Json → List String → Option (List String)) (pid : ℕ) (force : Bool) where
  decide_on-none :
      (p : Proposal) (findings : List String) (w w' : World)
      → decide_on check pid force p findings w ≡ (ok none, w')
      → WroteFindings pid w.db w'.db
  unfolding decide_on
  decide_on-none p findings w w' e =
      let v = record w { db = update_proposal pid (λ q. record q { findings = findings }) w.db } in
      (findings, ap (λ u. u.db) (chosen (null findings || force) (create_tasks pid force p) v w' e))

  check_and_decide-none :
      (p : Proposal) (w w' : World)
      → check_and_decide check pid force p w ≡ (ok none, w')
      → WroteFindings pid w.db w'.db
  unfolding check_and_decide proposal_findings
  check_and_decide-none p w w' e =
      let (findings, checked, rest) =
        >>=-eq-ok (proposal_findings check p.spec) (λ fs. decide_on check pid force p fs) w none w'
          e in
      decide_on-none p findings w w' rest

  -- Reading the proposal writes nothing.
  pending_proposal-world : (w : World) → (pending_proposal pid w).1 ≡ w
  unfolding pending_proposal
  pending_proposal-world w = ground arith

  decide-none :
      (w w' : World) → decide check pid force w ≡ (ok none, w') → WroteFindings pid w.db w'.db
  unfolding decide
  decide-none w w' e =
      let (p, found, rest) =
        >>=-eq-ok (pending_proposal pid) (λ p. check_and_decide check pid force p) w none w' e in
      subst (λ v. WroteFindings pid v.db w'.db) (pending_proposal-world w)
        (check_and_decide-none p (pending_proposal pid w).1 w' rest)

-- A computation's result, and the refusal after its transaction.
refused :
    (r : Result (Option (List String)) × World) (w : World) (e : Error)
    → ((transaction (λ _. r) >>= λ ids. or_raise ids has_findings) w).0 ≡ err e
    → (((transaction (λ _. r) >>= λ ids. or_raise ids has_findings) w).1.db ≡ w.db)
      ⊎ ((e ≡ has_findings)
          × (r ≡ (ok none, ((transaction (λ _. r) >>= λ ids. or_raise ids has_findings) w).1)))
refused (err x, v) w e h = inl refl
refused (ok none, v) w e h = inr (cc, refl)
refused (ok (some ids), v) w e h = cc

-- When `approve_proposal` raises, either the database is as before the call (no task, no id of the
-- sequence and no status is written), or the error is that the proposal has findings and the only
-- difference is that the findings of the proposal were refreshed.
pub failed_approval_atomic :
    (check : List Json → List String → Option (List String)) (pid : ℕ) (force : Bool) (w : World)
    (e : Error)
    → (approve_proposal check pid force w).0 ≡ err e
    → let after = (approve_proposal check pid force w).1.db in
      (after ≡ w.db) ⊎ ((e ≡ has_findings) × WroteFindings pid w.db after)
unfolding approve_proposal
failed_approval_atomic check pid force w e h = elim (refused (decide check pid force w) w e h) [
  | inl same ↦ inl same
  | inr (found, r) ↦
      inr (found, decide-none check pid force w (approve_proposal check pid force w).1 r)
]
