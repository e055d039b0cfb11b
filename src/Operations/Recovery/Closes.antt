-- ===== src/Operations/Recovery/Closes.antt =====
-- nc/operations.py: what `recover_runs` leaves, and when it refuses.
use neocortex.Acp.Stream.Envelope.{same}
use neocortex.Operations.Ownership.{Owner, Processes}
use mathlib.Core.Path.{subst}
use neocortex.State.Query.{is_open, run_is}
use neocortex.Operations.Recovery.{
  pure, bad_ids, ambiguous, are_missing, held, legacy, mem, recover_rows, recover_runs,
  recover_selected, selected_runs, interrupt, open_run, recover_each, recover_writes, release,
  runs_attempt,
}
use neocortex.State.Exec.{
  ◌>>◌, transaction, raise_if, Error, err, raise_if-err, transaction-err, bad_run_ids, no_run_ids,
  raise_if-passed, reason_required, transaction-ok, World, ok,
}
use neocortex.State.Tables.{Db, Run}
use neocortex.Prelude.{
  blank, null, ◌==◌, Bool-cases, if◌then◌else◌, suc, ◌&&◌, Bool, List, Option-cases, String, [],
  any, any-update-false, ap, arith, false, find, inl, inr, refl, true, update, ℕ, ◌∷◌, ◌≡◌, ◌⊎◌,
}

-- No row of the run is open.
abbrev pub IsClosed : ℕ → Db → Type 0
IsClosed n db = any (open_run n) db.runs.rows ≡ false

release-runs : (rid : ℕ) (db : Db) → (release rid db).runs ≡ db.runs
release-runs rid db = elim (Option-cases (find (runs_attempt rid) db.review_attempts.rows)) [
  | inl e ↦ rw (release, e) refl
  | inr (a, e) ↦ rw (release, e) refl
]

any-update_all :
    {A : Type 0} (p : A → Bool) (f : A → A) (xs : List A)
    → ((x : A) → p (f x) ≡ false)
    → any p (update p f xs) ≡ false
unfolding any update
any-update_all p f [] h = refl
any-update_all p f (x ∷ xs) h = ground (arith, h x, any-update_all p f xs h)

pub writes-runs :
    (at : ℕ) (reason : String) (r : Run) (db : Db)
    → (recover_writes at reason r db).runs.rows
      ≡ update (open_run r.id) (interrupt at reason) db.runs.rows
unfolding recover_writes
writes-runs at reason r db = ap (λ t. t.rows) (release-runs r.id _)

-- The writes for a run close it, and open none.
recover_writes-IsClosed :
    (at n : ℕ) (reason : String) (r : Run) (db : Db)
    → (n ≡ r.id) ⊎ IsClosed n db
    → IsClosed n (recover_writes at reason r db)
recover_writes-IsClosed at n reason r db (inl e) =
    rw (writes-runs at reason r db, e)
      (any-update_all (open_run r.id) _ db.runs.rows (λ x. ground arith))
recover_writes-IsClosed at n reason r db (inr h) = rw (writes-runs at reason r db) (
    any-update-false (open_run n) (open_run r.id) (interrupt at reason) db.runs.rows
      (λ x k. ground arith) h)

pub recover_each_cons :
    (at : ℕ) (reason : String) (r : Run) (rows : List Run) (w w' : World)
    → recover_each at reason (r ∷ rows) w ≡ (ok tt, w')
    → recover_each at reason rows (record w { db = recover_writes at reason r w.db }) ≡ (ok tt, w')
unfolding recover_each
recover_each_cons at reason r rows w w' e = ground arith

-- The run is of the row, or of a later one.
this_or_later :
    (n : ℕ) (r : Run) (rows : List Run)
    → any (run_is n) (r ∷ rows) ≡ true
    → (n ≡ r.id) ⊎ (any (run_is n) rows ≡ true)
unfolding any
this_or_later n r rows h = elim (Bool-cases (run_is n r)) [
  | inl e ↦ inl (ground (arith, e))
  | inr e ↦ inr (ground (arith, e, h))
]

recover_each-IsClosed :
    (at n : ℕ) (reason : String) (rows : List Run) (w w' : World)
    → (any (run_is n) rows ≡ true) ⊎ IsClosed n w.db
    → recover_each at reason rows w ≡ (ok tt, w')
    → IsClosed n w'.db
recover_each-IsClosed at n reason [] w w' (inl h) e =
    let never : false ≡ true = unfold any in h in cc never
recover_each-IsClosed at n reason [] w w' (inr h) e =
    let done : pure tt w ≡ (ok tt, w') = unfold recover_each in e in
    subst (λ r. IsClosed n r.1.db) done h
recover_each-IsClosed at n reason (r ∷ rows) w w' h e =
    let next = record w { db = recover_writes at reason r w.db } in
    let after = recover_each_cons at reason r rows w w' e in
    elim h [
      | inr k ↦
          recover_each-IsClosed at n reason rows next w'
            (inr (recover_writes-IsClosed at n reason r w.db (inr k))) after
      | inl k ↦ elim (this_or_later n r rows k) [
        | inl here ↦
            recover_each-IsClosed at n reason rows next w'
              (inr (recover_writes-IsClosed at n reason r w.db (inl here))) after
        | inr later ↦ recover_each-IsClosed at n reason rows next w' (inl later) after
      ]
    ]

pub any_of_missing :
    (n : ℕ) (ids : List ℕ) (rows : List Run)
    → mem n ids ≡ true
    → are_missing ids rows ≡ false
    → any (run_is n) rows ≡ true
unfolding any
any_of_missing n [] rows h k = cc
any_of_missing n (m ∷ ids) rows h k = elim (Bool-cases (m == n)) [
  | inl e ↦ ground (arith, e, k)
  | inr e ↦ any_of_missing n ids rows (ground (arith, e, h)) (ground (arith, k))
]

module _ (os : Processes) (owners : ℕ → Owner) where
  -- The checks that the rows passed, and the loop over them.
  pub recover_rows_cases :
      (ids : List ℕ) (reason : String) (acknowledged : Bool) (rows given : List Run) (w w' : World)
      → recover_rows os owners ids reason acknowledged rows w ≡ (ok given, w')
      → (are_missing ids rows ≡ false)
        × (any (λ r. if is_open r then false else true) rows ≡ false)
        × (any (held os owners) rows ≡ false)
        × (any (ambiguous os owners) rows ≡ false)
        × ((any (legacy os owners) rows && (if acknowledged then false else true)) ≡ false)
        × (given ≡ rows)
        × (recover_each (w.clock w.reads) reason rows (record w { reads = suc w.reads })
            ≡ (ok tt, w'))
  unfolding recover_rows
  recover_rows_cases ids reason acknowledged rows given w w' e = (
    ground arith,
    ground arith,
    ground arith,
    ground arith,
    ground arith,
    ground arith,
    ground arith,
  )

  pub recover_runs_cases :
      (ids : List ℕ) (reason : String) (acknowledged : Bool) (given : List Run) (w w' : World)
      → recover_runs os owners ids reason acknowledged w ≡ (ok given, w')
      → recover_rows os owners ids reason acknowledged (selected_runs ids w.db) w ≡ (ok given, w')
  unfolding recover_runs recover_selected
  recover_runs_cases ids reason acknowledged given w w' e =
      let t = transaction (recover_selected os owners ids reason acknowledged) in
      let last = raise_if (blank reason) reason_required >> t in
      let (some_ids, h) =
        raise_if-passed (null ids) no_run_ids (raise_if (bad_ids ids) bad_run_ids >> last) w w'
          given e in
      let (proper, k) = raise_if-passed (bad_ids ids) bad_run_ids last w w' given h in
      let (why, m) = raise_if-passed (blank reason) reason_required t w w' given k in
      transaction-ok (recover_selected os owners ids reason acknowledged) w w' given m

  -- A recovery that succeeds leaves no row open for any of the runs that were asked for.
  pub recovered_closed :
      (n : ℕ) (ids : List ℕ) (reason : String) (acknowledged : Bool) (given : List Run)
      (w w' : World)
      → recover_runs os owners ids reason acknowledged w ≡ (ok given, w')
      → mem n ids ≡ true
      → any (open_run n) w'.db.runs.rows ≡ false
  recovered_closed n ids reason acknowledged given w w' e h =
      let rows = selected_runs ids w.db in
      let (known, live, free, clear, fine, same, ran) =
        recover_rows_cases ids reason acknowledged rows given w w'
          (recover_runs_cases ids reason acknowledged given w w' e) in
      recover_each-IsClosed (w.clock w.reads) n reason rows _ w'
        (inl (any_of_missing n ids rows h known)) ran

  -- A recovery that raises, at whichever run, leaves the database as it was.
  pub failed_recovery_atomic :
      (ids : List ℕ) (reason : String) (acknowledged : Bool) (x : Error) (w w' : World)
      → recover_runs os owners ids reason acknowledged w ≡ (err x, w')
      → w'.db ≡ w.db
  unfolding recover_runs
  failed_recovery_atomic ids reason acknowledged x w w' e =
      let t = transaction (recover_selected os owners ids reason acknowledged) in
      let last = raise_if (blank reason) reason_required >> t in
      elim (raise_if-err (null ids) no_run_ids x (raise_if (bad_ids ids) bad_run_ids >> last) w w'
        e) [
          | inl same ↦ ap (λ v. v.db) same
          | inr h ↦ elim (raise_if-err (bad_ids ids) bad_run_ids x last w w' h) [
            | inl same ↦ ap (λ v. v.db) same
            | inr k ↦ elim (raise_if-err (blank reason) reason_required x t w w' k) [
              | inl same ↦ ap (λ v. v.db) same
              | inr m ↦
                  transaction-err (recover_selected os owners ids reason acknowledged) w w' x m
            ]
          ]
        ]
