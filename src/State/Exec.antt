-- ===== src/State/Exec.antt =====
-- Methods of `State`: the database, the readings of the clock, exceptions, transactions.
use neocortex.Prelude.{
  inl, inr, ◌⊎◌, ℕ, suc, ◌≡◌, String, Bool, true, false, Option, List, none, some,
}
use mathlib.Core.Path.{subst, sym, ap, refl}
use neocortex.State.Tables.{Db}

-- One constructor for each `raise` of the modelled code, and for what SQLite and dict accesses raise.
pub data Error : Type 0 where
  unknown_project unknown_task unknown_dependency foreign_dependency : String → Error
  title_required objective_required : Error
  acceptance_not_strings boundaries_not_strings depends_on_not_strings : Error
  priority_not_int bad_budget reason_required active_run : Error
  not_cancellable cancelled_task unknown_proposal not_pending : Error
  malformed_specs bad_revision has_findings foreign_spec : Error
  exclusive_targets foreign_proposal foreign_task project_required : Error
  unknown_incident integrity_error key_error type_error : Error
  no_model unknown_message not_answerable no_run_ids bad_run_ids finished_run : Error
  live_owner ambiguous_owner uncertain_owner bad_requeue_budget already_accepted : Error
  unconfirmed no_merge_commit not_accepted stop_iteration : Error
  unknown_runs changed_run answer_required lifecycle_busy : Error
  -- What a git call or a child process raised, with its text.
  runtime_error : String → Error
  -- A `ValueError` of nc/turn.py, with its text.
  value_error : String → Error

pub data Result {ℓ} (A : Type ℓ) : Type ℓ where
  ok : A → Result A
  err : Error → Result A

-- What the scheduler keeps outside the database: its count of failed turns in a row, the STOP file,
-- and the files under checks/ with the output of the last acceptance checks.
pub record Host : Type 0 where
  pub failures : ℕ
  pub stop : Option String
  pub checks : List (String × String)

-- `clock n` is what the n-th call of `time.time()` returns.
pub record World : Type 0 where
  pub db : Db
  pub clock : ℕ → ℕ
  pub reads : ℕ
  pub host : Host

abbrev pub Exec : Type 0 → Type 0
Exec A = World → Result A × World

module _ {A : Type 0} where
  abbrev pub pure : A → Exec A
  pure a w = (ok a, w)

  abbrev pub raise : Error → Exec A
  raise e w = (err e, w)

  -- A query.
  abbrev pub gets : (Db → A) → Exec A
  gets f w = (ok (f w.db), w)

  abbrev pub or_raise : Option A → Error → Exec A
  or_raise o e w = (elim o [ none ↦ err e | some a ↦ ok a ], w)

  abbrev pub lift : Result A → Exec A
  lift r w = (r, w)

  -- `with self.db:`: an exception rolls the database back. The clock keeps its readings.
  abbrev pub transaction : Exec A → Exec A
  transaction m w =
      let (r, w') = m w in elim r [ ok a ↦ (ok a, w') | err e ↦ (err e, record w' { db = w.db }) ]

infixl 5 ◌>>=◌ ◌>>◌
abbrev pub ◌>>=◌ : {A B : Type 0} → Exec A → (A → Exec B) → Exec B
◌>>=◌ m f w = let (r, w') = m w in elim r [ ok a ↦ f a w' | err e ↦ (err e, w') ]

abbrev pub ◌>>◌ : {B : Type 0} → Exec (Unit {0}) → Exec B → Exec B
m >> k = m >>= λ _. k

-- `if test: raise e`
abbrev pub raise_if : Bool → Error → Exec (Unit {0})
raise_if b e w = (elim b [ true ↦ err e | false ↦ ok tt ], w)

abbrev pub when : Bool → Exec (Unit {0}) → Exec (Unit {0})
when true m = m
when false m = pure tt

-- `time.time()`
abbrev pub now : Exec ℕ
now w = (ok (w.clock w.reads), record w { reads = suc w.reads })

-- A statement that writes.
abbrev pub modify : (Db → Db) → Exec (Unit {0})
modify f w = (ok tt, record w { db = f w.db })

abbrev pub modify_host : (Host → Host) → Exec (Unit {0})
modify_host f w = (ok tt, record w { host = f w.host })

-- How a computation that returned got there.
>>=-split :
    {A B : Type 0} (r : Result A × World) (f : A → Exec B) (b : B) (w' : World)
    → ((λ w. r) >>= f) w' ≡ (ok b, w')
    → (a : A) × (r.0 ≡ ok a) × (f a r.1 ≡ (ok b, w'))
>>=-split (ok a, v) f b w' h = (a, refl, h)
>>=-split (err x, v) f b w' h = cc

pub >>=-eq-ok :
    {A B : Type 0} (m : Exec A) (f : A → Exec B) (w : World) (b : B) (w' : World)
    → (m >>= f) w ≡ (ok b, w')
    → (a : A) × ((m w).0 ≡ ok a) × (f a (m w).1 ≡ (ok b, w'))
>>=-eq-ok m f w b w' e = >>=-split (m w) f b w' e

-- What a transaction that raised leaves.
transaction_split :
    {A : Type 0} (r : Result A × World) (w w' : World) (e : Error)
    → transaction (λ _. r) w ≡ (err e, w')
    → w'.db ≡ w.db
transaction_split (ok a, v) w w' e h = cc
transaction_split (err x, v) w w' e h = ap (λ r. r.1.db) (sym h)

pub transaction-err :
    {A : Type 0} (m : Exec A) (w w' : World) (e : Error)
    → transaction m w ≡ (err e, w')
    → w'.db ≡ w.db
transaction-err m w w' e h = transaction_split (m w) w w' e h

transaction_ok_split :
    {A : Type 0} (r : Result A × World) (w w' : World) (a : A)
    → transaction (λ _. r) w ≡ (ok a, w')
    → r ≡ (ok a, w')
transaction_ok_split (ok b, v) w w' a h = h
transaction_ok_split (err x, v) w w' a h = cc

pub transaction-ok :
    {A : Type 0} (m : Exec A) (w w' : World) (a : A)
    → transaction m w ≡ (ok a, w')
    → m w ≡ (ok a, w')
transaction-ok m w w' a h = transaction_ok_split (m w) w w' a h

-- A check that passed.
pub raise_if-passed :
    {A : Type 0} (b : Bool) (e : Error) (k : Exec A) (w w' : World) (a : A)
    → (raise_if b e >> k) w ≡ (ok a, w')
    → (b ≡ false) × (k w ≡ (ok a, w'))
raise_if-passed true e k w w' a h = cc
raise_if-passed false e k w w' a h = (refl, h)

-- A check in front of a computation that leaves the database alone where it raises.
pub raise_if-err :
    {A : Type 0} (b : Bool) (x e : Error) (k : Exec A) (w w' : World)
    → ((raise_if b x >> k) w ≡ (err e, w'))
    → (w' ≡ w) ⊎ (k w ≡ (err e, w'))
raise_if-err true x e k w w' h = inl (ap (λ r. r.1) (sym h))
raise_if-err false x e k w w' h = inr h

pub transaction-raised :
    {A : Type 0} (m : Exec A) (w : World) (e : Error)
    → m w ≡ (err e, w)
    → transaction m w ≡ (err e, w)
transaction-raised m w e h = subst (λ r. transaction (λ _. r) w ≡ (err e, w)) (sym h) refl

-- The rest of a computation whose first part returned.
pub >>=-ok :
    {A B : Type 0} (m : Exec A) (f : A → Exec B) (w v : World) (a : A)
    → m w ≡ (ok a, v)
    → (m >>= f) w ≡ f a v
>>=-ok m f w v a e = ap (λ r. ((λ _. r) >>= f) w) e
