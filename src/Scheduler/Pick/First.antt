-- ===== src/Scheduler/Pick/First.antt =====
-- nc/scheduler.py: `next_ready_task` against the table of tasks.
use neocortex.Scheduler.Pick.{is_queued, is_ready, next_ready_task, task_before}
use neocortex.Scheduler.Pick.Ready.{find-All, next_ready_task_exists}
use neocortex.Scheduler.Pick.Sorted.{
  All-keep_of, All-map_into, any-same, find-IsSorted, order_by-IsSorted,
}
use neocortex.State.Cancel.{is_met, unmet_dependencies}
use neocortex.State.Query.{status_eq, task_by_id, task_is}
use neocortex.State.Tables.{Db, Task, TaskStatus}
use neocortex.Prelude.Int.{lt_ℤ}
use neocortex.Prelude.{
  not, ltb, ◌||◌, All, All-order_by, Bool, Bool-cases, List, Option-cases, String, [], all, any,
  any-keep, any-order_by, any_of_find, ap, arith, eq_iff, false, find, find_sound, if◌then◌else◌,
  inl, inr, is_some, keep, none, null, order_by, refl, some, str_eq, sym, true, ◌&&◌, ◌∙◌, ◌∷◌, ◌≡◌,
  ◌⊎◌,
}

-- Every row is the one that its id gives.
abbrev pub HasUniqueIds : Db → Type 0
HasUniqueIds db = All (λ t. task_by_id t.id db ≡ some t) db.tasks

-- A task of the id is accepted.
abbrev pub is_accepted : Db → String → Bool
is_accepted db dep = any (λ u. str_eq u.id dep && status_eq u.status TaskStatus.done) db.tasks

-- A queued task, and every task that it depends on is accepted.
abbrev pub may_start : Db → Task → Bool
may_start db t = status_eq t.status TaskStatus.queued && all (is_accepted db) t.depends_on

none_accepted :
    (db : Db) (dep : String) (u : Task) (rows : List Task)
    → All (λ t. task_by_id t.id db ≡ some t) rows
    → task_by_id dep db ≡ some u
    → status_eq u.status TaskStatus.done ≡ false
    → any (λ x. str_eq x.id dep && status_eq x.status TaskStatus.done) rows ≡ false
unfolding any
none_accepted db dep u [] hs found h = refl
none_accepted db dep u (x ∷ rows) (here, hs) found h = elim (Bool-cases (str_eq x.id dep)) [
  | inr other ↦ rw other (none_accepted db dep u rows hs found h)
  | inl same ↦
      let row : some x ≡ some u =
        sym here ∙ ap (λ i. task_by_id i db) ((eq_iff x.id dep).0 same) ∙ found in
      let one : x ≡ u = ground (arith, row) in
      rw (same, ap (λ (t : Task). status_eq t.status TaskStatus.done) one ∙ h)
        (none_accepted db dep u rows hs found h)
]

none_found :
    {A : Type 0} (p q : A → Bool) (xs : List A)
    → find p xs ≡ none
    → any (λ x. p x && q x) xs ≡ false
unfolding find any
none_found p q [] e = refl
none_found p q (x ∷ xs) e = ground (arith, none_found p q xs)

is_met-eq-is_accepted :
    (db : Db) (dep : String) → HasUniqueIds db → is_met db dep ≡ is_accepted db dep
is_met-eq-is_accepted db dep hs = elim (Option-cases (task_by_id dep db)) [
  | inl gone ↦
      rw (is_met, gone)
        (sym (none_found (task_is dep) (λ x. status_eq x.status TaskStatus.done) db.tasks gone))
  | inr (u, found) ↦ elim (Bool-cases (status_eq u.status TaskStatus.done)) [
    | inr pending ↦
        rw (is_met, found, pending) (sym (none_accepted db dep u db.tasks hs found pending))
    | inl done ↦
        rw (is_met, found, done)
          (sym (
            any_of_find (task_is dep) (λ x. str_eq x.id dep && status_eq x.status TaskStatus.done)
              db.tasks u found (rw (find_sound (task_is dep) db.tasks u found, done) refl)))
  ]
]

null-keep :
    (p q : String → Bool) (xs : List String)
    → ((x : String) → p x ≡ q x)
    → null (keep (λ x. if p x then false else true) xs) ≡ all q xs
unfolding keep all
null-keep p q [] h = refl
null-keep p q (x ∷ xs) h = ground (arith, h x, null-keep p q xs h)

is_ready-eq :
    (db : Db) (t : Task)
    → HasUniqueIds db
    → task_by_id t.id db ≡ some t
    → is_ready db t ≡ all (is_accepted db) t.depends_on
unfolding unmet_dependencies
is_ready-eq db t hs found =
    rw (unmet_dependencies, found)
      (null-keep (is_met db) (is_accepted db) t.depends_on (λ dep. is_met-eq-is_accepted db dep hs))

before_asym : (t u : Task) → task_before t u ≡ true → task_before u t ≡ false
unfolding task_before
before_asym t u h = ground arith

before_trans :
    (t u v : Task) → task_before u t ≡ false → task_before v u ≡ false → task_before v t ≡ false
unfolding task_before
before_trans t u v h k = ground arith

regroup : (q r a b c : Bool) → r ≡ a → b ≡ c → q && (r && b) ≡ (q && a) && c
regroup q r a b c h k = ground arith

before_irr : (t : Task) → task_before t t ≡ false
unfolding task_before
before_irr t = ground arith

-- A lower priority, or the same one and an earlier creation.
abbrev pub precedes : Task → Task → Bool
precedes t u =
    lt_ℤ t.priority u.priority
    || (not (lt_ℤ u.priority t.priority) && ltb t.created_at u.created_at)

before-eq-precedes : (t u : Task) → task_before t u ≡ precedes t u
unfolding task_before
before-eq-precedes t u = ground arith

-- The row of its id, which may start, before which none goes that may start.
abbrev pub IsFirst : Db → Task → Type 0
IsFirst db t =
    (task_by_id t.id db ≡ some t)
    × (may_start db t ≡ true)
    × (any (λ u. may_start db u && precedes u t) db.tasks ≡ false)

candidates :
    (db : Db) (t : Task)
    → HasUniqueIds db
    → any (λ u. is_queued u && (is_ready db u && task_before u t)) db.tasks
      ≡ any (λ u. may_start db u && precedes u t) db.tasks
candidates db t hs =
    any-same (λ u. is_queued u && (is_ready db u && task_before u t))
      (λ u. may_start db u && precedes u t) db.tasks
      (All-map_into (λ u. task_by_id u.id db ≡ some u)
        (λ u.
          (is_queued u && (is_ready db u && task_before u t)) ≡ (may_start db u && precedes u t))
        db.tasks
        (λ u found.
          regroup (is_queued u) (is_ready db u) (all (is_accepted db) u.depends_on)
            (task_before u t) (precedes u t) (is_ready-eq db u hs found) (before-eq-precedes u t))
        hs)

found-IsFirst : (db : Db) (t : Task) → HasUniqueIds db → next_ready_task db ≡ some t → IsFirst db t
unfolding next_ready_task
found-IsFirst db t hs e =
    let queued = keep is_queued db.tasks in
    let sorted = order_by task_before queued in
    let (waits, found) =
      find-All (λ u. (is_queued u ≡ true) × (task_by_id u.id db ≡ some u)) (is_ready db) sorted t
        (All-order_by task_before (λ u. (is_queued u ≡ true) × (task_by_id u.id db ≡ some u)) queued
          (All-keep_of (λ u. task_by_id u.id db ≡ some u) is_queued db.tasks hs))
        e in
    (
      found,
      rw (waits, sym (is_ready-eq db t hs found) ∙ find_sound (is_ready db) sorted t e) refl,
      sym (
            any-order_by task_before (λ u. is_ready db u && task_before u t) queued
            ∙ any-keep is_queued (λ u. is_ready db u && task_before u t) db.tasks
            ∙ candidates db t hs)
          ∙ find-IsSorted task_before (is_ready db) sorted t (before_irr t)
              (order_by-IsSorted task_before before_asym before_trans queued) e,
    )

none-may_start :
    (db : Db) → HasUniqueIds db → next_ready_task db ≡ none → any (may_start db) db.tasks ≡ false
none-may_start db hs e =
    any-same (may_start db) (λ t. is_queued t && is_ready db t) db.tasks
      (All-map_into (λ u. task_by_id u.id db ≡ some u)
        (λ u. may_start db u ≡ (is_queued u && is_ready db u)) db.tasks
        (λ u found. ap (λ b. is_queued u && b) (sym (is_ready-eq db u hs found))) hs)
    ∙ sym (next_ready_task_exists db)
    ∙ ap is_some e

-- With unique ids, `next_ready_task` gives nothing if no task may start, which is a queued one all of
-- whose dependencies are ids of accepted tasks; otherwise it gives a task that may start, with no
-- other that may start before it by priority and age.
pub next_ready_task_lem :
    (db : Db)
    → HasUniqueIds db
    → ((next_ready_task db ≡ none) × (any (may_start db) db.tasks ≡ false))
      ⊎ ((t : Task) × (next_ready_task db ≡ some t) × IsFirst db t)
next_ready_task_lem db hs = elim (Option-cases (next_ready_task db)) [
  | inl e ↦ inl (e, none-may_start db hs e)
  | inr (t, e) ↦ inr (t, e, found-IsFirst db t hs e)
]
