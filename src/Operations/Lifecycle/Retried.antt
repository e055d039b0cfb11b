-- ===== src/Operations/Lifecycle/Retried.antt =====
-- nc/operations.py: what `retry_blocked_tasks` leaves.
use neocortex.State.Query.{task_is}
use neocortex.Operations.Lifecycle.{
  is_blocked_row, is_blocked_task, retry_blocked_tasks, retry_each, retry_task,
}
use neocortex.State.Exec.{Result, transaction, World, ok}
use neocortex.State.Tables.{Db, Task, TaskStatus}
use neocortex.Prelude.{
  suc, All, Bool-cases, String, inl, inr, not, str_eq, ap, ◌∙◌, Bool, List, [], all, any, arith,
  eq_iff, eq_refl, false, if◌then◌else◌, keep, map, refl, true, update, ℕ, ◌&&◌, ◌∷◌, ◌≡◌,
}

-- A blocked task is among the rows.
abbrev covered : List Task → Task → Bool
covered rows t = if is_blocked_task t then any (task_is t.id) rows else true

all-covered_more :
    (r : Task) (rows ts : List Task)
    → all (covered rows) ts ≡ true
    → all (covered (r ∷ rows)) ts ≡ true
unfolding all any
all-covered_more r rows [] h = refl
all-covered_more r rows (t ∷ ts) h = ground (arith, h, all-covered_more r rows ts)

all-covered_start : (ts : List Task) → all (covered (keep is_blocked_task ts)) ts ≡ true
unfolding all any keep
all-covered_start [] = refl
all-covered_start (t ∷ ts) =
    ground
      (arith, all-covered_start ts, eq_refl t.id, all-covered_more t (keep is_blocked_task ts) ts)

none_blocked : (ts : List Task) → all (covered []) ts ≡ true → any is_blocked_task ts ≡ false
unfolding all any
none_blocked [] h = refl
none_blocked (t ∷ ts) h = ground (arith, h, none_blocked ts)

abbrev retried : ℕ → Task → Task
retried at t = record t { status = TaskStatus.in_progress; attempts = 0; updated_at = at }

-- The ids that are not among those seen, each once.
abbrev among : String → List String → Bool
among i seen = any (str_eq i) seen

unfoldable pub fresh : List String → List String → List String
fresh seen [] = []
fresh seen (i ∷ ids) = elim (among i seen) [
  | true ↦ fresh seen ids
  | false ↦ i ∷ fresh (i ∷ seen) ids
]

all-covered_rest :
    (at : ℕ) (r : Task) (rows ts : List Task)
    → all (covered (r ∷ rows)) ts ≡ true
    → all (covered rows) (update (is_blocked_row r.id) (retried at) ts) ≡ true
unfolding all any update
all-covered_rest at r rows [] h = refl
all-covered_rest at r rows (t ∷ ts) h =
    ground (arith, h, all-covered_rest at r rows ts, eq_iff r.id t.id, eq_iff t.id r.id)

all-covered_skip :
    (r : Task) (rows ts : List Task)
    → any (is_blocked_row r.id) ts ≡ false
    → all (covered (r ∷ rows)) ts ≡ true
    → all (covered rows) ts ≡ true
unfolding all any
all-covered_skip r rows [] e h = refl
all-covered_skip r rows (t ∷ ts) e h =
    ground (arith, e, h, all-covered_skip r rows ts, eq_iff r.id t.id, eq_iff t.id r.id)

-- A task is blocked after the updates for another one if it was before.
any-retried :
    (at : ℕ) (i j : String) (ts : List Task)
    → any (is_blocked_row i) (update (is_blocked_row j) (retried at) ts)
      ≡ not (str_eq i j) && any (is_blocked_row i) ts
unfolding any update
any-retried at i j [] = ground arith
any-retried at i j (t ∷ ts) =
    ground (arith, any-retried at i j ts, eq_iff t.id i, eq_iff t.id j, eq_iff i j)

-- Of the rows that are left, those are blocked whose id was not seen.
abbrev AreFresh : List String → Db → List Task → Type 0
AreFresh seen db = All (λ t. any (is_blocked_row t.id) db.tasks ≡ not (among t.id seen))

AreFresh-retried :
    (at : ℕ) (j : String) (seen : List String) (db : Db) (rows : List Task)
    → AreFresh seen db rows
    → AreFresh (j ∷ seen) (retry_task at j db) rows
unfolding any
AreFresh-retried at j seen db [] hs = tt
AreFresh-retried at j seen db (t ∷ rows) (h, hs) =
    (ground (arith, any-retried at t.id j db.tasks, h), AreFresh-retried at j seen db rows hs)

retry_each_idle :
    (at : ℕ) (r : Task) (rows : List Task) (ids : List String) (w w' : World)
    → any (is_blocked_row r.id) w.db.tasks ≡ false
    → retry_each at rows w ≡ (ok ids, w')
    → retry_each at (r ∷ rows) w ≡ (ok ids, w')
unfolding retry_each
retry_each_idle at r rows ids w w' idle ran = ground (arith, idle, ran)

retry_each_busy :
    (at : ℕ) (r : Task) (rows : List Task) (ids : List String) (w w' : World)
    → any (is_blocked_row r.id) w.db.tasks ≡ true
    → retry_each at rows (record w { db = retry_task at r.id w.db }) ≡ (ok ids, w')
    → retry_each at (r ∷ rows) w ≡ (ok (r.id ∷ ids), w')
unfolding retry_each
retry_each_busy at r rows ids w w' busy ran = ground (arith, busy, ran)

retry_each_lem :
    (at : ℕ) (seen : List String) (rows : List Task) (w : World)
    → AreFresh seen w.db rows
    → all (covered rows) w.db.tasks ≡ true
    → (d : Db) × (retry_each at rows w
        ≡ (ok (fresh seen (map (λ t. t.id) rows)), record w { db = d }))
      × (any is_blocked_task d.tasks ≡ false)
unfolding retry_each fresh
retry_each_lem at seen [] w hs h = (w.db, refl, none_blocked w.db.tasks h)
retry_each_lem at seen (r ∷ rows) w (here, hs) h = elim (Bool-cases (among r.id seen)) [
  | inl old ↦
      let idle : any (is_blocked_row r.id) w.db.tasks ≡ false = here ∙ ap not old in
      let (d, ran, clear) =
        retry_each_lem at seen rows w hs (all-covered_skip r rows w.db.tasks idle h) in
      (d, rw (fresh, old) (retry_each_idle at r rows _ w _ idle ran), clear)
  | inr new ↦
      let busy : any (is_blocked_row r.id) w.db.tasks ≡ true = here ∙ ap not new in
      let next = record w { db = retry_task at r.id w.db } in
      let (d, ran, clear) =
        retry_each_lem at (r.id ∷ seen) rows next (AreFresh-retried at r.id seen w.db rows hs)
          (all-covered_rest at r rows w.db.tasks h) in
      (d, rw (fresh, new) (retry_each_busy at r rows _ w _ busy ran), clear)
]

in_rest :
    (i : String) (t : Task) (ts : List Task)
    → any (is_blocked_row i) ts ≡ true
    → any (is_blocked_row i) (t ∷ ts) ≡ true
unfolding any
in_rest i t ts h = ground (arith, h)

-- Each blocked task has a blocked row.
blocked_start :
    (ts whole : List Task)
    → ((i : String) → any (is_blocked_row i) ts ≡ true → any (is_blocked_row i) whole ≡ true)
    → All (λ t. any (is_blocked_row t.id) whole ≡ true) (keep is_blocked_task ts)
unfolding keep any
blocked_start [] whole inside = tt
blocked_start (t ∷ ts) whole inside = elim (Bool-cases (is_blocked_task t)) [
  | inr other ↦ rw other (blocked_start ts whole (λ i h. inside i (in_rest i t ts h)))
  | inl stuck ↦ rw stuck (
    inside t.id (rw (eq_refl t.id, stuck) refl),
    blocked_start ts whole (λ i h. inside i (in_rest i t ts h)),
  )
]

-- `retry_blocked_tasks` always returns: it gives the ids of the tasks that were blocked, in order and
-- each once, and leaves no task blocked.
pub retry_blocked_tasks_lem :
    (w : World)
    → ((retry_blocked_tasks w).0
        ≡ ok (fresh [] (map (λ t. t.id) (keep is_blocked_task w.db.tasks))))
      × (any is_blocked_task (retry_blocked_tasks w).1.db.tasks ≡ false)
unfolding retry_blocked_tasks
retry_blocked_tasks_lem w =
    let rows = keep is_blocked_task w.db.tasks in
    let (d, ran, clear) =
      retry_each_lem (w.clock w.reads) [] rows (record w { reads = suc w.reads })
        (unfold any in blocked_start w.db.tasks w.db.tasks (λ i h. h))
        (all-covered_start w.db.tasks) in
    let whole : retry_blocked_tasks w
        ≡ transaction
            (λ v. (ok (fresh [] (map (λ t. t.id) rows)), record v { db = d; reads = suc v.reads }))
            w =
      ap (λ r. transaction (λ v. r) w) ran in
    (
      ap (λ r. r.0) whole,
      ap (λ (r : Result (List String) × World). any is_blocked_task r.1.db.tasks) whole ∙ clear,
    )
