-- ===== src/Operations/Recovery/Quiet.antt =====
-- nc/operations.py: which runs `recover_runs` closes, and on what evidence.
use neocortex.Operations.Ownership.{
  Owner, Ownership, Processes, Signal, adapter_status, cgroup_status, forbidden, group_status,
  is_live, is_uncertain, no_process, owner_status, process, recorded_status, signalled, truthy,
}
use neocortex.Operations.Recovery.{
  ambiguous, are_missing, held, interrupt, legacy, mem, open_run, recover_each, recover_runs,
  recover_writes, selected_runs,
}
use neocortex.Operations.Recovery.Closes.{
  any_of_missing, recover_each_cons, recover_rows_cases, recover_runs_cases, writes-runs,
}
use neocortex.State.Query.{is_open, run_is}
use neocortex.State.Exec.{World, ok, pure}
use neocortex.State.Tables.{Run, RunOutcome}
use neocortex.Prelude.{
  Bool, Bool-cases, List, Option, String, [], all, any, ap, arith, false, if◌then◌else◌, inl, inr,
  keep, leb, none, not, refl, some, str_eq, strip, sym, true, update, ℕ, ◌&&◌, ◌==◌, ◌||◌, ◌∙◌, ◌∷◌,
  ◌≡◌,
}

-- Whether the recorded scheduler runs, as far as that can be seen.
abbrev seen_by : String → Signal → Option Bool
seen_by started no_process = some false
seen_by started forbidden = none
seen_by started (process none) = none
seen_by started (process (some current)) = some (str_eq current started)

abbrev scheduler_runs : Processes → Owner → Option Bool
scheduler_runs os o = elim o.owner_pid [
  | none ↦ none
  | some pid ↦ elim (truthy o.owner_start) [
    | none ↦ none
    | some started ↦ seen_by started (os.signal pid)
  ]
]

-- The processes of the adapter, where it is recorded how to find them and they can be listed.
abbrev adapter_processes : Processes → Owner → Option (List ℕ)
adapter_processes os o =
    if leb 2 o.ownership_version
    then elim (truthy o.adapter_cgroup) [ none ↦ none | some cgroup ↦ os.cgroup_members cgroup ]
    else elim o.adapter_pgid [ none ↦ none | some pgid ↦ os.group_members pgid ]

abbrev says_no : Option Bool → Bool
says_no (some false) = true
says_no _ = false

abbrev says_yes : Option Bool → Bool
says_yes (some true) = true
says_yes _ = false

abbrev lists_none : Option (List ℕ) → Bool
lists_none (some []) = true
lists_none _ = false

abbrev lists_some : Option (List ℕ) → Bool
lists_some (some (n ∷ ns)) = true
lists_some _ = false

-- The scheduler and the adapter are known to be gone.
abbrev pub is_gone : Processes → Owner → Bool
is_gone os o = says_no (scheduler_runs os o) && lists_none (adapter_processes os o)

-- One of them is known to be there.
abbrev pub is_seen : Processes → Owner → Bool
is_seen os o =
    says_yes (scheduler_runs os o)
    || (says_no (scheduler_runs os o) && lists_some (adapter_processes os o))

-- Both are gone, or the row is older than the schema, nothing of it is seen, and the owner has said
-- that all is quiet.
abbrev pub is_quiet : Processes → Bool → Owner → Bool
is_quiet os acknowledged o =
    is_gone os o || (acknowledged && o.ownership_version == 0 && not (is_seen os o))

cgroup_lem :
    (os : Processes) (text : String) (c : Option String)
    → let found : Option (List ℕ) = elim c [ none ↦ none | some g ↦ os.cgroup_members g ] in
      (is_live (cgroup_status os text c) ≡ lists_some found)
      × (is_uncertain (cgroup_status os text c) ≡ not (lists_some found || lists_none found))
unfolding cgroup_status
cgroup_lem os text none = (refl, refl)
cgroup_lem os text (some g) = (ground arith, ground arith)

group_lem :
    (os : Processes) (text : String) (c : Option ℕ)
    → let found : Option (List ℕ) = elim c [ none ↦ none | some g ↦ os.group_members g ] in
      (is_live (group_status os text c) ≡ lists_some found)
      × (is_uncertain (group_status os text c) ≡ not (lists_some found || lists_none found))
unfolding group_status
group_lem os text none = (refl, refl)
group_lem os text (some g) = (ground arith, ground arith)

adapter_lem :
    (os : Processes) (o : Owner) (text : String)
    → (is_live (adapter_status os o text) ≡ lists_some (adapter_processes os o))
      × (is_uncertain (adapter_status os o text)
          ≡ not (lists_some (adapter_processes os o) || lists_none (adapter_processes os o)))
unfolding adapter_status
adapter_lem os o text = elim (Bool-cases (leb 2 o.ownership_version)) [
  | inl h ↦ rw h (cgroup_lem os text (truthy o.adapter_cgroup))
  | inr h ↦ rw h (group_lem os text o.adapter_pgid)
]

-- A status says what is seen.
abbrev Tells : Processes → Owner → Option Bool → Ownership → Type 0
Tells os o runs status =
    (is_live status ≡ says_yes runs || (says_no runs && lists_some (adapter_processes os o)))
    × (is_uncertain status
        ≡ not (
            (says_yes runs || (says_no runs && lists_some (adapter_processes os o)))
            || (says_no runs && lists_none (adapter_processes os o))))

signalled_lem :
    (os : Processes) (o : Owner) (started : String) (s : Signal)
    → Tells os o (seen_by started s) (signalled os o started s)
unfolding signalled
signalled_lem os o started no_process = adapter_lem os o "owner process is gone"
signalled_lem os o started forbidden = (refl, refl)
signalled_lem os o started (process none) = (refl, refl)
signalled_lem os o started (process (some current)) = elim (Bool-cases (str_eq current started)) [
  | inl h ↦ rw h (refl, refl)
  | inr h ↦ rw h (adapter_lem os o "owner PID was reused; recorded owner is gone")
]

recorded_lem :
    (os : Processes) (o : Owner) (pid : Option ℕ) (start : Option String)
    → Tells os o
        (elim pid [
          | none ↦ none
          | some p ↦ elim start [ none ↦ none | some started ↦ seen_by started (os.signal p) ]
        ])
        (recorded_status os o pid start)
unfolding recorded_status
recorded_lem os o none none = (refl, refl)
recorded_lem os o none (some started) = (refl, refl)
recorded_lem os o (some pid) none = (refl, refl)
recorded_lem os o (some pid) (some started) = signalled_lem os o started (os.signal pid)

owner_lem :
    (os : Processes) (o : Owner)
    → (is_live (owner_status os o) ≡ is_seen os o)
      × (is_uncertain (owner_status os o) ≡ not (is_seen os o || is_gone os o))
unfolding owner_status
owner_lem os o = recorded_lem os o o.owner_pid (truthy o.owner_start)

quiet_tests :
    (live unsure seen gone acked old : Bool)
    → live ≡ seen
    → unsure ≡ not (seen || gone)
    → live ≡ false
    → (unsure && (if old then false else true)) ≡ false
    → ((unsure && old) && (if acked then false else true)) ≡ false
    → gone || (acked && old && not seen) ≡ true
quiet_tests live unsure seen gone acked old e f h k m = ground arith

neither : (a b : Bool) → a || b ≡ false → (a ≡ false) × (b ≡ false)
neither a b h = (ground arith, ground arith)

neither_and : (a b c : Bool) → (a || b) && c ≡ false → (a && c ≡ false) × (b && c ≡ false)
neither_and a b c h = (ground arith, ground arith)

both : (a b : Bool) → a ≡ true → b ≡ true → a && b ≡ true
both a b h k = ground arith

not_closed : (b : Bool) → (if b then false else true) ≡ false → b ≡ true
not_closed b h = ground arith

module _ (os : Processes) (owners : ℕ → Owner) (acknowledged : Bool) where
  -- A row that may be closed.
  abbrev pub may_close : Run → Bool
  may_close r = is_open r && is_quiet os acknowledged (owners r.id)

  row-may_close :
      (r : Run)
      → is_open r ≡ true
      → held os owners r ≡ false
      → ambiguous os owners r ≡ false
      → (legacy os owners r && (if acknowledged then false else true)) ≡ false
      → may_close r ≡ true
  row-may_close r o h k m =
      let (lives, unsure) = owner_lem os (owners r.id) in
      rw o (
        quiet_tests (is_live (owner_status os (owners r.id)))
          (is_uncertain (owner_status os (owners r.id))) (is_seen os (owners r.id))
          (is_gone os (owners r.id)) acknowledged ((owners r.id).ownership_version == 0) lives
          unsure h k m)

  rows-may_close :
      (rows : List Run)
      → any (λ r. if is_open r then false else true) rows ≡ false
      → any (held os owners) rows ≡ false
      → any (ambiguous os owners) rows ≡ false
      → (any (legacy os owners) rows && (if acknowledged then false else true)) ≡ false
      → all may_close rows ≡ true
  unfolding any all
  rows-may_close [] o h k m = refl
  rows-may_close (r ∷ rows) o h k m =
      let (opened, rest) = neither (if is_open r then false else true) _ o in
      let (free, others_free) = neither (held os owners r) _ h in
      let (clear, others_clear) = neither (ambiguous os owners r) _ k in
      let (fine, others_fine) =
        neither_and (legacy os owners r) _ (if acknowledged then false else true) m in
      both (may_close r) _ (row-may_close r (not_closed (is_open r) opened) free clear fine)
        (rows-may_close rows rest others_free others_clear others_fine)

-- One update after another on the rows that are not yet rewritten.
update-update :
    {A : Type 0} (p q s : A → Bool) (f : A → A) (xs : List A)
    → ((x : A) → s x ≡ p x || q x)
    → ((x : A) → p x ≡ true → q (f x) ≡ false)
    → update q f (update p f xs) ≡ update s f xs
unfolding update
update-update p q s f [] e h = refl
update-update p q s f (x ∷ xs) e h = ground (arith, e x, h x, update-update p q s f xs e h)

update-same :
    {A : Type 0} (p q : A → Bool) (f : A → A) (xs : List A)
    → ((x : A) → p x ≡ q x)
    → update p f xs ≡ update q f xs
unfolding update
update-same p q f [] e = refl
update-same p q f (x ∷ xs) e = ground (arith, e x, update-same p q f xs e)

update_none :
    {A : Type 0} (p : A → Bool) (f : A → A) (xs : List A)
    → ((x : A) → p x ≡ false)
    → update p f xs ≡ xs
unfolding update
update_none p f [] e = refl
update_none p f (x ∷ xs) e = ground (arith, e x, update_none p f xs e)

-- An open run of one of the rows.
abbrev open_among : List Run → Run → Bool
open_among rows r = any (run_is r.id) rows && is_open r

recover_each-runs :
    (at : ℕ) (reason : String) (rows : List Run) (w w' : World)
    → recover_each at reason rows w ≡ (ok tt, w')
    → w'.db.runs.rows ≡ update (open_among rows) (interrupt at reason) w.db.runs.rows
recover_each-runs at reason [] w w' e =
    let done : pure tt w ≡ (ok tt, w') = unfold recover_each in e in
    ap (λ r. r.1.db.runs.rows) (sym done)
    ∙ sym
        (update_none (open_among []) (interrupt at reason) w.db.runs.rows (λ x. unfold any in refl))
recover_each-runs at reason (r ∷ rows) w w' e =
    let next = record w { db = recover_writes at reason r w.db } in
    recover_each-runs at reason rows next w' (recover_each_cons at reason r rows w w' e)
    ∙ ap (update (open_among rows) (interrupt at reason)) (writes-runs at reason r w.db)
    ∙ update-update (open_run r.id) (open_among rows) (open_among (r ∷ rows)) (interrupt at reason)
        w.db.runs.rows (λ x. unfold any in ground arith) (λ x h. ground arith)

any-mem :
    (n : ℕ) (ids : List ℕ) (rows : List Run)
    → any (run_is n) (keep (λ r. mem r.id ids) rows) ≡ true
    → mem n ids ≡ true
unfolding any keep
any-mem n ids [] h = cc
any-mem n ids (r ∷ rows) h = elim (Bool-cases (mem r.id ids)) [
  | inr e ↦ any-mem n ids rows (rw e at h)
  | inl e ↦ elim (Bool-cases (r.id == n)) [
    | inl same ↦ let here : r.id ≡ n = ground (arith, same) in rw (← here) e
    | inr other ↦ any-mem n ids rows (ground (arith, rw e at h, other))
  ]
]

-- A run is among the rows that were selected exactly when it was asked for.
selected-mem :
    (n : ℕ) (ids : List ℕ) (rows : List Run)
    → are_missing ids (keep (λ r. mem r.id ids) rows) ≡ false
    → any (run_is n) (keep (λ r. mem r.id ids) rows) ≡ mem n ids
selected-mem n ids rows h = elim (Bool-cases (mem n ids)) [
  | inl e ↦ any_of_missing n ids (keep (λ r. mem r.id ids) rows) e h ∙ sym e
  | inr e ↦ elim (Bool-cases (any (run_is n) (keep (λ r. mem r.id ids) rows))) [
    | inl k ↦ cc (any-mem n ids rows k)
    | inr k ↦ k ∙ sym e
  ]
]

all-keep :
    {A : Type 0} (p q : A → Bool) (xs : List A)
    → all q (keep p xs) ≡ all (λ x. if p x then q x else true) xs
unfolding all keep
all-keep p q [] = refl
all-keep p q (x ∷ xs) = ground (arith, all-keep p q xs)

-- A run that was asked for and is open.
abbrev pub is_asked : List ℕ → Run → Bool
is_asked ids r = mem r.id ids && is_open r

-- What is written of a run that is closed.
abbrev pub closed_by : ℕ → String → Run → Run
closed_by at reason r = record r {
  outcome = some RunOutcome.interrupted;
  ended_at = some at;
  recovered_at = some at;
  recovery_reason = some (strip reason);
}

-- A recovery that succeeds changes in the table of runs exactly the open runs that it was asked for:
-- they end now, as interrupted, with the reason, and all others are as they were. Each of these
-- runs was open, and the processes of its scheduler and its adapter are known to be gone; or its row
-- is older than the schema, none of them is seen, and the owner had acknowledged that all is quiet.
pub recovered_quiet :
    (os : Processes) (owners : ℕ → Owner) (ids : List ℕ) (reason : String) (acknowledged : Bool)
    (given : List Run) (w w' : World)
    → recover_runs os owners ids reason acknowledged w ≡ (ok given, w')
    → (w'.db.runs.rows ≡ update (is_asked ids) (closed_by (w.clock w.reads) reason) w.db.runs.rows)
      × (all (λ r. if mem r.id ids then may_close os owners acknowledged r else true) w.db.runs.rows
          ≡ true)
recovered_quiet os owners ids reason acknowledged given w w' e =
    let rows = selected_runs ids w.db in
    let (known, live, free, clear, fine, same, ran) =
      recover_rows_cases os owners ids reason acknowledged rows given w w'
        (recover_runs_cases os owners ids reason acknowledged given w w' e) in
    (
      recover_each-runs (w.clock w.reads) reason rows _ w' ran
          ∙ update-same (open_among rows) (is_asked ids) (interrupt (w.clock w.reads) reason)
              w.db.runs.rows
              (λ r. ap (λ b. b && is_open r) (selected-mem r.id ids w.db.runs.rows known)),
      sym (all-keep (λ (r : Run). mem r.id ids) (may_close os owners acknowledged) w.db.runs.rows)
          ∙ rows-may_close os owners acknowledged rows live free clear fine,
    )
