-- ===== src/Operations/Import/Atomic.antt =====
-- nc/operations.py: `import_tasks` into a project, when it raises.
use neocortex.Acp.Stream.Envelope.{same}
use neocortex.Operations.Lifecycle.{project_of}
use neocortex.Operations.Import.{
  add_items, batch, check_items, import_batch, import_tasks, check_item,
}
use neocortex.State.Tasks.{
  or_empty, validate_fields, check_dependencies, check_dependency, known_project, TaskInput,
  spec_input, validate_task_fields,
}
use neocortex.Prelude.{
  Option-cases, [], ap, inl, inr, some, sym, ◌∷◌, ◌⊎◌, List, String, arith, refl, ◌∙◌, ◌≡◌,
}
use neocortex.Json.{as_strings, Fields, Json, dict}
use neocortex.State.Exec.{
  ◌>>=◌, ◌>>◌, ok, err, transaction, Error, transaction, transaction-err, ◌>>=◌, ◌>>◌, ok, err,
  Exec, Result, World, err, ok,
}

-- A computation that writes nothing.
abbrev Reads : {A : Type 0} → Exec A → World → Type 0
Reads m w = (m w).1 ≡ w

bind_split :
    {A B : Type 0} (r : Result A × World) (f : A → Exec B) (w : World)
    → r.1 ≡ w
    → ((a : A) → (f a w).1 ≡ w)
    → (((λ _. r) >>= f) w).1 ≡ w
bind_split (ok a, v) f w h k = ap (λ u. (f a u).1) h ∙ k a
bind_split (err e, v) f w h k = h

-- Two parts, of which neither writes.
>>=-Reads :
    {A B : Type 0} (m : Exec A) (f : A → Exec B) (w : World)
    → Reads m w
    → ((a : A) → Reads (f a) w)
    → Reads (m >>= f) w
>>=-Reads m f w h k = bind_split (m w) f w h k

check_item-Reads : (pid : String) (v : Json) (w : World) → Reads (check_item pid v) w
unfolding check_item
check_item-Reads pid (dict fs) w = ground arith
check_item-Reads pid _ w = refl

spec_input-Reads : (fs : Fields) (w : World) → Reads (spec_input fs) w
unfolding spec_input
spec_input-Reads fs w = ground arith

known_project-Reads : (v : Json) (w : World) → Reads (known_project v) w
unfolding known_project
known_project-Reads v w = ground arith

check_dependency-Reads :
    (ids : List String) (pid dep : String) (w : World) → Reads (check_dependency ids pid dep) w
unfolding check_dependency
check_dependency-Reads ids pid dep w = ground arith

check_dependencies-Reads :
    (ids : List String) (pid : String) (deps : List String) (w : World)
    → Reads (check_dependencies ids pid deps) w
unfolding check_dependencies
check_dependencies-Reads ids pid [] w = refl
check_dependencies-Reads ids pid (d ∷ ds) w =
    >>=-Reads (check_dependency ids pid d) (λ _. check_dependencies ids pid ds) w
      (check_dependency-Reads ids pid d w) (λ _. check_dependencies-Reads ids pid ds w)

validate_fields-Reads :
    (i : TaskInput) (ids : List String) (pid : String) (w : World)
    → Reads (validate_fields i ids pid) w
unfolding validate_fields
validate_fields-Reads i ids pid w = elim (Option-cases (as_strings (or_empty i.depends_on))) [
  | inl e ↦ ground (arith, e)
  | inr (deps, e) ↦ ground (arith, e, check_dependencies-Reads ids pid deps w)
]

validate-Reads :
    (i : TaskInput) (ids : List String) (w : World) → Reads (validate_task_fields i ids) w
unfolding validate_task_fields
validate-Reads i ids w =
    >>=-Reads (known_project i.project_id) (validate_fields i ids) w
      (known_project-Reads i.project_id w) (λ pid. validate_fields-Reads i ids pid w)

project_of-Reads : (pid : String) (w : World) → Reads (project_of pid) w
unfolding project_of
project_of-Reads pid w = ground arith

abbrev check_fields : String → List Json → Fields → Exec (Unit {0})
check_fields pid vs fs = do i ← spec_input fs; _ ← validate_task_fields i []; check_items pid vs

check_items-Reads : (pid : String) (vs : List Json) (w : World) → Reads (check_items pid vs) w
unfolding check_items
check_items-Reads pid [] w = refl
check_items-Reads pid (v ∷ vs) w =
    >>=-Reads (check_item pid v) (check_fields pid vs) w (check_item-Reads pid v w) λ fs.
      >>=-Reads (spec_input fs) (λ i. validate_task_fields i [] >>= λ _. check_items pid vs) w
        (spec_input-Reads fs w)
        λ i.
          >>=-Reads (validate_task_fields i []) (λ _. check_items pid vs) w (validate-Reads i [] w)
            λ _. check_items-Reads pid vs w

-- Where the two parts before a transaction write nothing, an error leaves the database alone.
raised_split :
    {A B : Type 0} (r : Result A × World) (f : A → Exec B) (w w' : World) (x : Error)
    → r.1 ≡ w
    → ((λ _. r) >>= f) w ≡ (err x, w')
    → (w' ≡ w) ⊎ ((a : A) × (f a w ≡ (err x, w')))
raised_split (ok a, v) f w w' x h e = inr (a, ap (f a) (sym h) ∙ e)
raised_split (err y, v) f w w' x h e = inl (ap (λ r. r.1) (sym e) ∙ h)

-- An import into a project that raises, at the checks or at whichever item, creates no task and leaves
-- the database as it was.
pub failed_import_atomic :
    (pid : String) (specs : Json) (x : Error) (w w' : World)
    → import_tasks specs (some pid) w ≡ (err x, w')
    → w'.db ≡ w.db
unfolding import_tasks import_batch
failed_import_atomic pid specs x w w' e =
    let rest = check_items pid (batch specs) >> transaction (add_items (batch specs)) in
    elim (raised_split (project_of pid w) (λ _. rest) w w' x (project_of-Reads pid w) e) [
      | inl same ↦ ap (λ v. v.db) same
      | inr (p, h) ↦
          elim (raised_split (check_items pid (batch specs) w)
            (λ _. transaction (add_items (batch specs))) w w' x
            (check_items-Reads pid (batch specs) w) h) [
              | inl same ↦ ap (λ v. v.db) same
              | inr (_, k) ↦ transaction-err (add_items (batch specs)) w w' x k
            ]
    ]
