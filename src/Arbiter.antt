-- ===== src/Arbiter.antt =====
-- nc/arbiter.py: acceptance criteria and check results, and what the scheduler gets from git and
-- from child processes, which are not modelled.
use neocortex.State.Tasks.{item}
use neocortex.State.Exec.{Error, Result}
use neocortex.Prelude.{
  Bool, List, Option, String, [], drop_chars, if◌then◌else◌, join, map, none, some, starts_with,
  strip, suffix, text_append, ◌∷◌,
}

pub record CheckResult : Type 0 where
  pub command : String
  pub passed : Bool
  pub output : String

unfoldable pub render : CheckResult → String
render r =
    text_append (if r.passed then "[PASS] " else "[FAIL] ")
      (text_append r.command (text_append "\n" (suffix 1500 (strip r.output))))

unfoldable pub checks_summary : List CheckResult → String
unfolding render
checks_summary [] = "(no automated checks defined)"
checks_summary (r ∷ rs) = join "\n" (map render (r ∷ rs))

-- The command of a criterion that starts with `$`.
unfoldable pub command_of : String → Option String
command_of item =
    let stripped = strip item in
    if starts_with stripped "$" then some (strip (drop_chars 1 stripped)) else none

-- `parse_acceptance`: the shell commands and the prose, each in order.
unfoldable pub parse_acceptance : List String → List String × List String
unfolding command_of
parse_acceptance [] = ([], [])
parse_acceptance (item ∷ rest) =
    let (commands, prose) = parse_acceptance rest in
    elim (command_of item) [
      | some c ↦ (c ∷ commands, prose)
      | none ↦ (commands, strip item ∷ prose)
    ]

-- How `integrate` ends: a commit, a conflict in some files, or another failure of git.
pub data Merge : Type 0 where
  merged : String → Merge
  conflict : List String → Merge
  merge_failed : String → Merge

-- What the calls of git and of the acceptance commands return or raise during one turn.
pub record Arbiter : Type 0 where
  pub has_commits : Result Bool
  pub run_checks : List String → List CheckResult
  pub integrate : Merge
  pub base_branch : Result String
  -- The error text that `mirror` returns, or that of its exception; empty for a success.
  pub mirror : String
  -- The text of the exception of `remove_worktree`, if it raises.
  pub remove_worktree : Option String
  pub ensure_worktree : Result (Unit {0})
  -- Python's `repr` of a text, and `str` and `repr` of an exception.
  pub repr : String → String
  pub error_str : Error → String
  pub error_repr : Error → String
