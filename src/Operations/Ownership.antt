-- ===== src/Operations/Ownership.antt =====
-- nc/operations.py: `_owner_status`. What the operating system says of processes is an argument.
use neocortex.Scheduler.Handlers.{say}
use neocortex.Prelude.{
  Bool, List, Option, String, [], decimal, false, if◌then◌else◌, join, leb, map, none, null, some,
  str_eq, true, ℕ, ◌∷◌,
}

-- The columns of a run's row that name its processes.
pub record Owner : Type 0 where
  pub owner_pid : Option ℕ
  pub owner_start : Option String
  pub ownership_version : ℕ
  pub adapter_cgroup : Option String
  pub adapter_pgid : Option ℕ

-- What `os.kill(pid, 0)` and `State._process_start` say: the process is gone, it belongs to another
-- user, or it is there, with its start where that can be read.
pub data Signal : Type 0 where
  no_process forbidden : Signal
  process : Option String → Signal

-- `_adapter_cgroup_members` and `_adapter_group_members` give no list where they cannot look.
pub record Processes : Type 0 where
  pub signal : ℕ → Signal
  pub cgroup_members : String → Option (List ℕ)
  pub group_members : ℕ → Option (List ℕ)

-- The three kinds of evidence that a status text begins with.
pub data Ownership : Type 0 where
  live uncertain gone : String → Ownership

-- A text that is there and not empty.
abbrev pub truthy : Option String → Option String
truthy none = none
truthy (some s) = if str_eq s "" then none else some s

abbrev pub member_list : List ℕ → String
member_list ids = join ", " (map decimal ids)

-- The adapter's evidence, once the owner is known to be gone.
unfoldable pub cgroup_status : Processes → String → Option String → Ownership
cgroup_status os owner_gone none =
    uncertain (say ("(adapter cgroup ownership evidence is absent; " ∷ owner_gone ∷ ")" ∷ []))
cgroup_status os owner_gone (some cgroup) = elim (os.cgroup_members cgroup) [
  | none ↦ uncertain "(adapter cgroup cannot be inspected)"
  | some members ↦
      if null members
      then gone "scheduler and recorded adapter cgroup are gone"
      else live (
          say (
            "adapter process or descendant (cgroup "
            ∷ cgroup
            ∷ ": "
            ∷ member_list members
            ∷ ")"
            ∷ []))
]

unfoldable pub group_status : Processes → String → Option ℕ → Ownership
group_status os owner_gone none =
    uncertain (say ("(adapter ownership evidence is absent; " ∷ owner_gone ∷ ")" ∷ []))
group_status os owner_gone (some pgid) = elim (os.group_members pgid) [
  | none ↦ uncertain "(adapter process group cannot be inspected)"
  | some members ↦
      if null members
      then gone "scheduler and recorded adapter process group are gone"
      else live (
          say (
            "adapter process or descendant (pgrp "
            ∷ decimal pgid
            ∷ ": "
            ∷ member_list members
            ∷ ")"
            ∷ []))
]

unfoldable pub adapter_status : Processes → Owner → String → Ownership
unfolding cgroup_status group_status
adapter_status os o owner_gone =
    if leb 2 o.ownership_version
    then cgroup_status os owner_gone (truthy o.adapter_cgroup)
    else group_status os owner_gone o.adapter_pgid

-- On what the signal to the owner said.
unfoldable pub signalled : Processes → Owner → String → Signal → Ownership
unfolding adapter_status
signalled os o started no_process = adapter_status os o "owner process is gone"
signalled os o started forbidden = uncertain "(owner process cannot be inspected)"
signalled os o started (process none) = uncertain "(owner process identity cannot be inspected)"
signalled os o started (process (some current)) =
    if str_eq current started
    then live "scheduler owner process"
    else adapter_status os o "owner PID was reused; recorded owner is gone"

unfoldable pub recorded_status : Processes → Owner → Option ℕ → Option String → Ownership
unfolding signalled
recorded_status os o (some pid) (some started) = signalled os o started (os.signal pid)
recorded_status os o _ _ = uncertain "(legacy ownership evidence is absent)"

unfoldable pub owner_status : Processes → Owner → Ownership
unfolding recorded_status
owner_status os o = recorded_status os o o.owner_pid (truthy o.owner_start)

abbrev pub is_live : Ownership → Bool
is_live (live text) = true
is_live _ = false

abbrev pub is_uncertain : Ownership → Bool
is_uncertain (uncertain text) = true
is_uncertain _ = false
