-- ===== src/BackupWorker/Coverage.antt =====
-- nc/backup_worker.py: what `run_once` acknowledges.
use neocortex.BackupWorker.{begin_attempt, with_events, Host, is_due, run_once}
use neocortex.Prelude.{if◌then◌else◌, Option, refl, arith, none, some, true, ℕ, ◌+◌, ◌<◌, ◌≡◌, ◌≤◌}
use neocortex.State.Tables.{BackupState}

-- The generations are ordered.
abbrev pub IsOrdered : BackupState → Type 0
IsOrdered b = b.acknowledged_generation ≤ b.dirty_generation

-- A run never acknowledges an event that it did not see: what was recorded while the snapshot was
-- staged stays pending, the acknowledged generation never falls, and the two stay in order.
pub run_once_keeps_events :
    (second : ℕ) (host : Host) (at : ℕ) (b : BackupState)
    → IsOrdered b
    → let b' = (run_once second host at b).0 in
      IsOrdered b'
      × (b.acknowledged_generation ≤ b'.acknowledged_generation)
      × (b'.acknowledged_generation ≤ b.dirty_generation)
      × (b'.dirty_generation
          ≡ b.dirty_generation + (if (run_once second host at b).1 then host.events else 0))
unfolding run_once
run_once_keeps_events second host at b h = ground arith

-- A pending event, a usable destination and a snapshot that succeeds: every event recorded before
-- the run is covered, the success is recorded, and no error remains.
pub run_once_covers :
    (second : ℕ) (host : Host) (at : ℕ) (b : BackupState)
    → host.available ≡ true
    → host.destination ≡ none
    → host.snapshot ≡ none
    → b.acknowledged_generation < b.dirty_generation
    → let b' = (run_once second host at b).0 in
      (b'.acknowledged_generation ≡ b.dirty_generation)
      × (b'.last_success_at ≡ some at)
      × (b'.last_error ≡ none)
unfolding run_once
run_once_covers second host at b up dest snap lt = ground arith

is_due_later :
    (second at later : ℕ) (o : Option ℕ)
    → at ≤ later
    → is_due second at o ≡ true
    → is_due second later o ≡ true
is_due_later second at later none h d = refl
is_due_later second at later (some t) h d = ground arith

fallback_result :
    (second : ℕ) (host : Host) (at : ℕ) (b : BackupState)
    → host.available ≡ true
    → host.destination ≡ none
    → host.snapshot ≡ none
    → b.acknowledged_generation ≡ b.dirty_generation
    → is_due second at b.last_success_at ≡ true
    → run_once second host at b ≡ (with_events host.events (begin_attempt at b), true)
unfolding run_once
fallback_result second host at b up dest snap e due = ground arith

-- A successful recovery-point snapshot with no event pending is not recorded: the run attempts it,
-- `last_success_at` and the acknowledged generation stay as they were, and at any later time the
-- fallback is due again.
pub fallback_not_recorded :
    (second : ℕ) (host : Host) (at later : ℕ) (b : BackupState)
    → host.available ≡ true
    → host.destination ≡ none
    → host.snapshot ≡ none
    → b.acknowledged_generation ≡ b.dirty_generation
    → is_due second at b.last_success_at ≡ true
    → at ≤ later
    → let r = run_once second host at b in
      (r.1 ≡ true)
      × (r.0.last_success_at ≡ b.last_success_at)
      × (r.0.acknowledged_generation ≡ b.acknowledged_generation)
      × (is_due second later r.0.last_success_at ≡ true)
unfolding run_once
fallback_not_recorded second host at later b up dest snap e due h =
    rw (fallback_result second host at b up dest snap e due)
      (refl, refl, refl, is_due_later second at later b.last_success_at h due)
