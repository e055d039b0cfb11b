-- ===== src/BackupWorker.antt =====
-- nc/backup_worker.py: one run of the unattended backup, and its status report. The database handle,
-- the destination check and the snapshot are arguments; events that the foreground records while the
-- snapshot is staged are counted by one more.
use neocortex.Prelude.{
  Bool, Option, String, false, if◌then◌else◌, leb, ltb, none, some, str_eq, true, ℕ, ◌&&◌, ◌*◌, ◌+◌,
}
use neocortex.State.Tables.{BackupState}
pub mod Coverage

abbrev pub fallback_ticks : ℕ → ℕ
fallback_ticks second = 15 * 60 * second

abbrev pub stale_ticks : ℕ → ℕ
stale_ticks second = 30 * 60 * second

-- `row["last_success_at"] is None or now - last_success_at >= FALLBACK_SECONDS`, for a clock with
-- `second` ticks in a second.
abbrev pub is_due : ℕ → ℕ → Option ℕ → Bool
is_due second at none = true
is_due second at (some t) = leb (t + fallback_ticks second) at

-- What the outside gives to one run.
pub record Host : Type 0 where
  -- `backup_state` could be opened and read.
  pub available : Bool
  -- The text of the exception of `validate_destination`, if it raises.
  pub destination : Option String
  -- The text of the exception of `backup`, if it raises.
  pub snapshot : Option String
  -- Events recorded while `backup` ran.
  pub events : ℕ

abbrev pub with_events : ℕ → BackupState → BackupState
with_events n b = record b { dirty_generation = b.dirty_generation + n }

abbrev pub refuse_destination : ℕ → String → BackupState → BackupState
refuse_destination at text b = record b { last_attempt_at = some at; last_error = some text }

abbrev pub begin_attempt : ℕ → BackupState → BackupState
begin_attempt at b = record b { last_attempt_at = some at; last_error = none }

-- The last update, `WHERE acknowledged_generation < generation`.
abbrev pub acknowledge : ℕ → ℕ → BackupState → BackupState
acknowledge generation at b =
    if ltb b.acknowledged_generation generation
    then record b {
      acknowledged_generation = generation;
      last_success_at = some at;
      last_error = none;
    }
    else b

-- The attempt: the generation was read before the snapshot was staged.
unfoldable pub attempt : Host → ℕ → ℕ → BackupState → BackupState
attempt host generation at b =
    let staged = with_events host.events (begin_attempt at b) in
    elim host.snapshot [
      | some text ↦ record staged { last_error = some text }
      | none ↦ acknowledge generation at staged
    ]

-- The new row, and whether a snapshot was attempted.
unfoldable pub run_once : ℕ → Host → ℕ → BackupState → BackupState × Bool
unfolding attempt
run_once second host at b =
    if host.available
    then elim host.destination [
      | some text ↦ (refuse_destination at text b, false)
      | none ↦
          if leb b.dirty_generation b.acknowledged_generation
            && (if is_due second at b.last_success_at then false else true)
          then (b, false)
          else (attempt host b.dirty_generation at b, true)
    ]
    else (b, false)

abbrev pub no_error : Option String → Bool
no_error none = true
no_error (some s) = str_eq s ""

-- `age <= STALE_SECONDS`; a clock that went back gives age 0.
abbrev pub is_fresh : ℕ → ℕ → Option ℕ → Bool
is_fresh second at none = false
is_fresh second at (some t) = leb at (t + stale_ticks second)

-- The second result of `status`.
unfoldable pub is_healthy : ℕ → Host → ℕ → BackupState → Bool
is_healthy second host at b =
    host.available
    && (elim host.destination [ none ↦ true | some text ↦ false ])
    && is_fresh second at b.last_success_at
    && no_error b.last_error

-- The `pending` entry of `status`.
unfoldable pub is_pending_backup : BackupState → Bool
is_pending_backup b = ltb b.acknowledged_generation b.dirty_generation
