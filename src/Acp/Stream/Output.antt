-- ===== src/Acp/Stream/Output.antt =====
-- nc/acp_stream.py: `_write_operation`, `_flush` and `_write`.
pub mod Loop
pub mod Whole
use neocortex.Prelude.{
  List, Option, [], drop, if◌then◌else◌, length, ltb, none, some, suc, take, ℕ, ◌++◌, ◌+◌, ◌==◌,
  ◌∷◌,
}
use neocortex.Json.{Json}
use neocortex.Acp.Stream.{
  Outcome, ◌>>=◌, ◌>>◌, or_raise, raise_if, waiting, raised, Flushed, Io, Settings, StreamError,
  Watch, Wrote, check, check_after, deadline_support, flush_broken, flush_stopped, flushed,
  returned, unsupported, would_block, write_blocked, write_broken, write_failed, write_stopped,
  wrote,
}

-- The bytes that an operation takes of those that are left.
abbrev pub taken : Wrote → List ℕ → List ℕ
taken (wrote n) left = take n left
taken would_block left = []
taken (write_broken n) left = take n left
taken (write_stopped n e) left = take n left

-- What the loop raises after an operation; `none` where the operation took bytes.
unfoldable pub write_stop : Settings → Watch → ℕ → Wrote → Option StreamError
unfolding check_after
write_stop s w n (write_broken k) = some (write_failed "ACP write failed")
write_stop s w n (write_stopped k e) = some e
write_stop s w n would_block = elim (check_after s.writer w n) [
  | some e ↦ some e
  | none ↦ some write_blocked
]
write_stop s w n (wrote k) = elim (check_after s.writer w n) [
  | some e ↦ some e
  | none ↦ if k == 0 then some write_blocked else none
]

-- Where a call of `_write` stands.
pub record Sending : Type 0 where
  pub outcome : Outcome (Unit {0})
  pub sent : List ℕ
  pub writes : List Wrote
  pub moment : ℕ

-- A round of the loop up to its write.
unfoldable pub before_write : Settings → Watch → ℕ → Option StreamError
unfolding check unsupported
before_write s w n = elim (check w n) [
  | some e ↦ some e
  | none ↦ if unsupported s.writer w then some deadline_support else none
]

-- The loop on the bytes that are left, from moment n on.
unfoldable pub write_loop : Settings → Watch → ℕ → List ℕ → List ℕ → List Wrote → Sending
unfolding before_write write_stop
write_loop s w n [] sent ops = record {
  outcome = returned tt;
  sent = sent;
  writes = ops;
  moment = n;
}
write_loop s w n (b ∷ bs) sent [] = elim (before_write s w n) [
  | some e ↦ record { outcome = raised e; sent = sent; writes = []; moment = suc n }
  | none ↦ record { outcome = waiting; sent = sent; writes = []; moment = suc n }
]
write_loop s w n (b ∷ bs) sent (op ∷ ops) = elim (before_write s w n) [
  | some e ↦ record { outcome = raised e; sent = sent; writes = op ∷ ops; moment = suc n }
  | none ↦ elim (write_stop s w (suc n) op) [
    | some e ↦ record {
      outcome = raised e;
      sent = sent ++ taken op (b ∷ bs);
      writes = ops;
      moment = n + 2;
    }
    | none ↦
        write_loop s w (n + 2) (drop (length (taken op (b ∷ bs))) (b ∷ bs))
          (sent ++ taken op (b ∷ bs)) ops
  ]
]

-- What a call of `flush` with a check after it comes to.
unfoldable pub flush_outcome : Settings → Watch → ℕ → Flushed → Outcome (Unit {0})
unfolding check_after
flush_outcome s w n flushed = elim (check_after s.writer w n) [
  | some e ↦ raised e
  | none ↦ returned tt
]
flush_outcome s w n flush_broken = raised (write_failed "ACP flush failed")
flush_outcome s w n (flush_stopped e) = raised e

-- `_flush`
unfoldable pub flush : Settings → Watch → Io (Unit {0})
unfolding unsupported flush_outcome
flush s w c = if unsupported s.writer w then (raised deadline_support, c) else elim c.flushes [
  | [] ↦ (waiting, c)
  | f ∷ fs ↦ (flush_outcome s w c.moment f, record c { flushes = fs; moment = suc c.moment })
]

-- The loop as an operation of the connection.
unfoldable pub write_data : Settings → Watch → List ℕ → Io (Unit {0})
unfolding write_loop
write_data s w left c =
    let r = write_loop s w c.moment left c.sent c.writes in
    (r.outcome, record c { sent = r.sent; writes = r.writes; moment = r.moment })

-- `_check` as an operation of the connection.
unfoldable pub check_now : Watch → Io (Unit {0})
unfolding check
check_now w c = (
  elim (check w c.moment) [ none ↦ returned tt | some e ↦ raised e ],
  record c { moment = suc c.moment },
)

-- `_write` from the raw frame on.
unfoldable pub write_raw : Settings → Watch → List ℕ → Io (Unit {0})
unfolding write_data flush
write_raw s w raw = do
  raise_if (ltb s.max_message_bytes (length raw))
      (write_failed "outgoing ACP frame exceeds message limit")
  write_data s w (raw ++ 10 ∷ [])
  flush s w

-- `_write` after its first check.
unfoldable pub write_checked : Settings → Watch → Json → Io (Unit {0})
unfolding write_raw
write_checked s w message = do
  raw ← or_raise (s.print message) (write_failed "message is not JSON serializable")
  write_raw s w raw

-- `_write`
unfoldable pub write : Settings → Watch → Json → Io (Unit {0})
unfolding check_now write_checked
write s w message = do check_now w; write_checked s w message
