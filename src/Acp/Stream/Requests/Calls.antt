-- ===== src/Acp/Stream/Requests/Calls.antt =====
-- nc/acp_stream.py: the calls of a caller, in any order.
use neocortex.Acp.Stream.Requests.Rounds.{decode_state, wait_loop_found, wait_loop_pumps}
use neocortex.Acp.Stream.Frame.{read_frame}
use neocortex.Acp.Stream.Requests.Rows.{keep-IsTable, length-keep}
use neocortex.Acp.Stream.Requests.{
  decode, dispatch, notify, of_id, pop_pending, pump, pump_within, receive, request, response_of,
  send_request, wait_for, wait_loop,
}
use neocortex.Json.{Json}
use neocortex.Acp.Stream.{
  ◌>>◌, pure, Conn, Flushed, Piece, Settings, Watch, Wrote, bound_deadline, unread,
}
use neocortex.Prelude.{
  Bool-cases, List, Option, Option-cases, String, [], any, arith, false, if◌then◌else◌, inl, inr,
  length, suc, true, zero, ℕ, ◌∷◌,
}
use neocortex.Acp.Stream.Requests.Sound.{
  >>=-keeps, IsSound, dispatch-IsSound, notify-IsSound, send_request-IsSound,
}

receive-IsSound : (s : Settings) (w : Watch) (c : Conn) → IsSound s c → IsSound s (receive s w c).1
unfolding receive read_frame
receive-IsSound s w c t =
    >>=-keeps (IsSound s) (IsSound s) (read_frame s w) (decode s) c t (λ d h. h)
      (λ raw d h. rw (decode_state s raw d) h)

pub pump-IsSound : (s : Settings) (w : Watch) (c : Conn) → IsSound s c → IsSound s (pump s w c).1
unfolding pump pump_within
pump-IsSound s w c t =
    let u = bound_deadline s w in
    >>=-keeps (IsSound s) (IsSound s) (receive s u) (λ m. dispatch s u m.kind m.value >> pure m) c
      (receive-IsSound s u c t) (λ d h. h)
      (λ m d h.
        >>=-keeps (IsSound s) (IsSound s) (dispatch s u m.kind m.value) (λ _. pure m) d
          (dispatch-IsSound s u m.kind m.value d h) (λ e k. k) (λ _ e k. k))

pop_pending-IsSound :
    (s : Settings) (id : ℕ) (c : Conn) → IsSound s c → IsSound s (pop_pending id c)
unfolding pop_pending
pop_pending-IsSound s id c (few, short, t) = (
  omega (arith, length-keep (λ p. if of_id id p then false else true) c.pending),
  short,
  keep-IsTable c.next_id id c.pending t,
)

wait_loop-IsSound :
    (s : Settings) (w : Watch) (f id : ℕ) (c : Conn)
    → IsSound s c
    → IsSound s (wait_loop s w f id c).1
wait_loop-IsSound s w zero id c t = unfold wait_loop in t
wait_loop-IsSound s w (suc f) id c t = elim (Option-cases (response_of id c.pending)) [
  | inr (fs, h) ↦ rw (wait_loop_found s w f id c fs h) (pop_pending-IsSound s id c t)
  | inl h ↦ rw (wait_loop_pumps s w f id c h) (
      >>=-keeps (IsSound s) (IsSound s) (pump s w) (λ _. wait_loop s w f id) c
        (pump-IsSound s w c t) (λ d k. k) (λ m d k. wait_loop-IsSound s w f id d k))
]

wait_for-IsSound :
    (s : Settings) (w : Watch) (id : ℕ) (c : Conn) → IsSound s c → IsSound s (wait_for s w id c).1
unfolding wait_for
wait_for-IsSound s w id c t = elim (Bool-cases (any (of_id id) c.pending)) [
  | inl h ↦
      rw (wait_for, h) (wait_loop-IsSound s (bound_deadline s w) (suc (length (unread c))) id c t)
  | inr h ↦ rw (wait_for, h) t
]

-- A call, with its deadline and cancellation.
pub data Call : Type 0 where
  sends : String → Option Json → Option Json → Call
  notifies : String → Option Json → Call
  pumps : Call
  waits : ℕ → Call
  requests : String → Option Json → Option Json → Call

-- The state after the call, however it ends.
unfoldable pub run_call : Settings → Watch × Call → Conn → Conn
unfolding send_request notify pump wait_for request
run_call s (w, sends method params asked) c = (send_request s w method params asked c).1
run_call s (w, notifies method params) c = (notify s w method params c).1
run_call s (w, pumps) c = (pump s w c).1
run_call s (w, waits id) c = (wait_for s w id c).1
run_call s (w, requests method params asked) c = (request s w method params asked c).1

unfoldable pub run_calls : Settings → List (Watch × Call) → Conn → Conn
unfolding run_call
run_calls s [] c = c
run_calls s (call ∷ calls) c = run_calls s calls (run_call s call c)

-- A new connection on streams that will do what the lists say.
abbrev pub connected : List Piece → List Wrote → List Flushed → Conn
connected reads writes flushes = record {
  buffer = [];
  pending = [];
  diagnostics = [];
  next_id = 1;
  reads = reads;
  writes = writes;
  flushes = flushes;
  sent = [];
  heard = [];
  moment = 0;
}

request-IsSound :
    (s : Settings) (w : Watch) (method : String) (params asked : Option Json) (c : Conn)
    → IsSound s c
    → IsSound s (request s w method params asked c).1
unfolding request
request-IsSound s w method params asked c t =
    >>=-keeps (IsSound s) (IsSound s) (send_request s (bound_deadline s w) method params asked)
      (wait_for s (bound_deadline s w)) c
      (send_request-IsSound s (bound_deadline s w) method params asked c t) (λ d h. h)
      (λ id d h. wait_for-IsSound s (bound_deadline s w) id d h)

run_call-IsSound :
    (s : Settings) (call : Watch × Call) (c : Conn) → IsSound s c → IsSound s (run_call s call c)
unfolding run_call
run_call-IsSound s (w, sends method params asked) c t =
    send_request-IsSound s w method params asked c t
run_call-IsSound s (w, notifies method params) c t = notify-IsSound s w method params c t
run_call-IsSound s (w, pumps) c t = pump-IsSound s w c t
run_call-IsSound s (w, waits id) c t = wait_for-IsSound s w id c t
run_call-IsSound s (w, requests method params asked) c t =
    request-IsSound s w method params asked c t

run_calls_from :
    (s : Settings) (calls : List (Watch × Call)) (c : Conn)
    → IsSound s c
    → IsSound s (run_calls s calls c)
unfolding run_calls
run_calls_from s [] c t = t
run_calls_from s (call ∷ calls) c t =
    run_calls_from s calls (run_call s call c) (run_call-IsSound s call c t)

-- Whatever a caller calls on a new connection, in any order, whatever the peer sends and however the
-- streams behave: the table of requests and the notes stay within their bounds, every id in the table
-- is below the next one, no id stands in it twice, and a response that is stored has the id of its
-- request.
pub run_calls-IsSound :
    (s : Settings) (calls : List (Watch × Call)) (reads : List Piece) (writes : List Wrote)
    (flushes : List Flushed)
    → IsSound s (run_calls s calls (connected reads writes flushes))
run_calls-IsSound s calls reads writes flushes =
    run_calls_from s calls (connected reads writes flushes) (omega arith, omega arith, tt)
