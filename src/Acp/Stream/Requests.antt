-- ===== src/Acp/Stream/Requests.antt =====
-- nc/acp_stream.py: `send_request`, `notify`, `_answer_request`, `pump`, `wait_for` and `request`.
-- The handlers of the caller do not use the connection.
pub mod Rows
pub mod Sound
pub mod Calls
pub mod Rounds
pub mod Answers
pub mod Arrives
pub mod Written
use neocortex.Acp.Stream.Output.{write}
use neocortex.Acp.Stream.Frame.{read_frame}
use neocortex.Prelude.Int.{negsuc, pos}
use neocortex.Json.{Fields, Json, dict, end, field, get, int, int_eq, is_str, str}
use neocortex.Acp.Stream.{
  StreamError, unread, stream, add_note, ◌>>=◌, ◌>>◌, or_raise, raise_if, waiting, raised, pure,
  raise, Conn, Io, Pending, Settings, Watch, bound_deadline, malformed, pending_limit, protocol,
  returned, value_error,
}
use neocortex.Prelude.{
  null, Bool, List, Option, String, [], any, false, find, if◌then◌else◌, keep, leb, length, ltb,
  none, some, suc, true, update, zero, ℕ, ◌++◌, ◌==◌, ◌∷◌,
}
use neocortex.Acp.Stream.Envelope.{
  response, Kind, invalid, Validated, AcpMessage, valid, validate_outbound, validated,
}

-- The host's ids are positive integers; a peer may send any valid id.
abbrev pub is_id : Json → ℕ → Bool
is_id (int (pos n)) m = n == m
is_id _ m = false

abbrev pub find_pending : Json → List Pending → Option Pending
find_pending id = find (λ p. is_id id p.id)

-- `{"jsonrpc": "2.0", "id": ..., "method": ...}` with `params` where there are any.
abbrev pub with_params : Option Json → Fields
with_params none = end
with_params (some v) = field "params" v end

unfoldable pub request_message : ℕ → String → Option Json → Json
request_message n method params = dict (
    field "jsonrpc" (str "2.0")
      (field "id" (int (pos n)) (field "method" (str method) (with_params params))))

abbrev pub new_pending : ℕ → Conn → Conn
new_pending n c = record c { pending = c.pending ++ (record { id = n; response = none }) ∷ [] }

abbrev pub change : (Conn → Conn) → Io (Unit {0})
change f c = (returned tt, f c)

-- From the id on: the counter moves before the write, the table only after it.
unfoldable pub send_next : Settings → Watch → String → Option Json → ℕ → Io ℕ
unfolding write request_message
send_next s w method params n = do
  change (λ c. record c { next_id = suc n })
  write s w (request_message n method params)
  change (new_pending n)
  pure n

abbrev pub asked_id : Option Json → ℕ → Bool
asked_id none n = true
asked_id (some v) n = int_eq (pos n) v

-- A check of the arguments before the rest.
abbrev pub refuse_first : {A : Type 0} → Option StreamError → Io A → Io A
refuse_first (some e) m = raise e
refuse_first none m = m

-- `send_request` on a valid method and its parameters.
unfoldable pub send_valid : Settings → Watch → String → Option Json → Option Json → Io ℕ
unfolding send_next
send_valid s w method params asked c =
    if leb s.max_pending_requests (length c.pending)
    then (raised pending_limit, c)
    else if asked_id asked c.next_id
    then send_next s w method params c.next_id c
    else (raised (value_error "host request ids are generated monotonically"), c)

unfoldable pub send_request : Settings → Watch → String → Option Json → Option Json → Io ℕ
unfolding bound_deadline validate_outbound send_valid
send_request s w method params asked =
    refuse_first (validate_outbound method params)
      (send_valid s (bound_deadline s w) method params asked)

-- `notify` takes no cancellation.
unfoldable pub notify : Settings → Watch → String → Option Json → Io (Unit {0})
unfolding bound_deadline validate_outbound write
notify s w method params = refuse_first (validate_outbound method params) (
    write s (bound_deadline s (record w { is_cancelled = none }))
      (dict (field "jsonrpc" (str "2.0") (field "method" (str method) (with_params params)))))

abbrev pub response_message : Json → String → Json → Json
response_message id key v = dict (field "jsonrpc" (str "2.0") (field "id" id (field key v end)))

-- The code is -(n + 1).
abbrev pub error_object : ℕ → String → Json
error_object n text = dict (field "code" (int (negsuc n)) (field "message" (str text) end))

-- The answer of a connection without a request handler.
unfoldable pub closed_answer : Json → Json → Json
closed_answer id method =
    if is_str "session/request_permission" method
    then response_message id "result"
        (dict (field "outcome" (dict (field "outcome" (str "cancelled") end)) end))
    else if is_str "elicitation/create" method
    then response_message id "result"
        (dict (field "action" (str "cancel") (field "content" Json.null end)))
    else response_message id "error" (error_object 32600 "Method not supported")

-- What `_answer_request` writes after the handler was called.
unfoldable pub handled_answer : Json → Option Json → Json
handled_answer id none = response_message id "error" (error_object 32602 "Client request failed")
handled_answer id (some v) = response_message id "result" v

unfoldable pub answer_by : Option (Fields → Option Json) → Fields → Json
unfolding closed_answer handled_answer
answer_by none fs = closed_answer (get "id" fs) (get "method" fs)
answer_by (some f) fs = handled_answer (get "id" fs) (f fs)

-- What `_answer_request` writes.
unfoldable pub answer : Settings → Fields → Json
unfolding answer_by
answer s fs = answer_by s.request_handler fs

-- The row of the response's id, or none.
unfoldable pub take_response : Settings → Fields → Option Pending → Conn → Conn
unfolding add_note
take_response s fs none c = add_note s "late or unexpected response id" c
take_response s fs (some p) c = elim p.response [
  | some old ↦ add_note s "duplicate response id" c
  | none ↦ record c {
    pending = update (λ q. q.id == p.id) (λ q. record q { response = some fs }) c.pending;
  }
]

-- The handler's exception goes through `pump`.
unfoldable pub notified : Option (Fields → Option StreamError) → Fields → Io (Unit {0})
notified none fs c = (returned tt, c)
notified (some f) fs c = (
  elim (f fs) [ none ↦ returned tt | some e ↦ raised e ],
  record c { heard = c.heard ++ fs ∷ [] },
)

-- What `pump` does with a message of a kind.
unfoldable pub dispatch : Settings → Watch → Kind → Fields → Io (Unit {0})
unfolding take_response answer write notified
dispatch s w Kind.response fs =
    change λ c. take_response s fs (find_pending (get "id" fs) c.pending) c
dispatch s w Kind.notification fs = notified s.notification_handler fs
dispatch s w Kind.request fs = write s w (answer s fs)

abbrev pub checked : Validated → Io AcpMessage
checked (valid m) = pure m
checked (invalid text) = raise (protocol text)

-- A frame that has been read, up to its message.
unfoldable pub decode : Settings → List ℕ → Io AcpMessage
unfolding validated
decode s raw = do
  raise_if (ltb s.max_message_bytes (length raw)) (malformed "ACP frame exceeds message limit")
  value ← or_raise (s.parse raw) (malformed "ACP frame is not valid UTF-8 JSON")
  checked (validated value)

-- `pump` up to the message.
unfoldable pub receive : Settings → Watch → Io AcpMessage
unfolding read_frame decode
receive s w = do raw ← read_frame s w; decode s raw

-- `pump`, with the bounded deadline.
unfoldable pub pump_within : Settings → Watch → Io AcpMessage
unfolding receive dispatch
pump_within s w = do m ← receive s w; dispatch s w m.kind m.value; pure m

unfoldable pub pump : Settings → Watch → Io AcpMessage
unfolding pump_within bound_deadline
pump s w = pump_within s (bound_deadline s w)

abbrev pub of_id : ℕ → Pending → Bool
of_id id p = p.id == id

-- `self._pending[request_id]`
unfoldable pub response_of : ℕ → List Pending → Option Fields
response_of id ps = elim (find (of_id id) ps) [ none ↦ none | some p ↦ p.response ]

-- `self._pending.pop(request_id)`
unfoldable pub pop_pending : ℕ → Conn → Conn
pop_pending id c = record c { pending = keep (λ p. if of_id id p then false else true) c.pending }

-- The loop of `wait_for` on fuel.
unfoldable pub wait_loop : Settings → Watch → ℕ → ℕ → Io Fields
unfolding pump response_of pop_pending
wait_loop s w zero id c = (waiting, c)
wait_loop s w (suc f) id c = elim (response_of id c.pending) [
  | some fs ↦ (returned fs, pop_pending id c)
  | none ↦ (pump s w >>= λ m. wait_loop s w f id) c
]

-- Each round reads a frame, so the fuel is one more than the bytes that are left.
unfoldable pub wait_for : Settings → Watch → ℕ → Io Fields
unfolding wait_loop bound_deadline stream
wait_for s w id c =
    if any (of_id id) c.pending
    then wait_loop s (bound_deadline s w) (suc (length (unread c))) id c
    else (raised (value_error "request id is not pending"), c)

unfoldable pub request : Settings → Watch → String → Option Json → Option Json → Io Fields
unfolding send_request wait_for
request s w method params asked = do
  id ← send_request s (bound_deadline s w) method params asked
  wait_for s (bound_deadline s w) id
