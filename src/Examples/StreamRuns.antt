-- ===== src/Examples/StreamRuns.antt =====
-- Inputs of the theorems on the ACP stream: a peer's reply in two pieces, and a request of the peer.
use neocortex.Acp.Stream.Output.Loop.{SendsPrefix}
use neocortex.Acp.Stream.Requests.Arrives.{Arrives, answers, passes, wait_for_delivers}
use neocortex.Acp.Stream.Requests.Written.{answer-IsResponse}
use neocortex.Acp.Stream.Output.{write}
use neocortex.Acp.Stream.Requests.Answers.{request-Answered, wait_for_ends}
use neocortex.Acp.Stream.RoundTrip.{receive-write}
use neocortex.Acp.Stream.Frame.Calm.{read_frame_lem}
use neocortex.Prelude.Int.{pos}
use neocortex.Acp.Stream.Requests.{
  answer, pump, request, send_request, is_id, of_id, receive, wait_for, wait_loop,
}
use neocortex.Acp.Stream.Frame.{finish_line, read_frame, received, split_line, strip_cr}
use neocortex.Acp.Stream.Requests.Calls.{
  connected, pumps, requests, run_calls, run_calls-IsSound, waits,
}
use neocortex.Acp.Stream.Output.Whole.{write-SendsPrefix}
use neocortex.Prelude.{
  ◌++◌, find, keep, update, ◌&&◌, ◌==◌, List, Option, [], any, arith, false, if◌then◌else◌, none,
  refl, some, true, ℕ, ◌∷◌, ◌≡◌,
}
use neocortex.Acp.Stream.Envelope.{valid, Kind, validated}
use neocortex.Acp.Stream.Requests.Sound.{IsSound}
use neocortex.Json.{Fields, Json, bool, dict, end, field, fields_eq, get, int, json_eq, lookup, str}
use neocortex.Acp.Stream.{
  raised, Outcome, malformed, Conn, Piece, Settings, Watch, bound_deadline, check, check_after,
  chunk, flushed, in_memory, returned, stream, unread, unsupported, wrote,
}

-- `{"jsonrpc": "2.0", "id": 1, "result": true}`
abbrev reply : Fields
reply = field "jsonrpc" (str "2.0") (field "id" (int (pos 1)) (field "result" (bool true) end))

-- `{"jsonrpc": "2.0", "method": "session/update"}`
abbrev news : Fields
news = field "jsonrpc" (str "2.0") (field "method" (str "session/update") end)

abbrev toy_print : Json → Option (List ℕ)
toy_print v = some (if json_eq v (dict reply) then 1 ∷ 2 ∷ [] else 3 ∷ [])

abbrev toy_parse : List ℕ → Option Json
toy_parse (a ∷ b ∷ []) = if a == 1 && b == 2 then some (dict reply) else none
toy_parse (a ∷ []) = if a == 9 then some (dict news) else none
toy_parse _ = none

abbrev settings : Settings
settings = record {
  reader = in_memory;
  writer = in_memory;
  max_message_bytes = 8;
  max_pending_requests = 2;
  max_diagnostics = 1;
  default_deadline = some 50;
  parse = toy_parse;
  print = toy_print;
  request_handler = none;
  notification_handler = none;
}

-- The clock stays before the deadline.
abbrev patient : Watch
patient = record { deadline = some 60; clock = λ n. 7; is_cancelled = none }

abbrev pieces : List Piece
pieces = chunk (1 ∷ []) ∷ chunk (2 ∷ 10 ∷ 5 ∷ []) ∷ []

abbrev fresh : Conn
fresh = connected pieces (wrote 1 ∷ wrote 9 ∷ []) (flushed ∷ [])

-- After a request was sent.
abbrev asking : Conn
asking = record fresh { pending = record { id = 1; response = none } ∷ []; next_id = 2 }

-- After the first frame was read.
abbrev after_reply : Conn
after_reply = record fresh { buffer = 5 ∷ []; reads = []; moment = 5 }

always : (n : ℕ) → check patient n ≡ none
unfolding check
always n = refl

read_frame_lem_example :
    ((read_frame settings patient fresh).0 ≡ finish_line (1 ∷ 2 ∷ []))
    × (unread (read_frame settings patient fresh).1 ≡ 5 ∷ [])
unfolding unsupported any stream
read_frame_lem_example =
    read_frame_lem settings patient always refl fresh (1 ∷ 2 ∷ []) (5 ∷ []) refl refl (omega arith)

write-SendsPrefix_example :
    SendsPrefix
      (write settings patient (dict reply) fresh).0
      (1 ∷ 2 ∷ 10 ∷ [])
      []
      (write settings patient (dict reply) fresh).1.sent
unfolding json_eq fields_eq
write-SendsPrefix_example = write-SendsPrefix settings patient (dict reply) fresh

abbrev replied : Conn
replied = record fresh { sent = 1 ∷ 2 ∷ 10 ∷ []; writes = []; flushes = []; moment = 6 }

receive-write_example :
    ((receive settings patient fresh).0 ≡ returned (record { kind = Kind.response; value = reply }))
    × (unread (receive settings patient fresh).1 ≡ 5 ∷ [])
unfolding json_eq fields_eq unsupported any strip_cr validated write check stream lookup
receive-write_example =
    receive-write settings settings patient patient (dict reply)
      (record { kind = Kind.response; value = reply }) fresh replied fresh (1 ∷ 2 ∷ []) (5 ∷ [])
      always refl (omega arith) refl refl refl refl refl refl refl refl

run_calls-IsSound_example : IsSound settings (
    run_calls settings
      ((patient, requests "initialize" none none) ∷ (patient, pumps) ∷ (patient, waits 1) ∷ [])
      fresh)
run_calls-IsSound_example =
    run_calls-IsSound settings
      ((patient, requests "initialize" none none) ∷ (patient, pumps) ∷ (patient, waits 1) ∷ [])
      pieces (wrote 1 ∷ wrote 9 ∷ []) (flushed ∷ [])

wait_for_ends_example :
    wait_for settings patient 1 asking
    ≡ wait_loop settings (bound_deadline settings patient) 100 1 asking
unfolding any stream
wait_for_ends_example = wait_for_ends settings patient 100 1 asking refl (omega arith)

asking-IsSound : IsSound settings asking
unfolding any
asking-IsSound = (omega arith, omega arith, (omega arith, refl, refl, tt))

abbrev done : Conn
done = record after_reply { next_id = 2 }

abbrev requested : Conn
requested = record after_reply {
  next_id = 2;
  writes = [];
  flushes = [];
  sent = 3 ∷ 10 ∷ [];
  moment = 11;
}

request-Answered_example : (is_id (get "id" reply) 1 ≡ true) × (any (of_id 1) [] ≡ false)
unfolding request any read_frame check split_line finish_line unsupported received check_after
    stream validated lookup strip_cr find update keep write json_eq fields_eq send_request
request-Answered_example =
    request-Answered settings patient "initialize" none none fresh requested reply
      (omega arith, omega arith, tt) refl

-- A notification comes before the reply.
abbrev noisy : Conn
noisy = record asking { reads = chunk (9 ∷ 10 ∷ 1 ∷ []) ∷ chunk (2 ∷ 10 ∷ 5 ∷ []) ∷ [] }

abbrev informed : Conn
informed = (pump settings patient noisy).1

reply-Arrives : Arrives settings patient 1 reply noisy
unfolding pump read_frame check split_line finish_line unsupported received check_after stream
    validated lookup strip_cr find bound_deadline
reply-Arrives =
    passes informed (record { kind = Kind.notification; value = news }) refl refl
      (answers (pump settings patient informed).1 (record { kind = Kind.response; value = reply })
        refl refl refl)

wait_for_delivers_example : (wait_for settings patient 1 noisy).0 ≡ returned reply
unfolding find
wait_for_delivers_example =
    wait_for_delivers settings patient 1 noisy reply (record { id = 1; response = none })
      reply-Arrives refl refl

-- A request of the peer for permission.
abbrev permission : Fields
permission =
    field "jsonrpc" (str "2.0")
      (field "id" (str "a") (field "method" (str "session/request_permission") end))

answer-IsResponse_example :
    validated (answer settings permission)
    ≡ valid (record {
      kind = Kind.response;
      value = field "jsonrpc" (str "2.0") (
          field "id" (str "a") (
            field "result"
              (dict (field "outcome" (dict (field "outcome" (str "cancelled") end)) end))
              end));
    })
unfolding validated lookup answer
answer-IsResponse_example = answer-IsResponse settings permission refl

-- A line of the greatest length with a carriage return: accepted where its newline comes with it, and
-- refused where the newline comes later.
abbrev longest : List ℕ
longest = 1 ∷ 1 ∷ 1 ∷ 1 ∷ 1 ∷ 1 ∷ 1 ∷ 1 ∷ 13 ∷ []

abbrev reading : List Piece → Outcome (List ℕ)
reading ps = (read_frame settings patient (connected ps [] [])).0

newline_with_line :
    reading (chunk (longest ++ 10 ∷ []) ∷ []) ≡ returned (1 ∷ 1 ∷ 1 ∷ 1 ∷ 1 ∷ 1 ∷ 1 ∷ 1 ∷ [])
unfolding read_frame check split_line finish_line unsupported received check_after stream
newline_with_line = refl

newline_later :
    reading (chunk longest ∷ chunk (10 ∷ []) ∷ [])
    ≡ raised (malformed "ACP frame exceeds message limit")
unfolding read_frame check split_line finish_line unsupported received check_after stream
newline_later = refl
