-- ===== src/Acp/Stream/Requests/Answers.antt =====
-- nc/acp_stream.py: what `wait_for` and `request` give.
use mathlib.Core.Path.{subst}
use neocortex.Acp.Stream.Output.{write}
use neocortex.Acp.Stream.Requests.Calls.{pump-IsSound}
use neocortex.Acp.Stream.Envelope.{validate_outbound}
use neocortex.Acp.Stream.Requests.{
  request, send_request, send_valid, change, new_pending, request_message, send_next, is_id, of_id,
  pop_pending, pump, response_of, wait_for, wait_loop,
}
use neocortex.Acp.Stream.Requests.Rows.{any-keep_other, IsTable}
use neocortex.Acp.Stream.Requests.Sound.{send_request-IsSound, IsSound}
use neocortex.Json.{Json, Fields, get}
use neocortex.Acp.Stream.{◌>>◌, pure, Conn, Pending, Settings, Watch, bound_deadline, returned}
use neocortex.Prelude.{
  Option, String, Bool-cases, List, Option-cases, [], any, ap, arith, false, find, inl, inr, some,
  suc, sym, true, zero, ℕ, ◌<◌, ◌∙◌, ◌∷◌, ◌≡◌,
}
use neocortex.Acp.Stream.Requests.Rounds.{
  >>=-eq-returned, left, wait_loop_enough, wait_loop_found, wait_loop_pumps,
}

-- The loop of `wait_for` ends: every round reads a frame, so the fuel that `wait_for` starts with,
-- which is one more than the number of bytes that can still come, gives what any fuel above that
-- number gives.
pub wait_for_ends :
    (s : Settings) (w : Watch) (f id : ℕ) (c : Conn)
    → any (of_id id) c.pending ≡ true
    → left c < f
    → wait_for s w id c ≡ wait_loop s (bound_deadline s w) f id c
unfolding wait_for
wait_for_ends s w f id c h k =
    rw h (wait_loop_enough s (bound_deadline s w) (suc (left c)) f id c (omega arith) k)

response_of-answers :
    (n id : ℕ) (ps : List Pending) (fs : Fields)
    → IsTable n ps
    → response_of id ps ≡ some fs
    → is_id (get "id" fs) id ≡ true
unfolding response_of find
response_of-answers n id [] fs t h = cc
response_of-answers n id (p ∷ ps) fs (below, right, alone, t) h = elim (Bool-cases (of_id id p)) [
  | inl e ↦
      let here : p.response ≡ some fs = ground (arith, e, h) in
      let same : p.id ≡ id = ground (arith, e) in rw (← same) (ground (arith, here, right))
  | inr e ↦ response_of-answers n id ps fs t (ground (arith, e, h))
]

pop_pending-none : (id : ℕ) (c : Conn) → any (of_id id) (pop_pending id c).pending ≡ false
unfolding pop_pending
pop_pending-none id c = any-keep_other id c.pending

-- The response has the id, and the request is no longer in the table.
abbrev Answered : ℕ → Fields → Conn → Type 0
Answered id fs d = (is_id (get "id" fs) id ≡ true) × (any (of_id id) d.pending ≡ false)

wait_loop-Answered :
    (s : Settings) (w : Watch) (f id : ℕ) (c d : Conn) (fs : Fields)
    → IsSound s c
    → wait_loop s w f id c ≡ (returned fs, d)
    → Answered id fs d
wait_loop-Answered s w zero id c d fs t h = unfold wait_loop in (ground arith, ground arith)
wait_loop-Answered s w (suc f) id c d fs t h = elim (Option-cases (response_of id c.pending)) [
  | inr (gs, e) ↦
      let same = sym (wait_loop_found s w f id c gs e) ∙ h in
      (
        ground (arith, same, response_of-answers c.next_id id c.pending gs t.2 e),
        ap (λ r. any (of_id id) r.1.pending) (sym same) ∙ pop_pending-none id c,
      )
  | inl e ↦
      let (m, b, p, q) =
        >>=-eq-returned (pump s w) (λ m. wait_loop s w f id) c d fs
          (sym (wait_loop_pumps s w f id c e) ∙ h) in
      wait_loop-Answered s w f id b d fs (subst (λ r. IsSound s r.1) p (pump-IsSound s w c t)) q
]

-- On a connection within its bounds, what `wait_for` returns is a response with the id that the
-- caller waits for, and the request is in the table no longer.
pub wait_for-Answered :
    (s : Settings) (w : Watch) (id : ℕ) (c d : Conn) (fs : Fields)
    → IsSound s c
    → wait_for s w id c ≡ (returned fs, d)
    → (is_id (get "id" fs) id ≡ true) × (any (of_id id) d.pending ≡ false)
unfolding wait_for
wait_for-Answered s w id c d fs t h = elim (Bool-cases (any (of_id id) c.pending)) [
  | inl e ↦ wait_loop-Answered s (bound_deadline s w) (suc (left c)) id c d fs t (rw e at h)
  | inr e ↦ cc (rw e at h)
]

send_next-id :
    (s : Settings) (w : Watch) (method : String) (params : Option Json) (n id : ℕ) (c d : Conn)
    → send_next s w method params n c ≡ (returned id, d)
    → id ≡ n
unfolding send_next
send_next-id s w method params n id c d h =
    let (_, b, went, done) =
      >>=-eq-returned (write s w (request_message n method params))
        (λ _. change (new_pending n) >> pure n) (record c { next_id = suc n }) d id h in
    ground (arith, done)

send_valid-id :
    (s : Settings) (w : Watch) (method : String) (params asked : Option Json) (id : ℕ) (c d : Conn)
    → send_valid s w method params asked c ≡ (returned id, d)
    → id ≡ c.next_id
unfolding send_valid
send_valid-id s w method params asked id c d h =
    ground (arith, send_next-id s w method params c.next_id id c d)

send_request-id :
    (s : Settings) (w : Watch) (method : String) (params asked : Option Json) (id : ℕ) (c d : Conn)
    → send_request s w method params asked c ≡ (returned id, d)
    → id ≡ c.next_id
unfolding send_request
send_request-id s w method params asked id c d h =
    elim (Option-cases (validate_outbound method params)) [
      | inl e ↦ send_valid-id s (bound_deadline s w) method params asked id c d (rw e at h)
      | inr (x, e) ↦ cc (rw e at h)
    ]

-- On a connection within its bounds, a call of `request` that returns gives a response with the id
-- that the connection gave to this request, and leaves the request in the table no longer.
pub request-Answered :
    (s : Settings) (w : Watch) (method : String) (params asked : Option Json) (c d : Conn)
    (fs : Fields)
    → IsSound s c
    → request s w method params asked c ≡ (returned fs, d)
    → (is_id (get "id" fs) c.next_id ≡ true) × (any (of_id c.next_id) d.pending ≡ false)
unfolding request
request-Answered s w method params asked c d fs t h =
    let u = bound_deadline s w in
    let (id, b, asked_it, got) =
      >>=-eq-returned (send_request s u method params asked) (wait_for s u) c d fs h in
    rw (← send_request-id s u method params asked id c b asked_it) (
      wait_for-Answered s u id b d fs
        (subst (λ r. IsSound s r.1) asked_it (send_request-IsSound s u method params asked c t))
        got)
