-- ===== src/Acp/Stream/Requests/Arrives.antt =====
-- nc/acp_stream.py: a response that arrives while `wait_for` waits for it.
use mathlib.Core.Path.{subst}
use neocortex.Acp.Stream.Requests.Answers.{wait_for_ends}
use neocortex.Acp.Stream.Frame.{read_frame}
use neocortex.Acp.Stream.Requests.Rounds.{
  >>=-eq-returned, pump_consumes, left, wait_loop_found, wait_loop_pumps, decode_state,
}
use neocortex.Acp.Stream.Requests.Sound.{>>=-keeps, write-Same}
use neocortex.Prelude.Int.{negsuc, pos}
use neocortex.Acp.Stream.Requests.{
  answer, pump, pump_within, wait_for, wait_loop, decode, dispatch, find_pending, is_id, of_id,
  receive, response_of, take_response,
}
use neocortex.Acp.Stream.Envelope.{AcpMessage, Kind}
use neocortex.Json.{Fields, Json, get, int}
use neocortex.Acp.Stream.{
  add_note, ◌>>◌, pure, >>=-returned, Conn, Pending, Settings, Watch, bound_deadline, returned,
}
use neocortex.Prelude.{
  any, ap, Option, Option-cases, Bool-cases, inl, inr, false, zero, ◌&&◌, ◌<◌, find_sound,
  if◌then◌else◌, is_some, is_some-find, suc, sym, find-update, Bool, List, [], arith, find, none,
  refl, some, true, ℕ, ◌==◌, ◌∙◌, ◌∷◌, ◌≡◌,
}

find_same {ℓ} :
    {A : Type ℓ} (p q : A → Bool) (xs : List A) → ((x : A) → p x ≡ q x) → find p xs ≡ find q xs
unfolding find
find_same p q [] h = refl
find_same p q (x ∷ xs) h = ground (arith, h x, find_same p q xs h)

is_id_same : (v : Json) (id m : ℕ) → is_id v id ≡ true → is_id v m ≡ (m == id)
is_id_same (int (pos n)) id m h = ground (arith, h)
is_id_same (int (negsuc n)) id m h = cc
is_id_same _ id m h = cc

-- The row of a peer's id is the row of the number.
find_pending_lem :
    (v : Json) (id : ℕ) (ps : List Pending)
    → is_id v id ≡ true
    → find_pending v ps ≡ find (of_id id) ps
find_pending_lem v id ps h = find_same _ (of_id id) ps (λ p. is_id_same v id p.id h)

response_of-found :
    (id : ℕ) (ps : List Pending) (p : Pending)
    → find (of_id id) ps ≡ some p
    → response_of id ps ≡ p.response
unfolding response_of
response_of-found id ps p e = ground (arith, e)

same_id : (n : ℕ) (P : Bool → Type 0) → P true → P (n == n)
same_id n P h = let e : (n == n) ≡ true = ground arith in rw e h

taken-response :
    (s : Settings) (id : ℕ) (fs : Fields) (c : Conn) (p : Pending)
    → find (of_id id) c.pending ≡ some p
    → p.response ≡ none
    → response_of id (take_response s fs (some p) c).pending ≡ some fs
unfolding take_response
taken-response s id fs c p e h = rw h (
    response_of-found id _ _ (
      find-update (of_id id) (of_id p.id) (λ q. record q { response = some fs }) c.pending p
        (λ q. refl) e)
    ∙ same_id p.id (λ b. (if b then record p { response = some fs } else p).response ≡ some fs)
        refl)

dispatched-response :
    (s : Settings) (w : Watch) (id : ℕ) (fs : Fields) (c : Conn) (p : Pending)
    → is_id (get "id" fs) id ≡ true
    → find (of_id id) c.pending ≡ some p
    → p.response ≡ none
    → response_of id (dispatch s w Kind.response fs c).1.pending ≡ some fs
unfolding dispatch
dispatched-response s w id fs c p e h k =
    rw (find_pending_lem (get "id" fs) id c.pending e ∙ h) (taken-response s id fs c p h k)

dispatched_response_ok :
    (s : Settings) (w : Watch) (fs : Fields) (c : Conn)
    → (dispatch s w Kind.response fs c).0 ≡ returned tt
unfolding dispatch
dispatched_response_ok s w fs c = refl

receive-pending : (s : Settings) (w : Watch) (c : Conn) → (receive s w c).1.pending ≡ c.pending
unfolding receive read_frame
receive-pending s w c =
    >>=-keeps (λ d. d.pending ≡ c.pending) (λ d. d.pending ≡ c.pending) (read_frame s w) (decode s)
      c refl (λ d h. h) (λ raw d h. rw (decode_state s raw d) h)

bound_deadline_twice :
    (s : Settings) (w : Watch) → bound_deadline s (bound_deadline s w) ≡ bound_deadline s w
unfolding bound_deadline
bound_deadline_twice s w = ground arith

-- A call of `pump` that returned, in its two parts.
pump_parts :
    (s : Settings) (w : Watch) (c d : Conn) (m : AcpMessage)
    → pump s w c ≡ (returned m, d)
    → (b : Conn) × (b.pending ≡ c.pending)
      × ((dispatch s (bound_deadline s w) m.kind m.value b).1 ≡ d)
unfolding pump pump_within
pump_parts s w c d m h =
    let u = bound_deadline s w in
    let (m₁, b, got, after) =
      >>=-eq-returned (receive s u) (λ m. dispatch s u m.kind m.value >> pure m) c d m h in
    let (_, e, ran, done) =
      >>=-eq-returned (dispatch s u m₁.kind m₁.value) (λ _. pure m₁) b d m after in
    let same : m₁ ≡ m = ground (arith, done) in
    (
      b,
      ap (λ r. r.1.pending) (sym got) ∙ receive-pending s u c,
      subst (λ (x : AcpMessage). (dispatch s u x.kind x.value b).1 ≡ d) same
          (ap (λ r. r.1) ran ∙ ap (λ r. r.1) done),
    )

abbrev pub is_response_kind : Kind → Bool
is_response_kind Kind.response = true
is_response_kind _ = false

-- A response to the request.
abbrev pub is_answer : ℕ → AcpMessage → Bool
is_answer id m = is_response_kind m.kind && is_id (get "id" m.value) id

answered_by :
    (s : Settings) (w : Watch) (id : ℕ) (k : Kind) (fs : Fields) (b d : Conn) (p : Pending)
    → is_answer id (record { kind = k; value = fs }) ≡ true
    → (dispatch s w k fs b).1 ≡ d
    → find (of_id id) b.pending ≡ some p
    → p.response ≡ none
    → response_of id d.pending ≡ some fs
answered_by s w id Kind.response fs b d p e done h k =
    ap (λ (x : Conn). response_of id x.pending) (sym done) ∙ dispatched-response s w id fs b p e h k
answered_by s w id Kind.notification fs b d p e done h k = cc
answered_by s w id Kind.request fs b d p e done h k = cc

-- What is left of the row of a request after another message.
taken-other :
    (s : Settings) (id : ℕ) (fs : Fields) (c : Conn) (p : Pending) (o : Option Pending)
    → find_pending (get "id" fs) c.pending ≡ o
    → is_id (get "id" fs) id ≡ false
    → find (of_id id) c.pending ≡ some p
    → find (of_id id) (take_response s fs o c).pending ≡ some p
unfolding take_response add_note
taken-other s id fs c p none e other h = h
taken-other s id fs c p (some q) e other h = elim (Option-cases q.response) [
  | inr (old, k) ↦ rw k h
  | inl k ↦
      let found : is_id (get "id" fs) q.id ≡ true = find_sound _ c.pending q e in
      let mine : (p.id == id) ≡ true = find_sound (of_id id) c.pending p h in
      let apart : (p.id == q.id) ≡ false = elim (Bool-cases (p.id == q.id)) [
        | inr no_same ↦ no_same
        | inl same ↦ let ids : q.id ≡ id = ground (arith, same, mine) in cc (rw ids at found)
      ] in
      rw k (
        find-update (of_id id) (of_id q.id) (λ r. record r { response = some fs }) c.pending p
          (λ r. refl) h
        ∙ rw apart refl)
]

dispatched-other :
    (s : Settings) (w : Watch) (id : ℕ) (k : Kind) (fs : Fields) (c : Conn) (p : Pending)
    → is_answer id (record { kind = k; value = fs }) ≡ false
    → find (of_id id) c.pending ≡ some p
    → find (of_id id) (dispatch s w k fs c).1.pending ≡ some p
unfolding dispatch
dispatched-other s w id Kind.response fs c p other h =
    taken-other s id fs c p (find_pending (get "id" fs) c.pending) refl other h
dispatched-other s w id Kind.notification fs c p other h =
    elim (Option-cases s.notification_handler) [ inl k ↦ rw k h | inr (f, k) ↦ rw k h ]
dispatched-other s w id Kind.request fs c p other h =
    let same = write-Same s w (answer s fs) c in rw same.0 h

-- From a connection on, calls of `pump` return messages, and the first that answers the request has
-- this value.
pub data Arrives (s : Settings) (w : Watch) (id : ℕ) (fs : Fields) : Conn → Type 0 where
  answers :
      {c : Conn} (d : Conn) (m : AcpMessage)
      → pump s w c ≡ (returned m, d)
      → is_answer id m ≡ true
      → m.value ≡ fs
      → Arrives s w id fs c
  passes :
      {c : Conn} (d : Conn) (m : AcpMessage)
      → pump s w c ≡ (returned m, d)
      → is_answer id m ≡ false
      → Arrives s w id fs d
      → Arrives s w id fs c

pump-answer :
    (s : Settings) (w : Watch) (id : ℕ) (c d : Conn) (m : AcpMessage) (p : Pending)
    → pump s w c ≡ (returned m, d)
    → is_answer id m ≡ true
    → find (of_id id) c.pending ≡ some p
    → p.response ≡ none
    → response_of id d.pending ≡ some m.value
pump-answer s w id c d m p ran e h k =
    let u = bound_deadline s w in
    let (b, kept, done) = pump_parts s w c d m ran in
    answered_by s u id m.kind m.value b d p e done (ap (find (of_id id)) kept ∙ h) k

pump-other :
    (s : Settings) (w : Watch) (id : ℕ) (c d : Conn) (m : AcpMessage) (p : Pending)
    → pump s w c ≡ (returned m, d)
    → is_answer id m ≡ false
    → find (of_id id) c.pending ≡ some p
    → find (of_id id) d.pending ≡ some p
pump-other s w id c d m p ran e h =
    let (b, kept, done) = pump_parts s w c d m ran in
    ap (λ (x : Conn). find (of_id id) x.pending) (sym done)
    ∙ dispatched-other s (bound_deadline s w) id m.kind m.value b p e
        (ap (find (of_id id)) kept ∙ h)

pump-bound : (s : Settings) (w : Watch) (c : Conn) → pump s (bound_deadline s w) c ≡ pump s w c
unfolding pump
pump-bound s w c = ap (λ u. pump_within s u c) (bound_deadline_twice s w)

-- A round of the loop that pumps a message.
round :
    (s : Settings) (w : Watch) (f id : ℕ) (c d : Conn) (m : AcpMessage) (p : Pending)
    → pump s w c ≡ (returned m, d)
    → find (of_id id) c.pending ≡ some p
    → p.response ≡ none
    → wait_loop s (bound_deadline s w) (suc f) id c ≡ wait_loop s (bound_deadline s w) f id d
round s w f id c d m p ran h k =
    let u = bound_deadline s w in
    wait_loop_pumps s u f id c (response_of-found id c.pending p h ∙ k)
    ∙ >>=-returned (pump s u) (λ m. wait_loop s u f id) c d m (pump-bound s w c ∙ ran)

-- On any fuel above the bytes that are left.
wait_loop_delivers :
    (s : Settings) (w : Watch) (f id : ℕ) (fs : Fields) (c : Conn) (p : Pending)
    → Arrives s w id fs c
    → find (of_id id) c.pending ≡ some p
    → p.response ≡ none
    → left c < f
    → (wait_loop s (bound_deadline s w) f id c).0 ≡ returned fs
wait_loop_delivers s w zero id fs c p a h k enough = absurd (omega arith)
wait_loop_delivers s w (suc zero) id fs c p (answers d m ran e same) h k enough =
    let fewer = pump_consumes s w c d m ran in absurd (omega arith)
wait_loop_delivers s w (suc (suc f)) id fs c p (answers d m ran e same) h k enough =
    let here = pump-answer s w id c d m p ran e h k ∙ ap some same in
    ap (λ r. r.0)
      (round s w (suc f) id c d m p ran h k ∙ wait_loop_found s (bound_deadline s w) f id d fs here)
wait_loop_delivers s w (suc f) id fs c p (passes d m ran e rest) h k enough =
    let fewer = pump_consumes s w c d m ran in
    ap (λ r. r.0) (round s w f id c d m p ran h k)
    ∙ wait_loop_delivers s w f id fs d p rest (pump-other s w id c d m p ran e h) k (omega arith)

-- A response that comes is delivered: where a request waits in the table without a response, and
-- calls of `pump` return messages up to one that is a response with its id, whatever other messages
-- come before it, `wait_for` returns that response.
pub wait_for_delivers :
    (s : Settings) (w : Watch) (id : ℕ) (c : Conn) (fs : Fields) (p : Pending)
    → Arrives s w id fs c
    → find (of_id id) c.pending ≡ some p
    → p.response ≡ none
    → (wait_for s w id c).0 ≡ returned fs
wait_for_delivers s w id c fs p a h k =
    let inside : any (of_id id) c.pending ≡ true =
      sym (is_some-find (of_id id) c.pending) ∙ ap is_some h in
    ap (λ r. r.0) (wait_for_ends s w (suc (left c)) id c inside (omega arith))
    ∙ wait_loop_delivers s w (suc (left c)) id fs c p a h k (omega arith)
