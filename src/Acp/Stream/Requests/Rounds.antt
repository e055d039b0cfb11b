-- ===== src/Acp/Stream/Requests/Rounds.antt =====
-- nc/acp_stream.py: the rounds of the loop of `wait_for`.
use neocortex.Acp.Stream.Requests.Sound.{write-Same}
use neocortex.Acp.Stream.Output.{write}
use neocortex.Acp.Stream.Frame.Chunks.{read_frame_sound}
use neocortex.Acp.Stream.Frame.{read_frame}
use neocortex.Acp.Stream.Requests.{
  answer, decode, find_pending, take_response, dispatch, pop_pending, pump, pump_within, receive,
  response_of, wait_loop,
}
use neocortex.Prelude.{
  length-append, ◌++◌, ◌∷◌, Option, ap, List, Option-cases, arith, inl, inr, length, none, refl,
  some, suc, sym, zero, ℕ, ◌<◌, ◌∙◌, ◌≡◌,
}
use neocortex.Json.{Json, get, Fields}
use neocortex.Acp.Stream.{
  add_note, Pending, bound_deadline, Outcome, ◌>>=◌, ◌>>◌, pure, raised, Conn, Io, Settings, Watch,
  returned, unread,
}
use neocortex.Acp.Stream.Envelope.{AcpMessage, Kind}

pub wait_loop_found :
    (s : Settings) (w : Watch) (f id : ℕ) (c : Conn) (fs : Fields)
    → response_of id c.pending ≡ some fs
    → wait_loop s w (suc f) id c ≡ (returned fs, pop_pending id c)
unfolding wait_loop
wait_loop_found s w f id c fs h = ground (arith, h)

pub wait_loop_pumps :
    (s : Settings) (w : Watch) (f id : ℕ) (c : Conn)
    → response_of id c.pending ≡ none
    → wait_loop s w (suc f) id c ≡ (pump s w >>= λ m. wait_loop s w f id) c
unfolding wait_loop
wait_loop_pumps s w f id c h = ground (arith, h)

pub decode_state : (s : Settings) (raw : List ℕ) (c : Conn) → (decode s raw c).1 ≡ c
unfolding decode
decode_state s raw c = ground arith

-- A computation is the same where its continuations are the same on what its first part returns.
>>=-same_split :
    {A B : Type 0} (r : Outcome A × Conn) (f g : A → Io B) (c : Conn)
    → ((a : A) (d : Conn) → r ≡ (returned a, d) → f a d ≡ g a d)
    → ((λ _. r) >>= f) c ≡ ((λ _. r) >>= g) c
>>=-same_split (returned a, d) f g c h = h a d refl
>>=-same_split (raised e, d) f g c h = refl
>>=-same_split (Outcome.waiting, d) f g c h = refl

>>=-same :
    {A B : Type 0} (m : Io A) (f g : A → Io B) (c : Conn)
    → ((a : A) (d : Conn) → m c ≡ (returned a, d) → f a d ≡ g a d)
    → (m >>= f) c ≡ (m >>= g) c
>>=-same m f g c h = >>=-same_split (m c) f g c h

>>=-eq-returned_split :
    {A B : Type 0} (r : Outcome A × Conn) (f : A → Io B) (c d : Conn) (b : B)
    → ((λ _. r) >>= f) c ≡ (returned b, d)
    → (a : A) × (e : Conn) × (r ≡ (returned a, e)) × (f a e ≡ (returned b, d))
>>=-eq-returned_split (returned a, e) f c d b h = (a, e, refl, h)
>>=-eq-returned_split (raised x, e) f c d b h = cc
>>=-eq-returned_split (Outcome.waiting, e) f c d b h = cc

pub >>=-eq-returned :
    {A B : Type 0} (m : Io A) (f : A → Io B) (c d : Conn) (b : B)
    → (m >>= f) c ≡ (returned b, d)
    → (a : A) × (e : Conn) × (m c ≡ (returned a, e)) × (f a e ≡ (returned b, d))
>>=-eq-returned m f c d b h = >>=-eq-returned_split (m c) f c d b h

abbrev pub left : Conn → ℕ
left c = length (unread c)

longer : (line rest : List ℕ) → length rest < length (line ++ 10 ∷ rest)
longer line rest = omega (arith, length-append line (10 ∷ rest))

read_frame_consumes :
    (s : Settings) (w : Watch) (c d : Conn) (raw : List ℕ)
    → read_frame s w c ≡ (returned raw, d)
    → left d < left c
read_frame_consumes s w c d raw h =
    let (line, cut, free, done) = read_frame_sound s w c d raw h in rw cut (longer line (unread d))

unread-take_response :
    (s : Settings) (fs : Fields) (o : Option Pending) (c : Conn)
    → unread (take_response s fs o c) ≡ unread c
unfolding take_response add_note
unread-take_response s fs none c = refl
unread-take_response s fs (some p) c = elim (Option-cases p.response) [
  | inl h ↦ rw h refl
  | inr (old, h) ↦ rw h refl
]

unread-write :
    (s : Settings) (w : Watch) (v : Json) (c : Conn) → unread (write s w v c).1 ≡ unread c
unread-write s w v c = let (_, _, _, buffer, reads) = write-Same s w v c in rw (buffer, reads) refl

unread-dispatch :
    (s : Settings) (w : Watch) (k : Kind) (fs : Fields) (c : Conn)
    → unread (dispatch s w k fs c).1 ≡ unread c
unfolding dispatch
unread-dispatch s w Kind.response fs c =
    unread-take_response s fs (find_pending (get "id" fs) c.pending) c
unread-dispatch s w Kind.notification fs c = elim (Option-cases s.notification_handler) [
  | inl h ↦ rw h refl
  | inr (f, h) ↦ rw h refl
]
unread-dispatch s w Kind.request fs c = unread-write s w (answer s fs) c

-- A call of `pump` that returns has read a frame, which leaves fewer bytes.
pub pump_consumes :
    (s : Settings) (w : Watch) (c d : Conn) (m : AcpMessage)
    → pump s w c ≡ (returned m, d)
    → left d < left c
unfolding pump pump_within receive
pump_consumes s w c d m h =
    let u = bound_deadline s w in
    let (m₁, e, got, after) =
      >>=-eq-returned (receive s u) (λ m. dispatch s u m.kind m.value >> pure m) c d m h in
    let (raw, e₁, framed, decoded) = >>=-eq-returned (read_frame s u) (decode s) c e m₁ got in
    let (_, e₂, dispatched, done) =
      >>=-eq-returned (dispatch s u m₁.kind m₁.value) (λ _. pure m₁) e d m after in
    let fewer = read_frame_consumes s u c e₁ raw framed in
    let same : unread d ≡ unread e₁ =
      ap (λ r. unread r.1) (sym done)
      ∙ ap (λ r. unread r.1) (sym dispatched)
      ∙ unread-dispatch s u m₁.kind m₁.value e
      ∙ ap (λ r. unread r.1) (sym decoded)
      ∙ ap unread (decode_state s raw e₁) in
    rw same fewer

-- The loop gives the same on any two fuels above the number of bytes that are left.
pub wait_loop_enough :
    (s : Settings) (w : Watch) (f g id : ℕ) (c : Conn)
    → left c < f
    → left c < g
    → wait_loop s w f id c ≡ wait_loop s w g id c
wait_loop_enough s w zero g id c h k = absurd (omega arith)
wait_loop_enough s w f zero id c h k = absurd (omega arith)
wait_loop_enough s w (suc f) (suc g) id c h k = elim (Option-cases (response_of id c.pending)) [
  | inr (fs, e) ↦ wait_loop_found s w f id c fs e ∙ sym (wait_loop_found s w g id c fs e)
  | inl e ↦
      wait_loop_pumps s w f id c e
      ∙ >>=-same (pump s w) (λ m. wait_loop s w f id) (λ m. wait_loop s w g id) c
          (λ m d p.
            let fewer = pump_consumes s w c d m p in
            wait_loop_enough s w f g id d (omega arith) (omega arith))
      ∙ sym (wait_loop_pumps s w g id c e)
]
