-- ===== src/Acp/Stream.antt =====
-- nc/acp_stream.py: the state of one `AcpJsonRpcStream`, its exceptions, deadlines and cancellation.
-- A byte is a number. What the two injected streams do is data: the results of the reads, of the
-- writes and of the flushes, in the order of the calls. A list that is at its end stands for a call
-- that has not returned yet. The writer is a binary one.
use mathlib.Core.Path.{subst}
use neocortex.Json.{Fields, Json, has}
use neocortex.Prelude.{
  refl, sym, ◌≡◌, true, Bool, List, Option, String, [], drop, false, if◌then◌else◌, is_some, leb,
  length, ltb, none, not, prefix, some, suc, ℕ, ◌++◌, ◌-◌, ◌||◌, ◌∷◌,
}
pub mod Envelope
pub mod Frame
pub mod Output
pub mod Requests
pub mod RoundTrip

-- One constructor for each exception class; `value_error` is Python's own, and `handler_failed` is
-- what the notification handler raises.
pub data StreamError : Type 0 where
  eof malformed protocol write_failed : String → StreamError
  write_blocked deadline_expired cancelled pending_limit deadline_support : StreamError
  value_error handler_failed : String → StreamError

pub data Outcome {ℓ} (A : Type ℓ) : Type ℓ where
  returned : A → Outcome A
  raised : StreamError → Outcome A
  -- The injected stream has not answered yet.
  waiting : Outcome A

-- What one call of the reader does. A text is the bytes of its UTF-8 encoding.
pub data Piece : Type 0 where
  chunk : List ℕ → Piece
  not_bytes read_broken : Piece
  read_stopped : StreamError → Piece

-- What one call of the writer does. An exception may come after some bytes have gone out.
pub data Wrote : Type 0 where
  wrote : ℕ → Wrote
  would_block : Wrote
  write_broken : ℕ → Wrote
  write_stopped : ℕ → StreamError → Wrote

pub data Flushed : Type 0 where
  flushed flush_broken : Flushed
  flush_stopped : StreamError → Flushed

-- With the operation for deadlines, an in-memory stream, or any other.
pub data Endpoint : Type 0 where
  with_deadline in_memory blocking : Endpoint

-- `clock n` and `is_cancelled n` are what the two callables say at the n-th moment at which the code
-- may ask them.
pub record Watch : Type 0 where
  pub deadline : Option ℕ
  pub clock : ℕ → ℕ
  pub is_cancelled : Option (ℕ → Bool)

-- The arguments of the constructor. `parse` and `print` are `json.loads` on UTF-8 without constants
-- like NaN and `json.dumps` to UTF-8; `none` is an exception. `request_handler` is the request handler, and
-- its `none` one of the exceptions that are caught. The notification handler may raise.
pub record Settings : Type 0 where
  pub reader : Endpoint
  pub writer : Endpoint
  pub max_message_bytes : ℕ
  pub max_pending_requests : ℕ
  pub max_diagnostics : ℕ
  pub default_deadline : Option ℕ
  pub parse : List ℕ → Option Json
  pub print : Json → Option (List ℕ)
  pub request_handler : Option (Fields → Option Json)
  pub notification_handler : Option (Fields → Option StreamError)

-- A request of the host: its id, and the response once it is here.
pub record Pending : Type 0 where
  pub id : ℕ
  pub response : Option Fields

-- The fields of the object, what the streams will do, the bytes that the writer has taken, what the
-- notification handler was called with, and the number of the next moment.
pub record Conn : Type 0 where
  pub buffer : List ℕ
  pub pending : List Pending
  pub diagnostics : List String
  pub next_id : ℕ
  pub reads : List Piece
  pub writes : List Wrote
  pub flushes : List Flushed
  pub sent : List ℕ
  pub heard : List Fields
  pub moment : ℕ

abbrev pub is_returned {ℓ} : {A : Type ℓ} → Outcome A → Bool
is_returned (returned a) = true
is_returned _ = false

abbrev pub Io : Type 0 → Type 0
Io A = Conn → Outcome A × Conn

abbrev pub pure : {A : Type 0} → A → Io A
pure a c = (returned a, c)

abbrev pub raise : {A : Type 0} → StreamError → Io A
raise e c = (raised e, c)

infixl 5 ◌>>=◌ ◌>>◌
abbrev pub ◌>>=◌ : {A B : Type 0} → Io A → (A → Io B) → Io B
◌>>=◌ m f c =
    let (r, d) = m c in
    elim r [ returned a ↦ f a d | raised e ↦ (raised e, d) | waiting ↦ (waiting, d) ]

abbrev pub ◌>>◌ : {B : Type 0} → Io (Unit {0}) → Io B → Io B
m >> k = m >>= λ _. k

-- How a computation goes on from one that returned.
pub >>=-returned :
    {A B : Type 0} (m : Io A) (f : A → Io B) (c d : Conn) (a : A)
    → m c ≡ (returned a, d)
    → (m >>= f) c ≡ f a d
>>=-returned m f c d a e = subst (λ r. ((λ _. r) >>= f) c ≡ f a d) (sym e) refl

abbrev pub or_raise : {A : Type 0} → Option A → StreamError → Io A
or_raise o e c = (elim o [ none ↦ raised e | some a ↦ returned a ], c)

abbrev pub raise_if : Bool → StreamError → Io (Unit {0})
raise_if b e c = (if b then raised e else returned tt, c)

abbrev pub is_past : Option ℕ → ℕ → Bool
is_past none now = false
is_past (some at) now = leb at now

abbrev pub says : Option (ℕ → Bool) → ℕ → Bool
says none n = false
says (some f) n = f n

-- `_check` at the n-th moment: what it raises.
unfoldable pub check : Watch → ℕ → Option StreamError
check w n =
    if says w.is_cancelled n
    then some cancelled
    else if is_past w.deadline (w.clock n)
    then some deadline_expired
    else none

-- `deadline is not None or cancelled is not None`
abbrev pub is_watched : Watch → Bool
is_watched w = is_some w.deadline || is_some w.is_cancelled

-- A watched operation on a stream that could block without an end.
unfoldable pub unsupported : Endpoint → Watch → Bool
unsupported blocking w = is_watched w
unsupported _ w = false

-- The check that follows an operation with a deadline.
unfoldable pub check_after : Endpoint → Watch → ℕ → Option StreamError
unfolding check
check_after with_deadline w n = if is_watched w then check w n else none
check_after _ w n = none

-- `_bound_deadline`
unfoldable pub bound_deadline : Settings → Watch → Watch
bound_deadline s w = elim s.default_deadline [
  | none ↦ w
  | some limit ↦ elim w.deadline [
    | none ↦ record w { deadline = some limit }
    | some at ↦ record w { deadline = some (if ltb limit at then limit else at) }
  ]
]

-- `deque(maxlen=m).append(text)`
unfoldable pub append_bounded : ℕ → List String → String → List String
append_bounded m texts text = drop (suc (length texts) - m) (texts ++ text ∷ [])

-- `_note`, on a text whose words are one blank apart.
unfoldable pub add_note : Settings → String → Conn → Conn
unfolding append_bounded
add_note s text c = record c {
  diagnostics = append_bounded s.max_diagnostics c.diagnostics (prefix 240 text);
}

-- What the reads bring before the first that brings none.
unfoldable pub stream : List Piece → List ℕ
stream (chunk (b ∷ bs) ∷ ps) = b ∷ (bs ++ stream ps)
stream _ = []

-- The bytes that the connection can still take.
abbrev pub unread : Conn → List ℕ
unread c = c.buffer ++ stream c.reads
