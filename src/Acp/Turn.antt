-- ===== src/Acp/Turn.antt =====
-- nc/acp_client.py: `_run_codex_acp_turn`, the sequence of one turn. What each wait on the stream
-- gives is an argument: the requests and notifications that arrive meanwhile, and how it ends; so are
-- the process after the response and its cleanup.
use neocortex.Acp.Wire.{under}
use neocortex.Acp.Contract.{is_true}
use neocortex.Acp.Decoder.{PromptResult}
use neocortex.Acp.Projection.{Projected, lost, project_prompt_response, projected, stopped}
use neocortex.Json.{Fields, Json, as_dict, as_str, dict, get, str}
use neocortex.Acp.Client.{
  Denials, Policy, air_advertised, deny_request, offered, options_of, selected, setup_problem,
}
use neocortex.Acp.Evidence.{
  Collected, Collector, Sizes, empty_collector, kept, notification, overflowed, prompt_request,
}
use neocortex.Prelude.{
  Bool, List, Option, String, [], all, false, if◌then◌else◌, inl, inr, none, some, true, ℕ, ◌&&◌,
  ◌++◌, ◌∷◌, ◌⊎◌,
}
pub mod Agreed
pub mod Returned

pub data Incoming : Type 0 where
  requested : Fields → Incoming
  notified : Json → Incoming

-- A response, a deadline that expired, or another error with its text.
pub data Waited : Type 0 where
  replied : Fields → Waited
  expired : Waited
  broke : String → Waited

pub record Exchange : Type 0 where
  pub incoming : List Incoming
  pub ending : Waited

-- The waits of a turn in their order, `check_post_response_failure`, and what `close` finds.
pub record Server : Type 0 where
  pub initialize : Exchange
  pub session_new : Exchange
  pub set_model : Exchange
  pub set_mode : Exchange
  pub prompt : Exchange
  pub cancel : Exchange
  pub close : Exchange
  pub late_exit : Option String
  pub shutdown_failure : Option String
  pub cleanup_uncertain : Bool

pub data TurnError : Type 0 where
  rejected : String → TurnError
  evidence_overflow : String → TurnError
  local_failure : String → TurnError
  deadline_expired : TurnError
  uncertain_cleanup : TurnError

-- What the host knows during a turn; `sent` lists the methods it has sent, `phases` the bounded
-- phases of the cleanup that expired.
pub record Progress : Type 0 where
  pub session : Option String
  pub denials : Denials
  pub collector : Collector
  pub sent : List String
  pub phases : List String

abbrev pub new_progress : Progress
new_progress = record {
  session = none;
  denials = record { cancelled = 0; rejection = none };
  collector = empty_collector;
  sent = [];
  phases = [];
}

abbrev pub Turning : Type 0 → Type 0
Turning A = Progress → (TurnError ⊎ A) × Progress

infixl 5 ◌>>=◌ ◌>>◌
abbrev pub ◌>>=◌ : {A B : Type 0} → Turning A → (A → Turning B) → Turning B
◌>>=◌ m f p = let (r, p') = m p in elim r [ inl e ↦ (inl e, p') | inr a ↦ f a p' ]

abbrev pub ◌>>◌ : {B : Type 0} → Turning (Unit {0}) → Turning B → Turning B
m >> k = m >>= λ _. k

abbrev pub pure : {A : Type 0} → A → Turning A
pure a p = (inr a, p)

abbrev pub fail_with : {A : Type 0} → TurnError → Turning A
fail_with e p = (inl e, p)

abbrev pub require : Bool → String → Turning (Unit {0})
require true text p = (inr tt, p)
require false text p = (inl (rejected text), p)

abbrev pub accept_or : {A : Type 0} → String ⊎ A → Turning A
accept_or (inl text) p = (inl (rejected text), p)
accept_or (inr a) p = (inr a, p)

abbrev pub send_method : String → Turning (Unit {0})
send_method method p = (inr tt, record p { sent = p.sent ++ method ∷ [] })

abbrev pub note_phase : String → Turning (Unit {0})
note_phase name p = (inr tt, record p { phases = p.phases ++ name ∷ [] })

abbrev pub set_session : String → Turning (Unit {0})
set_session s p = (inr tt, record p { session = some s })

abbrev pub collected : {A : Type 0} → Collected A × Collector → Turning A
collected (overflowed text, c) p = (inl (evidence_overflow text), record p { collector = c })
collected (kept a, c) p = (inr a, record p { collector = c })

-- `raise_server_request_rejection`
abbrev pub check_rejection : Turning (Unit {0})
check_rejection p = elim p.denials.rejection [
  | some text ↦ (inl (rejected text), p)
  | none ↦ (inr tt, p)
]

-- `close_advertised`
abbrev pub closes : Json → Bool
closes result =
    under result false
      λ fs. under (get "sessionCapabilities" fs) false (λ cs. is_true (get "close" cs))

-- The identity of a fresh session.
abbrev pub fresh_session : Json → String ⊎ String
fresh_session result = elim (as_dict result) [
  | none ↦ inl "server did not allocate a valid fresh session"
  | some fs ↦ elim (as_str (get "sessionId" fs)) [
    | none ↦ inl "server did not allocate a valid fresh session"
    | some s ↦ inr s
  ]
]

abbrev pub ordinary_mode : String
ordinary_mode = "agent"

module _ (sizes : Sizes) where
  abbrev pub handle_one : Incoming → Turning (Unit {0})
  handle_one (requested fs) p =
      (inr tt, record p { denials = (deny_request p.session fs p.denials).1 })
  handle_one (notified v) p = collected (notification sizes v p.collector) p

  unfoldable pub handle_all : List Incoming → Turning (Unit {0})
  unfolding deny_request notification
  handle_all [] = pure tt
  handle_all (i ∷ is) = do handle_one i; handle_all is

  abbrev pub end_wait : Waited → Turning Fields
  end_wait (replied fs) = pure fs
  end_wait expired = fail_with deadline_expired
  end_wait (broke text) = fail_with (local_failure text)

  -- `stream.wait_for`
  unfoldable pub await_reply : Exchange → Turning Fields
  unfolding handle_all
  await_reply x = do handle_all x.incoming; end_wait x.ending

  unfoldable pub call : String → Exchange → Turning Fields
  unfolding await_reply
  call method x = do send_method method; r ← await_reply x; check_rejection; pure r

  -- A call that sets one option, and the test of its answer.
  unfoldable pub set_option : Exchange → String → String → Turning Json
  unfolding call selected
  set_option x id value = do
    r ← call "session/set_config_option" x
    is_set ← accept_or (selected (get "result" r) id value)
    require is_set "server rejected explicit ACP configuration"
    pure (get "result" r)

  -- The handshake; it gives the session, and whether the server can close it.
  unfoldable pub open_session : Server → String → Turning (String × Bool)
  unfolding call air_advertised options_of offered
  open_session server model = do
    a ← call "initialize" server.initialize
    require (air_advertised (get "result" a)) "server does not advertise pinned ACP/AIR profile"
    n ← call "session/new" server.session_new
    s ← accept_or (fresh_session (get "result" n))
    set_session s
    options ← accept_or (options_of (get "result" n))
    require (offered options "model" model && offered options "mode" ordinary_mode)
        "requested model or pinned execution policy is unsupported"
    pure (s, closes (get "result" n))

  -- The last answer is a snapshot of all options.
  unfoldable pub configure : Server → String → Turning (Unit {0})
  unfolding set_option selected
  configure server model = do
    _ ← set_option server.set_model "model" model
    snapshot ← set_option server.set_mode "mode" ordinary_mode
    keeps_model ← accept_or (selected snapshot "model" model)
    keeps_mode ← accept_or (selected snapshot "mode" ordinary_mode)
    require (keeps_model && keeps_mode)
        "server did not retain the pinned model and execution policy"

  module _ (sanitize : String → String) (prompt_id : ℕ) where
    abbrev pub projection_of : Projected × Collector → Turning (PromptResult × Fields)
    projection_of (projected r fact, c) p = (inr (r, fact), record p { collector = c })
    projection_of (lost text, c) p = (inl (evidence_overflow text), record p { collector = c })
    projection_of (stopped, c) p =
        (inl (local_failure "the decoder raised"), record p { collector = c })

    unfoldable pub project : String → Fields → Turning (PromptResult × Fields)
    unfolding project_prompt_response
    project s r p =
        projection_of
          (project_prompt_response sizes sanitize prompt_id s p.denials.cancelled (dict r)
            p.collector)
          p

    abbrev pub end_cancel : String → Waited → Turning (Unit {0})
    end_cancel s (replied r) = do _ ← project s r; pure tt
    end_cancel s expired = note_phase "cancel_response"
    end_cancel s (broke text) = fail_with (local_failure text)

    abbrev pub end_close : Waited → Turning (Unit {0})
    end_close (replied r) = pure tt
    end_close expired = note_phase "session_close"
    end_close (broke text) = fail_with (local_failure text)

    abbrev pub close_session : Server → Turning (Unit {0})
    close_session server = do
      send_method "session/close"
      handle_all server.close.incoming
      end_close server.close.ending

    -- After the prompt's deadline: cancel, close if the server can, and raise.
    unfoldable pub cancel_prompt : Server → String → Bool → Turning (PromptResult × Fields)
    unfolding handle_all project
    cancel_prompt server s can_close = do
      send_method "session/cancel"
      handle_all server.cancel.incoming
      end_cancel s server.cancel.ending
      if can_close then close_session server else pure tt
      fail_with deadline_expired

    abbrev pub end_prompt : Server → String → Bool → Waited → Turning (PromptResult × Fields)
    end_prompt server s can_close (replied r) = do check_rejection; project s r
    end_prompt server s can_close expired = cancel_prompt server s can_close
    end_prompt server s can_close (broke text) = fail_with (local_failure text)

    unfoldable pub ask_prompt : Server → String → Bool → Turning (PromptResult × Fields)
    unfolding handle_all project cancel_prompt prompt_request
    ask_prompt server s can_close = do
      send_method "session/prompt"
      (λ p. collected (prompt_request sizes (str "2.0") prompt_id s p.collector) p)
      handle_all server.prompt.incoming
      end_prompt server s can_close server.prompt.ending

    -- `check_post_response_failure`, `shutdown_failure` and `cleanup_uncertain`.
    abbrev pub check_process : Server → Turning (Unit {0})
    check_process server p = elim server.late_exit [
      | some text ↦ (inl (local_failure text), p)
      | none ↦ elim server.shutdown_failure [
        | some text ↦ (inl (local_failure text), p)
        | none ↦ if server.cleanup_uncertain then (inl uncertain_cleanup, p) else (inr tt, p)
      ]
    ]

    abbrev pub check_setup : Policy → Bool → Turning (Unit {0})
    check_setup policy complete p = elim (setup_problem policy complete) [
      | some text ↦ (inl (rejected text), p)
      | none ↦ (inr tt, p)
    ]

    unfoldable pub run_acp_turn : Server → Policy → Bool → String → Turning (PromptResult × Fields)
    unfolding setup_problem open_session configure ask_prompt
    run_acp_turn server policy complete model = do
      check_setup policy complete
      opened ← open_session server model
      configure server model
      answer ← ask_prompt server opened.0 opened.1
      check_process server
      pure answer
