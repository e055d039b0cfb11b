-- ===== src/Acp/Turn/Returned.antt =====
-- nc/acp_client.py: the turns that return a result.
use neocortex.Acp.Client.{Policy, setup_problem}
use neocortex.Acp.Decoder.{PromptResult}
use neocortex.Acp.Projection.{Projected, lost, project_prompt_response, projected, stopped}
use neocortex.Acp.Turn.{
  ◌>>=◌, rejected, TurnError, check_process, check_setup, configure, open_session, run_acp_turn,
  pure, ◌>>◌, deadline_expired, Progress, Server, Turning, Waited, ask_prompt, broke, cancel_prompt,
  check_rejection, close_session, collected, end_cancel, end_prompt, expired, fail_with, handle_all,
  project, projection_of, replied,
}
use neocortex.Json.{Fields, dict, str}
use neocortex.Acp.Evidence.{Collector, Sizes, prompt_request}
use neocortex.Prelude.{
  Option-cases, inl, ◌⊎◌, Bool, Option, String, [], ap, arith, if◌then◌else◌, inr, none, refl, some,
  sym, ℕ, ◌++◌, ◌∙◌, ◌∷◌, ◌≡◌,
}
use neocortex.Acp.Turn.Agreed.{
  open_session-IsOpened, IsConfigured, IsOpened, configure-IsConfigured, >>=-inr,
}

check_passed :
    {A : Type 0} (k : Turning A) (q : Progress)
    → q.denials.rejection ≡ none
    → (check_rejection >> k) q ≡ k q
check_passed k q e =
    let after : Option String → (TurnError ⊎ Unit {0}) × Progress =
      λ o. elim o [ some text ↦ (inl (rejected text), q) | none ↦ (inr tt, q) ] in
    ap (λ o. ((λ _. after o) >> k) q) e

module _ (sizes : Sizes) (sanitize : String → String) (prompt_id : ℕ) where
  project-denials :
      (x : Projected × Collector) (p : Progress)
      → (projection_of sizes sanitize prompt_id x p).1.denials ≡ p.denials
  project-denials (projected r fact, c) p = refl
  project-denials (lost text, c) p = refl
  project-denials (stopped, c) p = refl

  never_returns :
      (server : Server) (s : String) (can_close : Bool) (p : Progress)
      (answer : PromptResult × Fields)
      → ¬ ((cancel_prompt sizes sanitize prompt_id server s can_close p).0 ≡ inr answer)
  unfolding cancel_prompt
  never_returns server s can_close p answer h =
      let last = (cancel_prompt sizes sanitize prompt_id server s can_close p).1 in
      let q : Progress = record p { sent = p.sent ++ "session/cancel" ∷ [] } in
      let ends : Turning (PromptResult × Fields) = fail_with deadline_expired in
      let closing : Turning (Unit {0}) =
        if can_close then close_session sizes sanitize prompt_id server else pure tt in
      let cancelling = end_cancel sizes sanitize prompt_id s server.cancel.ending in
      let (u0, handled, h0) =
        >>=-inr (handle_all sizes server.cancel.incoming) (λ _. cancelling >> (closing >> ends)) q
          last answer (ap (λ y. (y, last)) h) in
      let q0 = (handle_all sizes server.cancel.incoming q).1 in
      let (u1, ended, h1) = >>=-inr cancelling (λ _. closing >> ends) q0 last answer h0 in
      let (u2, closed, h2) = >>=-inr closing (λ _. ends) (cancelling q0).1 last answer h1 in
      ground (arith, h2)

  replied_unrejected :
      (s : String) (r : Fields) (q : Progress) (o : Option String) (answer : PromptResult × Fields)
      → q.denials.rejection ≡ o
      → ((check_rejection >> project sizes sanitize prompt_id s r) q).0 ≡ inr answer
      → ((check_rejection >> project sizes sanitize prompt_id s r) q).1.denials.rejection ≡ none
  unfolding project
  replied_unrejected s r q none answer e h =
      ap (λ x. x.1.denials.rejection) (check_passed (project sizes sanitize prompt_id s r) q e)
      ∙ ap (λ d. d.rejection)
          (project-denials
            (project_prompt_response sizes sanitize prompt_id s q.denials.cancelled (dict r)
              q.collector)
            q)
      ∙ e
  replied_unrejected s r q (some text) answer e h = absurd (ground (arith, e, h))

  end_prompt_unrejected :
      (server : Server) (s : String) (can_close : Bool) (x : Waited) (q : Progress)
      (answer : PromptResult × Fields)
      → (end_prompt sizes sanitize prompt_id server s can_close x q).0 ≡ inr answer
      → (end_prompt sizes sanitize prompt_id server s can_close x q).1.denials.rejection ≡ none
  end_prompt_unrejected server s can_close (replied r) q answer h =
      replied_unrejected s r q q.denials.rejection answer refl h
  end_prompt_unrejected server s can_close expired q answer h =
      absurd (never_returns server s can_close q answer h)
  end_prompt_unrejected server s can_close (broke text) q answer h = absurd (ground (arith, h))

  ask_prompt_unrejected :
      (server : Server) (s : String) (can_close : Bool) (p p' : Progress)
      (answer : PromptResult × Fields)
      → ask_prompt sizes sanitize prompt_id server s can_close p ≡ (inr answer, p')
      → p'.denials.rejection ≡ none
  unfolding ask_prompt
  ask_prompt_unrejected server s can_close p p' answer h =
      let q : Progress = record p { sent = p.sent ++ "session/prompt" ∷ [] } in
      let recorded : Turning (Unit {0}) =
        λ p. collected (prompt_request sizes (str "2.0") prompt_id s p.collector) p in
      let ending = end_prompt sizes sanitize prompt_id server s can_close server.prompt.ending in
      let (u0, kept_request, h0) =
        >>=-inr recorded (λ _. handle_all sizes server.prompt.incoming >> ending) q p' answer h in
      let q0 = (recorded q).1 in
      let (u1, handled, h1) =
        >>=-inr (handle_all sizes server.prompt.incoming) (λ _. ending) q0 p' answer h0 in
      let q1 = (handle_all sizes server.prompt.incoming q0).1 in
      ap (λ x. x.1.denials.rejection) (sym h1)
      ∙ end_prompt_unrejected server s can_close server.prompt.ending q1 answer (ap (λ x. x.0) h1)

  check_process-same :
      (server : Server) (p : Progress) (u : Unit {0})
      → (check_process sizes sanitize prompt_id server p).0 ≡ inr u
      → (check_process sizes sanitize prompt_id server p).1 ≡ p
  check_process-same server p u h = ground arith

  -- What a turn that returned has seen.
  abbrev pub IsAgreed : Server → Policy → Bool → String → Type 0
  IsAgreed server policy complete model =
      (setup_problem policy complete ≡ none)
      × IsOpened sizes server model
      × IsConfigured sizes server model

  check_setup-passed :
      (policy : Policy) (complete : Bool) (k : Turning (PromptResult × Fields)) (p p' : Progress)
      (answer : PromptResult × Fields)
      → (check_setup sizes sanitize prompt_id policy complete >> k) p ≡ (inr answer, p')
      → (setup_problem policy complete ≡ none) × (k p ≡ (inr answer, p'))
  check_setup-passed policy complete k p p' answer h =
      elim (Option-cases (setup_problem policy complete)) [
        | inl e ↦ (e, ground (arith, e, h))
        | inr (text, e) ↦ absurd (ground (arith, e, h))
      ]

  -- A turn returns a result only where the policy was accepted, the server advertised the ACP and AIR
  -- profile, offered the model and the pinned mode, and selected both in its last snapshot of the
  -- options, and where no request of the server was rejected; the deadline of the prompt, or an error
  -- in any wait, never gives one.
  pub returned_turn-IsAgreed :
      (server : Server) (policy : Policy) (complete : Bool) (model : String) (p p' : Progress)
      (answer : PromptResult × Fields)
      → run_acp_turn sizes sanitize prompt_id server policy complete model p ≡ (inr answer, p')
      → IsAgreed server policy complete model × (p'.denials.rejection ≡ none)
  unfolding run_acp_turn
  returned_turn-IsAgreed server policy complete model p p' answer h =
      let finish = λ (answer : PromptResult × Fields).
        check_process sizes sanitize prompt_id server >> pure answer in
      let asks = λ (o : String × Bool). ask_prompt sizes sanitize prompt_id server o.0 o.1 in
      let k1 = λ (o : String × Bool). configure sizes server model >> (asks o >>= finish) in
      let (accepted, h0) =
        check_setup-passed policy complete (open_session sizes server model >>= k1) p p' answer h in
      let (o, opened, h1) = >>=-inr (open_session sizes server model) k1 p p' answer h0 in
      let q0 = (open_session sizes server model p).1 in
      let (u, configured, h2) =
        >>=-inr (configure sizes server model) (λ _. asks o >>= finish) q0 p' answer h1 in
      let q1 = (configure sizes server model q0).1 in
      let (got, was_asked, h3) = >>=-inr (asks o) finish q1 p' answer h2 in
      let q2 = (asks o q1).1 in
      let (v, checked, h4) =
        >>=-inr (check_process sizes sanitize prompt_id server) (λ _. pure got) q2 p' answer h3 in
      let unrejected =
        ask_prompt_unrejected server o.0 o.1 q1 q2 got (ap (λ x. (x, q2)) was_asked) in
      (
        (
          accepted,
          open_session-IsOpened sizes server model p o opened,
          configure-IsConfigured sizes server model q0 u configured,
        ),
        ap (λ x. x.1.denials.rejection) (sym h4)
            ∙ ap (λ x. x.denials.rejection) (check_process-same server q2 v checked)
            ∙ unrejected,
      )
