-- ===== src/Acp/Turn/Agreed.antt =====
-- nc/acp_client.py: what a turn that returned has agreed on with the server.
use neocortex.Acp.Client.{selected, air_advertised, offered, options_of}
use neocortex.Acp.Evidence.{Sizes}
use neocortex.Json.{Json, get, Fields}
use neocortex.Acp.Turn.{
  configure, set_option, pure, Server, check_rejection, closes, fresh_session, open_session,
  ordinary_mode, set_session, await_reply, ◌>>◌, ◌>>=◌, Exchange, Progress, TurnError, Turning,
  Waited, accept_or, broke, call, end_wait, expired, handle_all, replied, require,
}
use neocortex.Prelude.{
  List, Option, [], none, some, ◌&&◌, ◌++◌, ◌∙◌, ◌∷◌, Bool, String, ap, arith, false, inl, inr,
  refl, true, ◌≡◌, ◌⊎◌,
}

-- How a computation that returned got there.
bind_split :
    {A B : Type 0} (r : (TurnError ⊎ A) × Progress) (f : A → Turning B) (p p' : Progress) (b : B)
    → ((λ _. r) >>= f) p ≡ (inr b, p')
    → (a : A) × (r.0 ≡ inr a) × (f a r.1 ≡ (inr b, p'))
bind_split (inl e, q) f p p' b h = absurd (ground (arith, h))
bind_split (inr a, q) f p p' b h = (a, refl, h)

pub >>=-inr :
    {A B : Type 0} (m : Turning A) (f : A → Turning B) (p p' : Progress) (b : B)
    → (m >>= f) p ≡ (inr b, p')
    → (a : A) × ((m p).0 ≡ inr a) × (f a (m p).1 ≡ (inr b, p'))
>>=-inr m f p p' b h = bind_split (m p) f p p' b h

require_passed :
    {A : Type 0} (t : Bool) (text : String) (k : Turning A) (p p' : Progress) (a : A)
    → (require t text >> k) p ≡ (inr a, p')
    → (t ≡ true) × (k p ≡ (inr a, p'))
require_passed true text k p p' a h = (refl, h)
require_passed false text k p p' a h = absurd (ground (arith, h))

accept_passed :
    {A B : Type 0} (o : String ⊎ A) (f : A → Turning B) (p p' : Progress) (b : B)
    → (accept_or o >>= f) p ≡ (inr b, p')
    → (a : A) × (o ≡ inr a) × (f a p ≡ (inr b, p'))
accept_passed (inl text) f p p' b h = absurd (ground (arith, h))
accept_passed (inr a) f p p' b h = (a, refl, h)

end_wait-replied :
    (sizes : Sizes) (x : Waited) (p : Progress) (r : Fields)
    → (end_wait sizes x p).0 ≡ inr r
    → x ≡ replied r
end_wait-replied sizes (replied fs) p r h = ground (arith, h)
end_wait-replied sizes expired p r h = absurd (ground (arith, h))
end_wait-replied sizes (broke text) p r h = absurd (ground (arith, h))

require-true :
    (t : Bool) (text : String) (p : Progress) (u : Unit {0})
    → (require t text p).0 ≡ inr u
    → t ≡ true
require-true true text p u h = refl
require-true false text p u h = absurd (ground (arith, h))

checked_same :
    (a b : Fields) (q : Progress) (o : Option String)
    → q.denials.rejection ≡ o
    → ((check_rejection >> pure a) q).0 ≡ inr b
    → a ≡ b
checked_same a b q none e h = ground (arith, e, h)
checked_same a b q (some text) e h = absurd (ground (arith, e, h))

module _ (sizes : Sizes) where
  await_reply-replied :
      (x : Exchange) (p : Progress) (r : Fields)
      → (await_reply sizes x p).0 ≡ inr r
      → x.ending ≡ replied r
  unfolding await_reply
  await_reply-replied x p r h =
      let whole : await_reply sizes x p ≡ (inr r, (await_reply sizes x p).1) =
        ap (λ y. (y, (await_reply sizes x p).1)) h in
      let (u, handled, ended) =
        >>=-inr (handle_all sizes x.incoming) (λ _. end_wait sizes x.ending) p
          (await_reply sizes x p).1 r whole in
      end_wait-replied sizes x.ending (handle_all sizes x.incoming p).1 r (ap (λ y. y.0) ended)

  call-replied :
      (method : String) (x : Exchange) (p : Progress) (r : Fields)
      → (call sizes method x p).0 ≡ inr r
      → x.ending ≡ replied r
  unfolding call
  call-replied method x p r h =
      let q : Progress = record p { sent = p.sent ++ method ∷ [] } in
      let (a, waited, checked) =
        >>=-inr (await_reply sizes x) (λ a. check_rejection >> pure a) q (call sizes method x p).1 r
          (ap (λ y. (y, (call sizes method x p).1)) h) in
      let same : a ≡ r =
        checked_same a r (await_reply sizes x q).1 (await_reply sizes x q).1.denials.rejection refl
          (ap (λ y. y.0) checked) in
      await_reply-replied x q r (waited ∙ ap inr same)

  -- The handshake of a turn that got past it.
  abbrev pub IsOpened : Server → String → Type 0
  IsOpened server model =
      (a : Fields) × (n : Fields) × (options : List Fields) × (server.initialize.ending ≡ replied a)
      × (air_advertised (get "result" a) ≡ true)
      × (server.session_new.ending ≡ replied n)
      × (options_of (get "result" n) ≡ inr options)
      × (offered options "model" model && offered options "mode" ordinary_mode ≡ true)

  pub open_session-IsOpened :
      (server : Server) (model : String) (p : Progress) (s : String × Bool)
      → (open_session sizes server model p).0 ≡ inr s
      → IsOpened server model
  unfolding open_session
  open_session-IsOpened server model p s h =
      let last = (open_session sizes server model p).1 in
      let k2 = λ (n : Fields) (s : String) (options : List Fields).
        require (offered options "model" model && offered options "mode" ordinary_mode)
          "requested model or pinned execution policy is unsupported"
        >> pure (s, closes (get "result" n)) in
      let k1 = λ (n : Fields). accept_or (fresh_session (get "result" n)) >>= λ s.
      set_session s >> (accept_or (options_of (get "result" n)) >>= k2 n s) in
      let k0 = λ (a : Fields).
        require (air_advertised (get "result" a)) "server does not advertise pinned ACP/AIR profile"
        >> (call sizes "session/new" server.session_new >>= k1) in
      let (a, first, h0) =
        >>=-inr (call sizes "initialize" server.initialize) k0 p last s (ap (λ y. (y, last)) h) in
      let q0 = (call sizes "initialize" server.initialize p).1 in
      let (advertised, h1) =
        require_passed (air_advertised (get "result" a))
          "server does not advertise pinned ACP/AIR profile"
          (call sizes "session/new" server.session_new >>= k1) q0 last s h0 in
      let (n, second, h2) = >>=-inr (call sizes "session/new" server.session_new) k1 q0 last s h1 in
      let q1 = (call sizes "session/new" server.session_new q0).1 in
      let (id, fresh, h3) =
        accept_passed (fresh_session (get "result" n))
          (λ s. set_session s >> (accept_or (options_of (get "result" n)) >>= k2 n s)) q1 last s
          h2 in
      let q2 : Progress = record q1 { session = some id } in
      let (options, has_options, h4) =
        accept_passed (options_of (get "result" n)) (k2 n id) q2 last s h3 in
      let (can_set, h5) =
        require_passed (offered options "model" model && offered options "mode" ordinary_mode)
          "requested model or pinned execution policy is unsupported"
          (pure (id, closes (get "result" n))) q2 last s h4 in
      (
        a,
        n,
        options,
        call-replied "initialize" server.initialize p a first,
        advertised,
        call-replied "session/new" server.session_new q0 n second,
        has_options,
        can_set,
      )

  set_option-replied :
      (x : Exchange) (id value : String) (p : Progress) (v : Json)
      → (set_option sizes x id value p).0 ≡ inr v
      → (r : Fields) × (x.ending ≡ replied r) × (get "result" r ≡ v)
  unfolding set_option
  set_option-replied x id value p v h =
      let last = (set_option sizes x id value p).1 in
      let rest = λ (r : Fields) (is_set : Bool).
        require is_set "server rejected explicit ACP configuration" >> pure (get "result" r) in
      let (r, called, h0) =
        >>=-inr (call sizes "session/set_config_option" x)
          (λ r. accept_or (selected (get "result" r) id value) >>= rest r) p last v
          (ap (λ y. (y, last)) h) in
      let q = (call sizes "session/set_config_option" x p).1 in
      let (is_set, tested, h1) =
        accept_passed (selected (get "result" r) id value) (rest r) q last v h0 in
      let (passed, h2) =
        require_passed is_set "server rejected explicit ACP configuration" (pure (get "result" r)) q
          last v h1 in
      let given : get "result" r ≡ v = ground (arith, h2) in
      (r, call-replied "session/set_config_option" x p r called, given)

  -- The last snapshot of the options selects both.
  abbrev pub IsConfigured : Server → String → Type 0
  IsConfigured server model =
      (t : Fields) × (server.set_mode.ending ≡ replied t)
      × (selected (get "result" t) "model" model ≡ inr true)
      × (selected (get "result" t) "mode" ordinary_mode ≡ inr true)

  both_true : (a b : Bool) → a && b ≡ true → (a ≡ true) × (b ≡ true)
  both_true a b h = ground (arith, h)

  pub configure-IsConfigured :
      (server : Server) (model : String) (p : Progress) (u : Unit {0})
      → (configure sizes server model p).0 ≡ inr u
      → IsConfigured server model
  unfolding configure
  configure-IsConfigured server model p u h =
      let last = (configure sizes server model p).1 in
      let text : String = "server did not retain the pinned model and execution policy" in
      let k2 = λ (v : Json) (keeps_model : Bool).
        accept_or (selected v "mode" ordinary_mode) >>= λ keeps_mode.
        require (keeps_model && keeps_mode) text in
      let k1 = λ (v : Json). accept_or (selected v "model" model) >>= k2 v in
      let (first, set_first, h0) =
        >>=-inr (set_option sizes server.set_model "model" model)
          (λ _. set_option sizes server.set_mode "mode" ordinary_mode >>= k1) p last u
          (ap (λ y. (y, last)) h) in
      let q0 = (set_option sizes server.set_model "model" model p).1 in
      let (v, set_second, h1) =
        >>=-inr (set_option sizes server.set_mode "mode" ordinary_mode) k1 q0 last u h0 in
      let q1 = (set_option sizes server.set_mode "mode" ordinary_mode q0).1 in
      let (keeps_model, kept_model, h2) =
        accept_passed (selected v "model" model) (k2 v) q1 last u h1 in
      let (keeps_mode, kept_mode, h3) =
        accept_passed (selected v "mode" ordinary_mode)
          (λ keeps_mode. require (keeps_model && keeps_mode) text) q1 last u h2 in
      let kept : keeps_model && keeps_mode ≡ true =
        require-true (keeps_model && keeps_mode) text q1 u (ap (λ y. y.0) h3) in
      let (m, n) = both_true keeps_model keeps_mode kept in
      let (t, ended, given) =
        set_option-replied server.set_mode "mode" ordinary_mode q0 v set_second in
      (
        t,
        ended,
        ap (λ x. selected x "model" model) given ∙ kept_model ∙ ap inr m,
        ap (λ x. selected x "mode" ordinary_mode) given ∙ kept_mode ∙ ap inr n,
      )
