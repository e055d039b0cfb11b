-- ===== src/Acp/Stream/Output/Whole.antt =====
-- nc/acp_stream.py: what `_write` puts on the stream.
use neocortex.Acp.Stream.Requests.Rounds.{left}
use neocortex.Acp.Stream.Output.Loop.{SendsPrefix, nothing-SendsPrefix, write_loop-SendsPrefix}
use neocortex.Acp.Stream.Envelope.{same}
use neocortex.Json.{Json}
use neocortex.Acp.Stream.Output.{
  write_checked, write_raw, check_now, flush, write, write_data, write_loop,
}
use neocortex.Acp.Stream.{
  >>=-returned, returned, ◌>>=◌, Conn, Io, check, StreamError, is_returned, Outcome, Settings,
  Watch,
}
use neocortex.Prelude.{
  ◌≤◌, Bool-cases, Bool, if◌then◌else◌, ltb, true, Option-cases, arith, false, inl, none, some,
  List, [], ap, inr, length, suc, sym, ℕ, ◌++◌, ◌∙◌, ◌∷◌, ◌≡◌,
}
use mathlib.Core.List.{append-nil}

flush-sent : (s : Settings) (w : Watch) (c : Conn) → (flush s w c).1.sent ≡ c.sent
unfolding flush
flush-sent s w c = ground arith

-- The loop and the flush after it.
abbrev emit : Settings → Watch → List ℕ → Io (Unit {0})
emit s w left = write_data s w left >>= λ _. flush s w

emit-sent :
    (s : Settings) (w : Watch) (left : List ℕ) (c : Conn)
    → (emit s w left c).1.sent ≡ (write_loop s w c.moment left c.sent c.writes).sent
unfolding write_data
emit-sent s w left c = ground (arith, flush-sent s w (write_data s w left c).1)

emit_returned :
    (s : Settings) (w : Watch) (left : List ℕ) (c : Conn)
    → is_returned (write_loop s w c.moment left c.sent c.writes).outcome ≡ false
    → is_returned (emit s w left c).0 ≡ false
unfolding write_data
emit_returned s w left c h = ground arith

-- The frame of a message, if it can be printed.
abbrev pub frame_of : Settings → Json → List ℕ
frame_of s v = elim (s.print v) [ none ↦ [] | some raw ↦ raw ++ 10 ∷ [] ]

pub frame_of_lem :
    (s : Settings) (v : Json) (raw : List ℕ) → s.print v ≡ some raw → frame_of s v ≡ raw ++ 10 ∷ []
frame_of_lem s v raw e = ground (arith, e)

abbrev fits : Settings → Json → Bool
fits s v = elim (s.print v) [
  | none ↦ false
  | some raw ↦ if ltb s.max_message_bytes (length raw) then false else true
]

abbrev tick : Conn → Conn
tick c = record c { moment = suc c.moment }

write_refuses :
    (s : Settings) (w : Watch) (v : Json) (c : Conn)
    → fits s v ≡ false
    → (is_returned (write s w v c).0 ≡ false) × ((write s w v c).1.sent ≡ c.sent)
unfolding write write_checked write_raw check_now
write_refuses s w v c h = (ground arith, ground arith)

early_stop :
    (s : Settings) (w : Watch) (v : Json) (c : Conn) (e : StreamError)
    → check w c.moment ≡ some e
    → (is_returned (write s w v c).0 ≡ false) × ((write s w v c).1.sent ≡ c.sent)
unfolding write write_checked write_raw check_now
early_stop s w v c e h = (ground arith, ground arith)

check_now_calm :
    (w : Watch) (c : Conn) → check w c.moment ≡ none → check_now w c ≡ (returned tt, tick c)
unfolding check_now
check_now_calm w c e = ground (arith, e)

write_checked_emits :
    (s : Settings) (w : Watch) (v : Json) (c : Conn) (raw : List ℕ)
    → s.print v ≡ some raw
    → ltb s.max_message_bytes (length raw) ≡ false
    → write_checked s w v c ≡ emit s w (raw ++ 10 ∷ []) c
unfolding write_checked write_raw
write_checked_emits s w v c raw e f = ground (arith, e, f)

write_emits :
    (s : Settings) (w : Watch) (v : Json) (c : Conn) (raw : List ℕ)
    → s.print v ≡ some raw
    → ltb s.max_message_bytes (length raw) ≡ false
    → check w c.moment ≡ none
    → write s w v c ≡ emit s w (raw ++ 10 ∷ []) (tick c)
unfolding write
write_emits s w v c raw e f h =
    >>=-returned (check_now w) (λ _. write_checked s w v) c (tick c) tt (check_now_calm w c h)
    ∙ write_checked_emits s w v (tick c) raw e f

emit-SendsPrefix :
    (s : Settings) (w : Watch) (left : List ℕ) (c : Conn)
    → SendsPrefix (emit s w left c).0 left c.sent (emit s w left c).1.sent
emit-SendsPrefix s w left c =
    let (part, rest, cut, went, done) = write_loop-SendsPrefix s w c.moment left c.sent c.writes in
    (
      part,
      rest,
      cut,
      emit-sent s w left c ∙ went,
      elim done [ inl early ↦ inl (emit_returned s w left c early) | inr all_gone ↦ inr all_gone ],
    )

unsent-SendsPrefix :
    (r : Outcome (Unit {0})) (whole before after : List ℕ)
    → is_returned r ≡ false
    → after ≡ before
    → SendsPrefix r whole before after
unsent-SendsPrefix r whole before after e h = rw h (nothing-SendsPrefix r whole before e)

fitting-SendsPrefix :
    (s : Settings) (w : Watch) (v : Json) (c : Conn) (raw : List ℕ)
    → s.print v ≡ some raw
    → check w c.moment ≡ none
    → SendsPrefix (write s w v c).0 (raw ++ 10 ∷ []) c.sent (write s w v c).1.sent
fitting-SendsPrefix s w v c raw e h = elim (Bool-cases (ltb s.max_message_bytes (length raw))) [
  | inl long ↦
      let (out, same) = write_refuses s w v c (ground (arith, e, long)) in
      unsent-SendsPrefix _ _ c.sent _ out same
  | inr f ↦ rw (write_emits s w v c raw e f h) (emit-SendsPrefix s w (raw ++ 10 ∷ []) (tick c))
]

-- Whatever the writer does, and whether `_write` returns, raises or waits, the bytes that went out
-- are a first part of the frame, which is the printed message and a newline; where it returned they
-- are the whole frame. A message that cannot be printed sends nothing.
pub write-SendsPrefix :
    (s : Settings) (w : Watch) (v : Json) (c : Conn)
    → SendsPrefix (write s w v c).0 (frame_of s v) c.sent (write s w v c).1.sent
write-SendsPrefix s w v c = elim (Option-cases (check w c.moment)) [
  | inr (x, h) ↦
      let (out, same) = early_stop s w v c x h in unsent-SendsPrefix _ _ c.sent _ out same
  | inl h ↦ elim (Option-cases (s.print v)) [
    | inl unprintable ↦
        let (out, same) = write_refuses s w v c (ground (arith, unprintable)) in
        unsent-SendsPrefix _ _ c.sent _ out same
    | inr (raw, e) ↦ rw (frame_of_lem s v raw e) (fitting-SendsPrefix s w v c raw e h)
  ]
]

printed_of : (s : Settings) (v : Json) → s.print v ≡ none → fits s v ≡ false
printed_of s v e = ground (arith, e)

within :
    (s : Settings) (v : Json) (raw : List ℕ)
    → s.print v ≡ some raw
    → fits s v ≡ true
    → length raw ≤ s.max_message_bytes
within s v raw e h = ground (arith, e, h)

returned-fits :
    (s : Settings) (w : Watch) (v : Json) (c : Conn)
    → is_returned (write s w v c).0 ≡ true
    → fits s v ≡ true
returned-fits s w v c e = elim (Bool-cases (fits s v)) [
  | inl h ↦ h
  | inr h ↦ let (out, same) = write_refuses s w v c h in cc (out, e)
]

SendsPrefix-whole :
    (r : Outcome (Unit {0})) (whole before after : List ℕ)
    → SendsPrefix r whole before after
    → is_returned r ≡ true
    → after ≡ before ++ whole
SendsPrefix-whole r whole before after (part, rest, cut, went, inl early) e = cc (early, e)
SendsPrefix-whole r whole before after (part, rest, cut, went, inr all_gone) e =
    let full : part ≡ whole = sym (append-nil part) ∙ ap (λ xs. part ++ xs) (sym all_gone) ∙ cut in
    went ∙ ap (λ xs. before ++ xs) full

-- A call that returned sent the whole frame of a message within the limit.
pub write_returned :
    (s : Settings) (w : Watch) (v : Json) (c d : Conn)
    → write s w v c ≡ (returned tt, d)
    → (raw : List ℕ) × (s.print v ≡ some raw)
      × (length raw ≤ s.max_message_bytes)
      × (d.sent ≡ c.sent ++ (raw ++ 10 ∷ []))
write_returned s w v c d e =
    let out = ap (λ r. is_returned r.0) e in
    let fine = returned-fits s w v c out in
    let went = SendsPrefix-whole _ _ _ _ (write-SendsPrefix s w v c) out in
    elim (Option-cases (s.print v)) [
      | inl unprintable ↦ cc (printed_of s v unprintable, fine)
      | inr (raw, h) ↦ (
        raw,
        h,
        within s v raw h fine,
        sym (ap (λ r. r.1.sent) e) ∙ went ∙ ap (λ xs. c.sent ++ xs) (frame_of_lem s v raw h),
      )
    ]
