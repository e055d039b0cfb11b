-- ===== src/Acp/Stream/RoundTrip.antt =====
-- nc/acp_stream.py: `_write` at one end of a stream and `pump` at the other.
use neocortex.Acp.Stream.Requests.Rounds.{left}
use neocortex.Acp.Stream.Frame.Calm.{read_frame_lem}
use mathlib.Core.List.{append_assoc}
use neocortex.Acp.Stream.Output.Whole.{write_returned}
use neocortex.Acp.Stream.Output.{write}
use neocortex.Acp.Stream.Frame.{read_frame, finish_line, strip_cr}
use neocortex.Acp.Stream.Requests.{decode, receive}
use neocortex.Prelude.{
  ap, ◌∙◌, List, [], any, arith, false, length, none, null, some, ℕ, ◌++◌, ◌==◌, ◌∷◌, ◌≡◌, ◌≤◌,
}
use neocortex.Json.{Json}
use neocortex.Acp.Stream.{>>=-returned, Conn, Settings, Watch, check, returned, unread, unsupported}
use neocortex.Acp.Stream.Envelope.{AcpMessage, valid, validated}

append-left-cancel : (xs ys zs : List ℕ) → xs ++ ys ≡ xs ++ zs → ys ≡ zs
append-left-cancel [] ys zs e = e
append-left-cancel (x ∷ xs) ys zs e = append-left-cancel xs ys zs (ground arith)

finish_line_lem :
    (raw : List ℕ) → strip_cr raw ≡ raw → null raw ≡ false → finish_line raw ≡ returned raw
unfolding finish_line
finish_line_lem [] e h = cc
finish_line_lem (b ∷ bs) e h = ground (arith, e)

decode_lem :
    (s : Settings) (raw : List ℕ) (v : Json) (m : AcpMessage) (c : Conn)
    → length raw ≤ s.max_message_bytes
    → s.parse raw ≡ some v
    → validated v ≡ valid m
    → decode s raw c ≡ (returned m, c)
unfolding decode
decode_lem s raw v m c fits p ok = ground (arith, p, ok)

-- A message that one connection has written is what the other receives, however the reads cut the
-- bytes: where the bytes that the reader can still take are those that the writer has sent during the
-- call, with more after them, `pump` gives the message, and leaves the bytes that came after it.
-- The conditions: the reader is not stopped and its limit is no lower than the frame; the reader's
-- parser undoes the writer's printer on the message; the printed text is not empty, holds no
-- newline, and does not end in a carriage return; the message is a valid envelope.
pub receive-write :
    (s t : Settings) (u w : Watch) (v : Json) (m : AcpMessage) (a b c : Conn) (raw rest : List ℕ)
    → ((n : ℕ) → check w n ≡ none)
    → unsupported t.reader w ≡ false
    → s.max_message_bytes ≤ t.max_message_bytes
    → s.print v ≡ some raw
    → t.parse raw ≡ some v
    → any (λ x. x == 10) raw ≡ false
    → strip_cr raw ≡ raw
    → null raw ≡ false
    → validated v ≡ valid m
    → write s u v a ≡ (returned tt, b)
    → a.sent ++ unread c ≡ b.sent ++ rest
    → ((receive t w c).0 ≡ returned m) × (unread (receive t w c).1 ≡ rest)
unfolding receive
receive-write s t u w v m a b c raw rest calm supported limits print parse line whole full ok out
      joined =
    let (sent, printed, fits, went) = write_returned s u v a b out in
    let same : sent ≡ raw = ground (arith, printed, print) in
    let next : unread c ≡ raw ++ 10 ∷ rest =
      append-left-cancel a.sent (unread c) (raw ++ 10 ∷ rest) (
        joined
        ∙ ap (λ xs. xs ++ rest) (went ∙ ap (λ xs. a.sent ++ (xs ++ 10 ∷ [])) same)
        ∙ append_assoc a.sent (raw ++ 10 ∷ []) rest
        ∙ ap (λ xs. a.sent ++ xs) (append_assoc raw (10 ∷ []) rest)) in
    let short : length raw ≤ t.max_message_bytes = rw (← same) (omega arith) in
    let (frame, left) = read_frame_lem t w calm supported c raw rest next line short in
    let d = (read_frame t w c).1 in
    let there : read_frame t w c ≡ (returned raw, d) =
      ap (λ r. (r, d)) (frame ∙ finish_line_lem raw whole full) in
    let done =
      >>=-returned (read_frame t w) (decode t) c d raw there
      ∙ decode_lem t raw v m d short parse ok in
    (ap (λ r. r.0) done, ap (λ r. unread r.1) done ∙ left)
