-- ===== src/Acp/Stream/Frame/Calm.antt =====
-- nc/acp_stream.py: `_read_frame` where neither a deadline nor a cancellation stops it.
use mathlib.Core.List.{append_assoc, append-nil}
use neocortex.Acp.Stream.Frame.Lines.{
  split_line_lem, split_line-append_none, split_line-append_some,
}
use neocortex.Acp.Stream.Frame.Chunks.{read_loop_reads, read_loop_stops}
use neocortex.Acp.Stream.Frame.{
  read_frame, Reading, before_read, bytes, finish_line, read_loop, received, split_line,
}
use neocortex.Prelude.{
  any, ap, ◌==◌, ◌∙◌, suc, ◌+◌, List, Option-cases, [], arith, false, inl, inr, length, none, refl,
  some, ℕ, ◌++◌, ◌∷◌, ◌≡◌, ◌≤◌,
}
use neocortex.Acp.Stream.{
  Conn, unread, Endpoint, Piece, Settings, Watch, blocking, check, check_after, chunk, in_memory,
  stream, unsupported, with_deadline,
}

-- Without a newline in the buffer and without bytes to come there is no line.
dry {ℓ} :
    {A : Type ℓ} (buffer : List ℕ) (q : List ℕ × List ℕ)
    → split_line buffer ≡ none
    → split_line (buffer ++ []) ≡ some q
    → A
dry buffer q e h = cc (e, rw (append-nil buffer) at h)

module _ (s : Settings) (w : Watch) (calm : (n : ℕ) → check w n ≡ none)
    (supported : unsupported s.reader w ≡ false) where
  before_read_found :
      (n : ℕ) (buffer : List ℕ) (q : List ℕ × List ℕ)
      → split_line buffer ≡ some q
      → before_read s w n buffer ≡ some (finish_line q.0, q.1)
  unfolding before_read
  before_read_found n buffer q e = ground (arith, e, calm n)

  before_read_more :
      (n : ℕ) (buffer : List ℕ)
      → split_line buffer ≡ none
      → length buffer ≤ s.max_message_bytes
      → before_read s w n buffer ≡ none
  unfolding before_read
  before_read_more n buffer e h = ground (arith, e, calm n, supported)

  check_after_calm : (e : Endpoint) (n : ℕ) → check_after e w n ≡ none
  unfolding check_after
  check_after_calm with_deadline n = ground (arith, calm n)
  check_after_calm in_memory n = refl
  check_after_calm blocking n = refl

  received_chunk :
      (n b : ℕ) (buffer bs : List ℕ) → received s w n buffer (chunk (b ∷ bs)) ≡ bytes (b ∷ bs)
  unfolding received
  received_chunk n b buffer bs = ground (arith, check_after_calm s.reader n)

  -- The call takes the line.
  abbrev Takes : Reading → List ℕ × List ℕ → Type 0
  Takes r q = (r.outcome ≡ finish_line q.0) × (r.buffer ++ stream r.reads ≡ q.1)

  read_loop_found :
      (n : ℕ) (buffer : List ℕ) (ps : List Piece) (p q : List ℕ × List ℕ)
      → split_line buffer ≡ some p
      → split_line (buffer ++ stream ps) ≡ some q
      → Takes (read_loop s w n buffer ps) q
  read_loop_found n buffer ps p q e h =
      let same = read_loop_stops s w n buffer ps _ (before_read_found n buffer p e) in
      let both = split_line-append_some buffer (stream ps) p e in rw same (ground (arith, both, h))

  read_loop-Takes :
      (n : ℕ) (buffer : List ℕ) (ps : List Piece) (q : List ℕ × List ℕ)
      → split_line (buffer ++ stream ps) ≡ some q
      → length q.0 ≤ s.max_message_bytes
      → Takes (read_loop s w n buffer ps) q
  read_loop-Takes n buffer (chunk (b ∷ bs) ∷ ps) q h fits =
      elim (Option-cases (split_line buffer)) [
        | inr (p, e) ↦ read_loop_found n buffer (chunk (b ∷ bs) ∷ ps) p q e h
        | inl e ↦
            let short = split_line-append_none buffer (stream (chunk (b ∷ bs) ∷ ps)) q e h in
            let more = before_read_more n buffer e (omega arith) in
            let same =
              read_loop_reads s w n buffer (b ∷ bs) (chunk (b ∷ bs)) ps more
                (received_chunk (suc n) b buffer bs) in
            rw same (
              read_loop-Takes (n + 2) (buffer ++ b ∷ bs) ps q
                (rw (append_assoc buffer (b ∷ bs) (stream ps)) (unfold stream in h)) fits)
      ]
  read_loop-Takes n buffer ps q h fits = elim (Option-cases (split_line buffer)) [
    | inr (p, e) ↦ read_loop_found n buffer ps p q e h
    | inl e ↦ dry buffer q e (unfold stream in h)
  ]

  -- Without a deadline that passes or a cancellation, `read_frame` gives the next line however the
  -- reads cut the bytes: where the bytes of the stream are a line without a newline, then a newline,
  -- then others, and the line is no longer than the limit, the call ends with that line less a last
  -- carriage return, or with the error for an empty frame, and the others are left to be read.
  pub read_frame_lem :
      (c : Conn) (line rest : List ℕ)
      → unread c ≡ line ++ 10 ∷ rest
      → any (λ b. b == 10) line ≡ false
      → length line ≤ s.max_message_bytes
      → ((read_frame s w c).0 ≡ finish_line line) × (unread (read_frame s w c).1 ≡ rest)
  unfolding read_frame
  read_frame_lem c line rest e free fits =
      read_loop-Takes c.moment c.buffer c.reads (line, rest)
        (ap split_line e ∙ split_line_lem line rest free) fits
