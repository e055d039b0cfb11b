-- ===== src/Acp/Stream/Frame/Chunks.antt =====
-- nc/acp_stream.py: `_read_frame`, on the bytes of the stream however the reads cut them.
use mathlib.Core.List.{append_assoc}
use neocortex.Acp.Stream.Frame.Lines.{split_line_sound, split_line-append_some}
use neocortex.Acp.Stream.Frame.{
  strip_cr, read_frame, Reading, Received, stop, before_read, bytes, finish_line, read_loop,
  received, split_line,
}
use neocortex.Acp.Stream.{
  Conn, unread, raised, waiting, Outcome, StreamError, Piece, Settings, Watch, chunk, not_bytes,
  read_broken, read_stopped, returned, stream,
}
use neocortex.Prelude.{
  any, false, ◌==◌, ap, refl, suc, ◌+◌, ◌∙◌, ◌⊎◌, List, Option-cases, [], arith, inl, inr, none,
  some, ℕ, ◌++◌, ◌∷◌, ◌≡◌,
}

finished_line : (line frame : List ℕ) → finish_line line ≡ returned frame → strip_cr line ≡ frame
unfolding finish_line
finished_line line frame e = ground arith

before_read_cases :
    (s : Settings) (w : Watch) (n : ℕ) (buffer rest frame : List ℕ)
    → before_read s w n buffer ≡ some (returned frame, rest)
    → (line : List ℕ) × (split_line buffer ≡ some (line, rest))
      × (finish_line line ≡ returned frame)
unfolding before_read
before_read_cases s w n buffer rest frame e = elim (Option-cases (split_line buffer)) [
  | inl none_yet ↦ ground (arith, none_yet)
  | inr (q, found) ↦ (q.0, ground (arith, found), ground (arith, found))
]

before_read_goes_on :
    (s : Settings) (w : Watch) (n : ℕ) (buffer : List ℕ)
    → before_read s w n buffer ≡ none
    → split_line buffer ≡ none
unfolding before_read
before_read_goes_on s w n buffer e = ground arith

-- A read that hands bytes on handed on the first bytes of the stream.
received-bytes :
    (s : Settings) (w : Watch) (n : ℕ) (buffer bs : List ℕ) (p : Piece) (ps : List Piece)
    → received s w n buffer p ≡ bytes bs
    → stream (p ∷ ps) ≡ bs ++ stream ps
unfolding received stream
received-bytes s w n buffer bs (chunk []) ps e = ground arith
received-bytes s w n buffer bs (chunk (x ∷ xs)) ps e = ground arith
received-bytes s w n buffer bs not_bytes ps e = ground arith
received-bytes s w n buffer bs read_broken ps e = cc
received-bytes s w n buffer bs (read_stopped x) ps e = cc

-- The rounds of the loop.
pub read_loop_stops :
    (s : Settings) (w : Watch) (n : ℕ) (buffer : List ℕ) (ps : List Piece)
    (q : Outcome (List ℕ) × List ℕ)
    → before_read s w n buffer ≡ some q
    → read_loop s w n buffer ps ≡ record { outcome = q.0; buffer = q.1; reads = ps; moment = suc n }
unfolding read_loop
read_loop_stops s w n buffer [] q e = ground (arith, e)
read_loop_stops s w n buffer (p ∷ ps) q e = ground (arith, e)

read_loop_waits :
    (s : Settings) (w : Watch) (n : ℕ) (buffer : List ℕ)
    → before_read s w n buffer ≡ none
    → (read_loop s w n buffer []).outcome ≡ waiting
unfolding read_loop
read_loop_waits s w n buffer e = ground (arith, e)

pub read_loop_reads :
    (s : Settings) (w : Watch) (n : ℕ) (buffer bs : List ℕ) (p : Piece) (ps : List Piece)
    → before_read s w n buffer ≡ none
    → received s w (suc n) buffer p ≡ bytes bs
    → read_loop s w n buffer (p ∷ ps) ≡ read_loop s w (n + 2) (buffer ++ bs) ps
unfolding read_loop
read_loop_reads s w n buffer bs p ps e h = ground (arith, e, h)

read_loop_fails :
    (s : Settings) (w : Watch) (n : ℕ) (buffer : List ℕ) (p : Piece) (ps : List Piece)
    (x : StreamError)
    → before_read s w n buffer ≡ none
    → received s w (suc n) buffer p ≡ stop x
    → (read_loop s w n buffer (p ∷ ps)).outcome ≡ raised x
unfolding read_loop
read_loop_fails s w n buffer p ps x e h = ground (arith, e, h)

Received-cases :
    (r : Received) → ((bs : List ℕ) × (r ≡ bytes bs)) ⊎ ((x : StreamError) × (r ≡ stop x))
Received-cases (bytes bs) = inl (bs, refl)
Received-cases (stop x) = inr (x, refl)

-- A call gave the frame, which is the next line of the bytes, and left what is after the line.
abbrev pub TakesLine : Reading → List ℕ → List ℕ → Type 0
TakesLine r whole frame =
    (line : List ℕ) × (finish_line line ≡ returned frame)
    × (split_line whole ≡ some (line, r.buffer ++ stream r.reads))

stopped-TakesLine :
    (s : Settings) (w : Watch) (n : ℕ) (buffer frame : List ℕ) (ps : List Piece)
    (q : Outcome (List ℕ) × List ℕ)
    → before_read s w n buffer ≡ some q
    → (read_loop s w n buffer ps).outcome ≡ returned frame
    → TakesLine (read_loop s w n buffer ps) (buffer ++ stream ps) frame
stopped-TakesLine s w n buffer frame ps (o, rest) e h =
    let same = read_loop_stops s w n buffer ps (o, rest) e in
    let (line, split, done) =
      before_read_cases s w n buffer rest frame (e ∙ ap (λ x. some (x, rest)) (rw same at h)) in
    (line, done, rw same (split_line-append_some buffer (stream ps) (line, rest) split))

-- The frame that a call gives is the next line of the bytes, however they come, and what is after
-- the line stays to be read.
pub read_loop-TakesLine :
    (s : Settings) (w : Watch) (n : ℕ) (buffer frame : List ℕ) (ps : List Piece)
    → (read_loop s w n buffer ps).outcome ≡ returned frame
    → TakesLine (read_loop s w n buffer ps) (buffer ++ stream ps) frame
read_loop-TakesLine s w n buffer frame [] h = elim (Option-cases (before_read s w n buffer)) [
  | inl none_yet ↦ cc (read_loop_waits s w n buffer none_yet)
  | inr (q, e) ↦ stopped-TakesLine s w n buffer frame [] q e h
]
read_loop-TakesLine s w n buffer frame (p ∷ ps) h = elim (Option-cases (before_read s w n buffer)) [
  | inr (q, e) ↦ stopped-TakesLine s w n buffer frame (p ∷ ps) q e h
  | inl none_yet ↦ elim (Received-cases (received s w (suc n) buffer p)) [
    | inr (x, e) ↦ cc (read_loop_fails s w n buffer p ps x none_yet e)
    | inl (bs, e) ↦
        let same = read_loop_reads s w n buffer bs p ps none_yet e in
        rw (same, received-bytes s w (suc n) buffer bs p ps e, ← append_assoc buffer bs (stream ps))
          (read_loop-TakesLine s w (n + 2) (buffer ++ bs) frame ps (rw same at h))
  ]
]

-- `read_frame` gives only frames that are the next line of the bytes of the stream: whatever pieces
-- the reads bring and whenever the deadline or the cancellation comes, a call that returns took the
-- bytes up to the first newline, the frame is these without a last carriage return, and the bytes
-- after the newline are what is left to be read.
pub read_frame_sound :
    (s : Settings) (w : Watch) (c d : Conn) (frame : List ℕ)
    → read_frame s w c ≡ (returned frame, d)
    → (line : List ℕ) × (unread c ≡ line ++ 10 ∷ unread d)
      × (any (λ b. b == 10) line ≡ false)
      × (strip_cr line ≡ frame)
unfolding read_frame
read_frame_sound s w c d frame e =
    let (line, done, split) =
      read_loop-TakesLine s w c.moment c.buffer frame c.reads (ap (λ x. x.0) e) in
    let (cut, free) =
      split_line_sound (unread c) (line, unread d) (split ∙ ap (λ r. some (line, unread r.1)) e) in
    (line, cut, free, finished_line line frame done)
