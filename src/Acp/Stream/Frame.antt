-- ===== src/Acp/Stream/Frame.antt =====
-- nc/acp_stream.py: `_read` and `_read_frame`.
pub mod Lines
pub mod Chunks
pub mod Calm
use neocortex.Prelude.{
  List, Option, [], if◌then◌else◌, length, ltb, none, null, some, suc, ℕ, ◌++◌, ◌+◌, ◌==◌, ◌∷◌,
}
use neocortex.Acp.Stream.{
  waiting, raised, Outcome, Io, Piece, Settings, StreamError, Watch, check, check_after, chunk,
  deadline_support, eof, malformed, not_bytes, read_broken, read_stopped, returned, unsupported,
}

-- `buffer[:end]` and `buffer[end + 1:]` at the first newline.
unfoldable pub split_line : List ℕ → Option (List ℕ × List ℕ)
split_line [] = none
split_line (b ∷ bs) =
    if b == 10
    then some ([], bs)
    else elim (split_line bs) [ none ↦ none | some (line, rest) ↦ some (b ∷ line, rest) ]

-- `line[:-1]` where the line ends with a carriage return.
unfoldable pub strip_cr : List ℕ → List ℕ
strip_cr [] = []
strip_cr (b ∷ []) = if b == 13 then [] else b ∷ []
strip_cr (b ∷ c ∷ bs) = b ∷ strip_cr (c ∷ bs)

unfoldable pub finish_line : List ℕ → Outcome (List ℕ)
unfolding strip_cr
finish_line line = elim (strip_cr line) [
  | [] ↦ raised (malformed "empty ACP frame")
  | b ∷ bs ↦ returned (b ∷ bs)
]

-- What a read hands to the loop: the bytes, or the exception.
pub data Received : Type 0 where
  bytes : List ℕ → Received
  stop : StreamError → Received

-- `_read` on what the reader did, and the conversions after it.
unfoldable pub received : Settings → Watch → ℕ → List ℕ → Piece → Received
unfolding check_after
received s w n buffer read_broken = stop (eof "ACP read failed")
received s w n buffer (read_stopped e) = stop e
received s w n buffer not_bytes = elim (check_after s.reader w n) [
  | some e ↦ stop e
  | none ↦ stop (eof "ACP reader returned a non-byte value")
]
received s w n buffer (chunk piece) = elim (check_after s.reader w n) [
  | some e ↦ stop e
  | none ↦ elim piece [
    | [] ↦ stop (eof (if null buffer then "ACP stdout reached EOF" else "truncated ACP frame"))
    | b ∷ bs ↦ bytes (b ∷ bs)
  ]
]

-- Where a call of `_read_frame` stands.
pub record Reading : Type 0 where
  pub outcome : Outcome (List ℕ)
  pub buffer : List ℕ
  pub reads : List Piece
  pub moment : ℕ

-- A round of the loop up to its read: the outcome with the buffer, or `none` where it reads.
unfoldable pub before_read : Settings → Watch → ℕ → List ℕ → Option (Outcome (List ℕ) × List ℕ)
unfolding check split_line finish_line unsupported
before_read s w n buffer = elim (check w n) [
  | some e ↦ some (raised e, buffer)
  | none ↦ elim (split_line buffer) [
    | some (line, rest) ↦ some (finish_line line, rest)
    | none ↦
        if ltb s.max_message_bytes (length buffer)
        then some (raised (malformed "ACP frame exceeds message limit"), buffer)
        else if unsupported s.reader w
        then some (raised deadline_support, buffer)
        else none
  ]
]

-- The loop, from moment n on.
unfoldable pub read_loop : Settings → Watch → ℕ → List ℕ → List Piece → Reading
unfolding before_read received
read_loop s w n buffer [] = elim (before_read s w n buffer) [
  | some (r, rest) ↦ record { outcome = r; buffer = rest; reads = []; moment = suc n }
  | none ↦ record { outcome = waiting; buffer = buffer; reads = []; moment = suc n }
]
read_loop s w n buffer (p ∷ ps) = elim (before_read s w n buffer) [
  | some (r, rest) ↦ record { outcome = r; buffer = rest; reads = p ∷ ps; moment = suc n }
  | none ↦ elim (received s w (suc n) buffer p) [
    | stop e ↦ record { outcome = raised e; buffer = buffer; reads = ps; moment = n + 2 }
    | bytes bs ↦ read_loop s w (n + 2) (buffer ++ bs) ps
  ]
]

unfoldable pub read_frame : Settings → Watch → Io (List ℕ)
unfolding read_loop
read_frame s w c =
    let r = read_loop s w c.moment c.buffer c.reads in
    (r.outcome, record c { buffer = r.buffer; reads = r.reads; moment = r.moment })
