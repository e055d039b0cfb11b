-- ===== src/Acp/Stream/Requests/Sound.antt =====
-- nc/acp_stream.py: the bounds of a connection, over its operations in any order.
use neocortex.Acp.Stream.Envelope.{Kind, validate_outbound}
use neocortex.Acp.Stream.Requests.{
  answer, asked_id, dispatch, find_pending, refuse_first, notify, of_id, send_valid, take_response,
  change, new_pending, request_message, send_next, send_request,
}
use neocortex.Acp.Stream.Output.{check_now, flush, write, write_checked, write_data, write_raw}
use neocortex.Prelude.{
  Bool-cases, find_sound, leb, prefix, some, Option, Option-cases, String, [], inl, inr,
  length-append, ltb, none, refl, suc, ◌++◌, ◌<◌, ◌∙◌, ◌∷◌, List, arith, length, ℕ, ◌≡◌, ◌≤◌,
}
use neocortex.Json.{Fields, get, Json}
use neocortex.Acp.Stream.Requests.Rows.{
  length-append_bounded, length-update, update-IsTable, append-IsTable, IsTable,
}
use neocortex.Acp.Stream.{
  add_note, StreamError, bound_deadline, ◌>>=◌, ◌>>◌, raise_if, or_raise, pure, raised, Pending,
  raised, ◌>>=◌, Outcome, Conn, Io, Settings, Watch, returned,
}

-- The table and the notes are within their bounds, and the table is one below the next id.
abbrev pub IsSound : Settings → Conn → Type 0
IsSound s c =
    (length c.pending ≤ s.max_pending_requests)
    × (length c.diagnostics ≤ s.max_diagnostics)
    × IsTable c.next_id c.pending

bind-keeps_split {ℓ} :
    {A B : Type 0} (P Q : Conn → Type ℓ) (r : Outcome A × Conn) (f : A → Io B) (c : Conn)
    → P r.1
    → ((d : Conn) → P d → Q d)
    → ((a : A) (d : Conn) → P d → Q (f a d).1)
    → Q (((λ _. r) >>= f) c).1
bind-keeps_split P Q (returned a, d) f c h k g = g a d h
bind-keeps_split P Q (raised e, d) f c h k g = k d h
bind-keeps_split P Q (Outcome.waiting, d) f c h k g = k d h

-- What holds where the first part ends, however it ends, and what the second part makes of it.
pub >>=-keeps {ℓ} :
    {A B : Type 0} (P Q : Conn → Type ℓ) (m : Io A) (f : A → Io B) (c : Conn)
    → P (m c).1
    → ((d : Conn) → P d → Q d)
    → ((a : A) (d : Conn) → P d → Q (f a d).1)
    → Q ((m >>= f) c).1
>>=-keeps P Q m f c = bind-keeps_split P Q (m c) f c

-- `_write` touches neither the table nor what has been read.
abbrev pub Same : Conn → Conn → Type 0
Same c d =
    (d.pending ≡ c.pending)
    × (d.next_id ≡ c.next_id)
    × (d.diagnostics ≡ c.diagnostics)
    × (d.buffer ≡ c.buffer)
    × (d.reads ≡ c.reads)

flush-Same : (s : Settings) (w : Watch) (c : Conn) → Same c (flush s w c).1
unfolding flush
flush-Same s w c = ground arith

Same-trans : (b c d : Conn) → Same b c → Same c d → Same b d
Same-trans b c d h k = ground arith

Same-refl : (c : Conn) → Same c c
Same-refl c = (refl, refl, refl, refl, refl)

-- Two parts of which neither touches it.
>>=-Same :
    {A B : Type 0} (m : Io A) (f : A → Io B) (c : Conn)
    → Same c (m c).1
    → ((a : A) (d : Conn) → Same d (f a d).1)
    → Same c ((m >>= f) c).1
>>=-Same m f c h g =
    >>=-keeps (Same c) (Same c) m f c h (λ d k. k) (λ a d k. Same-trans c d (f a d).1 k (g a d))

write_raw-Same :
    (s : Settings) (w : Watch) (raw : List ℕ) (c : Conn) → Same c (write_raw s w raw c).1
unfolding write_raw write_data
write_raw-Same s w raw c =
    >>=-Same (raise_if (ltb s.max_message_bytes (length raw)) _)
      (λ _. write_data s w (raw ++ 10 ∷ []) >> flush s w) c (Same-refl c)
      (λ a d.
        >>=-Same (write_data s w (raw ++ 10 ∷ [])) (λ _. flush s w) d (Same-refl d)
          (λ b e. flush-Same s w e))

write_checked-Same :
    (s : Settings) (w : Watch) (v : Json) (c : Conn) → Same c (write_checked s w v c).1
unfolding write_checked
write_checked-Same s w v c =
    >>=-Same (or_raise (s.print v) _) (write_raw s w) c (Same-refl c)
      (λ raw d. write_raw-Same s w raw d)

pub write-Same : (s : Settings) (w : Watch) (v : Json) (c : Conn) → Same c (write s w v c).1
unfolding write check_now
write-Same s w v c =
    >>=-Same (check_now w) (λ _. write_checked s w v) c (Same-refl c)
      (λ a d. write_checked-Same s w v d)

-- Sound states that differ in what is neither the table nor the notes.
Same-IsSound : (s : Settings) (c d : Conn) → Same c d → IsSound s c → IsSound s d
Same-IsSound s c d (table, next, notes, _, _) (few, short, t) =
    (rw table few, rw notes short, rw (table, next) t)

weaken-IsTable : (n : ℕ) (ps : List Pending) → IsTable n ps → IsTable (suc n) ps
weaken-IsTable n [] t = tt
weaken-IsTable n (p ∷ ps) (below, right, alone, t) =
    (omega arith, right, alone, weaken-IsTable n ps t)

-- Between the new id and the new row.
abbrev Between : Settings → ℕ → Conn → Type 0
Between s n c =
    (length c.pending < s.max_pending_requests)
    × (length c.diagnostics ≤ s.max_diagnostics)
    × (c.next_id ≡ suc n)
    × IsTable n c.pending

Between-IsSound : (s : Settings) (n : ℕ) (c : Conn) → Between s n c → IsSound s c
Between-IsSound s n c (few, short, next, t) =
    (omega arith, short, rw next (weaken-IsTable n c.pending t))

new_pending-IsSound :
    (s : Settings) (n : ℕ) (c : Conn) → Between s n c → IsSound s (new_pending n c)
new_pending-IsSound s n c (few, short, next, t) = (
  omega (arith, length-append c.pending (record { id = n; response = none } ∷ [])),
  short,
  rw next (append-IsTable n c.pending t),
)

Same-Between : (s : Settings) (n : ℕ) (c d : Conn) → Same c d → Between s n c → Between s n d
Same-Between s n c d (table, next, notes, _, _) (few, short, id, t) =
    (rw table few, rw notes short, next ∙ id, rw table t)

send_next-IsSound :
    (s : Settings) (w : Watch) (method : String) (params : Option Json) (c : Conn)
    → length c.pending < s.max_pending_requests
    → IsSound s c
    → IsSound s (send_next s w method params c.next_id c).1
unfolding send_next
send_next-IsSound s w method params c room (few, short, t) =
    let d = record c { next_id = suc c.next_id } in
    let v = request_message c.next_id method params in
    >>=-keeps (Between s c.next_id) (IsSound s) (write s w v)
      (λ _. change (new_pending c.next_id) >> pure c.next_id) d
      (Same-Between s c.next_id d (write s w v d).1 (write-Same s w v d) (room, short, refl, t))
      (Between-IsSound s c.next_id) (λ _ e h. new_pending-IsSound s c.next_id e h)

send_valid-IsSound :
    (s : Settings) (w : Watch) (method : String) (params asked : Option Json) (c : Conn)
    → IsSound s c
    → IsSound s (send_valid s w method params asked c).1
unfolding send_valid
send_valid-IsSound s w method params asked c t =
    elim (Bool-cases (leb s.max_pending_requests (length c.pending))) [
      | inl h ↦ rw (send_valid, h) t
      | inr h ↦ elim (Bool-cases (asked_id asked c.next_id)) [
        | inl k ↦
            rw (send_valid, h, k) (send_next-IsSound s w method params c (ground (arith, h)) t)
        | inr k ↦ rw (send_valid, h, k) t
      ]
    ]

refuse_first-IsSound :
    {A : Type 0} (s : Settings) (o : Option StreamError) (m : Io A) (c : Conn)
    → IsSound s c
    → IsSound s (m c).1
    → IsSound s (refuse_first o m c).1
refuse_first-IsSound s none m c t h = h
refuse_first-IsSound s (some e) m c t h = t

pub send_request-IsSound :
    (s : Settings) (w : Watch) (method : String) (params asked : Option Json) (c : Conn)
    → IsSound s c
    → IsSound s (send_request s w method params asked c).1
unfolding send_request
send_request-IsSound s w method params asked c t =
    refuse_first-IsSound s (validate_outbound method params) _ c t
      (send_valid-IsSound s (bound_deadline s w) method params asked c t)

write-IsSound :
    (s : Settings) (w : Watch) (v : Json) (c : Conn) → IsSound s c → IsSound s (write s w v c).1
write-IsSound s w v c t = Same-IsSound s c (write s w v c).1 (write-Same s w v c) t

pub notify-IsSound :
    (s : Settings) (w : Watch) (method : String) (params : Option Json) (c : Conn)
    → IsSound s c
    → IsSound s (notify s w method params c).1
unfolding notify
notify-IsSound s w method params c t =
    refuse_first-IsSound s (validate_outbound method params) _ c t
      (write-IsSound s (bound_deadline s (record w { is_cancelled = none })) _ c t)

add_note-IsSound :
    (s : Settings) (text : String) (c : Conn) → IsSound s c → IsSound s (add_note s text c)
unfolding add_note
add_note-IsSound s text c (few, short, t) =
    (few, length-append_bounded s.max_diagnostics c.diagnostics (prefix 240 text), t)

take_response-IsSound :
    (s : Settings) (fs : Fields) (o : Option Pending) (c : Conn)
    → find_pending (get "id" fs) c.pending ≡ o
    → IsSound s c
    → IsSound s (take_response s fs o c)
unfolding take_response
take_response-IsSound s fs none c e t = add_note-IsSound s _ c t
take_response-IsSound s fs (some p) c e (few, short, t) = elim (Option-cases p.response) [
  | inr (old, h) ↦ rw h (add_note-IsSound s _ c (few, short, t))
  | inl h ↦ rw h (
    rw (length-update (of_id p.id) _ c.pending) few,
    short,
    update-IsTable c.next_id p.id fs c.pending (find_sound _ c.pending p e) t,
  )
]

pub dispatch-IsSound :
    (s : Settings) (w : Watch) (k : Kind) (fs : Fields) (c : Conn)
    → IsSound s c
    → IsSound s (dispatch s w k fs c).1
unfolding dispatch
dispatch-IsSound s w Kind.response fs c t =
    take_response-IsSound s fs (find_pending (get "id" fs) c.pending) c refl t
dispatch-IsSound s w Kind.notification fs c t = elim (Option-cases s.notification_handler) [
  | inl h ↦ rw h t
  | inr (f, h) ↦ rw h t
]
dispatch-IsSound s w Kind.request fs c t = write-IsSound s w (answer s fs) c t
