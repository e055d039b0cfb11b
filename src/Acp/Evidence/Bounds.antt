-- ===== src/Acp/Evidence/Bounds.antt =====
-- nc/acp_client.py: how much `_TurnEvidenceCollector` keeps, and when it says that it lost something.
use neocortex.Acp.Air.{fields_of, project_air}
use neocortex.Acp.Usage.{decode_usage, Usage}
use neocortex.Json.{lookup, Fields, dict, get, is_str, Json}
use neocortex.Acp.Evidence.{
  add_measured, and_then, empty_collector, keep_projected, take_own, Collected, add, keep_update,
  kept, meta_of, overflowed, own_failure, own_update, progress_update, raw_bytes, raw_failure,
  refuse_marked, reported_usage, take_update, update_record, with_usage, Collector, Collects, Sizes,
  add_record, add_sized, is_full, notification, prompt_request,
}
use neocortex.Acp.Evidence.Response.{
  add_response, error_part, keep_result, result_part, take_result, prompt_response,
}
use neocortex.Prelude.{
  update, ◌⊎◌, Bool-cases, List, Option, String, [], arith, false, inl, inr, length, length-append,
  none, refl, size, some, ℕ, ◌++◌, ◌+◌, ◌∷◌, ◌≡◌, ◌≤◌,
}

abbrev pub bytes_of : Sizes → Json → ℕ
bytes_of sizes v = elim (sizes.json_bytes v) [ none ↦ 0 | some n ↦ n ]

-- The bytes of the records as JSON.
unfoldable pub written : Sizes → List Json → ℕ
written sizes [] = 0
written sizes (v ∷ vs) = bytes_of sizes v + written sizes vs

written-append :
    (sizes : Sizes) (xs ys : List Json)
    → written sizes (xs ++ ys) ≡ written sizes xs + written sizes ys
unfolding written
written-append sizes [] ys = omega arith
written-append sizes (x ∷ xs) ys = omega (arith, written-append sizes xs ys)

-- At most 128 records, which take at most 64 KiB.
pub record IsBounded (sizes : Sizes) (c : Collector) : Type 0 where
  pub few : length c.records ≤ 128
  pub counted : written sizes c.records ≤ c.bytes
  pub small : c.bytes ≤ 65536

-- What the caller does to a collector in a turn.
pub data Event : Type 0 where
  asked : Json → ℕ → String → Event
  updated : Json → Event
  answered : Json → Event

unfoldable pub on_event : Sizes → Event → Collector → Collector
unfolding prompt_request notification prompt_response
on_event sizes (asked version prompt session) c = (prompt_request sizes version prompt session c).1
on_event sizes (updated v) c = (notification sizes v c).1
on_event sizes (answered v) c = (prompt_response sizes v c).1

unfoldable pub on_events : Sizes → List Event → Collector → Collector
unfolding on_event
on_events sizes [] c = c
on_events sizes (e ∷ es) c = on_events sizes es (on_event sizes e c)

module _ (sizes : Sizes) where
  -- A call that keeps the bounds, whether it returns or raises.
  abbrev Keeps : {A : Type 0} → Collects A → Type 0
  Keeps m = (c : Collector) → IsBounded sizes c → IsBounded sizes (m c).1

  added :
      (value : Json) (raw : Option Json) (size raw_size : ℕ) (c : Collector)
      → sizes.json_bytes value ≡ some size
      → is_full c size raw_size ≡ false
      → IsBounded sizes c
      → IsBounded sizes (add_record value raw (size + raw_size) c)
  unfolding written
  added value raw size raw_size c e room h = record {
    few = ground (arith, room, h.few, length-append c.records (value ∷ []));
    counted = ground (arith, e, h.counted, written-append sizes c.records (value ∷ []));
    small = ground (arith, room);
  }

  add_sized-IsBounded :
      (value : Json) (raw : Option Json) (size raw_size : ℕ) (c : Collector)
      → sizes.json_bytes value ≡ some size
      → IsBounded sizes c
      → IsBounded sizes (add_sized value raw size raw_size c).1
  add_sized-IsBounded value raw size raw_size c e h = elim (Bool-cases (is_full c size raw_size)) [
    | inl full ↦ rw full (record { few = h.few; counted = h.counted; small = h.small })
    | inr room ↦ rw room (added value raw size raw_size c e room h)
  ]

  add-IsBounded : (value : Json) (raw : Option Json) → Keeps (add sizes value raw)
  unfolding add
  add-IsBounded value raw c h = measured (sizes.json_bytes value) (raw_bytes sizes raw) refl
    where
      measured :
          (o p : Option ℕ)
          → sizes.json_bytes value ≡ o
          → IsBounded sizes (add_measured value raw o p c).1
      measured none p e = record { few = h.few; counted = h.counted; small = h.small }
      measured (some n) none e = record { few = h.few; counted = h.counted; small = h.small }
      measured (some n) (some m) e = add_sized-IsBounded value raw n m c e h

  ended :
      {A B : Type 0} (f : A → Collects B) (r : Collected A × Collector) (c : Collector)
      → ((a : A) → Keeps (f a))
      → IsBounded sizes r.1
      → IsBounded sizes (and_then (λ _. r) f c).1
  ended f (overflowed text, d) c l b = b
  ended f (kept a, d) c l b = l a d b

  and_then-IsBounded :
      {A B : Type 0} (m : Collects A) (f : A → Collects B)
      → Keeps m
      → ((a : A) → Keeps (f a))
      → Keeps (and_then m f)
  and_then-IsBounded m f k l c h = ended f (m c) c l (k c h)

  -- Only the records, their bytes and nothing else count.
  same_bounds :
      (c d : Collector)
      → d.records ≡ c.records
      → d.bytes ≡ c.bytes
      → IsBounded sizes c
      → IsBounded sizes d
  same_bounds c d e f h = record {
    few = rw e h.few;
    counted = rw (e, f) h.counted;
    small = rw f h.small;
  }

  with_usage-IsBounded :
      (u : Option Usage) (c : Collector) → IsBounded sizes c → IsBounded sizes (with_usage u c)
  with_usage-IsBounded none c h = h
  with_usage-IsBounded (some u) c h = same_bounds c (with_usage (some u) c) refl refl h

  raw_failure-IsBounded : (update : Json) → Keeps (raw_failure sizes update)
  unfolding raw_failure
  raw_failure-IsBounded update c h =
      same_bounds c (raw_failure sizes update c).1 (ground arith) (ground arith) h

  keep_update-IsBounded :
      (session : String) (fs : Fields) (raw : Option Json) (air : Option Fields)
      → Keeps (keep_update sizes session fs raw air)
  keep_update-IsBounded session fs raw (some air) c h =
      add-IsBounded (update_record session (meta_of air)) (own_failure raw c.prompt_id) c h
  keep_update-IsBounded session fs raw none c h =
      elim (Bool-cases (is_str "agent_message_chunk" (get "sessionUpdate" fs))) [
        | inl progress ↦
            rw progress (add-IsBounded (update_record session progress_update) none c h)
        | inr other ↦ rw other h
      ]

  keep_projected-IsBounded :
      (session : String) (fs : Fields) (air : String ⊎ Option Fields) (raw : Option Json)
      → Keeps (keep_projected sizes session fs air raw)
  keep_projected-IsBounded session fs (inl text) raw c h = record {
    few = h.few;
    counted = h.counted;
    small = h.small;
  }
  keep_projected-IsBounded session fs (inr air) raw c h =
      keep_update-IsBounded session fs raw air (with_usage (reported_usage fs) c)
        (with_usage-IsBounded (reported_usage fs) c h)

  take_own-IsBounded : (u : Option (String × Fields)) → Keeps (take_own sizes u)
  unfolding take_update
  take_own-IsBounded none c h = h
  take_own-IsBounded (some u) c h =
      and_then-IsBounded (raw_failure sizes (dict u.1))
        (keep_projected sizes u.0 u.1 (project_air sizes.text_bytes (dict u.1)))
        (raw_failure-IsBounded (dict u.1))
        (keep_projected-IsBounded u.0 u.1 (project_air sizes.text_bytes (dict u.1))) c h

  keep_result-IsBounded :
      (fs : Fields) (air : String ⊎ Option Fields) (raw : Option Json)
      → Keeps (keep_result fs air raw)
  keep_result-IsBounded fs (inl text) raw c h =
      let d = with_usage (decode_usage (get "usage" fs)) c in
      same_bounds d
        (refuse_marked {A = Unit {0}} "AIR decoder projection exceeds local limit" text d).1 refl
        refl (with_usage-IsBounded (decode_usage (get "usage" fs)) c h)
  keep_result-IsBounded fs (inr air) raw c h =
      with_usage-IsBounded (decode_usage (get "usage" fs)) c h

  result_part-IsBounded : (o : Option Json) → Keeps (result_part sizes o)
  unfolding take_result
  result_part-IsBounded none c h = h
  result_part-IsBounded (some (dict fs)) c h =
      and_then-IsBounded (raw_failure sizes (dict fs))
        (keep_result fs (project_air sizes.text_bytes (dict fs))) (raw_failure-IsBounded (dict fs))
        (keep_result-IsBounded fs (project_air sizes.text_bytes (dict fs))) c h
  result_part-IsBounded (some v) c h = h

  add_response-IsBounded :
      (fs : Fields) (error : String ⊎ List (String × Json))
      (part : Option Json × List (String × Json))
      → Keeps (add_response sizes fs error part)
  add_response-IsBounded fs (inl text) part c h = h
  add_response-IsBounded fs (inr error) part c h =
      add-IsBounded (dict (fields_of (("id", get "id" fs) ∷ (part.1 ++ error))))
        (own_failure part.0 c.prompt_id) c h

  on_event-IsBounded :
      (e : Event) (c : Collector) → IsBounded sizes c → IsBounded sizes (on_event sizes e c)
  unfolding on_event prompt_request notification prompt_response
  on_event-IsBounded (asked version prompt session) c h =
      add-IsBounded _ none (record c { prompt_id = some prompt; session_id = some session })
        (record { few = h.few; counted = h.counted; small = h.small })
  on_event-IsBounded (updated v) c h = take_own-IsBounded (own_update v c.session_id) c h
  on_event-IsBounded (answered (dict fs)) c h =
      and_then-IsBounded (result_part sizes (lookup "result" fs))
        (add_response sizes fs (error_part sizes (lookup "error" fs)))
        (result_part-IsBounded (lookup "result" fs))
        (add_response-IsBounded fs (error_part sizes (lookup "error" fs))) c h
  on_event-IsBounded (answered v) c h = add-IsBounded v none c h

  events_kept :
      (es : List Event) (c : Collector) → IsBounded sizes c → IsBounded sizes (on_events sizes es c)
  unfolding on_events
  events_kept [] c h = h
  events_kept (e ∷ es) c h = events_kept es (on_event sizes e c) (on_event-IsBounded e c h)

  -- Whatever a turn sends to a new collector, and however often a call raises in between, the collector
  -- holds at most 128 records, and what they take as JSON is at most the bytes it has counted, of which
  -- there are at most 64 KiB.
  pub on_events-IsBounded : (es : List Event) → IsBounded sizes (on_events sizes es empty_collector)
  unfolding written
  on_events-IsBounded es =
      events_kept es empty_collector
        (record { few = omega arith; counted = omega arith; small = omega arith })
