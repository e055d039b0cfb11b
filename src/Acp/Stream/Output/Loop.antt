-- ===== src/Acp/Stream/Output/Loop.antt =====
-- nc/acp_stream.py: the loop of `_write` that sends the bytes of a frame.
use neocortex.Acp.Stream.Output.{before_write, write_stop, taken, write_loop}
use neocortex.Acp.Stream.{
  waiting, raised, StreamError, is_returned, Outcome, Settings, Watch, Wrote, would_block,
  write_broken, write_stopped, wrote,
}
use neocortex.Prelude.{
  Option-cases, arith, false, inl, none, some, ◌+◌, List, [], ap, drop, inr, length, refl, suc, sym,
  take, zero, ℕ, ◌++◌, ◌∙◌, ◌∷◌, ◌≡◌, ◌⊎◌,
}
use mathlib.Core.List.{append_assoc, append-nil}

-- The bytes that a list takes of another, and what is left of it.
take-drop : (n : ℕ) (xs : List ℕ) → take n xs ++ drop (length (take n xs)) xs ≡ xs
take-drop zero xs = refl
take-drop (suc n) [] = refl
take-drop (suc n) (x ∷ xs) = ap (λ ys. x ∷ ys) (take-drop n xs)

taken-drop : (op : Wrote) (xs : List ℕ) → taken op xs ++ drop (length (taken op xs)) xs ≡ xs
taken-drop (wrote n) xs = take-drop n xs
taken-drop would_block xs = refl
taken-drop (write_broken n) xs = take-drop n xs
taken-drop (write_stopped n e) xs = take-drop n xs

-- A part of the bytes has gone out after those that had, and all of them where the call returned.
abbrev pub SendsPrefix : Outcome (Unit {0}) → List ℕ → List ℕ → List ℕ → Type 0
SendsPrefix r whole before after =
    (part : List ℕ) × (rest : List ℕ) × (part ++ rest ≡ whole)
    × (after ≡ before ++ part)
    × ((is_returned r ≡ false) ⊎ (rest ≡ []))

-- One operation and the part that the others send.
SendsPrefix-taken :
    (r : Outcome (Unit {0})) (op : Wrote) (whole before after : List ℕ)
    → SendsPrefix r (drop (length (taken op whole)) whole) (before ++ taken op whole) after
    → SendsPrefix r whole before after
SendsPrefix-taken r op whole before after (part, rest, cut, went, done) = (
  taken op whole ++ part,
  rest,
  append_assoc (taken op whole) part rest
      ∙ ap (λ xs. taken op whole ++ xs) cut
      ∙ taken-drop op whole,
  went ∙ append_assoc before (taken op whole) part,
  done,
)

-- The rounds of the loop.
write_loop_stops :
    (s : Settings) (w : Watch) (n b : ℕ) (bs sent : List ℕ) (ops : List Wrote) (e : StreamError)
    → before_write s w n ≡ some e
    → write_loop s w n (b ∷ bs) sent ops
      ≡ record { outcome = raised e; sent = sent; writes = ops; moment = suc n }
unfolding write_loop
write_loop_stops s w n b bs sent [] e h = ground (arith, h)
write_loop_stops s w n b bs sent (op ∷ ops) e h = ground (arith, h)

write_loop_waits :
    (s : Settings) (w : Watch) (n b : ℕ) (bs sent : List ℕ)
    → before_write s w n ≡ none
    → write_loop s w n (b ∷ bs) sent []
      ≡ record { outcome = waiting; sent = sent; writes = []; moment = suc n }
unfolding write_loop
write_loop_waits s w n b bs sent h = ground (arith, h)

write_loop-write_stop :
    (s : Settings) (w : Watch) (n b : ℕ) (bs sent : List ℕ) (op : Wrote) (ops : List Wrote)
    (e : StreamError)
    → before_write s w n ≡ none
    → write_stop s w (suc n) op ≡ some e
    → write_loop s w n (b ∷ bs) sent (op ∷ ops) ≡ record {
      outcome = raised e;
      sent = sent ++ taken op (b ∷ bs);
      writes = ops;
      moment = n + 2;
    }
unfolding write_loop
write_loop-write_stop s w n b bs sent op ops e h g = ground (arith, h, g)

write_loop_goes_on :
    (s : Settings) (w : Watch) (n b : ℕ) (bs sent : List ℕ) (op : Wrote) (ops : List Wrote)
    → before_write s w n ≡ none
    → write_stop s w (suc n) op ≡ none
    → write_loop s w n (b ∷ bs) sent (op ∷ ops)
      ≡ write_loop s w
          (n + 2)
          (drop (length (taken op (b ∷ bs))) (b ∷ bs))
          (sent ++ taken op (b ∷ bs))
          ops
unfolding write_loop
write_loop_goes_on s w n b bs sent op ops h g = ground (arith, h, g)

-- Nothing has gone out.
pub nothing-SendsPrefix :
    (r : Outcome (Unit {0})) (whole sent : List ℕ)
    → is_returned r ≡ false
    → SendsPrefix r whole sent sent
nothing-SendsPrefix r whole sent e = ([], whole, refl, sym (append-nil sent), inl e)

pub write_loop-SendsPrefix :
    (s : Settings) (w : Watch) (n : ℕ) (left sent : List ℕ) (ops : List Wrote)
    → SendsPrefix
        (write_loop s w n left sent ops).outcome
        left
        sent
        (write_loop s w n left sent ops).sent
write_loop-SendsPrefix s w n [] sent ops =
    unfold write_loop in ([], [], refl, sym (append-nil sent), inr refl)
write_loop-SendsPrefix s w n (b ∷ bs) sent [] = elim (Option-cases (before_write s w n)) [
  | inl go ↦ rw (write_loop_waits s w n b bs sent go) (nothing-SendsPrefix waiting _ sent refl)
  | inr (e, h) ↦
      rw (write_loop_stops s w n b bs sent [] e h) (nothing-SendsPrefix (raised e) _ sent refl)
]
write_loop-SendsPrefix s w n (b ∷ bs) sent (op ∷ ops) = elim (Option-cases (before_write s w n)) [
  | inr (e, h) ↦
      rw (write_loop_stops s w n b bs sent (op ∷ ops) e h)
        (nothing-SendsPrefix (raised e) _ sent refl)
  | inl go ↦ elim (Option-cases (write_stop s w (suc n) op)) [
    | inr (e, h) ↦
        rw (write_loop-write_stop s w n b bs sent op ops e go h) (
          SendsPrefix-taken (raised e) op (b ∷ bs) sent _ (nothing-SendsPrefix (raised e) _ _ refl))
    | inl h ↦
        rw (write_loop_goes_on s w n b bs sent op ops go h)
          (SendsPrefix-taken _ op (b ∷ bs) sent _ (write_loop-SendsPrefix s w (n + 2) _ _ ops))
  ]
]
