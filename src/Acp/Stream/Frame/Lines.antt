-- ===== src/Acp/Stream/Frame/Lines.antt =====
-- nc/acp_stream.py: the search for a newline in `_read_frame`, on a buffer that grows.
use neocortex.Acp.Stream.Frame.{split_line}
use neocortex.Prelude.{
  Option-cases, inl, inr, List, [], any, arith, false, length, none, refl, some, ℕ, ◌++◌, ◌==◌, ◌∷◌,
  ◌≡◌, ◌≤◌,
}

pub split_line-append_some :
    (xs ys : List ℕ) (p : List ℕ × List ℕ)
    → split_line xs ≡ some p
    → split_line (xs ++ ys) ≡ some (p.0, p.1 ++ ys)
unfolding split_line
split_line-append_some [] ys p e = cc
split_line-append_some (x ∷ xs) ys p e = elim (Option-cases (split_line xs)) [
  | inl none_yet ↦ ground (arith, none_yet)
  | inr (q, found) ↦ ground (arith, found, split_line-append_some xs ys q found)
]

-- A buffer without a newline is a part of the line.
pub split_line-append_none :
    (xs ys : List ℕ) (p : List ℕ × List ℕ)
    → split_line xs ≡ none
    → split_line (xs ++ ys) ≡ some p
    → length xs ≤ length p.0
unfolding split_line
split_line-append_none [] ys p e h = omega arith
split_line-append_none (x ∷ xs) ys p e h = elim (Option-cases (split_line (xs ++ ys))) [
  | inl none_yet ↦ ground (arith, none_yet)
  | inr (q, found) ↦
      ground (arith, found, λ (g : split_line xs ≡ none). split_line-append_none xs ys q g found)
]

-- A line that holds no newline is split off whole.
pub split_line_lem :
    (line rest : List ℕ)
    → any (λ b. b == 10) line ≡ false
    → split_line (line ++ 10 ∷ rest) ≡ some (line, rest)
unfolding split_line any
split_line_lem [] rest e = refl
split_line_lem (b ∷ bs) rest e = ground (arith, split_line_lem bs rest)

-- The line and the rest are the bytes before and after the first newline.
pub split_line_sound :
    (xs : List ℕ) (p : List ℕ × List ℕ)
    → split_line xs ≡ some p
    → (xs ≡ p.0 ++ 10 ∷ p.1) × (any (λ b. b == 10) p.0 ≡ false)
unfolding split_line any
split_line_sound [] p e = cc
split_line_sound (x ∷ xs) p e = elim (Option-cases (split_line xs)) [
  | inl none_yet ↦ (ground (arith, none_yet), ground (arith, none_yet))
  | inr (q, found) ↦
      let (cut, free) = split_line_sound xs q found in
      (ground (arith, found, cut), ground (arith, found, free))
]
