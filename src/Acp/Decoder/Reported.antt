-- ===== src/Acp/Decoder/Reported.antt =====
-- nc/acp_decoder.py: the failures that the wire reports for a prompt, by position.
use mathlib.Core.Path.{subst}
use neocortex.Acp.Wire.{between, only, positions, session_update}
use neocortex.Acp.Usage.{at_path, or_null}
use neocortex.Acp.Failure.{version_problem}
use neocortex.Acp.Decoder.{
  Seen, air_path, belongs, collect, defect, nothing, owned_failure, raw, failure_id, failure_path,
  inspect_update,
}
use neocortex.Json.{Json}
use neocortex.Prelude.{
  All, Bool, Bool-cases, List, Option-cases, String, [], ap, arith, drop, get_elem?, inl, inr, refl,
  some, suc, sym, take, true, zero, ℕ, ◌+◌, ◌-◌, ◌<◌, ◌∙◌, ◌∷◌, ◌≡◌, ◌≢◌, ◌⊎◌,
}

get_elem?-drop :
    {A : Type 0} (m i : ℕ) (xs : List A) → get_elem? (drop m xs) i ≡ get_elem? xs (m + i)
get_elem?-drop zero i xs = ap (get_elem? xs) (omega arith)
get_elem?-drop (suc m) i [] = refl
get_elem?-drop (suc m) i (x ∷ xs) =
    let further : suc (m + i) ≡ suc m + i = omega arith in
    get_elem?-drop m i xs ∙ ap (get_elem? (x ∷ xs)) further

get_elem?-take :
    {A : Type 0} (m i : ℕ) (xs : List A) → i < m → get_elem? (take m xs) i ≡ get_elem? xs i
get_elem?-take zero i xs h = absurd (omega arith)
get_elem?-take (suc m) i [] h = refl
get_elem?-take (suc m) zero (x ∷ xs) h = refl
get_elem?-take (suc m) (suc i) (x ∷ xs) h = get_elem?-take m i xs (omega arith)

-- A record after the request and before the response.
pub get_elem?-between :
    (start n stop : ℕ) (wire : List Json) (v : Json)
    → start < n
    → n < stop
    → get_elem? wire n ≡ some v
    → get_elem? (between start stop wire) (n - suc start) ≡ some v
get_elem?-between start n stop wire v h k e =
    get_elem?-take (stop - suc start) (n - suc start) (drop (suc start) wire) (omega arith)
    ∙ get_elem?-drop (suc start) (n - suc start) wire
    ∙ ap (get_elem? wire) (omega arith)
    ∙ e

positions-some :
    (p : Json → Bool) (k j : ℕ) (vs : List Json) (x : Json)
    → get_elem? vs j ≡ some x
    → p x ≡ true
    → positions p k vs ≢ []
unfolding positions
positions-some p k j [] x e h = cc
positions-some p k zero (v ∷ vs) x e h = ground (arith, e, h)
positions-some p k (suc j) (v ∷ vs) x e h = elim (Bool-cases (p v)) [
  | inl m ↦ rw m (λ d. cc)
  | inr m ↦ rw m (positions-some p (suc k) j vs x e h)
]

rest_none : (k i : ℕ) (rest : List ℕ) → k ∷ rest ≡ i ∷ [] → rest ≡ []
rest_none k i rest h = ground (arith, h)

single : (ns : List ℕ) (i : ℕ) → only ns ≡ some i → ns ≡ i ∷ []
single [] i h = cc
single (n ∷ []) i h = ground (arith, h)
single (n ∷ m ∷ ns) i h = cc

positions-single :
    (p : Json → Bool) (k i j : ℕ) (vs : List Json) (x : Json)
    → positions p k vs ≡ i ∷ []
    → get_elem? vs j ≡ some x
    → p x ≡ true
    → i ≡ k + j
unfolding positions
positions-single p k i j [] x s e h = cc
positions-single p k i zero (v ∷ vs) x s e h = ground (arith, s, e, h)
positions-single p k i (suc j) (v ∷ vs) x s e h = elim (Bool-cases (p v)) [
  | inl m ↦
      absurd
        (positions-some p (suc k) j vs x e h (rest_none k i (positions p (suc k) vs) (rw m at s)))
  | inr m ↦
      let further = positions-single p (suc k) i j vs x (rw m at s) e h in omega (arith, further)
]

-- The one position that a test has is that of any record which passes it.
pub only-positions :
    (p : Json → Bool) (i j : ℕ) (vs : List Json) (x : Json)
    → only (positions p 0 vs) ≡ some i
    → get_elem? vs j ≡ some x
    → p x ≡ true
    → i ≡ j
only-positions p i j vs x s e h =
    omega (arith, positions-single p 0 i j vs x (single (positions p 0 vs) i s) e h)

-- The failure of the prompt that a record of the wire carries.
abbrev pub UpdateFailure : String → String → Json → Json → Type 0
UpdateFailure rid sid v value =
    (update : Json) × (iid : String) × (session_update sid v ≡ some update)
    × (at_path failure_path update ≡ some value)
    × (failure_id value ≡ some iid)
    × (belongs rid iid ≡ true)

owned-raw :
    (rid : String) (update value : Json) (iid : String)
    → at_path failure_path update ≡ some value
    → failure_id value ≡ some iid
    → belongs rid iid ≡ true
    → (inspect_update rid update ≡ raw value)
      ⊎ ((text : String) × (inspect_update rid update ≡ defect text))
unfolding inspect_update
owned-raw rid update value iid a b c =
    let here : inspect_update rid update ≡ owned_failure update value =
      rw (inspect_update, a, b, c) refl in
    elim (Option-cases (version_problem (or_null (at_path air_path update)))) [
      | inl e ↦ inl (here ∙ rw (owned_failure, e) refl)
      | inr (text, e) ↦ inr (text, here ∙ rw (owned_failure, e) refl)
    ]

module _ (rid sid : String) where
  -- An update that is a failure of the prompt comes first in what is collected.
  collect_raw :
      (w update f : Json) (vs raws : List Json)
      → session_update sid w ≡ some update
      → inspect_update rid update ≡ raw f
      → collect rid sid (w ∷ vs) ≡ inl raws
      → (fs : List Json) × (collect rid sid vs ≡ inl fs) × (f ∷ fs ≡ raws)
  unfolding collect
  collect_raw w update f vs raws a b c =
      raw_rest (collect rid sid vs) refl (rw (collect, a, b) at c)
    where
      raw_rest :
          (o : List Json ⊎ String)
          → collect rid sid vs ≡ o
          → (elim o as (λ _. List Json ⊎ String) [ inl fs ↦ inl (f ∷ fs) | inr text ↦ inr text ])
            ≡ inl raws
          → (fs : List Json) × (collect rid sid vs ≡ inl fs) × (f ∷ fs ≡ raws)
      raw_rest (inl fs) e h = (fs, e, ground (arith, h))
      raw_rest (inr text) e h = cc

  collect_defect :
      (w update : Json) (text : String) (vs raws : List Json)
      → session_update sid w ≡ some update
      → inspect_update rid update ≡ defect text
      → collect rid sid (w ∷ vs) ≢ inl raws
  unfolding collect
  collect_defect w update text vs raws a b c = cc (rw (collect, a, b) at c)

  collect_nothing :
      (w update : Json) (vs : List Json)
      → session_update sid w ≡ some update
      → inspect_update rid update ≡ nothing
      → collect rid sid (w ∷ vs) ≡ collect rid sid vs
  unfolding collect
  collect_nothing w update vs a b = rw (collect, a, b) refl

  module _ (P : Json → Type 0) where
    -- What holds of all that was collected holds of what was collected later.
    collect_seen :
        (w update : Json) (vs raws : List Json) (seen : Seen)
        → session_update sid w ≡ some update
        → inspect_update rid update ≡ seen
        → collect rid sid (w ∷ vs) ≡ inl raws
        → All P raws
        → (fs : List Json) × (collect rid sid vs ≡ inl fs) × All P fs
    collect_seen w update vs raws nothing a b c h =
        (raws, sym (collect_nothing w update vs a b) ∙ c, h)
    collect_seen w update vs raws (defect text) a b c h =
        absurd (collect_defect w update text vs raws a b c)
    collect_seen w update vs raws (raw f) a b c h =
        let (fs, rest, same) = collect_raw w update f vs raws a b c in
        (fs, rest, (subst (All P) (sym same) h).1)

    collect_rest :
        (w : Json) (vs raws : List Json)
        → collect rid sid (w ∷ vs) ≡ inl raws
        → All P raws
        → (fs : List Json) × (collect rid sid vs ≡ inl fs) × All P fs
    unfolding collect
    collect_rest w vs raws c h = elim (Option-cases (session_update sid w)) [
      | inl a ↦ (raws, rw (collect, a) at c, h)
      | inr (update, a) ↦ collect_seen w update vs raws (inspect_update rid update) a refl c h
    ]

    -- What holds of all that was collected holds of each failure in an update.
    pub collect-reports :
        (vs raws : List Json) (n : ℕ) (v value : Json)
        → collect rid sid vs ≡ inl raws
        → All P raws
        → get_elem? vs n ≡ some v
        → UpdateFailure rid sid v value
        → P value
    collect-reports [] raws n v value c h e f = cc
    collect-reports (w ∷ vs) raws zero v value c h e (update, iid, a, b, d, m) =
        let same : w ≡ v = ground (arith, e) in
        let here : session_update sid w ≡ some update = ap (session_update sid) same ∙ a in
        elim (owned-raw rid update value iid b d m) [
          | inl found ↦
              let (fs, rest, all_of) = collect_raw w update value vs raws here found c in
              (subst (All P) (sym all_of) h).0
          | inr (text, wrong) ↦ absurd (collect_defect w update text vs raws here wrong c)
        ]
    collect-reports (w ∷ vs) raws (suc n) v value c h e f =
        let (fs, rest, hs) = collect_rest w vs raws c h in
        collect-reports vs fs n v value rest hs e f
