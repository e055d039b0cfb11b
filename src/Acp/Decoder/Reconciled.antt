-- ===== src/Acp/Decoder/Reconciled.antt =====
-- nc/acp_decoder.py: what is left of a failure record once the revisions are reconciled.
use mathlib.Core.Path.{subst}
use neocortex.Acp.Failure.{Checked, Evidence, bad, failure, good, raises}
use neocortex.Acp.Decoder.{effective, evidence_eq, has_id, reconcile, reconcile_all, record_failure}
use neocortex.Json.{Json}
use neocortex.Prelude.{
  All, Bool, Bool-cases, List, Option-cases, String, [], ap, arith, eq_iff, eq_refl, false, find,
  find_sound, if◌then◌else◌, inl, inr, leb, ltb, none, refl, some, str_eq, sym, true, update, ◌++◌,
  ◌==◌, ◌∙◌, ◌∷◌, ◌≡◌,
}

-- The record that is kept under the id is of this revision or a later one.
abbrev pub covers : Evidence → List Evidence → Bool
covers d fs = elim (find (has_id d.incident_id) fs) [
  | none ↦ false
  | some x ↦ leb d.revision x.revision
]

covers_found :
    (d x : Evidence) (fs : List Evidence)
    → find (has_id d.incident_id) fs ≡ some x
    → leb d.revision x.revision ≡ true
    → covers d fs ≡ true
covers_found d x fs e h = rw (covers, e) h

find-append_some :
    {A : Type 0} (p : A → Bool) (xs ys : List A) (x : A)
    → find p xs ≡ some x
    → find p (xs ++ ys) ≡ some x
unfolding find
find-append_some p [] ys x e = cc
find-append_some p (z ∷ xs) ys x e = ground (arith, find-append_some p xs ys x)

find-append_none :
    {A : Type 0} (p : A → Bool) (xs ys : List A) → find p xs ≡ none → find p (xs ++ ys) ≡ find p ys
unfolding find
find-append_none p [] ys e = refl
find-append_none p (z ∷ xs) ys e = ground (arith, find-append_none p xs ys)

find-update_alike :
    {A : Type 0} (p q : A → Bool) (f : A → A) (xs : List A) (r : A)
    → ((y : A) → q y ≡ true → p (f y) ≡ p y)
    → find p xs ≡ some r
    → find p (update q f xs) ≡ some (if q r then f r else r)
unfolding find update
find-update_alike p q f [] r keeps e = cc
find-update_alike p q f (x ∷ xs) r keeps e =
    ground (arith, keeps x, λ (h : find p xs ≡ some r). find-update_alike p q f xs r keeps h)

find_first : (e : Evidence) → find (has_id e.incident_id) (e ∷ []) ≡ some e
unfolding find
find_first e = rw (eq_refl e.incident_id) refl

leb_refl : (e : Evidence) → leb e.revision e.revision ≡ true
leb_refl e = ground arith

-- A new record goes to the end.
appended_new :
    (e : Evidence) (fs : List Evidence)
    → find (has_id e.incident_id) fs ≡ none
    → covers e (fs ++ e ∷ []) ≡ true
appended_new e fs h =
    covers_found e e (fs ++ e ∷ [])
      (find-append_none (has_id e.incident_id) fs (e ∷ []) h ∙ find_first e) (leb_refl e)

pub covers-cases :
    (d : Evidence) (fs : List Evidence)
    → covers d fs ≡ true
    → (x : Evidence) × (find (has_id d.incident_id) fs ≡ some x)
      × (leb d.revision x.revision ≡ true)
covers-cases d fs h = elim (Option-cases (find (has_id d.incident_id) fs)) [
  | inl e ↦ cc (rw (covers, e) at h)
  | inr (x, e) ↦ (x, e, rw (covers, e) at h)
]

covers-append :
    (d : Evidence) (fs gs : List Evidence) → covers d fs ≡ true → covers d (fs ++ gs) ≡ true
covers-append d fs gs h =
    let (x, e, k) = covers-cases d fs h in
    covers_found d x (fs ++ gs) (find-append_some (has_id d.incident_id) fs gs x e) k

-- A record in place of those with its id.
abbrev replaced : Evidence → List Evidence → List Evidence
replaced e fs = update (has_id e.incident_id) (λ x. e) fs

replaced_alike :
    (d e y : Evidence)
    → has_id e.incident_id y ≡ true
    → has_id d.incident_id e ≡ has_id d.incident_id y
replaced_alike d e y h =
    let same : y.incident_id ≡ e.incident_id = (eq_iff y.incident_id e.incident_id).0 h in
    ap (λ t. str_eq t d.incident_id) (sym same)

covers-replaced :
    (d e old : Evidence) (fs : List Evidence)
    → find (has_id e.incident_id) fs ≡ some old
    → ltb old.revision e.revision ≡ true
    → covers d fs ≡ true
    → covers d (replaced e fs) ≡ true
covers-replaced d e old fs found newer h =
    let (x, at, k) = covers-cases d fs h in
    let after =
      find-update_alike (has_id d.incident_id) (has_id e.incident_id) (λ y. e) fs x
        (replaced_alike d e) at in
    elim (Bool-cases (has_id e.incident_id x)) [
      | inr other ↦ covers_found d x (replaced e fs) (after ∙ rw other refl) k
      | inl same ↦
          let mine = find_sound (has_id d.incident_id) fs x at in
          let ids : d.incident_id ≡ e.incident_id =
            sym ((eq_iff x.incident_id d.incident_id).0 mine)
            ∙ (eq_iff x.incident_id e.incident_id).0 same in
          let first : find (has_id d.incident_id) fs ≡ some old =
            ap (λ t. find (has_id t) fs) ids ∙ found in
          let one : x ≡ old = ground (arith, at, first) in
          covers_found d e (replaced e fs) (after ∙ rw same refl) (grown d x old e one k newer)
    ]
  where
    grown :
        (d x old e : Evidence)
        → x ≡ old
        → leb d.revision x.revision ≡ true
        → ltb old.revision e.revision ≡ true
        → leb d.revision e.revision ≡ true
    grown d x old e one k newer = ground (arith, ap (λ (y : Evidence). y.revision) one)

covers_self :
    (e old : Evidence) (fs : List Evidence)
    → find (has_id e.incident_id) fs ≡ some old
    → covers e (replaced e fs) ≡ true
covers_self e old fs found =
    covers_found e e (replaced e fs)
      (find-update_alike (has_id e.incident_id) (has_id e.incident_id) (λ y. e) fs old
          (replaced_alike e e) found
        ∙ rw (find_sound (has_id e.incident_id) fs old found) refl)
      (leb_refl e)

-- A reconciled record is covered, and what was covered still is.
abbrev Covers : Evidence → List Evidence → List Evidence → Type 0
Covers e fs gs = (covers e gs ≡ true) × ((d : Evidence) → covers d fs ≡ true → covers d gs ≡ true)

same_revision :
    (e old : Evidence) → (e.revision == old.revision) ≡ true → leb e.revision old.revision ≡ true
same_revision e old h = ground arith

later_kept :
    (e old : Evidence) → ltb old.revision e.revision ≡ false → leb e.revision old.revision ≡ true
later_kept e old h = ground arith

kept-Covers :
    (e old : Evidence) (fs gs : List Evidence)
    → find (has_id e.incident_id) fs ≡ some old
    → leb e.revision old.revision ≡ true
    → some fs ≡ some gs
    → Covers e fs gs
kept-Covers e old fs gs found older same =
    let done : fs ≡ gs = ground (arith, same) in
    subst (Covers e fs) done (covers_found e old fs found older, λ d k. k)

replaced-Covers :
    (e old : Evidence) (fs gs : List Evidence)
    → find (has_id e.incident_id) fs ≡ some old
    → ltb old.revision e.revision ≡ true
    → some (record_failure e fs) ≡ some gs
    → Covers e fs gs
replaced-Covers e old fs gs found newer same =
    let replacing : record_failure e fs ≡ replaced e fs = rw (record_failure, found) refl in
    let done : replaced e fs ≡ gs = sym replacing ∙ ground (arith, same) in
    subst (Covers e fs) done
      (covers_self e old fs found, λ d k. covers-replaced d e old fs found newer k)

-- Where a record of the id is known.
reconciled_old :
    (e old : Evidence) (fs gs : List Evidence)
    → find (has_id e.incident_id) fs ≡ some old
    → (if e.revision == old.revision
        then (if evidence_eq e old then some fs else none)
        else if ltb old.revision e.revision
        then some (record_failure e fs)
        else some fs)
      ≡ some gs
    → Covers e fs gs
reconciled_old e old fs gs found h = elim (Bool-cases (e.revision == old.revision)) [
  | inl same ↦ elim (Bool-cases (evidence_eq e old)) [
    | inl alike ↦ kept-Covers e old fs gs found (same_revision e old same) (rw (same, alike) at h)
    | inr differs ↦ cc (rw (same, differs) at h)
  ]
  | inr apart ↦ elim (Bool-cases (ltb old.revision e.revision)) [
    | inl newer ↦ replaced-Covers e old fs gs found newer (rw (apart, newer) at h)
    | inr older ↦ kept-Covers e old fs gs found (later_kept e old older) (rw (apart, older) at h)
  ]
]

reconcile-Covers :
    (e : Evidence) (fs gs : List Evidence) → reconcile e fs ≡ some gs → Covers e fs gs
unfolding reconcile
reconcile-Covers e fs gs h = elim (Option-cases (find (has_id e.incident_id) fs)) [
  | inl new ↦
      let done : fs ++ e ∷ [] ≡ gs = ground (arith, rw (reconcile, new) at h) in
      subst (Covers e fs) done (appended_new e fs new, λ d k. covers-append d fs (e ∷ []) k)
  | inr (old, found) ↦ reconciled_old e old fs gs found (rw (reconcile, found) at h)
]

-- A record that was taken: it is well formed, and is covered.
abbrev pub IsTaken : (String → String) → List Evidence → Json → Type 0
IsTaken sanitize fs v = (e : Evidence) × (failure sanitize v ≡ good e) × (covers e fs ≡ true)

module _ (sanitize : String → String) where
  -- One record of a list that was reconciled.
  stepped :
      (seen out : List Evidence) (v : Json) (vs : List Json) (c : Checked Evidence)
      → failure sanitize v ≡ c
      → reconcile_all sanitize seen (v ∷ vs) ≡ effective out
      → (e : Evidence) × (failure sanitize v ≡ good e)
        × (fs : List Evidence) × (reconcile e seen ≡ some fs)
        × (reconcile_all sanitize fs vs ≡ effective out)
  unfolding reconcile_all
  stepped seen out v vs raises k h = cc (rw (reconcile_all, k) at h)
  stepped seen out v vs (bad text) k h = cc (rw (reconcile_all, k) at h)
  stepped seen out v vs (good e) k h = elim (Option-cases (reconcile e seen)) [
    | inl conflict ↦ cc (rw (reconcile_all, k, conflict) at h)
    | inr (fs, done) ↦ (e, k, fs, done, rw (reconcile_all, k, done) at h)
  ]

  pub reconcile_all-IsTaken :
      (seen out : List Evidence) (vs : List Json)
      → reconcile_all sanitize seen vs ≡ effective out
      → All (IsTaken sanitize out) vs
        × ((d : Evidence) → covers d seen ≡ true → covers d out ≡ true)
  unfolding reconcile_all
  reconcile_all-IsTaken seen out [] h =
      let done : seen ≡ out = ground (arith, h) in
      (tt, λ d k. subst (λ fs. covers d fs ≡ true) done k)
  reconcile_all-IsTaken seen out (v ∷ vs) h =
      let (e, read, fs, done, rest) = stepped seen out v vs (failure sanitize v) refl h in
      let (now, before) = reconcile-Covers e seen fs done in
      let (later, keeps) = reconcile_all-IsTaken fs out vs rest in
      (((e, read, keeps e now), later), λ d k. keeps d (before d k))
