-- ===== src/Acp/Stream/Requests/Rows.antt =====
-- nc/acp_stream.py: the table `_pending` and the notes in `_diagnostics`.
use neocortex.Acp.Stream.Requests.{is_id, of_id}
use neocortex.Acp.Stream.{Pending, append_bounded}
use neocortex.Json.{Fields, get}
use neocortex.Prelude.{
  Bool-cases, inl, inr, ◌∙◌, Bool, List, String, [], any, ap, arith, drop, false, if◌then◌else◌,
  keep, length, length-append, none, refl, some, suc, true, update, zero, ℕ, ◌++◌, ◌-◌, ◌<◌, ◌∷◌,
  ◌≡◌, ◌≤◌,
}

-- A stored response has the id of its request.
abbrev pub answers : Pending → Bool
answers p = elim p.response [ none ↦ true | some fs ↦ is_id (get "id" fs) p.id ]

-- A table below n: the ids were given out before n, no two rows have one id, and each response that
-- is stored belongs to its row.
abbrev pub IsTable : ℕ → List Pending → Type 0
IsTable n [] = Unit
IsTable n (p ∷ ps) = (p.id < n) × (answers p ≡ true) × (any (of_id p.id) ps ≡ false) × IsTable n ps

any-append_new :
    (m n : ℕ) (ps : List Pending)
    → m < n
    → any (of_id m) ps ≡ false
    → any (of_id m) (ps ++ record { id = n; response = none } ∷ []) ≡ false
unfolding any
any-append_new m n [] h e = ground arith
any-append_new m n (p ∷ ps) h e = ground (arith, any-append_new m n ps)

-- A row with the next id.
pub append-IsTable :
    (n : ℕ) (ps : List Pending)
    → IsTable n ps
    → IsTable (suc n) (ps ++ record { id = n; response = none } ∷ [])
append-IsTable n [] t = (omega arith, refl, unfold any in refl, tt)
append-IsTable n (p ∷ ps) (below, right, alone, t) =
    (omega arith, right, any-append_new p.id n ps below alone, append-IsTable n ps t)

abbrev answered : Fields → Pending → Pending
answered fs p = record p { response = some fs }

any-update-of_id :
    (m k : ℕ) (fs : Fields) (ps : List Pending)
    → any (of_id m) (update (of_id k) (answered fs) ps) ≡ any (of_id m) ps
unfolding any update
any-update-of_id m k fs [] = refl
any-update-of_id m k fs (p ∷ ps) = ground (arith, any-update-of_id m k fs ps)

-- A response of the row's id.
pub update-IsTable :
    (n k : ℕ) (fs : Fields) (ps : List Pending)
    → is_id (get "id" fs) k ≡ true
    → IsTable n ps
    → IsTable n (update (of_id k) (answered fs) ps)
unfolding update
update-IsTable n k fs [] e t = tt
update-IsTable n k fs (p ∷ ps) e (below, right, alone, t) = elim (Bool-cases (of_id k p)) [
  | inl h ↦ rw h (
    below,
    ground (arith, e, h),
    any-update-of_id p.id k fs ps ∙ alone,
    update-IsTable n k fs ps e t,
  )
  | inr h ↦ rw h (below, right, any-update-of_id p.id k fs ps ∙ alone, update-IsTable n k fs ps e t)
]

abbrev other_id : ℕ → Pending → Bool
other_id k p = if of_id k p then false else true

any-keep-of_id :
    (m k : ℕ) (ps : List Pending)
    → any (of_id m) ps ≡ false
    → any (of_id m) (keep (other_id k) ps) ≡ false
unfolding any keep
any-keep-of_id m k [] e = refl
any-keep-of_id m k (p ∷ ps) e = ground (arith, any-keep-of_id m k ps)

pub any-keep_other : (k : ℕ) (ps : List Pending) → any (of_id k) (keep (other_id k) ps) ≡ false
unfolding any keep
any-keep_other k [] = refl
any-keep_other k (p ∷ ps) = ground (arith, any-keep_other k ps)

pub keep-IsTable : (n k : ℕ) (ps : List Pending) → IsTable n ps → IsTable n (keep (other_id k) ps)
unfolding keep
keep-IsTable n k [] t = tt
keep-IsTable n k (p ∷ ps) (below, right, alone, t) = elim (Bool-cases (of_id k p)) [
  | inl h ↦ rw h (keep-IsTable n k ps t)
  | inr h ↦ rw h (below, right, any-keep-of_id p.id k ps alone, keep-IsTable n k ps t)
]

pub length-update :
    (p : Pending → Bool) (f : Pending → Pending) (ps : List Pending)
    → length (update p f ps) ≡ length ps
unfolding update
length-update p f [] = refl
length-update p f (x ∷ xs) = ap suc (length-update p f xs)

pub length-keep : (p : Pending → Bool) (ps : List Pending) → length (keep p ps) ≤ length ps
unfolding keep
length-keep p [] = omega arith
length-keep p (x ∷ xs) = ground (arith, length-keep p xs)

length-drop : (n : ℕ) (xs : List String) → length (drop n xs) ≡ length xs - n
length-drop zero xs = omega arith
length-drop (suc n) [] = omega arith
length-drop (suc n) (x ∷ xs) = omega (arith, length-drop n xs)

pub length-append_bounded :
    (m : ℕ) (texts : List String) (text : String) → length (append_bounded m texts text) ≤ m
unfolding append_bounded
length-append_bounded m texts text = omega (
  arith,
  length-drop (suc (length texts) - m) (texts ++ text ∷ []),
  length-append texts (text ∷ []),
)
