-- ===== src/Prelude/Lists.antt =====
-- Lists measured by native numbers, and searches by a Boolean test.
use Prim.Native.Nat.{ℕ, zero, suc, ◌+◌}
use mathlib.Core.Path.{◌≡◌, refl}
use mathlib.Core.List.{List, [], ◌∷◌, ◌++◌}
use mathlib.Core.Bool.{Bool, true, false, ◌&&◌, ◌||◌}
use mathlib.Core.Option.{Option, none, some}
use native.Mathlib.Omega.{arith}
use neocortex.Prelude.Tests.{is_some, if◌then◌else◌}

module _ {ℓ} {A : Type ℓ} where
  abbrev pub length : List A → ℕ
  length [] = 0
  length (x ∷ xs) = suc (length xs)

  -- The rows that a test keeps, in order.
  unfoldable pub keep : (A → Bool) → List A → List A
  keep p [] = []
  keep p (x ∷ xs) = let rest = keep p xs in if p x then x ∷ rest else rest

  -- The first entry that passes the test.
  unfoldable pub find : (A → Bool) → List A → Option A
  find p [] = none
  find p (x ∷ xs) = if p x then some x else find p xs

  unfoldable pub any : (A → Bool) → List A → Bool
  any p [] = false
  any p (x ∷ xs) = p x || any p xs

  unfoldable pub all : (A → Bool) → List A → Bool
  all p [] = true
  all p (x ∷ xs) = p x && all p xs

  -- Rewrite the entries that pass the test.
  unfoldable pub update : (A → Bool) → (A → A) → List A → List A
  update p f [] = []
  update p f (x ∷ xs) = (if p x then f x else x) ∷ update p f xs

  abbrev pub null : List A → Bool
  null [] = true
  null (x ∷ xs) = false

  abbrev pub get_elem? : List A → ℕ → Option A
  get_elem? [] i = none
  get_elem? (x ∷ xs) zero = some x
  get_elem? (x ∷ xs) (suc i) = get_elem? xs i

  abbrev pub set : List A → ℕ → A → List A
  set [] i v = []
  set (x ∷ xs) zero v = v ∷ xs
  set (x ∷ xs) (suc i) v = x ∷ set xs i v

  abbrev pub take : ℕ → List A → List A
  take zero xs = []
  take (suc n) [] = []
  take (suc n) (x ∷ xs) = x ∷ take n xs

  abbrev pub drop : ℕ → List A → List A
  drop zero xs = xs
  drop (suc n) [] = []
  drop (suc n) (x ∷ xs) = drop n xs

  abbrev pub All {κ} : (A → Type κ) → List A → Type κ
  All P [] = Unit
  All P (x ∷ xs) = P x × All P xs

  -- What `find` returns passes its test.
  pub find_sound : (p : A → Bool) (xs : List A) (x : A) → find p xs ≡ some x → p x ≡ true
  unfolding find
  find_sound p [] x e = ground arith
  find_sound p (y ∷ xs) x e = ground (arith, find_sound p xs x)

pub length-append {ℓ} : {A : Type ℓ} (xs ys : List A) → length (xs ++ ys) ≡ length xs + length ys
length-append [] ys = omega arith
length-append (x ∷ xs) ys = omega (arith, length-append xs ys)

-- A row that a search finds is found by `any` after it is rewritten.
pub any-update_found {ℓ} :
    {A : Type ℓ} (p q : A → Bool) (f : A → A) (xs : List A) (r : A)
    → find p xs ≡ some r
    → ((y : A) → p y ≡ true → q (f y) ≡ true)
    → any q (update p f xs) ≡ true
unfolding find any update
any-update_found p q f [] r e keeps = cc
any-update_found p q f (x ∷ xs) r e keeps =
    ground (arith, λ (h : find p xs ≡ some r). any-update_found p q f xs r h keeps, keeps x)

pub any_of_find {ℓ} :
    {A : Type ℓ} (p q : A → Bool) (xs : List A) (r : A)
    → find p xs ≡ some r
    → q r ≡ true
    → any q xs ≡ true
unfolding find any
any_of_find p q [] r e h = cc
any_of_find p q (y ∷ xs) r e h = ground (arith, any_of_find p q xs r)

-- A rewriting that makes no row pass a test keeps the test false.
pub any-update-false {ℓ} :
    {A : Type ℓ} (p q : A → Bool) (f : A → A) (xs : List A)
    → ((y : A) → p y ≡ false → p (f y) ≡ false)
    → any p xs ≡ false
    → any p (update q f xs) ≡ false
unfolding any update
any-update-false p q f [] keeps h = refl
any-update-false p q f (x ∷ xs) keeps h = ground (arith, keeps x, any-update-false p q f xs keeps)

-- What a search finds after the rows that pass a test are rewritten.
pub find-update {ℓ} :
    {A : Type ℓ} (p q : A → Bool) (f : A → A) (xs : List A) (r : A)
    → ((y : A) → p (f y) ≡ p y)
    → find p xs ≡ some r
    → find p (update q f xs) ≡ some (if q r then f r else r)
unfolding find update
find-update p q f [] r keeps e = cc
find-update p q f (x ∷ xs) r keeps e =
    ground (arith, keeps x, λ (h : find p xs ≡ some r). find-update p q f xs r keeps h)

pub is_some-find {ℓ} : {A : Type ℓ} (p : A → Bool) (xs : List A) → is_some (find p xs) ≡ any p xs
unfolding find any
is_some-find p [] = refl
is_some-find p (x ∷ xs) = ground (arith, is_some-find p xs)

-- A test on the kept rows is a test on the rows that are kept.
pub any-keep {ℓ} :
    {A : Type ℓ} (p q : A → Bool) (xs : List A) → any q (keep p xs) ≡ any (λ x. p x && q x) xs
unfolding keep any
any-keep p q [] = refl
any-keep p q (x ∷ xs) = ground (arith, any-keep p q xs)
