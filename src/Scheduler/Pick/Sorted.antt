-- ===== src/Scheduler/Pick/Sorted.antt =====
-- The order of rows that `ORDER BY` of nc/scheduler.py sorts, and what a search finds in it.
use neocortex.Prelude.{
  All, Bool, Bool-cases, List, [], any, ap, arith, false, find, inl, inr, keep, order_by, place,
  refl, some, sym, true, ◌&&◌, ◌||◌, ◌∙◌, ◌∷◌, ◌≡◌,
}

module _ {A : Type 0} (less : A → A → Bool) where
  -- No later row goes before an earlier one.
  abbrev pub IsSorted : List A → Type 0
  IsSorted [] = Unit
  IsSorted (x ∷ xs) = (any (λ y. less y x) xs ≡ false) × IsSorted xs

  any-place : (p : A → Bool) (x : A) (ys : List A) → any p (place less x ys) ≡ p x || any p ys
  unfolding any place
  any-place p x [] = refl
  any-place p x (y ∷ ys) = ground (arith, any-place p x ys)

  module _ (asym : (x y : A) → less x y ≡ true → less y x ≡ false)
      (trans : (x y z : A) → less y x ≡ false → less z y ≡ false → less z x ≡ false) where
    none_below :
        (x y : A) (ys : List A)
        → less y x ≡ false
        → any (λ z. less z y) ys ≡ false
        → any (λ z. less z x) ys ≡ false
    unfolding any
    none_below x y [] h k = refl
    none_below x y (z ∷ zs) h k = ground (arith, trans x y z h, none_below x y zs h)

    place-IsSorted : (x : A) (ys : List A) → IsSorted ys → IsSorted (place less x ys)
    unfolding place any
    place-IsSorted x [] s = (refl, tt)
    place-IsSorted x (y ∷ ys) (first, s) = elim (Bool-cases (less y x)) [
      | inl before ↦
          rw before
            (any-place (λ z. less z y) x ys ∙ rw (asym y x before) first, place-IsSorted x ys s)
      | inr after ↦
          let below : any (λ z. less z x) (y ∷ ys) ≡ false =
            rw after (none_below x y ys after first) in
          rw after (below, (first, s))
    ]

    pub order_by-IsSorted : (xs : List A) → IsSorted (order_by less xs)
    unfolding order_by
    order_by-IsSorted [] = tt
    order_by-IsSorted (x ∷ xs) = place-IsSorted x (order_by less xs) (order_by-IsSorted xs)

  none_and : (p q : A → Bool) (xs : List A) → any q xs ≡ false → any (λ x. p x && q x) xs ≡ false
  unfolding any
  none_and p q [] h = refl
  none_and p q (x ∷ xs) h = ground (arith, h, none_and p q xs)

  -- What a search finds in a sorted list comes before all that it could have found.
  pub find-IsSorted :
      (p : A → Bool) (xs : List A) (t : A)
      → less t t ≡ false
      → IsSorted xs
      → find p xs ≡ some t
      → any (λ x. p x && less x t) xs ≡ false
  unfolding find any
  find-IsSorted p [] t irr s e = cc
  find-IsSorted p (x ∷ xs) t irr (first, s) e = elim (Bool-cases (p x)) [
    | inr other ↦ rw other (find-IsSorted p xs t irr s (rw other at e))
    | inl fits ↦
        let same : some x ≡ some t = rw fits at e in
        let one : x ≡ t = cc in
        rw (fits, ap (λ y. less y t) one ∙ irr)
          (none_and p (λ y. less y t) xs (ap (λ z. any (λ y. less y z) xs) (sym one) ∙ first))
  ]

pub any-same :
    {A : Type 0} (p q : A → Bool) (xs : List A) → All (λ x. p x ≡ q x) xs → any p xs ≡ any q xs
unfolding any
any-same p q [] hs = refl
any-same p q (x ∷ xs) (h, hs) = rw (h, any-same p q xs hs) refl

pub All-map_into :
    {A : Type 0} (P Q : A → Type 0) (xs : List A) → ((x : A) → P x → Q x) → All P xs → All Q xs
All-map_into P Q [] f hs = tt
All-map_into P Q (x ∷ xs) f (h, hs) = (f x h, All-map_into P Q xs f hs)

pub All-keep_of :
    {A : Type 0} (P : A → Type 0) (p : A → Bool) (xs : List A)
    → All P xs
    → All (λ x. (p x ≡ true) × P x) (keep p xs)
unfolding keep
All-keep_of P p [] hs = tt
All-keep_of P p (x ∷ xs) (h, hs) = elim (Bool-cases (p x)) [
  | inl fits ↦ rw fits ((fits, h), All-keep_of P p xs hs)
  | inr other ↦ rw other (All-keep_of P p xs hs)
]
