-- ===== src/Prelude/Sort.antt =====
-- `ORDER BY`: a stable insertion sort by a strict Boolean order.
use mathlib.Core.Bool.{Bool, true, false}
use mathlib.Core.List.{List, [], ◌∷◌}
use mathlib.Core.Path.{◌≡◌, refl}
use native.Mathlib.Omega.{arith}
use neocortex.Prelude.Lists.{All, any}
use neocortex.Prelude.Tests.{if◌then◌else◌}

module _ {ℓ} {A : Type ℓ} (less : A → A → Bool) where
  unfoldable pub place : A → List A → List A
  place x [] = x ∷ []
  place x (y ∷ ys) = if less y x then y ∷ place x ys else x ∷ y ∷ ys

  unfoldable pub order_by : List A → List A
  unfolding place
  order_by [] = []
  order_by (x ∷ xs) = place x (order_by xs)

  any-place : (p : A → Bool) (x : A) (ys : List A) → any p (place x ys) ≡ any p (x ∷ ys)
  unfolding any place
  any-place p x [] = refl
  any-place p x (y ∷ ys) = ground (arith, any-place p x ys)

  -- Sorting changes no test on the rows.
  pub any-order_by : (p : A → Bool) (xs : List A) → any p (order_by xs) ≡ any p xs
  unfolding any order_by
  any-order_by p [] = refl
  any-order_by p (x ∷ xs) = ground (arith, any-place p x (order_by xs), any-order_by p xs)

  module _ {κ} (P : A → Type κ) where
    All-place : (x : A) (ys : List A) → P x → All P ys → All P (place x ys)
    unfolding place
    All-place x [] h hs = (h, tt)
    All-place x (y ∷ ys) h (k, ks) =
        elim (less y x) as (λ b. All P (if b then y ∷ place x ys else x ∷ y ∷ ys)) [
          | true ↦ (k, All-place x ys h ks)
          | false ↦ (h, (k, ks))
        ]

    -- Sorting keeps what holds of each row.
    pub All-order_by : (xs : List A) → All P xs → All P (order_by xs)
    unfolding order_by
    All-order_by [] hs = tt
    All-order_by (x ∷ xs) (h, hs) = All-place x (order_by xs) h (All-order_by xs hs)
