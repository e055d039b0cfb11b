-- ===== src/State/Keeps.antt =====
-- What a computation leaves of the database as it was: the rules for statements and for their
-- composition.
use mathlib.Core.Path.{◌∙◌, refl}
use neocortex.Prelude.{if◌then◌else◌, ◌≡◌, Bool, true, false}
use neocortex.State.Tables.{Db}
use neocortex.State.Exec.{Exec, Result, World, err, ok, transaction, when, ◌>>=◌, ◌>>◌}

module _ {C : Type 0} (view : Db → C) where
  -- Whether it returns or raises, and wherever it starts.
  abbrev pub Keeps : {A : Type 0} → Exec A → Type 0
  Keeps m = (w : World) → view (m w).1.db ≡ view w.db

  bind_split :
      {A B : Type 0} (r : Result A × World) (f : A → Exec B) (w : World)
      → view r.1.db ≡ view w.db
      → ((a : A) → Keeps (f a))
      → view (((λ _. r) >>= f) w).1.db ≡ view w.db
  bind_split (ok a, v) f w h k = k a v ∙ h
  bind_split (err e, v) f w h k = h

  pub >>=-Keeps :
      {A B : Type 0} (m : Exec A) (f : A → Exec B)
      → Keeps m
      → ((a : A) → Keeps (f a))
      → Keeps (m >>= f)
  >>=-Keeps m f h k w = bind_split (m w) f w (h w) k

  pub >>-Keeps :
      {B : Type 0} (m : Exec (Unit {0})) (k : Exec B) → Keeps m → Keeps k → Keeps (m >> k)
  >>-Keeps m k h l = >>=-Keeps m (λ _. k) h (λ _. l)

  transaction_split :
      {A : Type 0} (r : Result A × World) (w : World)
      → view r.1.db ≡ view w.db
      → view (transaction (λ _. r) w).1.db ≡ view w.db
  transaction_split (ok a, v) w h = h
  transaction_split (err e, v) w h = refl

  pub transaction-Keeps : {A : Type 0} (m : Exec A) → Keeps m → Keeps (transaction m)
  transaction-Keeps m h w = transaction_split (m w) w (h w)

  pub when-Keeps : (b : Bool) (m : Exec (Unit {0})) → Keeps m → Keeps (when b m)
  when-Keeps true m h w = h w
  when-Keeps false m h w = refl

  pub if-Keeps :
      {A : Type 0} (b : Bool) (m n : Exec A) → Keeps m → Keeps n → Keeps (if b then m else n)
  if-Keeps true m n h k = h
  if-Keeps false m n h k = k
