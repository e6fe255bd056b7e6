-- ===== src/Prelude/Found.antt =====
-- What the first row and the selection of a table show after an insertion, a deletion or an update.
use mathlib.Core.Path.{◌≡◌, refl}
use mathlib.Core.Bool.{Bool, true, false}
use mathlib.Core.Option.{none, some}
use mathlib.Core.List.{List, [], ◌∷◌, ◌++◌}
use native.Mathlib.Omega.{arith}
use fin_guard.Prelude.Tests.{if◌then◌else◌}
use fin_guard.Prelude.Rows.{any, first, select, delete, update}

module _ {ℓ} {A : Type ℓ} where
  pub first-append :
      (p : A → Bool) (xs : List A) (y : A)
      → first p (xs ++ y ∷ []) ≡ (if any p xs then first p xs else first p (y ∷ []))
  unfolding any first
  first-append p [] y = refl
  first-append p (x ∷ xs) y = ground (arith, first-append p xs y)

  pub first-delete-none : (p : A → Bool) (xs : List A) → first p (delete p xs) ≡ none
  unfolding first delete select
  first-delete-none p [] = refl
  first-delete-none p (x ∷ xs) = ground (arith, first-delete-none p xs)

  pub first-delete_other :
      (p q : A → Bool)
      → ((x : A) → p x ≡ true → q x ≡ false)
      → (xs : List A) → first p (delete q xs) ≡ first p xs
  unfolding first delete select
  first-delete_other p q apart [] = refl
  first-delete_other p q apart (x ∷ xs) = ground (arith, apart x, first-delete_other p q apart xs)

  pub select-delete_none : (p : A → Bool) (xs : List A) → select p (delete p xs) ≡ []
  unfolding select delete
  select-delete_none p [] = refl
  select-delete_none p (x ∷ xs) = ground (arith, select-delete_none p xs)

  pub select-delete_other :
      (p q : A → Bool)
      → ((x : A) → p x ≡ true → q x ≡ false)
      → (xs : List A) → select p (delete q xs) ≡ select p xs
  unfolding select delete
  select-delete_other p q apart [] = refl
  select-delete_other p q apart (x ∷ xs) = ground (arith, apart x, select-delete_other p q apart xs)

  pub select_none : (p : A → Bool) (xs : List A) → any p xs ≡ false → select p xs ≡ []
  unfolding select any
  select_none p [] h = refl
  select_none p (x ∷ xs) h = ground (arith, select_none p xs)

  pub first-none : (p : A → Bool) (xs : List A) → any p xs ≡ false → first p xs ≡ none
  unfolding first any
  first-none p [] h = refl
  first-none p (x ∷ xs) h = ground (arith, first-none p xs)

  -- The row that is found is one of the rows, and passes the test.
  pub first-holds : (p : A → Bool) (xs : List A) (y : A) → first p xs ≡ some y → p y ≡ true
  unfolding first
  first-holds p (x ∷ xs) y h = ground (arith, first-holds p xs y)
  first-holds p [] y h = ground arith

  -- An update of the rows of `q` shows where `p` tells the same rows.
  pub first-update :
      (p q : A → Bool) (f : A → A)
      → ((x : A) → q x ≡ true → p (f x) ≡ p x)
      → ((x : A) → p x ≡ true → q x ≡ true)
      → (xs : List A) (x : A) → first p xs ≡ some x
      → first p (update q f xs) ≡ some (f x)
  unfolding first update
  first-update p q f keeps sub [] x h = ground arith
  first-update p q f keeps sub (y ∷ ys) x h =
      ground (arith, keeps y, sub y, first-update p q f keeps sub ys x)

  pub first-update_other :
      (p q : A → Bool) (f : A → A)
      → ((x : A) → q x ≡ true → p x ≡ false)
      → ((x : A) → q x ≡ true → p (f x) ≡ false)
      → (xs : List A) → first p (update q f xs) ≡ first p xs
  unfolding first update
  first-update_other p q f apart moved [] = refl
  first-update_other p q f apart moved (y ∷ ys) =
      ground (arith, apart y, moved y, first-update_other p q f apart moved ys)
