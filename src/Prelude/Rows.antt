-- ===== src/Prelude/Rows.antt =====
-- A table as a list of rows: the selections, updates and tests of which SQL statements are made.
use mathlib.Core.Path.{◌≡◌, refl, ◌∙◌}
use mathlib.Core.Logic.{inl, inr}
use mathlib.Core.Bool.{Bool, true, false, not, ◌&&◌, ◌||◌}
use mathlib.Core.Option.{Option, none, some}
use mathlib.Core.List.{List, [], ◌∷◌, ◌++◌}
use native.Mathlib.Omega.{arith}
use fin_guard.Prelude.Tests.{if◌then◌else◌, Bool-cases}
use fin_guard.Prelude.Lists.{All}

module _ {ℓ} {A : Type ℓ} where
  -- WHERE EXISTS
  unfoldable pub any : (A → Bool) → List A → Bool
  any p [] = false
  any p (x ∷ xs) = p x || any p xs

  -- the first row of a SELECT
  unfoldable pub first : (A → Bool) → List A → Option A
  first p [] = none
  first p (x ∷ xs) = if p x then some x else first p xs

  -- SELECT … WHERE
  unfoldable pub select : (A → Bool) → List A → List A
  select p [] = []
  select p (x ∷ xs) = let rest = select p xs in if p x then x ∷ rest else rest

  -- DELETE … WHERE
  unfoldable pub delete : (A → Bool) → List A → List A
  unfolding select
  delete p = select (λ x. not (p x))

  -- UPDATE … SET … WHERE
  unfoldable pub update : (A → Bool) → (A → A) → List A → List A
  update p f [] = []
  update p f (x ∷ xs) = (if p x then f x else x) ∷ update p f xs

  -- No two rows agree on a key.
  abbrev pub Unique : (A → A → Bool) → List A → Type 0
  Unique same [] = Unit
  Unique same (x ∷ xs) = (any (same x) xs ≡ false) × Unique same xs

  pub any-append_old : (p : A → Bool) (xs ys : List A) → any p xs ≡ true → any p (xs ++ ys) ≡ true
  unfolding any
  any-append_old p [] ys h = ground arith
  any-append_old p (x ∷ xs) ys h = ground (arith, any-append_old p xs ys)

  pub any-append_single :
      (p : A → Bool) (xs : List A) (y : A) → any p (xs ++ y ∷ []) ≡ (any p xs || p y)
  unfolding any
  any-append_single p [] y = ground arith
  any-append_single p (x ∷ xs) y = ground (arith, any-append_single p xs y)

  pub any-select :
      (p q : A → Bool)
      → ((x : A) → p x ≡ true → q x ≡ true)
      → (xs : List A) → any p xs ≡ true
      → any p (select q xs) ≡ true
  unfolding any select
  any-select p q f [] h = h
  any-select p q f (x ∷ xs) h = ground (arith, f x, any-select p q f xs)

  pub any-select-false :
      (p q : A → Bool) (xs : List A) → any p xs ≡ false → any p (select q xs) ≡ false
  unfolding any select
  any-select-false p q [] h = h
  any-select-false p q (x ∷ xs) h = ground (arith, any-select-false p q xs)

  pub any-select_none :
      (p q : A → Bool)
      → ((x : A) → q x ≡ true → p x ≡ false)
      → (xs : List A) → any p (select q xs) ≡ false
  unfolding any select
  any-select_none p q f [] = refl
  any-select_none p q f (x ∷ xs) = ground (arith, f x, any-select_none p q f xs)

  pub any-update :
      (p q : A → Bool) (f : A → A)
      → ((x : A) → p (f x) ≡ p x)
      → (xs : List A) → any p (update q f xs) ≡ any p xs
  unfolding any update
  any-update p q f e [] = refl
  any-update p q f e (x ∷ xs) = ground (arith, e x, any-update p q f e xs)

  any-cong : (p q : A → Bool) → ((x : A) → p x ≡ q x) → (xs : List A) → any p xs ≡ any q xs
  unfolding any
  any-cong p q e [] = refl
  any-cong p q e (x ∷ xs) = ground (arith, e x, any-cong p q e xs)

  pub All-select {κ} :
      (P Q : A → Type κ) (q : A → Bool)
      → ((x : A) → q x ≡ true → P x → Q x)
      → (xs : List A) → All P xs
      → All Q (select q xs)
  unfolding select
  All-select P Q q f [] h = tt
  All-select P Q q f (x ∷ xs) (p, h) = elim (Bool-cases (q x)) [
    | inl e ↦ rw e (f x e p, All-select P Q q f xs h)
    | inr e ↦ rw e (All-select P Q q f xs h)
  ]

  pub All-update {κ} :
      (P Q : A → Type κ) (q : A → Bool) (f : A → A)
      → ((x : A) → q x ≡ true → P x → Q (f x))
      → ((x : A) → q x ≡ false → P x → Q x)
      → (xs : List A) → All P xs
      → All Q (update q f xs)
  unfolding update
  All-update P Q q f g k [] h = tt
  All-update P Q q f g k (x ∷ xs) (p, h) = elim (Bool-cases (q x)) [
    | inl e ↦ rw e (g x e p, All-update P Q q f g k xs h)
    | inr e ↦ rw e (k x e p, All-update P Q q f g k xs h)
  ]

  -- A row that the deletion of the rows of `p` and `q` leaves out is found again.
  pub any-delete_rest :
      (p q : A → Bool) (xs : List A)
      → any p xs ≡ true
      → any (λ x. p x && q x) xs ≡ false
      → any p (delete q xs) ≡ true
  unfolding any select delete
  any-delete_rest p q [] h k = h
  any-delete_rest p q (x ∷ xs) h k = ground (arith, any-delete_rest p q xs)

  pub Unique-append :
      (same : A → A → Bool) (xs : List A) (y : A)
      → any (λ x. same x y) xs ≡ false
      → Unique same xs
      → Unique same (xs ++ y ∷ [])
  unfolding any
  Unique-append same [] y h u = (refl, tt)
  Unique-append same (x ∷ xs) y h (n, u) =
      (ground (arith, any-append_single (same x) xs y), Unique-append same xs y (ground arith) u)

  pub Unique-select :
      (same : A → A → Bool) (q : A → Bool) (xs : List A)
      → Unique same xs
      → Unique same (select q xs)
  unfolding select
  Unique-select same q [] u = tt
  Unique-select same q (x ∷ xs) (n, u) = elim (Bool-cases (q x)) [
    | inl e ↦ rw e (any-select-false (same x) q xs n, Unique-select same q xs u)
    | inr e ↦ rw e (Unique-select same q xs u)
  ]

  -- An update that leaves the key alone.
  pub Unique-update :
      (same : A → A → Bool) (q : A → Bool) (f : A → A)
      → ((x y : A) → same (f x) y ≡ same x y)
      → ((x y : A) → same x (f y) ≡ same x y)
      → (xs : List A) → Unique same xs
      → Unique same (update q f xs)
  unfolding update
  Unique-update same q f l r [] u = tt
  Unique-update same q f l r (x ∷ xs) (n, u) = elim (Bool-cases (q x)) [
    | inl e ↦ rw e (
      any-update (same (f x)) q f (r (f x)) xs ∙ any-cong _ _ (l x) xs ∙ n,
      Unique-update same q f l r xs u,
    )
    | inr e ↦ rw e (any-update (same x) q f (r x) xs ∙ n, Unique-update same q f l r xs u)
  ]
