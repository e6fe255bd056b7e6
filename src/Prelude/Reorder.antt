-- ===== src/Prelude/Reorder.antt =====
-- Lists up to their order, as the loops over a map meet its entries.
use mathlib.Core.Path.{◌≡◌, refl, ◌∙◌, sym, ap, subst}
use mathlib.Core.Logic.{∥∥₁_elim}
use mathlib.Core.Bool.{Bool, false}
use mathlib.Core.List.{List, [], ◌∷◌, Perm, Permᴰ}
use mathlib.Core.List.Permᴰ.{nil, cons, swap, trans}
use native.Mathlib.Omega.{arith}
use fin_guard.Prelude.Rows.{any, Unique}

module _ {ℓ} {A : Type ℓ} where
  any-permuted : (p : A → Bool) (xs ys : List A) → Permᴰ xs ys → any p xs ≡ any p ys
  unfolding any
  any-permuted p _ _ nil = refl
  any-permuted p _ _ (cons {l₁ = xs} {l₂ = ys} e d) = rw (e, any-permuted p xs ys d) refl
  any-permuted p _ _ (swap e f) = rw (e, f) (ground arith)
  any-permuted p _ _ (trans {l₁ = xs} {l₂ = ys} {l₃ = zs} d e) =
      any-permuted p xs ys d ∙ any-permuted p ys zs e

  -- A test of the items does not tell two orders apart.
  pub any-Perm : (p : A → Bool) (xs ys : List A) → Perm xs ys → any p xs ≡ any p ys
  any-Perm p xs ys d = ∥∥₁_elim d (hlevel) (any-permuted p xs ys)

  module _ (same : A → A → Bool) (swaps : (x y : A) → same x y ≡ same y x) where
    Unique-prop : (xs : List A) → IsProp (Unique same xs)
    Unique-prop [] u v = refl
    Unique-prop (x ∷ xs) (n, u) (m, v) =
        let e : n ≡ m = hlevel in
        let f = Unique-prop xs u v in ap (λ p. (p, u)) e ∙ ap (λ q. (m, q)) f

    Unique-swap : (a b : A) (l : List A) → Unique same (a ∷ b ∷ l) → Unique same (b ∷ a ∷ l)
    unfolding any
    Unique-swap a b l (n, (m, u)) = (ground (arith, n, m, swaps a b), (ground (arith, n), u))

    Unique-permuted : (xs ys : List A) → Permᴰ xs ys → Unique same xs → Unique same ys
    unfolding any
    Unique-permuted _ _ nil u = u
    Unique-permuted _ _ (cons {a = a} {b = b} {l₁ = xs} {l₂ = ys} e d) (n, u) = (
      subst (λ x. any (same x) ys ≡ false) e (sym (any-permuted (same a) xs ys d) ∙ n),
      Unique-permuted xs ys d u,
    )
    Unique-permuted _ _ (swap {a = a} {b = b} {a' = a'} {b' = b'} {l = l} e f) u =
        subst (λ x. Unique same (x ∷ b' ∷ l)) f
          (subst (λ y. Unique same (b ∷ y ∷ l)) e (Unique-swap a b l u))
    Unique-permuted _ _ (trans {l₁ = xs} {l₂ = ys} {l₃ = zs} d e) u =
        Unique-permuted ys zs e (Unique-permuted xs ys d u)

    -- Nor does it matter for the distinctness of their keys.
    pub Unique-Perm : (xs ys : List A) → Perm xs ys → Unique same xs → Unique same ys
    Unique-Perm xs ys d u = ∥∥₁_elim d (Unique-prop ys) (λ p. Unique-permuted xs ys p u)
