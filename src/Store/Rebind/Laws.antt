-- ===== src/Store/Rebind/Laws.antt =====
-- The placeholders that the rewriting of internal/store/rebind.go leaves.
use fin_guard.Prelude.{
  ℕ, zero, suc, ◌+◌, ◌/◌, ◌≤◌, [], ◌∷◌, ◌++◌, Bool, false, not, ◌&&◌, ◌≡◌, refl, arith,
  if◌then◌else◌, ltb, nat_eq, All, Bool-cases, inl, inr, String,
}
use fin_guard.Store.Rebind.{
  Bytes, quote, placeholder, digits, itoa, contains, rebind_from, rebind_query, rebind,
}

-- How many placeholders stand outside quoted literals.
unfoldable pub holes : Bool → Bytes → ℕ
holes in_quote [] = 0
holes in_quote (ch ∷ s) =
    let rest = holes (if nat_eq ch quote then not in_quote else in_quote) s in
    if nat_eq ch placeholder && not in_quote then rest + 1 else rest

abbrev pub IsDigit : ℕ → Type 0
IsDigit c = (b'0' ≤ c) × (c ≤ b'9')

digits-IsDigit : (fuel n : ℕ) (out : Bytes) → All IsDigit out → All IsDigit (digits fuel n out)
unfolding digits
digits-IsDigit zero n out h = h
digits-IsDigit (suc fuel) n out h = elim (Bool-cases (ltb n 10)) [
  | inl small ↦ rw small (omega arith, h)
  | inr large ↦ rw large (digits-IsDigit fuel (n / 10) _ (omega arith, h))
]

itoa-IsDigit : (n : ℕ) → All IsDigit (itoa n)
unfolding itoa
itoa-IsDigit n = digits-IsDigit (suc n) n [] tt

-- Digits are no placeholders, and no quotes.
holes-digits : (q : Bool) (ds s : Bytes) → All IsDigit ds → holes q (ds ++ s) ≡ holes q s
unfolding holes
holes-digits q [] s h = refl
holes-digits q (d ∷ ds) s (r, h) = ground (arith, holes-digits q ds s h)

holes-rebind_from : (n : ℕ) (q : Bool) (s : Bytes) → holes q (rebind_from n q s) ≡ 0
unfolding holes rebind_from
holes-rebind_from n q [] = refl
holes-rebind_from n q (ch ∷ s) = ground (
  arith,
  holes-rebind_from n q s,
  holes-rebind_from (n + 1) q s,
  holes-rebind_from n (not q) s,
  holes-digits q (itoa (n + 1)) (rebind_from (n + 1) q s) (itoa-IsDigit (n + 1)),
)

-- A text with no placeholder outside its literals stays as it is.
pub rebind_from_none : (n : ℕ) (q : Bool) (s : Bytes) → holes q s ≡ 0 → rebind_from n q s ≡ s
unfolding holes rebind_from
rebind_from_none n q [] h = refl
rebind_from_none n q (ch ∷ s) h =
    ground (arith, rebind_from_none n q s, rebind_from_none n (not q) s)

contains-holes : (q : Bool) (s : Bytes) → contains placeholder s ≡ false → holes q s ≡ 0
unfolding contains holes
contains-holes q [] h = refl
contains-holes q (ch ∷ s) h = ground (arith, contains-holes q s, contains-holes (not q) s)

-- The test for a text with no placeholder at all only saves work: the loop gives the same text.
pub rebind_query-eq-loop : (query : Bytes) → rebind_query query ≡ rebind_from 0 false query
unfolding rebind_query
rebind_query-eq-loop query =
    ground (arith, contains-holes false query, rebind_from_none 0 false query)

-- A text that was rewritten has no placeholder left outside its quoted literals.
pub holes-rebind_query : (query : Bytes) → holes false (rebind_query query) ≡ 0
holes-rebind_query query = rw rebind_query-eq-loop (holes-rebind_from 0 false query)

-- Rewriting for PostgreSQL twice is rewriting once, and for any other driver nothing is rewritten.
pub rebind_twice :
    (driver : String) (query : Bytes) → rebind driver (rebind driver query) ≡ rebind driver query
unfolding rebind
rebind_twice driver query = ground (
  arith,
  rebind_query-eq-loop (rebind_query query),
  rebind_from_none 0 false (rebind_query query) (holes-rebind_query query),
)
