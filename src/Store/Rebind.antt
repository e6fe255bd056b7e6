-- ===== src/Store/Rebind.antt =====
-- internal/store/rebind.go: the placeholders of a statement, rewritten for PostgreSQL. A text is the
-- list of its bytes.
pub mod Laws
pub mod Segments
use fin_guard.Prelude.{
  ℕ, zero, suc, ◌+◌, ◌/◌, ◌%◌, String, List, [], ◌∷◌, ◌++◌, Bool, true, false, not, ◌&&◌, ◌||◌,
  ◌==◌, if◌then◌else◌, ltb, nat_eq,
}

abbrev pub Bytes : Type 0
Bytes = List ℕ

abbrev pub quote : ℕ
quote = 39

abbrev pub placeholder : ℕ
placeholder = b'?'

-- `strconv.Itoa` of a positive number: the digits, the last one first found. The fuel is above the
-- number, and a tenth of it is below it.
unfoldable pub digits : ℕ → ℕ → Bytes → Bytes
digits zero n out = out
digits (suc fuel) n out =
    let out' = (b'0' + n % 10) ∷ out in
    let rest = digits fuel (n / 10) out' in if ltb n 10 then out' else rest

unfoldable pub itoa : ℕ → Bytes
unfolding digits
itoa n = digits (suc n) n []

-- `strings.Contains` of one byte.
unfoldable pub contains : ℕ → Bytes → Bool
contains c [] = false
contains c (b ∷ s) = nat_eq b c || contains c s

-- The loop: `n` placeholders so far, and whether the byte stands in a quoted literal.
unfoldable pub rebind_from : ℕ → Bool → Bytes → Bytes
rebind_from n in_quote [] = []
rebind_from n in_quote (ch ∷ s) =
    let hole = nat_eq ch placeholder && not in_quote in
    let rest =
      rebind_from (if hole then n + 1 else n) (if nat_eq ch quote then not in_quote else in_quote)
        s in
    if nat_eq ch quote then ch ∷ rest else if hole then b'$' ∷ (itoa (n + 1) ++ rest) else ch ∷ rest

unfoldable pub rebind_query : Bytes → Bytes
unfolding contains rebind_from
rebind_query query = if contains placeholder query then rebind_from 0 false query else query

-- The method of both wrappers.
unfoldable pub rebind : String → Bytes → Bytes
unfolding rebind_query
rebind driver query = if driver == "pgx" then rebind_query query else query
