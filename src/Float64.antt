-- ===== src/Float64.antt =====
-- Go's float64, which the models take as a parameter: the values and the operations that the code
-- uses. No law is assumed of them where none is named.
use fin_guard.Prelude.{ℕ, ◌+◌, ◌-◌, ◌*◌, ◌/◌, Bool, leb, ltb}

pub record Float64 : Type 1 where
  pub Carrier : Type 0
  pub zero : Carrier
  pub one : Carrier
  pub add : Carrier → Carrier → Carrier
  pub sub : Carrier → Carrier → Carrier
  pub mul : Carrier → Carrier → Carrier
  pub div : Carrier → Carrier → Carrier
  pub lt : Carrier → Carrier → Bool
  pub le : Carrier → Carrier → Bool
  pub of_int : ℕ → Carrier

-- Whole numbers, for the examples.
abbrev pub whole : Float64
whole = record {
  Carrier = ℕ;
  zero = 0;
  one = 1;
  add = λ a b. a + b;
  sub = λ a b. a - b;
  mul = λ a b. a * b;
  div = λ a b. a / b;
  lt = ltb;
  le = leb;
  of_int = λ n. n;
}
