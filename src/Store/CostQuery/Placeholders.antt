-- ===== src/Store/CostQuery/Placeholders.antt =====
-- The placeholders in the text of `buildCostWhere`.
use Prim.Native.Char.{code}
use Prim.Native.String
use package.text.Mathlib.TextLemmas.{nil-append, cons-append}
use fin_guard.Prelude.{
  ◌+◌, String, List, [], ◌∷◌, ◌++◌, ◌≡◌, ◌≢◌, refl, ap, Bool, true, false, arith, length,
  length-append, All, All-append, codes,
}
use fin_guard.Store.CostQuery.{
  CostQuery, Arg, condition, conditions, join, where_of, build_cost_where,
}
use fin_guard.Store.Rebind.{Bytes, quote}
use fin_guard.Store.Rebind.Laws.{holes}

codes-append : (s t : String) → codes (String.◌++◌ s t) ≡ codes s ++ codes t
codes-append String.[] t = rw nil-append refl
codes-append (String.◌∷◌ c s) t = rw cons-append (ap (λ l. code c ∷ l) (codes-append s t))

-- No quote in a text.
abbrev IsPlain : Bytes → Type 0
IsPlain = All (λ c. c ≢ quote)

holes-append : (s t : Bytes) → IsPlain s → holes false (s ++ t) ≡ holes false s + holes false t
unfolding holes
holes-append [] t h = omega arith
holes-append (c ∷ s) t (n, h) = ground (arith, holes-append s t h)

-- A condition of the builder: no quote, and one placeholder.
abbrev IsCondition : String → Type 0
IsCondition c = IsPlain (codes c) × (holes false (codes c) ≡ 1)

record IsBuilt (acc : List String × List Arg) : Type 0 where
  each : All IsCondition acc.0
  paired : length acc.0 ≡ length acc.1

condition-IsBuilt :
    (given : Bool) (c : String) (a : Arg) (acc : List String × List Arg)
    → IsCondition c
    → IsBuilt acc
    → IsBuilt (condition given c a acc)
unfolding condition
condition-IsBuilt true c a (cs, args) k h = record {
  each = All-append IsCondition cs (c ∷ []) h.each (k, tt);
  paired = omega (arith, h.paired, length-append cs (c ∷ []), length-append args (a ∷ []));
}
condition-IsBuilt false c a acc k h = h

no_holes : holes false [] ≡ 0
unfolding holes
no_holes = refl

IsPlain-and : IsPlain (codes " AND ")
IsPlain-and = ground arith

nothing : IsBuilt ([], [])
nothing = record { each = tt; paired = refl }

conditions-IsBuilt : (q : CostQuery) → IsBuilt (conditions q)
unfolding conditions holes
conditions-IsBuilt q =
    condition-IsBuilt _ "end_time <= ?" _ _ (ground arith, refl)
      (condition-IsBuilt _ "start_time >= ?" _ _ (ground arith, refl)
        (condition-IsBuilt _ "service = ?" _ _ (ground arith, refl)
          (condition-IsBuilt _ "provider = ?" _ _ (ground arith, refl)
            (condition-IsBuilt _ "cost_source_id = ?" _ _ (ground arith, refl)
              (condition-IsBuilt _ "project_id = ?" _ _ (ground arith, refl) nothing)))))

and_holes : holes false (codes " AND ") ≡ 0
unfolding holes
and_holes = refl

where_holes : holes false (codes " WHERE ") ≡ 0
unfolding holes
where_holes = refl

holes-codes :
    (s t : String)
    → IsPlain (codes s)
    → holes false (codes (String.◌++◌ s t)) ≡ holes false (codes s) + holes false (codes t)
holes-codes s t h = rw codes-append (holes-append (codes s) (codes t) h)

holes-join :
    (cs : List String) → All IsCondition cs → holes false (codes (join " AND " cs)) ≡ length cs
unfolding join
holes-join [] h = no_holes
holes-join (c ∷ []) ((p, one), h) = one
holes-join (c ∷ d ∷ cs) ((p, one), h) = omega (
  arith,
  holes-codes c (String.◌++◌ " AND " (join " AND " (d ∷ cs))) p,
  holes-codes " AND " (join " AND " (d ∷ cs)) IsPlain-and,
  and_holes,
  one,
  holes-join (d ∷ cs) h,
)

where_of-holes :
    (acc : List String × List Arg)
    → IsBuilt acc
    → holes false (codes (where_of acc).0) ≡ length (where_of acc).1
unfolding where_of
where_of-holes ([], []) h = no_holes
where_of-holes ([], a ∷ args) h = absurd (omega (arith, h.paired))
where_of-holes (c ∷ cs, args) h = omega (
  arith,
  holes-codes " WHERE " (join " AND " (c ∷ cs)) (ground arith),
  where_holes,
  holes-join (c ∷ cs) h.each,
  h.paired,
)

-- Whatever the query, the WHERE text of `buildCostWhere` has exactly as many placeholders outside
-- quoted literals as it has arguments; so the rewriting for PostgreSQL numbers each of them.
pub build_cost_where-holes :
    (q : CostQuery) → holes false (codes (build_cost_where q).0) ≡ length (build_cost_where q).1
unfolding build_cost_where
build_cost_where-holes q = where_of-holes (conditions q) (conditions-IsBuilt q)
