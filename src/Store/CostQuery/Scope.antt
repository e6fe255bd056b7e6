-- ===== src/Store/CostQuery/Scope.antt =====
-- Which rows the WHERE clause of `buildCostWhere` keeps, and the filters of a query as a predicate on
-- records.
use fin_guard.Prelude.{
  ◌≤◌, String, List, [], ◌∷◌, ◌++◌, ◌≡◌, refl, sym, ◌↔◌, ◌∙◌, Bool, true, false, not, ◌&&◌, ◌||◌,
  ◌==◌, arith, eq_iff, nat_eq, length, length-append, ◌⊎◌, ap,
}
use fin_guard.Models.{CostRecord}
use fin_guard.Store.CostQuery.{
  CostQuery, Arg, string_arg, time_arg, condition, conditions, holds, where_holds,
}

-- A text filter admits all where it is empty, a time filter where it is the zero time.
abbrev pub Admits : String → String → Type 0
Admits want have = (want ≡ "") ⊎ (have ≡ want)

-- The record passes every filter that the query gives.
pub record InScope {R : Type 0} (q : CostQuery) (r : CostRecord R) : Type 0 where
  pub project : Admits q.project_id r.project_id
  pub source : Admits q.cost_source_id r.cost_source_id
  pub provider : Admits q.provider r.provider
  pub service : Admits q.service r.service
  pub start : q.start_time ≤ r.start_time
  pub end : (q.end_time ≡ 0) ⊎ (r.end_time ≤ q.end_time)

and_true : (a b : Bool) → (a && b) ≡ true → (a ≡ true) × (b ≡ true)
and_true a b h = ground arith

true_and : (a b : Bool) → a ≡ true → b ≡ true → (a && b) ≡ true
true_and a b h k = ground arith

module _ {R : Type 0} (r : CostRecord R) where
  where_holds-append :
      (cs : List String) (args : List Arg) (c : String) (a : Arg)
      → length cs ≡ length args
      → where_holds (cs ++ c ∷ []) (args ++ a ∷ []) r ≡ (where_holds cs args r && holds c a r)
  unfolding where_holds
  where_holds-append [] [] c a h = ground arith
  where_holds-append (d ∷ cs) (b ∷ args) c a h = ground (arith, where_holds-append cs args c a)
  where_holds-append [] (b ∷ args) c a h = absurd (omega arith)
  where_holds-append (d ∷ cs) [] c a h = absurd (omega arith)

  -- One more filter of the builder is one more test.
  condition-holds :
      (given : Bool) (c : String) (a : Arg) (acc : List String × List Arg)
      → length acc.0 ≡ length acc.1
      → (where_holds (condition given c a acc).0 (condition given c a acc).1 r
          ≡ (where_holds acc.0 acc.1 r && (not given || holds c a r)))
        × (length (condition given c a acc).0 ≡ length (condition given c a acc).1)
  unfolding condition
  condition-holds true c a (cs, args) h = (
    where_holds-append cs args c a h ∙ ap (λ b. where_holds cs args r && b) refl,
    omega (arith, length-append cs (c ∷ []), length-append args (a ∷ [])),
  )
  condition-holds false c a (cs, args) h = (ground arith, h)

  -- The builder so far: as many conditions as arguments, which hold of the record where `P` does.
  abbrev Says : Type 0 → List String × List Arg → Type 0
  Says P acc = ((where_holds acc.0 acc.1 r ≡ true) ↔ P) × (length acc.0 ≡ length acc.1)

  condition-Says :
      (P : Type 0) (acc : List String × List Arg)
      → Says P acc
      → (given : Bool) (c : String) (a : Arg) (Q : Type 0)
      → (((not given || holds c a r) ≡ true) ↔ Q)
      → Says (P × Q) (condition given c a acc)
  condition-Says P acc ((to, from), h) given c a Q (there, back) =
      let (eq, h') = condition-holds given c a acc h in
      (
        (
          (λ e. let both = and_true _ _ (sym eq ∙ e) in (to both.0, there both.1)),
          (λ (p, q'). eq ∙ true_and _ _ (from p) (back q')),
        ),
        h',
      )

nothing_holds : {R : Type 0} (r : CostRecord R) → where_holds [] [] r ≡ true
unfolding where_holds
nothing_holds r = refl

-- What the six conditions say.
module _ {R : Type 0} (q : CostQuery) (r : CostRecord R) where
  project_says :
      ((not (not (q.project_id == "")) || holds "project_id = ?" (string_arg q.project_id) r)
        ≡ true)
      ↔ Admits q.project_id r.project_id
  unfolding holds
  project_says = ground (arith, eq_iff q.project_id "", eq_iff r.project_id q.project_id)

  source_says :
      ((not (not (q.cost_source_id == ""))
          || holds "cost_source_id = ?" (string_arg q.cost_source_id) r)
        ≡ true)
      ↔ Admits q.cost_source_id r.cost_source_id
  unfolding holds
  source_says = ground (arith, eq_iff q.cost_source_id "", eq_iff r.cost_source_id q.cost_source_id)

  provider_says :
      ((not (not (q.provider == "")) || holds "provider = ?" (string_arg q.provider) r) ≡ true)
      ↔ Admits q.provider r.provider
  unfolding holds
  provider_says = ground (arith, eq_iff q.provider "", eq_iff r.provider q.provider)

  service_says :
      ((not (not (q.service == "")) || holds "service = ?" (string_arg q.service) r) ≡ true)
      ↔ Admits q.service r.service
  unfolding holds
  service_says = ground (arith, eq_iff q.service "", eq_iff r.service q.service)

  start_says :
      ((not (not (nat_eq q.start_time 0)) || holds "start_time >= ?" (time_arg q.start_time) r)
        ≡ true)
      ↔ (q.start_time ≤ r.start_time)
  unfolding holds
  start_says = ground arith

  end_says :
      ((not (not (nat_eq q.end_time 0)) || holds "end_time <= ?" (time_arg q.end_time) r) ≡ true)
      ↔ ((q.end_time ≡ 0) ⊎ (r.end_time ≤ q.end_time))
  unfolding holds
  end_says = ground arith

-- A record passes the conditions and arguments of `buildCostWhere` exactly when it passes every filter
-- that the query gives: a filter that is empty, or the zero time, admits every record.
pub where_holds-InScope :
    {R : Type 0} (q : CostQuery) (r : CostRecord R)
    → (where_holds (conditions q).0 (conditions q).1 r ≡ true) ↔ InScope q r
unfolding conditions
where_holds-InScope q r = (
  (λ e.
      let all = every.0.0 e in
      record {
        project = all.0.0.0.0.0.1;
        source = all.0.0.0.0.1;
        provider = all.0.0.0.1;
        service = all.0.0.1;
        start = all.0.1;
        end = all.1;
      }),
  (λ h. every.0.1 ((((((tt, h.project), h.source), h.provider), h.service), h.start), h.end)),
)
  where
    none_yet : Says r (Unit {0}) ([], [])
    none_yet = (((λ _. tt), (λ _. nothing_holds r)), refl)

    every :
        Says r
          ((((((Unit {0} × Admits q.project_id r.project_id)
                    × Admits q.cost_source_id r.cost_source_id)
                  × Admits q.provider r.provider)
                × Admits q.service r.service)
              × (q.start_time ≤ r.start_time))
            × ((q.end_time ≡ 0) ⊎ (r.end_time ≤ q.end_time)))
          (conditions q)
    every =
        condition-Says r _ _
          (condition-Says r _ _
            (condition-Says r _ _
              (condition-Says r _ _
                (condition-Says r _ _ (condition-Says r _ _ none_yet _ _ _ _ (project_says q r)) _ _
                  _ _ (source_says q r))
                _ _ _ _ (provider_says q r))
              _ _ _ _ (service_says q r))
            _ _ _ _ (start_says q r))
          _ _ _ _ (end_says q r)
