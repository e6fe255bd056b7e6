-- ===== src/Store/Costs/Answers.antt =====
-- What `QueryCostRecords` and `AggregateCosts` answer.
use Prim.Native.Nat.{zero}
use fin_guard.Prelude.{
  zero, ◌⊎◌, ℕ, suc, ◌≤◌, ◌<◌, List, [], ◌∷◌, ◌≡◌, refl, sym, ◌∙◌, ap, inl, inr, Bool, false, arith,
  ok, is_ok, eq_iff, Option, subst, ltb, leb, All, take, drop, length, length-take_le, sort,
  insert_by, Bool-cases, All-select,
}
use fin_guard.Float64.{Float64}
use fin_guard.Models.{CostRecord, Labels}
use fin_guard.Store.Db.{Db, Env}
use fin_guard.Store.CostQuery.{CostQuery}
use fin_guard.Store.CostQuery.Scope.{InScope, where_holds-InScope}
use fin_guard.Store.Costs.{
  LabelsJson, CostSummary, scan_record, scan_records, matching, window, query_cost_records,
  aggregate_costs,
}
use fin_guard.Store.Effects.Records.{Result-cases}

nat_cases : (n : ℕ) → (n ≡ 0) ⊎ (0 < n)
nat_cases zero = inl refl
nat_cases (suc n) = inr (omega arith)

module _ {ℓ κ} {A : Type ℓ} (P : A → Type κ) where
  All-take : (n : ℕ) (xs : List A) → All P xs → All P (take n xs)
  All-take zero xs h = tt
  All-take (suc n) [] h = tt
  All-take (suc n) (x ∷ xs) (p, h) = (p, All-take n xs h)

  All-drop : (n : ℕ) (xs : List A) → All P xs → All P (drop n xs)
  All-drop zero xs h = h
  All-drop (suc n) [] h = tt
  All-drop (suc n) (x ∷ xs) (p, h) = All-drop n xs h

  All-insert_by :
      (le : A → A → Bool) (x : A) (ys : List A) → P x → All P ys → All P (insert_by le x ys)
  unfolding insert_by
  All-insert_by le x [] p h = (p, tt)
  All-insert_by le x (y ∷ ys) p (q, h) = elim (Bool-cases (le x y)) [
    | inl e ↦ rw e (p, (q, h))
    | inr e ↦ rw e (q, All-insert_by le x ys p h)
  ]

  All-sort : (le : A → A → Bool) (xs : List A) → All P xs → All P (sort le xs)
  unfolding sort
  All-sort le [] h = tt
  All-sort le (x ∷ xs) (p, h) = All-insert_by le x (sort le xs) p (All-sort le xs h)

module _ {ℓ} {A : Type ℓ} where
  length-insert_by :
      (le : A → A → Bool) (x : A) (ys : List A) → length (insert_by le x ys) ≡ suc (length ys)
  unfolding insert_by
  length-insert_by le x [] = refl
  length-insert_by le x (y ∷ ys) = ground (arith, length-insert_by le x ys)

  length-sort : (le : A → A → Bool) (xs : List A) → length (sort le xs) ≡ length xs
  unfolding sort
  length-sort le [] = refl
  length-sort le (x ∷ xs) = length-insert_by le x (sort le xs) ∙ ap suc (length-sort le xs)

module _ {R : Type 0} (json : LabelsJson) (q : CostQuery) where
  -- The scan changes no more than the labels.
  scan_record_labels :
      (r s : CostRecord R) → scan_record json r ≡ ok s → s ≡ record r { labels = s.labels }
  unfolding scan_record
  scan_record_labels r s h = ground arith

  InScope-labels :
      (r : CostRecord R) (l : Option Labels) → InScope q r → InScope q (record r { labels = l })
  InScope-labels r l i = record {
    project = i.project;
    source = i.source;
    provider = i.provider;
    service = i.service;
    start = i.start;
    end = i.end;
  }

  scan_record-InScope : (r s : CostRecord R) → scan_record json r ≡ ok s → InScope q r → InScope q s
  scan_record-InScope r s h i =
      subst (InScope q) (sym (scan_record_labels r s h)) (InScope-labels r s.labels i)

  scan_records-InScope :
      (rs ss : List (CostRecord R))
      → scan_records json rs ≡ ok ss
      → All (InScope q) rs
      → All (InScope q) ss × (length ss ≡ length rs)
  unfolding scan_records
  scan_records-InScope [] ss h a =
      let e : [] ≡ ss = cc in (subst (All (InScope q)) e tt, rw (← e) refl)
  scan_records-InScope (r ∷ rs) ss h (i, a) = elim (Result-cases (scan_record json r)) [
    | inl (s, eq) ↦ elim (Result-cases (scan_records json rs)) [
      | inl (ss', eqs) ↦
          let e : (s ∷ ss') ≡ ss = ground arith in
          let (all, len) = scan_records-InScope rs ss' eqs a in
          (subst (All (InScope q)) e (scan_record-InScope r s eq i, all), rw (← e) (ap suc len))
      | inr (x, eqs) ↦ absurd (ground arith)
    ]
    | inr (x, eq) ↦ absurd (ground arith)
  ]

  matching-InScope : (rs : List (CostRecord R)) → All (InScope q) (matching q rs)
  unfolding matching
  matching-InScope rs =
      All-select (λ _. Unit {0}) (InScope q) _ (λ r h _. (where_holds-InScope q r).0 h) rs (all rs)
    where
      all : (rs : List (CostRecord R)) → All (λ _. Unit {0}) rs
      all [] = tt
      all (r ∷ rs) = (tt, all rs)

  window-InScope : (rs : List (CostRecord R)) → All (InScope q) rs → All (InScope q) (window q rs)
  unfolding window
  window-InScope rs a = elim (Bool-cases (ltb 0 q.limit)) [
    | inl e ↦ rw e (All-take (InScope q) q.limit _ (All-drop (InScope q) q.offset rs a))
    | inr e ↦ rw e (All-drop (InScope q) q.offset rs a)
  ]

  window-limit : (rs : List (CostRecord R)) → 0 < q.limit → length (window q rs) ≤ q.limit
  unfolding window
  window-limit rs h = ground (arith, length-take_le q.limit (drop q.offset rs))

  limited :
      (rs : List (CostRecord R)) (n : ℕ) → n ≡ length (window q rs) → (q.limit ≡ 0) ⊎ (n ≤ q.limit)
  limited rs n e = elim (nat_cases q.limit) [
    | inl none_given ↦ inl none_given
    | inr some_limit ↦ inr (rw e (window-limit rs some_limit))
  ]

  abbrev ordered : Db R → List (CostRecord R)
  ordered db = sort (λ r s. leb s.start_time r.start_time) (matching q db.cost_records)

  answered :
      (e : Env) (db : Db R) (ss : List (CostRecord R))
      → query_cost_records json e q db ≡ ok ss
      → scan_records json (window q (ordered db)) ≡ ok ss
  unfolding query_cost_records
  answered e db ss h = ground arith

  -- Every record that `QueryCostRecords` returns passes every filter of the query, and with a limit
  -- there are at most so many.
  pub query_cost_records-InScope :
      (e : Env) (db : Db R) (ss : List (CostRecord R))
      → query_cost_records json e q db ≡ ok ss
      → All (InScope q) ss × ((q.limit ≡ 0) ⊎ (length ss ≤ q.limit))
  query_cost_records-InScope e db ss h =
      let (all, len) = scan_records-InScope _ ss (answered e db ss h) (
        window-InScope (ordered db)
          (All-sort (InScope q) _ _ (matching-InScope db.cost_records))) in
      (all, limited (ordered db) (length ss) len)

  -- A query with an offset and no limit is an error with SQLite, whatever the tables.
  pub query_cost_records_refused :
      (e : Env) (db : Db R)
      → (e.driver ≡ "sqlite")
      → q.limit ≡ 0
      → 0 < q.offset
      → is_ok (query_cost_records json e q db) ≡ false
  unfolding query_cost_records
  query_cost_records_refused e db d l o =
      ground (arith, eq_iff e.driver "pgx", eq_iff "sqlite" "pgx")

counted :
    (F : Float64) (e : Env) (q : CostQuery) (db : Db F.Carrier) (summary : CostSummary F.Carrier)
    → aggregate_costs F e q db ≡ ok summary
    → summary.record_count ≡ length (matching q db.cost_records)
unfolding aggregate_costs
counted F e q db summary h = ground arith

window_all :
    {R : Type 0} (q : CostQuery) (rs : List (CostRecord R))
    → q.limit ≡ 0
    → q.offset ≡ 0
    → window q rs ≡ rs
unfolding window
window_all q rs l o = rw (o, l) refl

-- The record count of `AggregateCosts` is the number of records that `QueryCostRecords` returns for
-- the same query with no limit and no offset.
pub aggregate_costs-count :
    (F : Float64) (json : LabelsJson) (e e' : Env) (q : CostQuery) (db : Db F.Carrier)
    (summary : CostSummary F.Carrier) (ss : List (CostRecord F.Carrier))
    → q.limit ≡ 0
    → q.offset ≡ 0
    → aggregate_costs F e q db ≡ ok summary
    → query_cost_records json e' q db ≡ ok ss
    → summary.record_count ≡ length ss
aggregate_costs-count F json e e' q db summary ss l o h k =
    counted F e q db summary h
    ∙ sym (length-sort _ (matching q db.cost_records))
    ∙ ap length (sym (window_all q (ordered json q db) l o))
    ∙ sym
        (scan_records-InScope json q _ ss (answered json q e' db ss k) (
          window-InScope json q _
            (All-sort (InScope q) _ _ (matching-InScope json q db.cost_records)))).1
