-- ===== src/Tests/Collector.antt =====
-- Rounds of the scheduler with a collector that returns one record, and an insertion that fails.
use fin_guard.Prelude.{ℕ, some, [], ◌∷◌, ◌≡◌, ◌⊎◌, refl, true, false, ok, any, first}
use fin_guard.Store.Sources.{get_cost_source}
use fin_guard.Collector.Registry.{Collected, records}
use fin_guard.Collector.Scheduler.{
  Scheduler, Round, collect_source, collect_all, collect_by_types, kubernetes_types,
}
use fin_guard.Collector.Scheduler.Windows.{get_cost_source-collect_source}
use fin_guard.Collector.Scheduler.Complete.{is_complete, succeeds, collect_source_incomplete}
use fin_guard.Collector.Scheduler.Skips.{collect_all_skips}
use fin_guard.Models.{CostSource}
use fin_guard.Store.Db.{Db}
use fin_guard.Tests.Fixtures.{up, down, json, aws, spent, small}

abbrev collecting : Collected ℕ → Scheduler ℕ
collecting result = record {
  registry = record {
    collectors =
        ("aws_account", record { type = "aws_account"; collect = λ source window. result }) ∷ [];
  };
  has_hub = true;
  json = json;
  itoa = λ n. "n";
}

abbrev round : Round
round = record {
  starting = 100;
  ending = 101;
  stamp = 110;
  begin = up;
  prepare = up;
  inserting = λ n. up;
  commit = up;
  marking = up;
}

-- The insertion fails.
abbrev failing : Round
failing = record round { commit = down }

collect_source_incomplete_example :
    (is_complete (collect_source (collecting (records (spent ∷ []))) failing aws small).1
      ≡ succeeds (collecting (records (spent ∷ []))) failing aws small)
    × ((succeeds (collecting (records (spent ∷ []))) failing aws small ≡ true)
        ⊎ ((collect_source (collecting (records (spent ∷ []))) failing aws small).0 ≡ small))
collect_source_incomplete_example =
    collect_source_incomplete (collecting (records (spent ∷ []))) failing aws small refl

get_cost_source-collect_source_example :
    ((collect_source (collecting (records (spent ∷ []))) round aws small).0 ≡ small)
    ⊎ (get_cost_source up "s1"
          (collect_source (collecting (records (spent ∷ []))) round aws small).0
        ≡ ok (some (record aws { last_collected_at = some 110; updated_at = 7 })))
unfolding get_cost_source first
get_cost_source-collect_source_example =
    get_cost_source-collect_source (collecting (records (spent ∷ []))) round up aws aws small refl
      refl refl

-- A second source, which is not enabled.
abbrev idle : CostSource
idle = record aws { id = "s2"; name = "spare"; enabled = false }

abbrev two_sources : Db ℕ
two_sources = record small { cost_sources = aws ∷ idle ∷ [] }

collect_all_skips_example :
    (get_cost_source up "s2"
        (collect_all (collecting (records (spent ∷ []))) up (λ n. up) (λ n m. round) two_sources).0
      ≡ get_cost_source up "s2" two_sources)
    × (get_cost_source up "s1"
          (collect_by_types
            (collecting (records (spent ∷ [])))
            kubernetes_types
            up
            (λ n. up)
            (λ n m. round)
            two_sources).0
        ≡ get_cost_source up "s1" two_sources)
unfolding any
collect_all_skips_example =
    collect_all_skips (collecting (records (spent ∷ []))) kubernetes_types "s2" "s1" up up (λ n. up)
      (λ n m. round) two_sources (refl, (refl, tt)) (refl, (refl, tt))
