-- ===== src/Plugins/CostBreakdown/Recommendations.antt =====
-- What `detectIdle` of plugins/costbreakdown/plugin.go recommends.
use fin_guard.Prelude.{
  ℕ, ◌+◌, String, some, List, [], ◌∷◌, ◌++◌, ◌≡◌, refl, Bool, false, ◌&&◌, Bool-cases, inl, inr,
  if◌then◌else◌, length, nat_eq, arith,
}
use fin_guard.Float64.{Float64}
use fin_guard.Plugins.{PluginEvent}
use fin_guard.Plugins.Channel.{offered, try_send_open}
use fin_guard.Plugins.CostBreakdown.{
  Recommendation, Plugin, Allocation, MarshalRecommendations, event_capacity, allocations_of,
  number_at, text_at, recommended, recommended_for, recommendations_of, idle_event, announced,
  detect_idle,
}

-- How many items pass the test.
unfoldable pub count : {A : Type 0} → (A → Bool) → List A → ℕ
count t [] = 0
count t (x ∷ xs) = (if t x then 1 else 0) + count t xs

count-append :
    {A : Type 0} (t : A → Bool) (xs ys : List A) → count t (xs ++ ys) ≡ count t xs + count t ys
unfolding count
count-append t [] ys = omega arith
count-append t (x ∷ xs) ys = omega (arith, count-append t xs ys)

module _ (F : Float64) where
  open F use {Carrier, zero, one, sub, mul, div, lt, of_int}

  -- Something is requested and something of it used, but less than a fifth.
  abbrev pub is_wasted : Carrier → Carrier → Bool
  is_wasted asked used = lt zero asked && (lt zero used && lt (div used asked) (div one (of_int 5)))

  -- What to tell of a resource that takes this share of the cost: the unused part of it, which weighs
  -- more above 10 and most above 50.
  abbrev pub advice :
      String → Carrier → Allocation Carrier → Carrier → Carrier → Recommendation Carrier
  advice resource share a asked used =
      let saved = mul (mul (number_at F "totalCost" a) (sub one (div used asked))) share in
      record {
        namespace = text_at F "name" a;
        pod = "";
        container = "";
        resource_type = resource;
        requested = asked;
        used = used;
        savings = saved;
        severity =
            if lt (of_int 50) saved
            then "high"
            else if lt (of_int 10) saved
            then "medium"
            else "low";
      }

  -- A resource of the allocation is wasted, and what to tell of it passes the test.
  abbrev pub tells :
      (Recommendation Carrier → Bool)
      → String
      → Carrier
      → String
      → String
      → Allocation Carrier
      → Bool
  tells t resource share asked used a =
      is_wasted (number_at F asked a) (number_at F used a)
      && t (advice resource share a (number_at F asked a) (number_at F used a))

  -- How many recommendations that pass the test the allocations call for. Four fifths of a cost are those
  -- of the processor, and one those of the memory.
  unfoldable pub called_for : (Recommendation Carrier → Bool) → List (Allocation Carrier) → ℕ
  called_for t [] = 0
  called_for t (a ∷ rest) =
      (if tells t "cpu" (div (of_int 4) (of_int 5)) "cpuCoreRequestAverage" "cpuCoreUsageAverage" a
        then 1
        else 0)
      + (if tells t "memory" (div one (of_int 5)) "ramByteRequestAverage" "ramByteUsageAverage" a
          then 1
          else 0)
      + called_for t rest

  count-recommended :
      (t : Recommendation Carrier → Bool) (resource : String) (share : Carrier)
      (a : Allocation Carrier) (asked used : Carrier)
      → count t (recommended F resource share a asked used)
        ≡ (if is_wasted asked used && t (advice resource share a asked used) then 1 else 0)
  unfolding recommended count
  count-recommended t resource share a asked used = elim (Bool-cases (is_wasted asked used)) [
    | inl e ↦ rw e (ground arith)
    | inr e ↦ rw e (ground arith)
  ]

  count-recommendations_of :
      (t : Recommendation Carrier → Bool) (allocs : List (Allocation Carrier))
      → count t (recommendations_of F allocs) ≡ called_for t allocs
  unfolding recommendations_of recommended_for count called_for
  count-recommendations_of t [] = refl
  count-recommendations_of t (a ∷ rest) =
      rw
        (
          count-append t (recommended_for F a) (recommendations_of F rest),
          count-append t (recommended F "cpu" _ a _ _) (recommended F "memory" _ a _ _),
          count-recommended t "cpu" _ a _ _,
          count-recommended t "memory" _ a _ _,
          count-recommendations_of t rest,
        )
        refl

module _ (F : Float64) (marshal : MarshalRecommendations F.Carrier) where
  open F use {Carrier}

  -- The event of these recommendations, where there are any.
  abbrev pub told : List (Recommendation Carrier) → List PluginEvent → List PluginEvent
  told recs buffer =
      if nat_eq (length recs) 0
      then buffer
      else offered event_capacity (idle_event (marshal (length recs) recs)) buffer

  announced_open :
      (p : Plugin Carrier) (recs : List (Recommendation Carrier))
      → p.events.closed ≡ false
      → announced F marshal p recs
        ≡ some (record p { events = record p.events { buffer = told recs p.events.buffer } })
  announced_open p [] o = refl
  announced_open p (r ∷ rs) o =
      let x = idle_event (marshal (length (r ∷ rs)) (r ∷ rs)) in
      rw (try_send_open event_capacity x p.events o) (ground arith)

  -- A detection on an open channel does not panic. Whatever test there is of recommendations, as many that
  -- pass it are left as the allocations of the answer call for: one for the processor and one for the
  -- memory of an allocation, where something is requested and something used, but less than a fifth of
  -- the request, with the namespace, the savings and the severity of these. If any are left, one event of
  -- them is put behind those of the channel, where there is room for it.
  pub detect_idle_tells :
      (windows : List (List (String × Allocation Carrier))) (p : Plugin Carrier)
      (t : Recommendation Carrier → Bool)
      → p.events.closed ≡ false
      → (q : Plugin Carrier) × (detect_idle F marshal (some windows) p ≡ some q)
        × (count t q.recommendations ≡ called_for F t (allocations_of windows))
        × (q.events.buffer ≡ told q.recommendations p.events.buffer)
  unfolding detect_idle
  detect_idle_tells windows p t o =
      let recs = recommendations_of F (allocations_of windows) in
      let start : Plugin Carrier = record p { recommendations = recs } in
      (
        record start { events = record p.events { buffer = told recs p.events.buffer } },
        announced_open start recs o,
        count-recommendations_of F t (allocations_of windows),
        refl,
      )
