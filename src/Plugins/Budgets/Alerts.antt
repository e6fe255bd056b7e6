-- ===== src/Plugins/Budgets/Alerts.antt =====
-- What `checkBudgets` of plugins/budgets/plugin.go reports, and when its sends panic.
use fin_guard.Prelude.{
  ℕ, ◌≤◌, String, Option, none, some, List, [], ◌∷◌, ◌++◌, map, ◌≡◌, refl, sym, ap, subst,
  append-nil, ◌∙◌, Bool, true, false, Bool-cases, Option-cases, inl, inr, if◌then◌else◌, length,
  take, any, select, arith,
}
use fin_guard.Float64.{Float64}
use fin_guard.Plugins.{PluginEvent}
use fin_guard.Plugins.Channel.{
  Channel, try_send, close, offered, try_send_open, length-offered_le, take_short, take-offered,
}
use fin_guard.Plugins.Budgets.{
  Budget, BudgetStatus, Plugin, BudgetsJson, Windows, event_capacity, namespace_costs, spend_of,
  status_of, is_due, alert_of, alert, check_each, check_budgets, shutdown, with_status, checked,
}

module _ (F : Float64) (json : BudgetsJson F.Carrier) where
  open F use {Carrier, div, of_int}

  abbrev status_if :
      Carrier
      → Budget Carrier
      → Option Carrier
      → List (BudgetStatus Carrier)
      → List (BudgetStatus Carrier)
  status_if progress b none rest = rest
  status_if progress b (some spend) rest = status_of F progress b spend ∷ rest

  -- The statuses of the budgets whose namespace has a cost, in the order of the budgets.
  unfoldable pub statuses_of :
      List (String × Carrier) → Carrier → List (Budget Carrier) → List (BudgetStatus Carrier)
  statuses_of costs progress [] = []
  statuses_of costs progress (b ∷ bs) =
      status_if progress b (spend_of F costs b) (statuses_of costs progress bs)

  -- The events that tell of the statuses that are due.
  unfoldable pub alerts : List (BudgetStatus Carrier) → List PluginEvent
  alerts statuses = map (alert_of json) (select is_due statuses)

  abbrev pub progress_of : ℕ → ℕ → Carrier
  progress_of day days = div (of_int day) (of_int days)

  -- The statuses of a check.
  abbrev pub checked_statuses :
      ℕ → ℕ → Windows Carrier → Plugin Carrier → List (BudgetStatus Carrier)
  checked_statuses day days windows p =
      statuses_of (namespace_costs F windows []) (progress_of day days) p.budgets

  -- The channel with room for these events.
  abbrev filled : Channel PluginEvent → List PluginEvent → Channel PluginEvent
  filled ch events = record ch { buffer = take event_capacity (ch.buffer ++ events) }

  alert_due :
      (s : BudgetStatus Carrier) (ch : Channel PluginEvent)
      → is_due s ≡ true
      → ch.closed ≡ false
      → alert F json s ch
        ≡ some (record ch { buffer = offered event_capacity (alert_of json s) ch.buffer })
  unfolding alert
  alert_due s ch due o = rw due (try_send_open event_capacity (alert_of json s) ch o)

  alert_not_due :
      (s : BudgetStatus Carrier) (ch : Channel PluginEvent)
      → is_due s ≡ false
      → alert F json s ch ≡ some ch
  unfolding alert
  alert_not_due s ch not_due = rw not_due refl

  alerts_due :
      (s : BudgetStatus Carrier) (rest : List (BudgetStatus Carrier))
      → is_due s ≡ true
      → alerts (s ∷ rest) ≡ alert_of json s ∷ alerts rest
  unfolding alerts select
  alerts_due s rest due = rw due refl

  alerts_not_due :
      (s : BudgetStatus Carrier) (rest : List (BudgetStatus Carrier))
      → is_due s ≡ false
      → alerts (s ∷ rest) ≡ alerts rest
  unfolding alerts select
  alerts_not_due s rest not_due = rw not_due refl

  alerts-nil : alerts [] ≡ []
  unfolding alerts select
  alerts-nil = refl

  with_status_if :
      (s : BudgetStatus Carrier) (b : Bool) (rest : List (BudgetStatus Carrier))
      (ch : Channel PluginEvent)
      → with_status F json s (if b then none else some (rest, ch))
        ≡ (if b then none else some (s ∷ rest, ch))
  with_status_if s true rest ch = refl
  with_status_if s false rest ch = refl

  filled_none : (ch : Channel PluginEvent) → length ch.buffer ≤ event_capacity → ch ≡ filled ch []
  filled_none ch n =
      ap (λ buffer. record ch { buffer = buffer })
        (sym
          (ap (take event_capacity) (append-nil ch.buffer) ∙ take_short event_capacity ch.buffer n))

  filled_next :
      (x : PluginEvent) (ch : Channel PluginEvent) (events : List PluginEvent)
      → length ch.buffer ≤ event_capacity
      → filled (record ch { buffer = offered event_capacity x ch.buffer }) events
        ≡ filled ch (x ∷ events)
  filled_next x ch events n =
      ap (λ buffer. record ch { buffer = buffer })
        (take-offered event_capacity x ch.buffer events n)

  check_each_open :
      (costs : List (String × Carrier)) (progress : Carrier) (bs : List (Budget Carrier))
      (ch : Channel PluginEvent)
      → ch.closed ≡ false
      → length ch.buffer ≤ event_capacity
      → check_each F json costs progress bs ch
        ≡ some (statuses_of costs progress bs, filled ch (alerts (statuses_of costs progress bs)))
  unfolding check_each statuses_of
  check_each_open costs progress [] ch o n =
      ap (λ c. some ([], c)) (filled_none ch n ∙ ap (filled ch) (sym alerts-nil))
  check_each_open costs progress (b ∷ bs) ch o n = elim (Option-cases (spend_of F costs b)) [
    | inl none_spent ↦
        rw (none_spent, check_each, statuses_of) (check_each_open costs progress bs ch o n)
    | inr (spend, e) ↦
        let s = status_of F progress b spend in
        let rest = statuses_of costs progress bs in
        elim (Bool-cases (is_due s)) [
          | inl due ↦
              let ch' = record ch { buffer = offered event_capacity (alert_of json s) ch.buffer } in
              rw (e, check_each, statuses_of, alert_due s ch due o)
                (ap (with_status F json s) (
                    check_each_open costs progress bs ch' o
                      (length-offered_le event_capacity (alert_of json s) ch.buffer n))
                  ∙ ap (λ c. some (s ∷ rest, c))
                      (filled_next (alert_of json s) ch (alerts rest) n
                        ∙ ap (filled ch) (sym (alerts_due s rest due))))
          | inr not_due ↦
              rw (e, check_each, statuses_of, alert_not_due s ch not_due)
                (ap (with_status F json s) (check_each_open costs progress bs ch o n)
                  ∙ ap (λ c. some (s ∷ rest, filled ch c)) (sym (alerts_not_due s rest not_due)))
        ]
  ]

  alert_closed :
      (s : BudgetStatus Carrier) (ch : Channel PluginEvent)
      → is_due s ≡ true
      → ch.closed ≡ true
      → alert F json s ch ≡ none
  unfolding alert try_send
  alert_closed s ch due o = ground arith

  -- On a closed channel a check panics exactly where some budget is due; it sends nothing.
  check_each_closed :
      (costs : List (String × Carrier)) (progress : Carrier) (bs : List (Budget Carrier))
      (ch : Channel PluginEvent)
      → ch.closed ≡ true
      → check_each F json costs progress bs ch ≡ (
          if any is_due (statuses_of costs progress bs)
          then none
          else some (statuses_of costs progress bs, ch))
  unfolding check_each statuses_of any
  check_each_closed costs progress [] ch o = refl
  check_each_closed costs progress (b ∷ bs) ch o = elim (Option-cases (spend_of F costs b)) [
    | inl none_spent ↦
        rw (none_spent, check_each, statuses_of) (check_each_closed costs progress bs ch o)
    | inr (spend, e) ↦
        let s = status_of F progress b spend in
        elim (Bool-cases (is_due s)) [
          | inl due ↦ rw (e, check_each, statuses_of, any, alert_closed s ch due o, due) refl
          | inr not_due ↦
              rw (e, check_each, statuses_of, any, alert_not_due s ch not_due, not_due)
                (ap (with_status F json s) (check_each_closed costs progress bs ch o)
                  ∙ with_status_if s (any is_due (statuses_of costs progress bs))
                      (statuses_of costs progress bs) ch)
        ]
  ]

  -- A check on an open channel with at most 100 events does not panic. Afterwards the statuses are those
  -- of the budgets whose namespace has a cost, in the order of the budgets, and the channel holds what
  -- was there, then an event for each of them that is a warning or exceeded, in order, up to 100 in
  -- all: those beyond are dropped. Nothing else changes.
  pub check_budgets_open :
      (day days : ℕ) (data_sets : Windows Carrier) (p : Plugin Carrier)
      → p.events.closed ≡ false
      → length p.events.buffer ≤ event_capacity
      → check_budgets F json day days (some data_sets) p
        ≡ some (record p {
          events = filled p.events (alerts (checked_statuses day days data_sets p));
          statuses = checked_statuses day days data_sets p;
        })
  unfolding check_budgets
  check_budgets_open day days data_sets p o n = ap (checked F json p) (
      check_each_open (namespace_costs F data_sets []) (progress_of day days) p.budgets p.events o
        n)

  abbrev shut : Plugin Carrier → Plugin Carrier
  shut p = record p { events = record p.events { closed = true } }

  shutdown-closes : (p q : Plugin Carrier) → shutdown F json p ≡ some q → q ≡ shut p
  unfolding shutdown close
  shutdown-closes p q h = ground arith

  checked_if :
      (p : Plugin Carrier) (b : Bool) (statuses : List (BudgetStatus Carrier))
      → checked F json p (if b then none else some (statuses, p.events))
        ≡ (if b then none else some (record p { statuses = statuses }))
  checked_if p true statuses = refl
  checked_if p false statuses = refl

  -- A check after `Shutdown` panics exactly where the status of some budget comes to be a warning or
  -- exceeded; where none does, it only replaces the statuses.
  pub check_budgets_shutdown :
      (day days : ℕ) (data_sets : Windows Carrier) (p q : Plugin Carrier)
      → shutdown F json p ≡ some q
      → check_budgets F json day days (some data_sets) q ≡ (
          if any is_due (checked_statuses day days data_sets p)
          then none
          else some (record q { statuses = checked_statuses day days data_sets p }))
  unfolding check_budgets
  check_budgets_shutdown day days data_sets p q h =
      let closed = shutdown-closes p q h in
      subst
        (λ x. check_budgets F json day days (some data_sets) x ≡ (
          if any is_due (checked_statuses day days data_sets p)
          then none
          else some (record x { statuses = checked_statuses day days data_sets p })))
        (sym closed)
        (ap (checked F json (shut p)) (
            check_each_closed (namespace_costs F data_sets []) (progress_of day days) p.budgets
              (record p.events { closed = true }) refl)
          ∙ checked_if (shut p) (any is_due (checked_statuses day days data_sets p))
              (checked_statuses day days data_sets p))
