-- ===== src/Cost/Events.antt =====
-- The events that are recorded of an answer rebuild its costs
-- (packages/brewva-runtime/src/services/cost.ts and packages/brewva-runtime/src/cost/fold.ts).
use pi_roaster.Base.{
  inl, inr, Option-cases, ℕ, ◌≡◌, refl, ◌∙◌, ap, String, ◌&&◌, Option, some, List, [], ◌++◌, map,
  if_cases, ltb, or_else,
}
use pi_roaster.Base.Text.{normalize_optional, normalize_optional_idem}
use pi_roaster.Base.Coerce.{IsTrimmed, ◌>>=◌}
use pi_roaster.Cost.{
  Usage, Alert, BudgetStatus, CostConfig, CostState, apply_usage, compute_budget_status, skill_of,
}
use pi_roaster.Cost.Updates.{
  RawUpdate, coerce_amounts, parse_budget, coerce_update, apply_cost_update, settle, threshold_due,
  raise_threshold, threshold_alert, cap_due, raise_cap, cap_alert, collect_alerts, record_usage,
}
use pi_roaster.Cost.Summary.{build_cost_summary}
use pi_roaster.Cost.Service.{
  Answer, usage_of, context_at, update_of, alert_payload, record_assistant_usage,
}
use pi_roaster.Cost.Replaying.{
  apply_alerts, unflagged, settle-IsReady, timeless, apply_alerts-timeless,
  collect_alerts-IsReplayed,
}

skill_of_idem : (skill : Option String) → skill_of (normalize_optional skill) ≡ skill_of skill
skill_of_idem skill = ap (λ o. or_else o "(none)") (normalize_optional_idem skill)

coerce_update-written :
    (usage : Usage) (skill : Option String) (budget : BudgetStatus)
    → IsTrimmed usage.model
    → coerce_update (update_of usage skill budget) ≡ some usage
unfolding coerce_update coerce_amounts
coerce_update-written usage skill budget trimmed = rw (trimmed, ◌>>=◌) refl

update-replays :
    (c : CostConfig) (usage : Usage) (turn : ℕ) (skill : Option String) (timestamp : ℕ)
    (s : CostState)
    → IsTrimmed usage.model
    → apply_cost_update
        (update_of usage skill
          (compute_budget_status c (apply_usage usage (context_at turn skill) s)))
        timestamp
        turn
        s
      ≡ settle c timestamp (apply_usage usage (context_at turn skill) s)
unfolding apply_cost_update parse_budget apply_usage compute_budget_status
update-replays c usage turn skill timestamp s trimmed =
    rw (coerce_update-written usage skill _ trimmed, apply_cost_update)
      (rw (skill_of_idem skill) refl)

threshold_alert-budget :
    (c : CostConfig) (timestamp : ℕ) (s : CostState)
    → compute_budget_status c (threshold_alert c timestamp s).0 ≡ compute_budget_status c s
unfolding threshold_alert compute_budget_status
threshold_alert-budget c timestamp s =
    if_cases
      (λ (q : CostState × List Alert). compute_budget_status c q.0 ≡ compute_budget_status c s)
      (threshold_due c s) {x = raise_threshold c timestamp s} {y = (s, [])} (λ _. refl) (λ _. refl)

cap_alert-budget :
    (c : CostConfig) (timestamp : ℕ) (s : CostState)
    → compute_budget_status c (cap_alert c timestamp s).0 ≡ compute_budget_status c s
unfolding cap_alert compute_budget_status
cap_alert-budget c timestamp s =
    if_cases
      (λ (q : CostState × List Alert). compute_budget_status c q.0 ≡ compute_budget_status c s)
      (cap_due c s) {x = raise_cap c timestamp s} {y = (s, [])} (λ _. refl) (λ _. refl)

collect_alerts-budget :
    (c : CostConfig) (timestamp : ℕ) (s : CostState)
    → compute_budget_status c (collect_alerts c timestamp s).0 ≡ compute_budget_status c s
unfolding collect_alerts
collect_alerts-budget c timestamp s =
    let first = threshold_alert c timestamp s in
    let second = cap_alert c timestamp first.0 in
    if_cases
      (λ (q : CostState × List Alert). compute_budget_status c q.0 ≡ compute_budget_status c s)
      (c.enabled && ltb 0 c.max_cost_per_session) {x = (second.0, first.1 ++ second.1)}
      {y = (s, [])}
      (λ _. cap_alert-budget c timestamp first.0 ∙ threshold_alert-budget c timestamp s) (λ _. refl)

-- The usage's event differs in no more than its time, whenever it is applied.
apply_cost_update-timeless :
    (r : RawUpdate) (t u turn : ℕ) (s : CostState)
    → timeless (apply_cost_update r t turn s) ≡ timeless (apply_cost_update r u turn s)
unfolding apply_cost_update
apply_cost_update-timeless r t u turn s = elim (Option-cases (coerce_update r)) [
  | inl missing ↦ rw (missing, apply_cost_update) refl
  | inr (usage, found) ↦ rw (found, apply_cost_update) refl
]

-- The costs that the tracker has after an answer are rebuilt by its events, where all of them carry
-- the time of the answer.
replayed_at_once :
    (c : CostConfig) (a : Answer) (turn : ℕ) (skill : Option String) (timestamp : ℕ) (s : CostState)
    → IsTrimmed a.model
    → unflagged (
        apply_alerts
          (record_assistant_usage c a turn skill timestamp s).3
          (λ _. timestamp)
          (apply_cost_update
            (record_assistant_usage c a turn skill timestamp s).2
            timestamp
            turn
            s))
      ≡ unflagged (record_assistant_usage c a turn skill timestamp s).0
unfolding record_assistant_usage record_usage usage_of build_cost_summary compute_budget_status
replayed_at_once c a turn skill timestamp s trimmed =
    let used = apply_usage (usage_of a) (context_at turn skill) s in
    let ready = settle c timestamp used in
    let payloads = map (alert_payload c.action_on_exceed) (collect_alerts c timestamp ready).1 in
    ap
      (λ b. unflagged (
        apply_alerts payloads (λ _. timestamp)
          (apply_cost_update (update_of (usage_of a) skill b) timestamp turn s)))
      (collect_alerts-budget c timestamp ready)
    ∙ ap (λ q. unflagged (apply_alerts payloads (λ _. timestamp) q))
        (update-replays c (usage_of a) turn skill timestamp s trimmed)
    ∙ collect_alerts-IsReplayed c timestamp ready (settle-IsReady c timestamp used)

-- Of an answer whose model's name has no space at its ends and is not empty, the events that are
-- recorded, the usage and then each alert, each applied at its own time to the costs before the
-- answer, make of them the costs that the tracker has after it, but for the two flags of the alerts,
-- the alerts' times and the time of the last change.
pub events-replay :
    (c : CostConfig) (a : Answer) (turn : ℕ) (skill : Option String) (timestamp : ℕ) (s : CostState)
    (updated : ℕ) (alerted : ℕ → ℕ)
    → IsTrimmed a.model
    → timeless (
        apply_alerts
          (record_assistant_usage c a turn skill timestamp s).3
          alerted
          (apply_cost_update (record_assistant_usage c a turn skill timestamp s).2 updated turn s))
      ≡ timeless (record_assistant_usage c a turn skill timestamp s).0
events-replay c a turn skill timestamp s updated alerted trimmed =
    let told = record_assistant_usage c a turn skill timestamp s in
    apply_alerts-timeless told.3 alerted (λ _. timestamp) _ _
      (apply_cost_update-timeless told.2 updated timestamp turn s)
    ∙ ap timeless (replayed_at_once c a turn skill timestamp s trimmed)
