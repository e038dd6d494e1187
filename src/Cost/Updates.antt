-- ===== src/Cost/Updates.antt =====
-- packages/brewva-runtime/src/cost/fold.ts: tool calls, alerts, and the payloads of events.
use pi_roaster.Base.{
  ℕ, suc, ◌-◌, max, String, Bool, true, false, not, ◌&&◌, Option, none, some, List, [], ◌∷◌, ◌++◌,
  leb, ltb, nat_eq, string_eq, if◌then◌else◌, or_else, keep, length,
}
use pi_roaster.Base.Dict
use pi_roaster.Base.Dict.{Dict, map_values}
use pi_roaster.Base.Numeric.{JsNumber, whole}
use pi_roaster.Base.Text.{normalize_optional}
use pi_roaster.Base.Coerce.{◌>>=◌}
use pi_roaster.Cost.{
  Totals, Usage, CostContext, AlertKind, session_threshold, session_cap, Alert, ExceedAction, warn,
  BudgetStatus, CostConfig, CostState, empty_budget, blocks, normalize_cost_turn,
  compute_budget_status, calls_at, set_calls, fresh_tool, apply_usage,
}

abbrev mark_call : String → ℕ → List (ℕ × Dict ℕ) → List (ℕ × Dict ℕ)
mark_call tool turn calls =
    let here = or_else (calls_at turn calls) [] in
    set_calls turn (Dict.set tool (suc (or_else (Dict.get tool here) 0)) here) calls

-- Of more than 64 turns, those that are older than the last four are forgotten.
unfoldable pub forget_turns : ℕ → List (ℕ × Dict ℕ) → List (ℕ × Dict ℕ)
forget_turns turn calls =
    if ltb 64 (length calls) then keep (λ (t, c). leb (turn - 4) t) calls else calls

-- `recordCostToolCall`.
unfoldable pub record_tool_call : String → JsNumber → Bool → CostState → CostState
unfolding forget_turns calls_at set_calls normalize_cost_turn
record_tool_call raw_name turn counting s =
    let tool = or_else (normalize_optional (some raw_name)) "unknown_tool" in
    let old = or_else (Dict.get tool s.tools) fresh_tool in
    record s {
      tools =
          if counting
          then Dict.set tool (record old { call_count = suc old.call_count }) s.tools
          else s.tools;
      turn_tool_calls =
          forget_turns (normalize_cost_turn turn)
            (mark_call tool (normalize_cost_turn turn) s.turn_tool_calls);
    }

abbrev pub alert_of : AlertKind → ℕ → ℕ → ℕ → Alert
alert_of kind timestamp cost threshold = record {
  timestamp = timestamp;
  kind = kind;
  cost = cost;
  threshold = threshold;
}

abbrev pub threshold_due : CostConfig → CostState → Bool
threshold_due c s =
    not s.session_threshold_alerted
    && ltb 0 c.alert_threshold
    && leb c.alert_threshold s.totals.total_cost

abbrev pub raise_threshold : CostConfig → ℕ → CostState → CostState × List Alert
raise_threshold c timestamp s =
    let alert = alert_of session_threshold timestamp s.totals.total_cost c.alert_threshold in
    (record s { alerts = s.alerts ++ alert ∷ []; session_threshold_alerted = true }, alert ∷ [])

unfoldable pub threshold_alert : CostConfig → ℕ → CostState → CostState × List Alert
threshold_alert c timestamp s = if threshold_due c s then raise_threshold c timestamp s else (s, [])

abbrev pub cap_due : CostConfig → CostState → Bool
cap_due c s = not s.session_cap_alerted && leb c.max_cost_per_session s.totals.total_cost

abbrev pub raise_cap : CostConfig → ℕ → CostState → CostState × List Alert
raise_cap c timestamp s =
    let alert = alert_of session_cap timestamp s.totals.total_cost c.max_cost_per_session in
    (record s { alerts = s.alerts ++ alert ∷ []; session_cap_alerted = true }, alert ∷ [])

unfoldable pub cap_alert : CostConfig → ℕ → CostState → CostState × List Alert
cap_alert c timestamp s = if cap_due c s then raise_cap c timestamp s else (s, [])

-- `collectAlerts`.
unfoldable pub collect_alerts : CostConfig → ℕ → CostState → CostState × List Alert
unfolding threshold_alert cap_alert
collect_alerts c timestamp s =
    if c.enabled && ltb 0 c.max_cost_per_session
    then (let (s', first) = threshold_alert c timestamp s in
        let (s'', second) = cap_alert c timestamp s' in (s'', first ++ second))
    else (s, [])

abbrev pub later_of : Option ℕ → ℕ → Option ℕ
later_of at timestamp = some (max (or_else at 0) timestamp)

-- The budget and the time after a usage.
abbrev pub settle : CostConfig → ℕ → CostState → CostState
settle c timestamp s = record s {
  budget = compute_budget_status c s;
  updated_at = later_of s.updated_at timestamp;
}

-- `recordCostUsage`.
unfoldable pub record_usage :
    CostConfig → Usage → CostContext → ℕ → CostState → CostState × List Alert
unfolding collect_alerts
record_usage c usage context timestamp s =
    collect_alerts c timestamp (settle c timestamp (apply_usage usage context s))

-- The fields of a `cost_update` event; a number that is absent or not finite is `none`, and a
-- negative one counts as 0.
pub record RawAmounts : Type 0 where
  pub input_tokens : Option ℕ
  pub output_tokens : Option ℕ
  pub cache_read_tokens : Option ℕ
  pub cache_write_tokens : Option ℕ
  pub total_tokens : Option ℕ
  pub total_cost : Option ℕ

pub record RawBudget : Type 0 where
  pub action : Option ExceedAction
  pub session_exceeded : Bool
  pub blocked : Bool

pub record RawUpdate : Type 0 where
  pub model : Option String
  pub amounts : RawAmounts
  pub skill : Option String
  pub budget : Option RawBudget

unfoldable pub coerce_amounts : RawAmounts → Option Totals
coerce_amounts r = do
  input_tokens ← r.input_tokens
  output_tokens ← r.output_tokens
  cache_read_tokens ← r.cache_read_tokens
  cache_write_tokens ← r.cache_write_tokens
  total_tokens ← r.total_tokens
  total_cost ← r.total_cost
  some (record {
    input_tokens = input_tokens;
    output_tokens = output_tokens;
    cache_read_tokens = cache_read_tokens;
    cache_write_tokens = cache_write_tokens;
    total_tokens = total_tokens;
    total_cost = total_cost;
  })

-- `parseBudget`.
unfoldable pub parse_budget : Option RawBudget → BudgetStatus → BudgetStatus
parse_budget none fallback = fallback
parse_budget (some r) fallback = record {
  action = or_else r.action fallback.action;
  session_exceeded = r.session_exceeded;
  blocked = r.blocked;
}

abbrev update_budget : Option RawBudget → BudgetStatus → BudgetStatus
update_budget none old = old
update_budget (some r) old = parse_budget (some r) (empty_budget warn)

-- `coerceCostUpdatePayload`.
unfoldable pub coerce_update : RawUpdate → Option Usage
unfolding coerce_amounts
coerce_update r = do
  model ← normalize_optional r.model
  amounts ← coerce_amounts r.amounts
  some (record { model = model; amounts = amounts })

-- `applyCostUpdatePayload`.
unfoldable pub apply_cost_update : RawUpdate → ℕ → ℕ → CostState → CostState
unfolding coerce_update parse_budget
apply_cost_update r timestamp turn s = elim (coerce_update r) [
  | none ↦ s
  | some usage ↦
      let s' =
        apply_usage usage (record { turn = whole turn false; skill = normalize_optional r.skill })
          s in
      record s' {
        budget = update_budget r.budget s'.budget;
        updated_at = later_of s'.updated_at timestamp;
      }
]

-- The fields of a `budget_alert` event; `is_session` says that its scope is the session.
pub record RawAlert : Type 0 where
  pub kind : Option AlertKind
  pub is_session : Bool
  pub cost : Option ℕ
  pub threshold : Option ℕ
  pub budget : Option RawBudget
  pub action : Option ExceedAction

abbrev pub is_cap : AlertKind → Bool
is_cap session_cap = true
is_cap session_threshold = false

unfoldable pub budget_after : RawAlert → AlertKind → BudgetStatus → BudgetStatus
budget_after r kind old =
    let next = parse_budget r.budget old in
    let action = or_else r.action next.action in
    record {
      action = action;
      session_exceeded = if is_cap kind then true else next.session_exceeded;
      blocked = blocks action && (if is_cap kind then true else next.session_exceeded);
    }

unfoldable pub read_alert : RawAlert → ℕ → Option Alert
read_alert r timestamp =
    if r.is_session
    then (do
      kind ← r.kind
      cost ← r.cost
      threshold ← r.threshold
      some (alert_of kind timestamp cost threshold))
    else none

-- `applyBudgetAlertPayload`.
unfoldable pub apply_budget_alert : RawAlert → ℕ → CostState → CostState
unfolding read_alert budget_after
apply_budget_alert r timestamp s = elim (read_alert r timestamp) [
  | none ↦ s
  | some alert ↦ record s {
    alerts = s.alerts ++ alert ∷ [];
    budget = budget_after r alert.kind s.budget;
    updated_at = later_of s.updated_at timestamp;
  }
]
