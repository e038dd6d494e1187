-- ===== src/Cost/Summary.antt =====
-- packages/brewva-runtime/src/cost/fold.ts: the summary of a session's costs, its restoring, and
-- what is asked of a state.
use pi_roaster.Base.{
  ℕ, ltb, nat_eq, string_eq, String, Bool, true, false, ◌&&◌, Option, none, some, List, [], ◌∷◌,
  ◌||◌, if◌then◌else◌, or_else,
}
use pi_roaster.Base.Dict
use pi_roaster.Base.Dict.{Dict, map_values}
use pi_roaster.Cost.Updates.{is_cap}
use pi_roaster.Cost.{
  Totals, Alert, AlertKind, session_threshold, session_cap, SkillCost, fixed, ToolCost,
  BudgetStatus, CostConfig, CostState, empty_cost_state, compute_budget_status, skill_of,
  fresh_skill,
}

pub record SkillSummary : Type 0 where
  pub totals : Totals
  pub usage_count : ℕ
  pub turns : ℕ

-- `SessionCostSummary`.
pub record CostSummary : Type 0 where
  pub totals : Totals
  pub models : Dict Totals
  pub skills : Dict SkillSummary
  pub tools : Dict ToolCost
  pub alerts : List Alert
  pub budget : BudgetStatus

abbrev pub skill_summary : SkillCost → SkillSummary
skill_summary k = record { totals = k.totals; usage_count = k.usage_count; turns = k.turn_count }

abbrev pub rounded_tool : ToolCost → ToolCost
rounded_tool t = record t {
  allocated_tokens = fixed 3 t.allocated_tokens;
  allocated_cost = fixed 6 t.allocated_cost;
}

abbrev shown_alerts : Option CostConfig → List Alert → List Alert
shown_alerts none alerts = alerts
shown_alerts (some c) alerts = if c.enabled then alerts else []

abbrev shown_budget : Option CostConfig → CostState → BudgetStatus
shown_budget none s = s.budget
shown_budget (some c) s = compute_budget_status c s

-- `buildCostSummary`.
unfoldable pub build_cost_summary : Option CostConfig → CostState → CostSummary
build_cost_summary c s = record {
  totals = s.totals;
  models = s.models;
  skills = map_values skill_summary s.skills;
  tools = map_values rounded_tool s.tools;
  alerts = shown_alerts c s.alerts;
  budget = shown_budget c s;
}

-- A turn that is not above 0 is no last turn.
abbrev pub last_turn : Option ℕ → Option ℕ
last_turn none = none
last_turn (some turn) = if ltb 0 turn then some turn else none

unfoldable pub restore_skill : Option ℕ → SkillSummary → SkillCost
restore_skill turn k = record {
  totals = k.totals;
  usage_count = k.usage_count;
  turn_count = k.turns;
  last_turn_seen = last_turn turn;
}

unfoldable pub restore_skills : Dict ℕ → Dict SkillSummary → Dict SkillCost
unfolding restore_skill
restore_skills turns [] = []
restore_skills turns ((name, k) ∷ rest) =
    (name, restore_skill (Dict.get name turns) k) ∷ restore_skills turns rest

abbrev pub is_threshold : AlertKind → Bool
is_threshold session_cap = false
is_threshold session_threshold = true

-- `summary.alerts.some`, of one kind.
unfoldable pub has_alert : (AlertKind → Bool) → List Alert → Bool
has_alert p [] = false
has_alert p (a ∷ rest) = p a.kind || has_alert p rest

-- `restoreCostFoldStateFromSummary`; the turns' tool calls and `updatedAt` begin anew.
unfoldable pub restore_cost_state : CostSummary → Dict ℕ → Option Bool → Option Bool → CostState
unfolding restore_skills has_alert
restore_cost_state summary turns threshold_alerted cap_alerted =
    record (empty_cost_state summary.budget.action) {
      totals = summary.totals;
      models = summary.models;
      skills = restore_skills turns summary.skills;
      tools = summary.tools;
      alerts = summary.alerts;
      budget = summary.budget;
      skill_last_turn = turns;
      session_threshold_alerted = or_else threshold_alerted (has_alert is_threshold summary.alerts);
      session_cap_alerted = or_else cap_alerted (has_alert is_cap summary.alerts);
    }

-- `getCostSkillTotalTokens`.
unfoldable pub skill_total_tokens : CostState → String → ℕ
skill_total_tokens s skill =
    let k = or_else (Dict.get (skill_of (some skill)) s.skills) fresh_skill in k.totals.total_tokens

-- `getCostBudgetStatus`; `exceeded_text` is the reason for a cap, which `toFixed` prints.
pub record BudgetReport : Type 0 where
  pub status : BudgetStatus
  pub reason : Option String

unfoldable pub get_budget_status : (ℕ → String) → CostConfig → CostState → BudgetReport
unfolding compute_budget_status
get_budget_status exceeded_text c s =
    let status = compute_budget_status c s in
    record {
      status = status;
      reason =
          if status.blocked && ltb 0 c.max_cost_per_session
          then some (exceeded_text c.max_cost_per_session)
          else none;
    }
