-- ===== src/Cost.antt =====
-- packages/brewva-runtime/src/cost/fold.ts: the costs of a session. Costs are whole parts of one
-- unit, so the rounding of their sums as doubles is left out, and a share of a cost is kept as the expression by which the source computes it.
pub mod Updates
pub mod Summary
pub mod Tracker
pub mod Service
pub mod Replaying
pub mod Events
pub mod Balance
pub mod Alerts
mod Tests
use pi_roaster.Base.{
  ℕ, suc, ◌+◌, ◌-◌, ◌≤◌, max, String, Bool, true, false, not, ◌&&◌, ◌||◌, Option, none, some, List,
  [], ◌∷◌, ◌++◌, map, leb, ltb, ◌==◌, nat_eq, string_eq, option_beq, if◌then◌else◌, or_else, keep,
  length,
}
use pi_roaster.Base.Dict
use pi_roaster.Base.Dict.{Dict}
use pi_roaster.Base.Numeric.{JsNumber, nan, infinite, negative, whole}
use pi_roaster.Base.Text.{trim, normalize_optional}

-- `SessionCostTotals`.
pub record Totals : Type 0 where
  pub input_tokens : ℕ
  pub output_tokens : ℕ
  pub cache_read_tokens : ℕ
  pub cache_write_tokens : ℕ
  pub total_tokens : ℕ
  pub total_cost : ℕ

-- `CostUsageInput`: a model, and what is added to the totals.
pub record Usage : Type 0 where
  pub model : String
  pub amounts : Totals

pub record CostContext : Type 0 where
  pub turn : JsNumber
  pub skill : Option String

pub data AlertKind : Type 0 where
  session_threshold session_cap : AlertKind

pub record Alert : Type 0 where
  pub timestamp : ℕ
  pub kind : AlertKind
  pub cost : ℕ
  pub threshold : ℕ

-- `lastTurnSeen` is -1 for none.
pub record SkillCost : Type 0 where
  pub totals : Totals
  pub usage_count : ℕ
  pub turn_count : ℕ
  pub last_turn_seen : Option ℕ

-- A sum of shares `amount * (weight / total)`, and its rounding by `toFixed`.
pub data Allocated : Type 0 where
  nothing : Allocated
  plus_share : Allocated → ℕ → ℕ → ℕ → Allocated
  fixed : ℕ → Allocated → Allocated

pub record ToolCost : Type 0 where
  pub call_count : ℕ
  pub allocated_tokens : Allocated
  pub allocated_cost : Allocated

pub data ExceedAction : Type 0 where
  warn block_tools : ExceedAction

pub record BudgetStatus : Type 0 where
  pub action : ExceedAction
  pub session_exceeded : Bool
  pub blocked : Bool

-- `BrewvaConfig["infrastructure"]["costTracking"]`; `alert_threshold` is the product
-- `maxCostUsdPerSession * alertThresholdRatio`.
pub record CostConfig : Type 0 where
  pub enabled : Bool
  pub action_on_exceed : ExceedAction
  pub max_cost_per_session : ℕ
  pub alert_threshold : ℕ

-- `CostFoldState`.
pub record CostState : Type 0 where
  pub totals : Totals
  pub models : Dict Totals
  pub skills : Dict SkillCost
  pub tools : Dict ToolCost
  pub turn_tool_calls : List (ℕ × Dict ℕ)
  pub alerts : List Alert
  pub session_threshold_alerted : Bool
  pub session_cap_alerted : Bool
  pub skill_last_turn : Dict ℕ
  pub updated_at : Option ℕ
  pub budget : BudgetStatus

abbrev pub empty_totals : Totals
empty_totals = record {
  input_tokens = 0;
  output_tokens = 0;
  cache_read_tokens = 0;
  cache_write_tokens = 0;
  total_tokens = 0;
  total_cost = 0;
}

unfoldable pub add_totals : Totals → Totals → Totals
add_totals target amounts = record {
  input_tokens = target.input_tokens + amounts.input_tokens;
  output_tokens = target.output_tokens + amounts.output_tokens;
  cache_read_tokens = target.cache_read_tokens + amounts.cache_read_tokens;
  cache_write_tokens = target.cache_write_tokens + amounts.cache_write_tokens;
  total_tokens = target.total_tokens + amounts.total_tokens;
  total_cost = target.total_cost + amounts.total_cost;
}

unfoldable pub normalize_cost_turn : JsNumber → ℕ
normalize_cost_turn nan = 0
normalize_cost_turn infinite = 0
normalize_cost_turn (negative n f) = 0
normalize_cost_turn (whole n f) = n

abbrev pub empty_budget : ExceedAction → BudgetStatus
empty_budget action = record { action = action; session_exceeded = false; blocked = false }

-- `createEmptyCostFoldState`.
abbrev pub empty_cost_state : ExceedAction → CostState
empty_cost_state action = record {
  totals = empty_totals;
  models = [];
  skills = [];
  tools = [];
  turn_tool_calls = [];
  alerts = [];
  session_threshold_alerted = false;
  session_cap_alerted = false;
  skill_last_turn = [];
  updated_at = none;
  budget = empty_budget action;
}

abbrev pub blocks : ExceedAction → Bool
blocks block_tools = true
blocks warn = false

unfoldable pub is_exceeded : CostConfig → ℕ → Bool
is_exceeded c cost = c.enabled && ltb 0 c.max_cost_per_session && leb c.max_cost_per_session cost

-- `computeBudgetStatus`.
unfoldable pub compute_budget_status : CostConfig → CostState → BudgetStatus
unfolding is_exceeded
compute_budget_status c s = record {
  action = c.action_on_exceed;
  session_exceeded = is_exceeded c s.totals.total_cost;
  blocked = blocks c.action_on_exceed && is_exceeded c s.totals.total_cost;
}

-- `turnToolCalls` is a `Map` whose keys are turns.
unfoldable pub calls_at : ℕ → List (ℕ × Dict ℕ) → Option (Dict ℕ)
calls_at turn [] = none
calls_at turn ((t, calls) ∷ rest) = if t == turn then some calls else calls_at turn rest

unfoldable pub set_calls : ℕ → Dict ℕ → List (ℕ × Dict ℕ) → List (ℕ × Dict ℕ)
set_calls turn calls [] = (turn, calls) ∷ []
set_calls turn calls ((t, old) ∷ rest) =
    if t == turn then (t, calls) ∷ rest else (t, old) ∷ set_calls turn calls rest

abbrev pub fresh_tool : ToolCost
fresh_tool = record { call_count = 0; allocated_tokens = nothing; allocated_cost = nothing }

-- The tools of a turn, or the model itself where none was called.
abbrev pub weighted_tools : Option (Dict ℕ) → Dict ℕ
weighted_tools (some (c ∷ calls)) = c ∷ calls
weighted_tools _ = ("llm", 1) ∷ []

unfoldable pub total_weight : Dict ℕ → ℕ
total_weight [] = 0
total_weight ((tool, weight) ∷ rest) = weight + total_weight rest

unfoldable pub allocate_shares : Totals → ℕ → Dict ℕ → Dict ToolCost → Dict ToolCost
allocate_shares amounts total [] tools = tools
allocate_shares amounts total ((tool, weight) ∷ rest) tools =
    let old = or_else (Dict.get tool tools) fresh_tool in
    allocate_shares amounts total rest (
      Dict.set tool
        (record old {
          allocated_tokens = plus_share old.allocated_tokens amounts.total_tokens weight total;
          allocated_cost = plus_share old.allocated_cost amounts.total_cost weight total;
        })
        tools)

-- `allocateUsageToTools`.
unfoldable pub allocate_usage : ℕ → Totals → CostState → Dict ToolCost
unfolding calls_at total_weight allocate_shares
allocate_usage turn amounts s =
    let tools = weighted_tools (calls_at turn s.turn_tool_calls) in
    if leb (total_weight tools) 0
    then s.tools
    else allocate_shares amounts (total_weight tools) tools s.tools

abbrev pub fresh_skill : SkillCost
fresh_skill = record {
  totals = empty_totals;
  usage_count = 0;
  turn_count = 0;
  last_turn_seen = none;
}

abbrev pub skill_of : Option String → String
skill_of skill = or_else (normalize_optional skill) "(none)"

-- A turn after the first is counted when it is not the last that was seen.
abbrev is_new_turn : ℕ → SkillCost → Bool
is_new_turn turn k = ltb 0 turn && not (option_beq (some turn) k.last_turn_seen)

unfoldable pub use_skill : ℕ → Totals → SkillCost → SkillCost
use_skill turn amounts k = record {
  totals = add_totals k.totals amounts;
  usage_count = suc k.usage_count;
  turn_count = if is_new_turn turn k then suc k.turn_count else k.turn_count;
  last_turn_seen = if is_new_turn turn k then some turn else k.last_turn_seen;
}

-- `applyUsage`.
unfoldable pub apply_usage : Usage → CostContext → CostState → CostState
unfolding normalize_cost_turn allocate_usage use_skill
apply_usage usage context s =
    let turn = normalize_cost_turn context.turn in
    let skill = skill_of context.skill in
    record s {
      totals = add_totals s.totals usage.amounts;
      models =
          Dict.set usage.model
            (add_totals (or_else (Dict.get usage.model s.models) empty_totals) usage.amounts)
            s.models;
      skills =
          Dict.set skill
            (use_skill turn usage.amounts (or_else (Dict.get skill s.skills) fresh_skill)) s.skills;
      skill_last_turn =
          if ltb 0 turn then Dict.set skill turn s.skill_last_turn else s.skill_last_turn;
      tools = allocate_usage turn usage.amounts s;
    }
