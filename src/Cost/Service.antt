-- ===== src/Cost/Service.antt =====
-- packages/brewva-runtime/src/services/cost.ts, `recordAssistantUsage`: the usage of an answer with
-- the events that are recorded of it. Counts are whole, and a negative one counts as 0; the cost is
-- not clamped there, and is taken as not negative. The row of the evidence ledger and the detection
-- of anomalies are left out.
use pi_roaster.Base.{
  ℕ, ◌+◌, String, true, false, ◌||◌, Option, none, some, List, map, ltb, leb, if◌then◌else◌,
}
use pi_roaster.Base.Numeric.{whole}
use pi_roaster.Cost.{Usage, CostContext, Alert, BudgetStatus, ExceedAction, CostConfig, CostState}
use pi_roaster.Cost.Updates.{RawUpdate, RawAlert, record_usage}
use pi_roaster.Cost.Summary.{CostSummary, build_cost_summary}

pub record Answer : Type 0 where
  pub model : String
  pub input_tokens : ℕ
  pub output_tokens : ℕ
  pub cache_read_tokens : ℕ
  pub cache_write_tokens : ℕ
  pub total_tokens : ℕ
  pub cost : ℕ

-- The tokens that count: what was not read from the cache, or the total that is given where no more
-- is known.
unfoldable pub effective_tokens : Answer → ℕ
effective_tokens a =
    let derived = a.input_tokens + a.output_tokens + a.cache_write_tokens in
    if ltb 0 derived || leb a.total_tokens 0 || ltb 0 a.cache_read_tokens
    then derived
    else a.total_tokens

unfoldable pub usage_of : Answer → Usage
unfolding effective_tokens
usage_of a = record {
  model = a.model;
  amounts = record {
    input_tokens = a.input_tokens;
    output_tokens = a.output_tokens;
    cache_read_tokens = a.cache_read_tokens;
    cache_write_tokens = a.cache_write_tokens;
    total_tokens = effective_tokens a;
    total_cost = a.cost;
  };
}

abbrev pub context_at : ℕ → Option String → CostContext
context_at turn skill = record { turn = whole turn false; skill = skill }

-- The payload of `cost_update`, as its reader finds it.
abbrev pub update_of : Usage → Option String → BudgetStatus → RawUpdate
update_of usage skill budget = record {
  model = some usage.model;
  amounts = record {
    input_tokens = some usage.amounts.input_tokens;
    output_tokens = some usage.amounts.output_tokens;
    cache_read_tokens = some usage.amounts.cache_read_tokens;
    cache_write_tokens = some usage.amounts.cache_write_tokens;
    total_tokens = some usage.amounts.total_tokens;
    total_cost = some usage.amounts.total_cost;
  };
  skill = skill;
  budget = some (record {
    action = some budget.action;
    session_exceeded = budget.session_exceeded;
    blocked = budget.blocked;
  });
}

-- The payload of `budget_alert`.
abbrev pub alert_payload : ExceedAction → Alert → RawAlert
alert_payload action alert = record {
  kind = some alert.kind;
  is_session = true;
  cost = some alert.cost;
  threshold = some alert.threshold;
  budget = none;
  action = some action;
}

-- `recordAssistantUsage`: the new costs, the summary, and the payloads that are recorded in order.
unfoldable pub record_assistant_usage :
    CostConfig
    → Answer
    → ℕ
    → Option String
    → ℕ
    → CostState
    → CostState × CostSummary × RawUpdate × List RawAlert
unfolding usage_of
record_assistant_usage c a turn skill timestamp s =
    let (s', alerts) = record_usage c (usage_of a) (context_at turn skill) timestamp s in
    let summary = build_cost_summary (some c) s' in
    (
      s',
      summary,
      update_of (usage_of a) skill summary.budget,
      map (alert_payload summary.budget.action) alerts,
    )
