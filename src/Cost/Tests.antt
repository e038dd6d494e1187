-- ===== src/Cost/Tests.antt =====
-- The costs of one session that reaches its threshold and then its cap.
use pi_roaster.Base.{◌+◌, ◌≡◌, refl, true, false, none, some, List, [], ◌∷◌, All}
use pi_roaster.Base.Dict
use pi_roaster.Base.Numeric.{whole, nan}
use pi_roaster.Base.Text.{trim, normalize_optional}
use pi_roaster.Cost.{
  empty_totals, Usage, CostContext, CostConfig, CostState, block_tools, warn, empty_cost_state,
  apply_usage, add_totals, allocate_usage, normalize_cost_turn, calls_at, set_calls, total_weight,
  allocate_shares, plus_share, nothing,
}
use pi_roaster.Cost.Updates.{
  RawUpdate, record_tool_call, record_usage, collect_alerts, threshold_alert, cap_alert,
  forget_turns, is_cap,
}
use pi_roaster.Cost.Summary.{CostSummary, build_cost_summary}
use pi_roaster.Cost.Tracker.{
  TrackerCall, tool_called, usage_recorded, summary_asked, session_restored, update_applied,
  cleared, track_all,
}
use pi_roaster.Cost.Balance.{
  IsBalanced, empty-IsBalanced, apply_usage-IsBalanced, summary-IsBalanced, track_all-IsBalanced,
}
use pi_roaster.Cost.Alerts.{
  IsAlerted, CostStep, tool_used, model_used, cost_step, cost_steps, count_alerts,
  session-IsAlerted,
}
use pi_roaster.Cost.Updates.{apply_cost_update}
use pi_roaster.Cost.Service.{Answer, record_assistant_usage}
use pi_roaster.Cost.Replaying.{apply_alerts, timeless}
use pi_roaster.Cost.Events.{events-replay}

abbrev config : CostConfig
config = record {
  enabled = true;
  action_on_exceed = block_tools;
  max_cost_per_session = 10;
  alert_threshold = 8;
}

abbrev usage : Usage
usage = record {
  model = "m1";
  amounts = record empty_totals { input_tokens = 30; total_tokens = 40; total_cost = 6 };
}

abbrev context : CostContext
context = record { turn = whole 1 false; skill = some " review " }

abbrev steps : List CostStep
steps =
    tool_used "read" (whole 1 false) true
    ∷ model_used usage context 100
    ∷ model_used usage context 101
    ∷ tool_used "read" nan true
    ∷ model_used usage context 102
    ∷ []

abbrev spent : CostState
spent = cost_steps config steps (empty_cost_state block_tools)

total_spent : spent.totals.total_cost ≡ 18
unfolding cost_steps cost_step record_tool_call record_usage collect_alerts threshold_alert
    cap_alert apply_usage add_totals
total_spent = refl

one_cap_alert : count_alerts is_cap spent.alerts ≡ 1
unfolding cost_steps cost_step record_tool_call record_usage collect_alerts threshold_alert
    cap_alert apply_usage add_totals count_alerts
one_cap_alert = refl

-- A turn with one tool gives that tool the whole usage.
whole_share :
    (allocate_usage 1 usage.amounts
      (record_tool_call "read" (whole 1 false) true (empty_cost_state warn)))
    ≡ (
      "read",
      record {
        call_count = 1;
        allocated_tokens = plus_share nothing 40 1 1;
        allocated_cost = plus_share nothing 6 1 1;
      },
    )
      ∷ []
unfolding allocate_usage record_tool_call forget_turns calls_at set_calls total_weight
    allocate_shares normalize_cost_turn Dict.get Dict.set normalize_optional trim
whole_share = refl

session-IsAlerted_example : IsAlerted config spent
session-IsAlerted_example = session-IsAlerted config steps

abbrev snapshot : CostSummary
snapshot = build_cost_summary (some config) (apply_usage usage context (empty_cost_state warn))

abbrev update : RawUpdate
update = record {
  model = some "m2";
  amounts = record {
    input_tokens = some 1;
    output_tokens = some 2;
    cache_read_tokens = some 3;
    cache_write_tokens = some 4;
    total_tokens = some 5;
    total_cost = some 6;
  };
  skill = none;
  budget = none;
}

abbrev calls : List TrackerCall
calls =
    tool_called "s1" "read" (whole 1 false) true
    ∷ usage_recorded "s1" usage context 100
    ∷ session_restored "s2" (some snapshot) (("review", 1) ∷ [])
    ∷ update_applied "s2" (some update) 2 101
    ∷ summary_asked "s3"
    ∷ cleared "s1"
    ∷ []

track_all-IsBalanced_example : All IsBalanced (Dict.values (track_all config calls []))
unfolding Dict.values
track_all-IsBalanced_example =
    track_all-IsBalanced config calls []
      (
        tt,
        (
          tt,
          (
            summary-IsBalanced (some config) _ (
                apply_usage-IsBalanced usage context (empty_cost_state warn)
                  (empty-IsBalanced warn)),
            (tt, (tt, (tt, tt))),
          ),
        ),
      )
      tt

-- An answer that crosses the threshold and the cap at once.
abbrev answer : Answer
answer = record {
  model = "m1";
  input_tokens = 3;
  output_tokens = 4;
  cache_read_tokens = 5;
  cache_write_tokens = 0;
  total_tokens = 12;
  cost = 11;
}

events-replay_example :
    timeless (
      apply_alerts
        (record_assistant_usage config answer 1 none 100 (empty_cost_state warn)).3
        (λ n. 103 + n)
        (apply_cost_update
          (record_assistant_usage config answer 1 none 100 (empty_cost_state warn)).2
          102
          1
          (empty_cost_state warn)))
    ≡ timeless (record_assistant_usage config answer 1 none 100 (empty_cost_state warn)).0
unfolding normalize_optional trim
events-replay_example =
    events-replay config answer 1 none 100 (empty_cost_state warn) 102 (λ n. 103 + n) refl
