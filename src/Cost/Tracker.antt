-- ===== src/Cost/Tracker.antt =====
-- packages/brewva-runtime/src/cost/tracker.ts: the costs of every session. A method is a function
-- on the sessions' `Map`.
use pi_roaster.Base.{
  ℕ, ltb, leb, String, Bool, ◌&&◌, ◌||◌, Option, none, some, List, [], ◌∷◌, or_else,
}
use pi_roaster.Base.Dict
use pi_roaster.Base.Dict.{Dict}
use pi_roaster.Base.Numeric.{JsNumber}
use pi_roaster.Cost.{
  Usage, CostContext, Alert, CostConfig, CostState, empty_cost_state, compute_budget_status,
}
use pi_roaster.Cost.Updates.{record_tool_call, record_usage, RawUpdate, apply_cost_update, is_cap}
use pi_roaster.Cost.Summary.{
  CostSummary, build_cost_summary, restore_cost_state, has_alert, is_threshold, BudgetReport,
  get_budget_status, skill_total_tokens,
}

-- `getOrCreate`; the entry that it makes is stored by each method that calls it.
unfoldable pub get_or_create : CostConfig → String → Dict CostState → CostState
get_or_create c id sessions = or_else (Dict.get id sessions) (empty_cost_state c.action_on_exceed)

-- `recordToolCall`, and `restoreToolCallForTurn` where the call is not counted.
unfoldable pub track_tool_call :
    CostConfig → String → String → JsNumber → Bool → Dict CostState → Dict CostState
unfolding get_or_create
track_tool_call c id tool turn counting sessions =
    Dict.set id (record_tool_call tool turn counting (get_or_create c id sessions)) sessions

-- `recordUsage`, at the time of its clock.
unfoldable pub track_usage :
    CostConfig
    → String
    → Usage
    → CostContext
    → ℕ
    → Dict CostState
    → Dict CostState × CostSummary × List Alert
unfolding get_or_create
track_usage c id usage context timestamp sessions =
    let (s, alerts) = record_usage c usage context timestamp (get_or_create c id sessions) in
    (Dict.set id s sessions, build_cost_summary (some c) s, alerts)

unfoldable pub get_summary : CostConfig → String → Dict CostState → Dict CostState × CostSummary
unfolding get_or_create
get_summary c id sessions =
    let s = get_or_create c id sessions in (Dict.set id s sessions, build_cost_summary (some c) s)

unfoldable pub get_skill_total_tokens :
    CostConfig → String → String → Dict CostState → Dict CostState × ℕ
unfolding get_or_create
get_skill_total_tokens c id skill sessions =
    let s = get_or_create c id sessions in (Dict.set id s sessions, skill_total_tokens s skill)

unfoldable pub track_budget_status :
    (ℕ → String) → CostConfig → String → Dict CostState → Dict CostState × BudgetReport
unfolding get_or_create
track_budget_status exceeded_text c id sessions =
    let s = get_or_create c id sessions in
    (Dict.set id s sessions, get_budget_status exceeded_text c s)

-- The state that `restore` stores.
unfoldable pub restored_state : CostConfig → CostSummary → Dict ℕ → CostState
unfolding has_alert
restored_state c snapshot turns =
    let cost = snapshot.totals.total_cost in
    let s =
      restore_cost_state snapshot turns
        (some (
          has_alert is_threshold snapshot.alerts
          || (ltb 0 c.alert_threshold && leb c.alert_threshold cost)))
        (some (
          has_alert is_cap snapshot.alerts
          || (ltb 0 c.max_cost_per_session && leb c.max_cost_per_session cost))) in
    record s { budget = compute_budget_status c s }

-- `restore`.
unfoldable pub restore_session :
    CostConfig → String → Option CostSummary → Dict ℕ → Dict CostState → Dict CostState
unfolding restored_state
restore_session c id none turns sessions = sessions
restore_session c id (some snapshot) turns sessions =
    Dict.set id (restored_state c snapshot turns) sessions

-- `applyCostUpdateEvent`.
unfoldable pub apply_update_event :
    CostConfig → String → Option RawUpdate → ℕ → ℕ → Dict CostState → Dict CostState
unfolding get_or_create
apply_update_event c id none turn timestamp sessions = sessions
apply_update_event c id (some r) turn timestamp sessions =
    Dict.set id (apply_cost_update r timestamp turn (get_or_create c id sessions)) sessions

-- A call of a method that changes the sessions; `cleared` is `clear`.
pub data TrackerCall : Type 0 where
  tool_called : String → String → JsNumber → Bool → TrackerCall
  usage_recorded : String → Usage → CostContext → ℕ → TrackerCall
  summary_asked : String → TrackerCall
  session_restored : String → Option CostSummary → Dict ℕ → TrackerCall
  update_applied : String → Option RawUpdate → ℕ → ℕ → TrackerCall
  cleared : String → TrackerCall

unfoldable pub track : CostConfig → TrackerCall → Dict CostState → Dict CostState
unfolding track_usage get_summary
track c (tool_called id tool turn counting) m = track_tool_call c id tool turn counting m
track c (usage_recorded id usage context timestamp) m =
    (track_usage c id usage context timestamp m).0
track c (summary_asked id) m = (get_summary c id m).0
track c (session_restored id snapshot turns) m = restore_session c id snapshot turns m
track c (update_applied id r turn timestamp) m = apply_update_event c id r turn timestamp m
track c (cleared id) m = Dict.delete id m

unfoldable pub track_all : CostConfig → List TrackerCall → Dict CostState → Dict CostState
track_all c [] m = m
track_all c (call ∷ calls) m = track_all c calls (track c call m)
