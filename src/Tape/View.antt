-- ===== src/Tape/View.antt =====
-- packages/brewva-runtime/src/tape/replay-engine.ts: the view of a session that its events leave.
-- States are values, so a clone of one is the state itself.
use pi_roaster.Base.{
  ℕ, String, Bool, true, false, Option, none, some, List, [], ◌∷◌, is_some, if◌then◌else◌,
}
use pi_roaster.Base.Dict.{Dict}
use pi_roaster.Base.Numeric.{JsNumber, whole}
use pi_roaster.Base.Text.{normalize_optional}
use pi_roaster.Task
use pi_roaster.Task.Reading
use pi_roaster.Truth
use pi_roaster.Cost.{CostState, empty_cost_state, warn}
use pi_roaster.Cost.Updates.{
  RawUpdate, coerce_update, apply_cost_update, RawAlert, read_alert, apply_budget_alert,
  record_tool_call,
}
use pi_roaster.Cost.Summary.{CostSummary, build_cost_summary, restore_cost_state}
use pi_roaster.Tape.{
  Evidence, empty_evidence, Projection, empty_projection, normalize_turn, RawResult,
  reduce_evidence, RawProjection, reduce_projection, pass_anchor, CheckpointEvidence,
  restore_evidence,
}

-- `ReplayCostState`.
pub record ReplayCost : Type 0 where
  pub summary : CostSummary
  pub updated_at : Option ℕ
  pub skill_last_turn : Dict ℕ

-- `payload.state` of a checkpoint.
pub record Checkpoint : Type 0 where
  pub task : Task.TaskState
  pub truth : Truth.TruthState
  pub cost : CostSummary
  pub cost_skill_last_turn : Dict ℕ
  pub evidence : CheckpointEvidence
  pub projection : Projection

-- An event's type with its payload. `checkpoint` holds what `coerceTapeCheckpointPayload` reads, and
-- `other` is any type or payload that no state reads.
pub data EventBody : Type 0 where
  checkpoint : Option Checkpoint → EventBody
  task_event : Task.Reading.RawPayload → EventBody
  truth_event : Truth.RawPayload → EventBody
  anchor : EventBody
  tool_result : RawResult → EventBody
  tool_marked : Option String → EventBody
  cost_updated : RawUpdate → EventBody
  budget_alerted : RawAlert → EventBody
  projection_refreshed : RawProjection → EventBody
  other : EventBody

-- `BrewvaEventRecord`.
pub record Event : Type 0 where
  pub id : String
  pub body : EventBody
  pub timestamp : ℕ
  pub turn : Option JsNumber

-- `InternalTurnReplayView`.
pub record View : Type 0 where
  pub turn : ℕ
  pub latest_event_id : Option String
  pub checkpoint_event_id : Option String
  pub task : Task.TaskState
  pub truth : Truth.TruthState
  pub cost : ReplayCost
  pub cost_fold : CostState
  pub evidence : Evidence
  pub projection : Projection

-- `toReplayCostState`.
unfoldable pub to_replay_cost : CostState → ReplayCost
to_replay_cost s = record {
  summary = build_cost_summary none s;
  updated_at = s.updated_at;
  skill_last_turn = s.skill_last_turn;
}

-- The view before the first event.
unfoldable pub empty_view : ℕ → View
empty_view turn = record {
  turn = turn;
  latest_event_id = none;
  checkpoint_event_id = none;
  task = Task.empty_state;
  truth = Truth.empty_state;
  cost = to_replay_cost (empty_cost_state warn);
  cost_fold = empty_cost_state warn;
  evidence = empty_evidence;
  projection = empty_projection;
}

-- The fold of costs that a checkpoint restores: `checkpointCostToReplay`.
abbrev pub checkpoint_cost : Checkpoint → CostState
checkpoint_cost p = restore_cost_state p.cost p.cost_skill_last_turn none none

-- The view that a checkpoint's event begins anew.
unfoldable pub checkpoint_view : ℕ → String → Checkpoint → View
checkpoint_view turn id p = record {
  turn = turn;
  latest_event_id = some id;
  checkpoint_event_id = some id;
  task = p.task;
  truth = p.truth;
  cost = to_replay_cost (checkpoint_cost p);
  cost_fold = checkpoint_cost p;
  evidence = restore_evidence p.evidence;
  projection = p.projection;
}

-- The fold of costs is shown anew where an event has changed it.
abbrev pub with_cost : Bool → CostState → View → View
with_cost applied s v = record v {
  cost_fold = s;
  cost = if applied then to_replay_cost s else v.cost;
}

abbrev pub mark_tool : Option String → ℕ → View → View
mark_tool none turn v = v
mark_tool (some tool) turn v =
    with_cost true (record_tool_call tool (whole turn false) true v.cost_fold) v

unfoldable pub apply_body : EventBody → ℕ → Option JsNumber → View → View
unfolding normalize_turn
apply_body (checkpoint p) timestamp turn v = v
apply_body (task_event r) timestamp turn v = record v {
  task = Task.Reading.apply_payload (Task.Reading.coerce_payload r) timestamp v.task;
}
apply_body (truth_event r) timestamp turn v = record v {
  truth = Truth.apply_payload (Truth.coerce_payload r) timestamp v.truth;
}
apply_body anchor timestamp turn v = record v { evidence = pass_anchor v.evidence }
apply_body (tool_result r) timestamp turn v = record v {
  evidence = reduce_evidence v.evidence r timestamp (normalize_turn turn 0);
}
apply_body (tool_marked tool) timestamp turn v =
    mark_tool (normalize_optional tool) (normalize_turn turn 0) v
apply_body (cost_updated r) timestamp turn v =
    with_cost (is_some (coerce_update r))
      (apply_cost_update r timestamp (normalize_turn turn 0) v.cost_fold) v
apply_body (budget_alerted r) timestamp turn v =
    with_cost (is_some (read_alert r timestamp)) (apply_budget_alert r timestamp v.cost_fold) v
apply_body (projection_refreshed r) timestamp turn v = record v {
  projection = reduce_projection v.projection r timestamp;
}
apply_body other timestamp turn v = v

-- What a checkpoint's event holds, where it is one that can be read.
abbrev pub read_checkpoint : EventBody → Option Checkpoint
read_checkpoint (checkpoint p) = p
read_checkpoint _ = none

-- `applyEventToView`, where `getTurn` returns `turn`.
unfoldable pub apply_event : ℕ → View → Event → View
unfolding apply_body checkpoint_view
apply_event turn v e = elim (read_checkpoint e.body) [
  | some p ↦ checkpoint_view turn e.id p
  | none ↦ record (apply_body e.body e.timestamp e.turn v) {
    turn = turn;
    latest_event_id = some e.id;
  }
]

-- The loop of `buildView` over the events that come after its start.
unfoldable pub apply_events : ℕ → View → List Event → View
unfolding apply_event
apply_events turn v [] = v
apply_events turn v (e ∷ es) = apply_events turn (apply_event turn v e) es

-- Where a replay starts: the last checkpoint that can be read, and the events after it.
pub record Start : Type 0 where
  pub id : String
  pub state : Checkpoint
  pub after : List Event

abbrev start_at : Event → List Event → Option Checkpoint → Option Start
start_at e after none = none
start_at e after (some p) = some (record { id = e.id; state = p; after = after })

unfoldable pub find_checkpoint : List Event → Option Start
find_checkpoint [] = none
find_checkpoint (e ∷ es) = elim (find_checkpoint es) [
  | some start ↦ some start
  | none ↦ start_at e es (read_checkpoint e.body)
]

-- `buildView`.
unfoldable pub build_view : ℕ → List Event → View
unfolding find_checkpoint apply_events empty_view checkpoint_view
build_view turn es = elim (find_checkpoint es) [
  | some start ↦ apply_events turn (checkpoint_view turn start.id start.state) start.after
  | none ↦ apply_events turn (empty_view turn) es
]
