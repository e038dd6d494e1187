-- ===== src/Tape/Engine.antt =====
-- packages/brewva-runtime/src/tape/replay-engine.ts: the engine, which keeps a view of a session
-- once it was asked for and brings it up to date with each event that is recorded
-- (packages/brewva-runtime/src/services/event-pipeline.ts, `appendEvent`).
use pi_roaster.Base.{
  ℕ, max, String, Bool, false, Option, none, some, List, [], ◌∷◌, ◌++◌, ◌==◌, string_eq, nat_eq,
  if◌then◌else◌, or_else, is_some,
}
use pi_roaster.Base.Dict
use pi_roaster.Base.Dict.{Dict}
use pi_roaster.Task
use pi_roaster.Truth
use pi_roaster.Cost.Summary.{CostSummary}
use pi_roaster.Tape.{Failure, Projection, CheckpointEvidence, save_evidence, last_of, drop}
use pi_roaster.Tape.View.{Event, View, apply_event, build_view}

-- The views of `viewBySession`, and the events that the store lists for each session.
pub record World : Type 0 where
  pub views : Dict View
  pub tapes : Dict (List Event)

-- `listEvents`.
abbrev pub events_of : String → World → List Event
events_of session w = or_else (Dict.get session w.tapes) []

abbrev pub refreshed : ℕ → View → View
refreshed turn v = if v.turn == turn then v else record v { turn = turn }

-- `replay`, where `getTurn` returns `turn`.
unfoldable pub replay : ℕ → String → World → World × View
replay turn session w = elim (Dict.get session w.views) [
  | some v ↦ (record w { views = Dict.set session (refreshed turn v) w.views }, refreshed turn v)
  | none ↦
      let v = build_view turn (events_of session w) in
      (record w { views = Dict.set session v w.views }, v)
]

abbrev pub is_latest : Option String → String → Bool
is_latest none id = false
is_latest (some latest) id = latest == id

-- `observeEvent`.
unfoldable pub observe_event : ℕ → String → Event → World → World
observe_event turn session e w = elim (Dict.get session w.views) [
  | none ↦ w
  | some v ↦
      if is_latest v.latest_event_id e.id
      then w
      else record w { views = Dict.set session (apply_event turn v e) w.views }
]

-- `invalidate`, and `clear`.
unfoldable pub invalidate : String → World → World
invalidate session w = record w { views = Dict.delete session w.views }

-- `hasSession`.
unfoldable pub has_session : String → World → Bool
has_session session w = is_some (Dict.get session w.views)

-- `append` of an event that the store takes, and `observeReplayEvent` with it.
unfoldable pub record_event : ℕ → String → Event → World → World
unfolding observe_event
record_event turn session e w =
    observe_event turn session e
      (record w { tapes = Dict.set session (events_of session w ++ e ∷ []) w.tapes })

-- The getters.
unfoldable pub get_task_state : ℕ → String → World → World × Task.TaskState
unfolding replay
get_task_state turn session w = let (w', v) = replay turn session w in (w', v.task)

unfoldable pub get_truth_state : ℕ → String → World → World × Truth.TruthState
unfolding replay
get_truth_state turn session w = let (w', v) = replay turn session w in (w', v.truth)

unfoldable pub get_cost_summary : ℕ → String → World → World × CostSummary
unfolding replay
get_cost_summary turn session w = let (w', v) = replay turn session w in (w', v.cost.summary)

unfoldable pub get_skill_last_turn : ℕ → String → World → World × Dict ℕ
unfolding replay
get_skill_last_turn turn session w =
    let (w', v) = replay turn session w in (w', v.cost.skill_last_turn)

-- `getRecentToolFailures`; at most 48 where no limit is given, and one where it is not positive.
unfoldable pub get_recent_failures : ℕ → Option ℕ → String → World → World × List Failure
unfolding replay drop
get_recent_failures turn limit session w =
    let (w', v) = replay turn session w in
    (w', last_of (max 1 (or_else limit 48)) v.evidence.recent_failures)

unfoldable pub get_checkpoint_evidence : ℕ → String → World → World × CheckpointEvidence
unfolding replay
get_checkpoint_evidence turn session w =
    let (w', v) = replay turn session w in (w', save_evidence v.evidence)

unfoldable pub get_checkpoint_projection : ℕ → String → World → World × Projection
unfolding replay
get_checkpoint_projection turn session w = let (w', v) = replay turn session w in (w', v.projection)
