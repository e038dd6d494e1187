-- ===== src/Tape/Tests.antt =====
-- A tape of one session with a task, a failed tool, an anchor, a usage and a checkpoint.
use pi_roaster.Base.{
  ◌≡◌, refl, String, true, false, none, some, List, [], ◌∷◌, ◌++◌, arith, sym, ◌∙◌, ap, eq_iff,
  or_else, ◌==◌, string_eq,
}
use pi_roaster.Base.Dict
use pi_roaster.Base.Dict.{Dict, map_values}
use pi_roaster.Base.Numeric.{whole}
use pi_roaster.Task.Reading.{raw_item_added}
use pi_roaster.Cost.{empty_totals, empty_budget, warn}
use pi_roaster.Cost.Summary.{CostSummary, build_cost_summary, restore_cost_state, rounded_tool}
use pi_roaster.Tape.{RawResult, fail, shell_syntax}
use pi_roaster.Tape.View.{
  Event, EventBody, checkpoint, task_event, anchor, tool_result, tool_marked, other, apply_body,
  find_checkpoint, apply_event, apply_events, empty_view, build_view,
}
use pi_roaster.Tape.Engine.{events_of, replay, record_event, observe_event, invalidate}
use pi_roaster.Tape.Equivalence.{build_view-apply_events, last_from}
use pi_roaster.Tape.Coherence.{
  EngineCall, recorded, replayed, invalidated, call_all, AreFresh, replay-coherent,
}
use pi_roaster.Tape.Bounds.{IsBounded, build_view-IsBounded}
use pi_roaster.Tape.Checkpoint.{Saves, ledgers, build_view-checkpoint, restored-summary}
use pi_roaster.Tape.Reader.{RawCheckpoint, coerce_checkpoint, raw_evidence, raw_projection}
use pi_roaster.Task
use pi_roaster.Truth

abbrev event : String → EventBody → Event
event id body = record { id = id; body = body; timestamp = 100; turn = some (whole 1 false) }

abbrev failure : RawResult
failure = record {
  verdict = some fail;
  tool = some "exec";
  turn = none;
  failure_class = none;
  context = some (record {
    args = none;
    output_text = some "syntax error";
    turn = none;
    failure_class = some shell_syntax;
  });
}

abbrev events : List Event
events =
    event "e1" (task_event (raw_item_added (some "i1") (some "test") none))
    ∷ event "e2" (tool_result failure)
    ∷ event "e3" anchor
    ∷ event "e4" (tool_marked (some "exec"))
    ∷ []

abbrev no_costs : CostSummary
no_costs = record {
  totals = empty_totals;
  models = [];
  skills = ("review", record { totals = empty_totals; usage_count = 1; turns = 1 }) ∷ [];
  tools = [];
  alerts = [];
  budget = empty_budget warn;
}

abbrev payload : RawCheckpoint
payload = record {
  reason = some "interval";
  created_at = some (whole 100 false);
  task = some Task.empty_state;
  truth = some Truth.empty_state;
  cost = some no_costs;
  cost_skill_last_turn = some [];
  evidence = raw_evidence (build_view 1 events).evidence;
  projection = raw_projection (build_view 1 events).projection;
}

abbrev saved : Event
saved = event "e5" (checkpoint (coerce_checkpoint payload))

abbrev rest : List Event
rest = event "e6" anchor ∷ []

build_view-apply_events_example :
    build_view 1 (events ++ saved ∷ rest) ≡ apply_events 1 (empty_view 1) (events ++ saved ∷ rest)
build_view-apply_events_example = build_view-apply_events 1 (events ++ saved ∷ rest)

build_view-IsBounded_example :
    IsBounded
      (build_view 1 events).evidence.recent_failures
      (build_view 1 events).evidence.anchor_epoch
build_view-IsBounded_example = build_view-IsBounded 1 events

payload-Saves : Saves payload (build_view 1 events)
payload-Saves = record { evidence_saved = refl; projection_saved = refl }

build_view-checkpoint_example :
    ledgers (build_view 1 (events ++ saved ∷ rest)) ≡ ledgers (build_view 1 (events ++ rest))
build_view-checkpoint_example =
    build_view-checkpoint 1 events rest saved payload (tt, (tt, (tt, (tt, tt)))) refl payload-Saves

restored-summary_example :
    build_cost_summary none (restore_cost_state no_costs (("review", 3) ∷ []) none (some true))
    ≡ record no_costs { tools = map_values rounded_tool no_costs.tools }
restored-summary_example = restored-summary no_costs (("review", 3) ∷ []) none (some true)

abbrev calls : List EngineCall
calls =
    recorded 1 "s" (event "e1" anchor)
    ∷ replayed 1 "s"
    ∷ recorded 2 "s" (event "e2" (tool_result failure))
    ∷ invalidated "s"
    ∷ recorded 2 "s" (event "e3" other)
    ∷ []

other_id : (a b : String) → (a == b) ≡ false → ¬ (some a ≡ some b)
other_id a b differs e =
    absurd (ground (arith, sym differs ∙ (eq_iff a b).1 (ap (λ o. or_else o a) e)))

calls-AreFresh : AreFresh calls (record { views = []; tapes = [] })
unfolding record_event observe_event replay invalidate last_from build_view find_checkpoint
    apply_events apply_event apply_body empty_view Dict.get Dict.set Dict.delete
calls-AreFresh =
    (λ h. absurd (ground arith), (other_id "e1" "e2" refl, (other_id "e2" "e3" refl, tt)))

replay-coherent_example :
    (replay 3 "s" (call_all calls (record { views = []; tapes = [] }))).1
    ≡ build_view 3 (events_of "s" (call_all calls (record { views = []; tapes = [] })))
replay-coherent_example = replay-coherent calls [] 3 "s" calls-AreFresh
