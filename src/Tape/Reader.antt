-- ===== src/Tape/Reader.antt =====
-- packages/brewva-runtime/src/tape/events.ts: how `coerceTapeCheckpointPayload` reads the evidence and
-- the projection of a checkpoint. A field is `none` where it has no value of its type. The tasks, the
-- truth and the costs are given as their own readers read them, `none` where they refuse them.
use pi_roaster.Base.{ℕ, String, Bool, true, false, Option, none, some, List, [], ◌∷◌, map, or_else}
use pi_roaster.Base.Coerce.{◌>>=◌}
use pi_roaster.Base.Dict.{Dict}
use pi_roaster.Base.Numeric.{JsNumber, whole}
use pi_roaster.Base.Text.{normalize_optional}
use pi_roaster.Task
use pi_roaster.Truth
use pi_roaster.Cost.Summary.{CostSummary}
use pi_roaster.Tape.{FailureClass, Failure, Evidence, Projection, CheckpointEvidence, finite_count}
use pi_roaster.Tape.View.{Checkpoint}

-- An entry of `recentFailures`; times are whole.
pub record RawFailure : Type 0 where
  pub tool : Option String
  pub args : Option String
  pub output_text : Option String
  pub turn : Option JsNumber
  pub failure_class : Option FailureClass
  pub anchor_epoch : Option JsNumber
  pub timestamp : Option JsNumber

pub record RawEvidence : Type 0 where
  pub total_records : Option JsNumber
  pub failure_records : Option JsNumber
  pub anchor_epoch : Option JsNumber
  pub recent_failures : List RawFailure
  pub execution_count : Option JsNumber
  pub invocation_count : Option JsNumber
  pub syntax_count : Option JsNumber
  pub composition_count : Option JsNumber

-- The projection: `updated_at` is `none` for null, and not a number for any other value without one.
pub record RawSaved : Type 0 where
  pub has_crystals : Bool
  pub updated_at : Option JsNumber
  pub unit_count : Option JsNumber

-- The payload of a checkpoint with the right schema.
pub record RawCheckpoint : Type 0 where
  pub reason : Option String
  pub created_at : Option JsNumber
  pub task : Option Task.TaskState
  pub truth : Option Truth.TruthState
  pub cost : Option CostSummary
  pub cost_skill_last_turn : Option (Dict ℕ)
  pub evidence : RawEvidence
  pub projection : RawSaved

-- `coerceCheckpointToolFailureEntry`.
unfoldable pub coerce_failure : RawFailure → Option Failure
coerce_failure r = do
  tool ← normalize_optional r.tool
  output_text ← r.output_text
  turn ← finite_count r.turn
  anchor_epoch ← finite_count r.anchor_epoch
  timestamp ← finite_count r.timestamp
  some (record {
    tool = tool;
    args = or_else r.args "{}";
    output_text = output_text;
    turn = turn;
    failure_class = r.failure_class;
    anchor_epoch = anchor_epoch;
    timestamp = timestamp;
  })

abbrev pub add_some : Option Failure → List Failure → List Failure
add_some none fs = fs
add_some (some f) fs = f ∷ fs

-- The entries that can be read.
unfoldable pub coerce_failures : List RawFailure → List Failure
unfolding coerce_failure
coerce_failures [] = []
coerce_failures (r ∷ rs) = add_some (coerce_failure r) (coerce_failures rs)

-- `coerceCheckpointEvidenceState`.
unfoldable pub coerce_evidence : RawEvidence → Option CheckpointEvidence
unfolding coerce_failures
coerce_evidence r = do
  total_records ← finite_count r.total_records
  failure_records ← finite_count r.failure_records
  anchor_epoch ← finite_count r.anchor_epoch
  some (record {
    total_records = total_records;
    failure_records = failure_records;
    anchor_epoch = anchor_epoch;
    recent_failures = coerce_failures r.recent_failures;
    class_counts = some (record {
      execution_count = or_else (finite_count r.execution_count) failure_records;
      invocation_count = or_else (finite_count r.invocation_count) 0;
      syntax_count = or_else (finite_count r.syntax_count) 0;
      composition_count = or_else (finite_count r.composition_count) 0;
    });
  })

-- A time, where it is null or a finite number.
unfoldable pub coerce_time : Option JsNumber → Option (Option ℕ)
coerce_time none = some none
coerce_time (some n) = do time ← finite_count (some n); some (some time)

-- `coerceCheckpointProjectionState`.
unfoldable pub coerce_projection : RawSaved → Option Projection
unfolding coerce_time
coerce_projection r = elim r.has_crystals [
  | true ↦ none
  | false ↦ do
    updated_at ← coerce_time r.updated_at
    unit_count ← finite_count r.unit_count
    some (record { updated_at = updated_at; unit_count = unit_count })
]

-- `coerceTapeCheckpointPayload`.
unfoldable pub coerce_checkpoint : RawCheckpoint → Option Checkpoint
unfolding coerce_evidence coerce_projection
coerce_checkpoint r = do
  task ← r.task
  truth ← r.truth
  reason ← normalize_optional r.reason
  created_at ← finite_count r.created_at
  cost ← r.cost
  turns ← r.cost_skill_last_turn
  evidence ← coerce_evidence r.evidence
  projection ← coerce_projection r.projection
  some (record {
    task = task;
    truth = truth;
    cost = cost;
    cost_skill_last_turn = turns;
    evidence = evidence;
    projection = projection;
  })

-- A failure, an evidence and a projection as JSON has them.
abbrev pub raw_failure : Failure → RawFailure
raw_failure f = record {
  tool = some f.tool;
  args = some f.args;
  output_text = some f.output_text;
  turn = some (whole f.turn false);
  failure_class = f.failure_class;
  anchor_epoch = some (whole f.anchor_epoch false);
  timestamp = some (whole f.timestamp false);
}

abbrev pub raw_evidence : Evidence → RawEvidence
raw_evidence e = record {
  total_records = some (whole e.total_records false);
  failure_records = some (whole e.failure_records false);
  anchor_epoch = some (whole e.anchor_epoch false);
  recent_failures = map raw_failure e.recent_failures;
  execution_count = some (whole e.class_counts.execution_count false);
  invocation_count = some (whole e.class_counts.invocation_count false);
  syntax_count = some (whole e.class_counts.syntax_count false);
  composition_count = some (whole e.class_counts.composition_count false);
}

abbrev pub raw_time : Option ℕ → Option JsNumber
raw_time none = none
raw_time (some t) = some (whole t false)

abbrev pub raw_projection : Projection → RawSaved
raw_projection p = record {
  has_crystals = false;
  updated_at = raw_time p.updated_at;
  unit_count = some (whole p.unit_count false);
}
