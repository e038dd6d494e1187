-- ===== src/Tape.antt =====
-- packages/brewva-runtime/src/tape/replay-engine.ts: the evidence and the projection that events
-- leave, and the views of sessions. JSON that no code reads is one text. The payload of an event is
-- what its readers find in the JSON: a field is `none` where it has no value of its type.
pub mod View
pub mod Reader
pub mod ReadBack
pub mod Trimmed
pub mod Engine
pub mod Equivalence
pub mod Agreement
pub mod Coherence
pub mod Checkpoint
pub mod Shown
pub mod Bounds
mod Tests
use pi_roaster.Base.{
  ℕ, zero, suc, ◌+◌, ◌-◌, max, String, Bool, true, false, not, Option, none, some, List, [], ◌∷◌,
  ◌++◌, ltb, leb, ◌==◌, string_eq, if◌then◌else◌, or_else, keep, length, ◌||◌,
}
use pi_roaster.Base.Numeric.{JsNumber, nan, infinite, negative, whole}
use pi_roaster.Base.Text.{normalize_optional}

pub data FailureClass : Type 0 where
  execution invocation_validation shell_syntax script_composition : FailureClass

-- `ReplayToolFailureEntry`.
pub record Failure : Type 0 where
  pub tool : String
  pub args : String
  pub output_text : String
  pub turn : ℕ
  pub failure_class : Option FailureClass
  pub anchor_epoch : ℕ
  pub timestamp : ℕ

pub record ClassCounts : Type 0 where
  pub execution_count : ℕ
  pub invocation_count : ℕ
  pub syntax_count : ℕ
  pub composition_count : ℕ

-- `ReplayEvidenceState`.
pub record Evidence : Type 0 where
  pub total_records : ℕ
  pub failure_records : ℕ
  pub anchor_epoch : ℕ
  pub recent_failures : List Failure
  pub class_counts : ClassCounts

-- `ReplayProjectionState`, which is the checkpoint's as well.
pub record Projection : Type 0 where
  pub updated_at : Option ℕ
  pub unit_count : ℕ

abbrev pub empty_evidence : Evidence
empty_evidence = record {
  total_records = 0;
  failure_records = 0;
  anchor_epoch = 0;
  recent_failures = [];
  class_counts = record {
    execution_count = 0;
    invocation_count = 0;
    syntax_count = 0;
    composition_count = 0;
  };
}

abbrev pub empty_projection : Projection
empty_projection = record { updated_at = none; unit_count = 0 }

-- `normalizeToolFailureTurn`.
unfoldable pub normalize_turn : Option JsNumber → ℕ → ℕ
normalize_turn none fallback = fallback
normalize_turn (some nan) fallback = fallback
normalize_turn (some infinite) fallback = fallback
normalize_turn (some (negative n f)) fallback = 0
normalize_turn (some (whole n f)) fallback = n

-- `incrementFailureClassCount`.
unfoldable pub count_class : FailureClass → ClassCounts → ClassCounts
count_class execution c = record c { execution_count = suc c.execution_count }
count_class invocation_validation c = record c { invocation_count = suc c.invocation_count }
count_class shell_syntax c = record c { syntax_count = suc c.syntax_count }
count_class script_composition c = record c { composition_count = suc c.composition_count }

pub data ResultVerdict : Type 0 where
  pass fail inconclusive : ResultVerdict

-- `failureContext`, where it is a record.
pub record RawContext : Type 0 where
  pub args : Option String
  pub output_text : Option String
  pub turn : Option JsNumber
  pub failure_class : Option FailureClass

-- The payload of `tool_result_recorded`.
pub record RawResult : Type 0 where
  pub verdict : Option ResultVerdict
  pub tool : Option String
  pub turn : Option JsNumber
  pub failure_class : Option FailureClass
  pub context : Option RawContext

abbrev failure_of : RawResult → RawContext → ℕ → ℕ → ℕ → String → Failure
failure_of r c fallback timestamp epoch output = record {
  tool = or_else (normalize_optional r.tool) "unknown_tool";
  args = or_else c.args "{}";
  output_text = output;
  turn = normalize_turn c.turn fallback;
  failure_class = c.failure_class;
  anchor_epoch = epoch;
  timestamp = timestamp;
}

-- `parseFailureContext`.
unfoldable pub parse_failure : RawResult → ℕ → ℕ → ℕ → Option Failure
unfolding normalize_turn
parse_failure r fallback timestamp epoch = elim r.context [
  | none ↦ none
  | some c ↦
      let output = or_else c.output_text "" in
      if output == "" then none else some (failure_of r c fallback timestamp epoch output)
]

unfoldable pub drop {ℓ} : {A : Type ℓ} → ℕ → List A → List A
drop zero xs = xs
drop (suc n) [] = []
drop (suc n) (x ∷ xs) = drop n xs

-- `xs.slice(-n)` for a positive `n`.
abbrev pub last_of {ℓ} : {A : Type ℓ} → ℕ → List A → List A
last_of n xs = drop (length xs - n) xs

abbrev pub is_recent : ℕ → Failure → Bool
is_recent epoch f = ltb (epoch - f.anchor_epoch) 3

-- `pruneToolFailures`.
unfoldable pub prune_failures : List Failure → ℕ → List Failure
unfolding drop
prune_failures entries epoch =
    let pruned = keep (is_recent epoch) entries in
    if leb (length pruned) 48 then pruned else last_of 48 pruned

abbrev is_infrastructure : String → Bool
is_infrastructure tool =
    tool == "ledger_checkpoint"
    || tool == "brewva_cost"
    || tool == "brewva_context_compaction"
    || tool == "brewva_rollback"
    || tool == "brewva_verify"

abbrev context_class : Option RawContext → Option FailureClass
context_class none = none
context_class (some c) = c.failure_class

abbrev pub class_of : RawResult → FailureClass
class_of r = or_else r.failure_class (or_else (context_class r.context) execution)

unfoldable pub add_failure : Option Failure → Evidence → Evidence
unfolding prune_failures
add_failure none e = e
add_failure (some f) e =
    if is_infrastructure f.tool
    then e
    else record e { recent_failures = prune_failures (e.recent_failures ++ f ∷ []) e.anchor_epoch }

unfoldable pub count_result : RawResult → ResultVerdict → ℕ → ℕ → Evidence → Evidence
unfolding parse_failure add_failure count_class
count_result r fail timestamp turn e =
    add_failure (parse_failure r (normalize_turn r.turn turn) timestamp e.anchor_epoch) (record e {
      total_records = suc e.total_records;
      failure_records = suc e.failure_records;
      class_counts = count_class (class_of r) e.class_counts;
    })
count_result r pass timestamp turn e = record e { total_records = suc e.total_records }
count_result r inconclusive timestamp turn e = record e { total_records = suc e.total_records }

-- `reduceEvidenceState`.
unfoldable pub reduce_evidence : Evidence → RawResult → ℕ → ℕ → Evidence
unfolding count_result
reduce_evidence e r timestamp turn = elim r.verdict [
  | none ↦ e
  | some verdict ↦ count_result r verdict timestamp turn e
]

-- The payload of `projection_refreshed`; a time is whole, and a negative one counts as 0.
pub record RawProjection : Type 0 where
  pub unit_count : Option JsNumber
  pub updated_at : Option ℕ

unfoldable pub finite_count : Option JsNumber → Option ℕ
finite_count none = none
finite_count (some nan) = none
finite_count (some infinite) = none
finite_count (some (negative n f)) = some 0
finite_count (some (whole n f)) = some n

-- `reduceProjectionState`.
unfoldable pub reduce_projection : Projection → RawProjection → ℕ → Projection
unfolding finite_count
reduce_projection p r timestamp = elim (finite_count r.unit_count) [
  | none ↦ p
  | some units ↦ record {
    updated_at = some (max (or_else p.updated_at 0) (or_else r.updated_at timestamp));
    unit_count = units;
  }
]

-- The anchor's part of `applyEventToView`.
unfoldable pub pass_anchor : Evidence → Evidence
unfolding prune_failures
pass_anchor e = record e {
  anchor_epoch = suc e.anchor_epoch;
  recent_failures = prune_failures e.recent_failures (suc e.anchor_epoch);
}

-- `TapeCheckpointEvidenceState`.
pub record CheckpointEvidence : Type 0 where
  pub total_records : ℕ
  pub failure_records : ℕ
  pub anchor_epoch : ℕ
  pub recent_failures : List Failure
  pub class_counts : Option ClassCounts

abbrev execution_only : ℕ → ClassCounts
execution_only n = record {
  execution_count = n;
  invocation_count = 0;
  syntax_count = 0;
  composition_count = 0;
}

-- `checkpointEvidenceToReplay`.
unfoldable pub restore_evidence : CheckpointEvidence → Evidence
unfolding prune_failures
restore_evidence c = record {
  total_records = c.total_records;
  failure_records = c.failure_records;
  anchor_epoch = c.anchor_epoch;
  recent_failures = prune_failures c.recent_failures c.anchor_epoch;
  class_counts = or_else c.class_counts (execution_only c.failure_records);
}

-- `replayEvidenceToCheckpoint`.
abbrev pub save_evidence : Evidence → CheckpointEvidence
save_evidence e = record {
  total_records = e.total_records;
  failure_records = e.failure_records;
  anchor_epoch = e.anchor_epoch;
  recent_failures = e.recent_failures;
  class_counts = some e.class_counts;
}
