-- ===== src/Rollback.antt =====
-- packages/brewva-runtime/src/services/reversible-mutation.ts: the mutations of a session that can be
-- rolled back. The descriptor of a tool, the generated id of a receipt, the clock and the turn are
-- arguments.
pub mod Service
pub mod Ending
pub mod Restoring
mod Tests
use pi_roaster.Base.{
  ℕ, String, Bool, true, false, not, ◌&&◌, ◌||◌, Option, none, some, List, [], ◌∷◌, ◌++◌, ◌==◌,
  string_eq, if◌then◌else◌, is_some, or_else,
}
use pi_roaster.Base.Dict
use pi_roaster.Base.Dict.{Dict}
use pi_roaster.Base.Members
use pi_roaster.Base.Text.{trim, normalize_optional}
use pi_roaster.Desk.{normalize_tool_name}
use pi_roaster.Task.{TaskState}

pub data Strategy : Type 0 where
  workspace_patchset task_state_journal artifact_write generic_journal : Strategy

pub data RollbackKind : Type 0 where
  patchset task_state_replay artifact_ref no_rollback : RollbackKind

-- What governance says of a tool.
pub record Descriptor : Type 0 where
  pub is_reversible : Bool
  pub effects : List String

-- `ToolMutationReceipt`.
pub record Receipt : Type 0 where
  pub id : String
  pub call_id : String
  pub tool : String
  pub strategy : Strategy
  pub kind : RollbackKind
  pub effects : List String
  pub turn : ℕ
  pub timestamp : ℕ

pub record Pending : Type 0 where
  pub receipt : Receipt
  pub before : Option TaskState

-- `RecordedReversibleMutation`; the text of a rollback reference is known by the kind.
pub record Recorded : Type 0 where
  pub receipt : Receipt
  pub changed : Bool
  pub patch_set : Option String
  pub before : Option TaskState
  pub after : Option TaskState
  pub artifact : Option String

-- The entries of one session in the three maps of the service.
pub record Cell : Type 0 where
  pub pending : Dict Pending
  pub history : List Recorded
  pub rolled_back : List String

-- `resolveMutationStrategy`.
unfoldable pub resolve_strategy : Option Descriptor → String → Option (Strategy × RollbackKind)
unfolding Members.has
resolve_strategy none tool = none
resolve_strategy (some d) tool =
    if not d.is_reversible
    then none
    else if Members.has "workspace_write" d.effects
    then some (workspace_patchset, patchset)
    else if normalize_tool_name tool == "cognition_note"
    then some (artifact_write, artifact_ref)
    else if Members.has "memory_write" d.effects
    then some (task_state_journal, task_state_replay)
    else some (generic_journal, no_rollback)

abbrev effects_of : Option Descriptor → List String
effects_of none = []
effects_of (some d) = d.effects

-- `buildReceipt`.
abbrev build_receipt :
    Option Descriptor → String → String → String → Strategy × RollbackKind → ℕ → ℕ → Receipt
build_receipt d id call_id tool (strategy, kind) turn timestamp = record {
  id = id;
  call_id = trim call_id;
  tool = normalize_tool_name tool;
  strategy = strategy;
  kind = kind;
  effects = effects_of d;
  turn = turn;
  timestamp = timestamp;
}

abbrev before_of : Strategy → TaskState → Option TaskState
before_of task_state_journal state = some state
before_of _ state = none

-- `prepare`, with the receipt that it announces.
unfoldable pub prepare :
    Option Descriptor → String → String → String → TaskState → ℕ → ℕ → Cell → Cell × Option Receipt
unfolding resolve_strategy
prepare d id call_id tool state turn timestamp c = elim (resolve_strategy d tool) [
  | none ↦ (c, none)
  | some resolved ↦
      let receipt = build_receipt d id call_id tool resolved turn timestamp in
      (
        record c {
          pending =
              Dict.set call_id (record { receipt = receipt; before = before_of resolved.0 state })
                c.pending;
        },
        some receipt,
      )
]

-- What `record` is told, and the state of the task at that time; `same_state` compares the JSON of
-- two states.
pub record Outcome : Type 0 where
  pub patch_set : Option String
  pub artifact : Option String
  pub state : TaskState

unfoldable pub recorded_of :
    (Option TaskState → TaskState → Bool) → Pending → Outcome → Strategy → Recorded
recorded_of same_state p o workspace_patchset = record {
  receipt = p.receipt;
  changed = is_some o.patch_set;
  patch_set = o.patch_set;
  before = none;
  after = none;
  artifact = none;
}
recorded_of same_state p o task_state_journal = record {
  receipt = p.receipt;
  changed = not (same_state p.before o.state);
  patch_set = none;
  before = p.before;
  after = some o.state;
  artifact = none;
}
recorded_of same_state p o artifact_write = record {
  receipt = p.receipt;
  changed = is_some (normalize_optional o.artifact);
  patch_set = none;
  before = none;
  after = none;
  artifact = normalize_optional o.artifact;
}
recorded_of same_state p o generic_journal = record {
  receipt = p.receipt;
  changed = false;
  patch_set = none;
  before = none;
  after = none;
  artifact = none;
}

-- `record`, with the mutation that it announces.
unfoldable pub record_mutation :
    (Option TaskState → TaskState → Bool) → String → Outcome → Cell → Cell × Option Recorded
unfolding recorded_of
record_mutation same_state call_id o c = elim (Dict.get call_id c.pending) [
  | none ↦ (c, none)
  | some p ↦
      let r = recorded_of same_state p o p.receipt.strategy in
      (record c { pending = Dict.delete call_id c.pending; history = c.history ++ r ∷ [] }, some r)
]

-- `clear`.
abbrev pub clear_mutations : Cell
clear_mutations = record { pending = []; history = []; rolled_back = [] }

abbrev pub is_open : List String → Recorded → Bool
is_open rolled_back r = not (Members.has r.receipt.id rolled_back) && r.changed

-- The last mutation of a history that changed something and is not rolled back.
unfoldable pub latest_open : List String → List Recorded → Option Recorded
latest_open rolled_back [] = none
latest_open rolled_back (r ∷ rs) = elim (latest_open rolled_back rs) [
  | some later ↦ some later
  | none ↦ if is_open rolled_back r then some r else none
]

-- `getLatestRollbackCandidate`.
unfoldable pub rollback_candidate : Cell → Option Recorded
unfolding latest_open
rollback_candidate c = latest_open c.rolled_back c.history

-- `markRolledBack`.
unfoldable pub mark_rolled_back : String → Cell → Cell
unfolding Members.add
mark_rolled_back receipt_id c =
    if trim receipt_id == ""
    then c
    else record c { rolled_back = Members.add (trim receipt_id) c.rolled_back }

abbrev is_patch_set : Strategy → Bool
is_patch_set workspace_patchset = true
is_patch_set _ = false

abbrev names_set : String → Option String → Bool
names_set id none = false
names_set id (some p) = p == id

unfoldable pub latest_patch_set : String → List Recorded → Option String
latest_patch_set id [] = none
latest_patch_set id (r ∷ rs) = elim (latest_patch_set id rs) [
  | some later ↦ some later
  | none ↦
      if is_patch_set r.receipt.strategy && names_set id r.patch_set
      then some r.receipt.id
      else none
]

abbrev add_rolled_back : Option String → Cell → Cell
add_rolled_back none c = c
add_rolled_back (some id) c = record c { rolled_back = Members.add id c.rolled_back }

-- `markWorkspacePatchSetRolledBack`.
unfoldable pub mark_patch_set_rolled_back : String → Cell → Cell × Option String
unfolding latest_patch_set Members.add
mark_patch_set_rolled_back id c =
    if trim id == ""
    then (c, none)
    else (let found = latest_patch_set (trim id) c.history in (add_rolled_back found c, found))
