-- ===== src/Task/Reading.antt =====
-- packages/brewva-runtime/src/task/ledger.ts: the readers of a payload, and the fold over the events
-- that they read. A field that has no value of its type is `none`.
use pi_roaster.Base.{ℕ, String, Option, none, some, List, [], ◌∷◌, or_else}
use pi_roaster.Base.Text.{normalize_optional}
use pi_roaster.Base.Coerce.{◌>>=◌, normalize_string_array}
use pi_roaster.Task.{
  ItemStatus, todo, Phase, Health, Spec, TaskStatus, Item, Blocker, TaskState, Payload, spec_set,
  checkpoint_set, status_set, item_added, item_updated, blocker_recorded, blocker_resolved,
  empty_state, reduce_task_state,
}

pub record RawStatus : Type 0 where
  pub phase : Option Phase
  pub health : Option Health
  pub reason : Option String
  pub updated_at : Option ℕ
  pub truth_fact_ids : Option (List String)

-- An entry of a checkpoint's items; one that is no record has no field.
pub record RawItem : Type 0 where
  pub id : Option String
  pub text : Option String
  pub status : Option ItemStatus
  pub created_at : Option ℕ
  pub updated_at : Option ℕ

pub record RawBlocker : Type 0 where
  pub id : Option String
  pub message : Option String
  pub created_at : Option ℕ
  pub source : Option String
  pub truth_fact_id : Option String

-- `spec` is `none` where it is no `brewva.task.v1`.
pub record RawState : Type 0 where
  pub spec : Option Spec
  pub status : Option RawStatus
  pub items : Option (List RawItem)
  pub blockers : Option (List RawBlocker)
  pub updated_at : Option ℕ

pub data RawPayload : Type 0 where
  raw_spec : Option Spec → RawPayload
  raw_checkpoint : Option RawState → RawPayload
  raw_status : Option RawStatus → RawPayload
  raw_item_added raw_item_updated : Option String → Option String → Option ItemStatus → RawPayload
  raw_blocker_recorded : Option String → Option String → Option String → Option String → RawPayload
  raw_blocker_resolved : Option String → RawPayload
  raw_other : RawPayload

-- `undefined` for an array without texts.
abbrev pub none_if_empty : List String → Option (List String)
none_if_empty [] = none
none_if_empty (id ∷ ids) = some (id ∷ ids)

unfoldable pub read_ids : Option (List String) → Option (List String)
read_ids none = none
read_ids (some ids) = none_if_empty (normalize_string_array ids)

-- `coerceTaskStatus`.
unfoldable pub coerce_task_status : RawStatus → Option TaskStatus
unfolding read_ids
coerce_task_status r = do
  phase ← r.phase
  health ← r.health
  updated_at ← r.updated_at
  some (record {
    phase = phase;
    health = health;
    reason = normalize_optional r.reason;
    updated_at = updated_at;
    truth_fact_ids = read_ids r.truth_fact_ids;
  })

unfoldable pub coerce_item : RawItem → Option Item
coerce_item r = do
  id ← normalize_optional r.id
  text ← normalize_optional r.text
  created_at ← r.created_at
  updated_at ← r.updated_at
  some (record {
    id = id;
    text = text;
    status = or_else r.status todo;
    created_at = created_at;
    updated_at = updated_at;
  })

unfoldable pub coerce_blocker : RawBlocker → Option Blocker
coerce_blocker r = do
  id ← normalize_optional r.id
  message ← normalize_optional r.message
  created_at ← r.created_at
  some (record {
    id = id;
    message = message;
    created_at = created_at;
    source = normalize_optional r.source;
    truth_fact_id = normalize_optional r.truth_fact_id;
  })

-- A loop of `coerceTaskState`, which leaves out what it cannot read.
unfoldable pub read_all {ℓ κ} : {A : Type ℓ} {B : Type κ} → (A → Option B) → List A → List B
read_all read [] = []
read_all read (x ∷ xs) =
    let rest = read_all read xs in elim (read x) [ none ↦ rest | some y ↦ y ∷ rest ]

-- `coerceTaskState`.
unfoldable pub coerce_task_state : RawState → Option TaskState
unfolding coerce_task_status coerce_item coerce_blocker read_all
coerce_task_state r = do
  items ← r.items
  blockers ← r.blockers
  some (record {
    spec = r.spec;
    status = r.status >>= coerce_task_status;
    items = read_all coerce_item items;
    blockers = read_all coerce_blocker blockers;
    updated_at = r.updated_at;
  })

-- An update needs a text or a status.
abbrev pub update_payload : String → Option String → Option ItemStatus → Option Payload
update_payload id none none = none
update_payload id text status = some (item_updated id text status)

-- `coerceTaskLedgerPayload`.
unfoldable pub coerce_payload : RawPayload → Option Payload
unfolding coerce_task_state coerce_task_status
coerce_payload (raw_spec spec) = spec >>= λ s. some (spec_set s)
coerce_payload (raw_checkpoint state) = state >>= coerce_task_state >>= λ s. some (checkpoint_set s)
coerce_payload (raw_status status) = status >>= coerce_task_status >>= λ s. some (status_set s)
coerce_payload (raw_item_added raw_id raw_text status) = do
  id ← normalize_optional raw_id
  text ← normalize_optional raw_text
  some (item_added id text status)
coerce_payload (raw_item_updated raw_id raw_text status) = do
  id ← normalize_optional raw_id
  update_payload id (normalize_optional raw_text) status
coerce_payload (raw_blocker_recorded raw_id raw_message source truth) = do
  id ← normalize_optional raw_id
  message ← normalize_optional raw_message
  some (blocker_recorded id message (normalize_optional source) (normalize_optional truth))
coerce_payload (raw_blocker_resolved raw_id) = do
  id ← normalize_optional raw_id
  some (blocker_resolved id)
coerce_payload raw_other = none

pub record TaskEvent : Type 0 where
  pub payload : RawPayload
  pub timestamp : ℕ

abbrev pub apply_payload : Option Payload → ℕ → TaskState → TaskState
apply_payload none timestamp s = s
apply_payload (some p) timestamp s = reduce_task_state s p timestamp

-- The loop of `foldTaskLedgerEvents`.
unfoldable pub fold_from : TaskState → List TaskEvent → TaskState
unfolding coerce_payload
fold_from s [] = s
fold_from s (e ∷ es) = fold_from (apply_payload (coerce_payload e.payload) e.timestamp s) es

unfoldable pub fold_task_events : List TaskEvent → TaskState
unfolding fold_from
fold_task_events es = fold_from empty_state es
