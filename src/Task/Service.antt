-- ===== src/Task/Service.antt =====
-- packages/brewva-runtime/src/services/task.ts: the mutations of items and blockers on a session's
-- tape. Each records its event and then aligns the status. The generated id of an item or a blocker
-- is an argument.
pub mod Adding
mod Tests
use pi_roaster.Base.{
  ℕ, ◌≡◌, refl, ap, ◌∙◌, inl, inr, String, Option, none, some, List, [], ◌∷◌, ◌++◌, or_else,
  if◌then◌else◌, Bool-cases, Option-cases,
}
use pi_roaster.Base.Text.{normalize_optional}
use pi_roaster.Base.Coerce.{◌>>=◌, IsTrimmed, trim-IsTrimmed}
use pi_roaster.Task.{
  ItemStatus, Item, TaskStatus, TaskState, empty_state, new_item, has_item, item_added, status_set,
  reduce_task_state,
}
use pi_roaster.Task.Reading.{
  RawPayload, raw_item_added, raw_item_updated, raw_blocker_recorded, raw_blocker_resolved,
  TaskEvent, coerce_payload, coerce_task_status, apply_payload, fold_from, fold_task_events,
}
use pi_roaster.Task.Checkpoint.{raw_status_of, fold_from-append}
use pi_roaster.Task.Status.{
  Inputs, compute_task_status, is_same_task_status, maybe_align_task_status,
}

pub data TaskError : Type 0 where
  missing_text missing_id missing_patch missing_message : TaskError

pub data TaskResult : Type 0 where
  done : TaskResult
  done_with : String → TaskResult
  refused : TaskError → TaskResult

-- What a mutation reads besides its input: the printing of a number, what the status is computed
-- from, and the times of its event, of the computation, and of the event of the status.
pub record Reading : Type 0 where
  pub show : ℕ → String
  pub inputs : Inputs
  pub recorded : ℕ
  pub now : ℕ
  pub status_recorded : ℕ

-- `recordEvent` and `alignTaskStatusAfterMutation`.
unfoldable pub record_and_align : Reading → RawPayload → List TaskEvent → List TaskEvent
record_and_align r payload tape =
    maybe_align_task_status r.show r.inputs r.now r.status_recorded
      (tape ++ (record { payload = payload; timestamp = r.recorded }) ∷ [])

unfoldable pub add_task_item :
    Reading
    → String
    → Option String
    → Option String
    → Option ItemStatus
    → List TaskEvent
    → List TaskEvent × TaskResult
unfolding record_and_align
add_task_item r fresh raw_id raw_text status tape = elim (normalize_optional raw_text) [
  | none ↦ (tape, refused missing_text)
  | some text ↦
      let id = or_else (normalize_optional raw_id) fresh in
      (record_and_align r (raw_item_added (some id) (some text) status) tape, done_with id)
]

-- The patch of an item needs a text or a status.
unfoldable pub update_known :
    Reading
    → String
    → Option String
    → Option ItemStatus
    → List TaskEvent
    → List TaskEvent × TaskResult
unfolding record_and_align
update_known r id none none tape = (tape, refused missing_patch)
update_known r id text status tape =
    (record_and_align r (raw_item_updated (some id) text status) tape, done)

unfoldable pub update_task_item :
    Reading
    → Option String
    → Option String
    → Option ItemStatus
    → List TaskEvent
    → List TaskEvent × TaskResult
unfolding update_known
update_task_item r raw_id raw_text status tape = elim (normalize_optional raw_id) [
  | none ↦ (tape, refused missing_id)
  | some id ↦ update_known r id (normalize_optional raw_text) status tape
]

unfoldable pub record_task_blocker :
    Reading
    → String
    → Option String
    → Option String
    → Option String
    → Option String
    → List TaskEvent
    → List TaskEvent × TaskResult
unfolding record_and_align
record_task_blocker r fresh raw_id raw_message source truth tape =
    elim (normalize_optional raw_message) [
      | none ↦ (tape, refused missing_message)
      | some message ↦
          let id = or_else (normalize_optional raw_id) fresh in
          (
            record_and_align r
                (raw_blocker_recorded (some id) (some message) (normalize_optional source)
                  (normalize_optional truth))
                tape,
            done_with id,
          )
    ]

unfoldable pub resolve_task_blocker :
    Reading → Option String → List TaskEvent → List TaskEvent × TaskResult
unfolding record_and_align
resolve_task_blocker r raw_id tape = elim (normalize_optional raw_id) [
  | none ↦ (tape, refused missing_id)
  | some id ↦ (record_and_align r (raw_blocker_resolved (some id)) tape, done)
]
