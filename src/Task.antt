-- ===== src/Task.antt =====
-- packages/brewva-runtime/src/task/ledger.ts: the reducer of task events and their fold. The
-- readers of a payload are in Task/Reading.
pub mod Reading
pub mod Normal
pub mod Checkpoint
pub mod Status
pub mod Service
mod Tests
use pi_roaster.Base.{
  ℕ, max, String, Bool, true, false, not, ◌||◌, Option, none, some, List, [], ◌∷◌, ◌++◌, map, ◌==◌,
  string_eq, if◌then◌else◌, or_else, keep,
}

pub data ItemStatus : Type 0 where
  todo doing item_done item_blocked : ItemStatus

pub data Phase : Type 0 where
  align investigate execute verify phase_blocked phase_done : Phase

pub data Health : Type 0 where
  health_ok exploring health_blocked verification_failed budget_pressure unknown : Health

-- `TaskSpec`: its goal, and all else as one JSON text.
pub record Spec : Type 0 where
  pub goal : String
  pub rest : String

pub record TaskStatus : Type 0 where
  pub phase : Phase
  pub health : Health
  pub reason : Option String
  pub updated_at : ℕ
  pub truth_fact_ids : Option (List String)

pub record Item : Type 0 where
  pub id : String
  pub text : String
  pub status : ItemStatus
  pub created_at : ℕ
  pub updated_at : ℕ

pub record Blocker : Type 0 where
  pub id : String
  pub message : String
  pub created_at : ℕ
  pub source : Option String
  pub truth_fact_id : Option String

pub record TaskState : Type 0 where
  pub spec : Option Spec
  pub status : Option TaskStatus
  pub items : List Item
  pub blockers : List Blocker
  pub updated_at : Option ℕ

pub data Payload : Type 0 where
  spec_set : Spec → Payload
  checkpoint_set : TaskState → Payload
  status_set : TaskStatus → Payload
  item_added : String → String → Option ItemStatus → Payload
  item_updated : String → Option String → Option ItemStatus → Payload
  blocker_recorded : String → String → Option String → Option String → Payload
  blocker_resolved : String → Payload

-- `createEmptyTaskState`.
abbrev pub empty_state : TaskState
empty_state = record { spec = none; status = none; items = []; blockers = []; updated_at = none }

unfoldable pub has_item : String → List Item → Bool
has_item id [] = false
has_item id (i ∷ is) = i.id == id || has_item id is

abbrev pub new_item : String → String → Option ItemStatus → ℕ → Item
new_item id text status timestamp = record {
  id = id;
  text = text;
  status = or_else status todo;
  created_at = timestamp;
  updated_at = timestamp;
}

unfoldable pub update_item : Option String → Option ItemStatus → ℕ → Item → Item
update_item text status timestamp i = record i {
  text = or_else text i.text;
  status = or_else status i.status;
  updated_at = timestamp;
}

unfoldable pub find_blocker : String → List Blocker → Option Blocker
find_blocker id [] = none
find_blocker id (b ∷ bs) = if b.id == id then some b else find_blocker id bs

-- `??` between two texts that may be absent.
abbrev pub first_of : Option String → Option String → Option String
first_of none b = b
first_of (some a) b = some a

-- `===` on two texts that may be absent.
abbrev same_text : Option String → Option String → Bool
same_text none none = true
same_text (some a) (some b) = a == b
same_text _ _ = false

-- The test `changed` of a blocker that is there.
abbrev is_changed : Blocker → String → Option String → Option String → Bool
is_changed b message source truth =
    not (b.message == message)
    || not (same_text b.source source)
    || not (same_text b.truth_fact_id truth)

-- `state.blockers.map`.
unfoldable pub update_blockers :
    String → String → Option String → Option String → List Blocker → List Blocker
update_blockers id message source truth [] = []
update_blockers id message source truth (b ∷ bs) =
    (if b.id == id
      then record b { message = message; source = source; truth_fact_id = truth }
      else b)
    ∷ update_blockers id message source truth bs

unfoldable pub record_blocker :
    Option Blocker
    → String
    → String
    → Option String
    → Option String
    → ℕ
    → List Blocker
    → List Blocker
unfolding update_blockers
record_blocker (some existing) id message source truth timestamp bs =
    let next_source = first_of source existing.source in
    let next_truth = first_of truth existing.truth_fact_id in
    if is_changed existing message next_source next_truth
    then update_blockers id message next_source next_truth bs
    else bs
record_blocker none id message source truth timestamp bs =
    bs
    ++ (record {
      id = id;
      message = message;
      created_at = timestamp;
      source = source;
      truth_fact_id = truth;
    })
      ∷ []

-- `Math.max(updatedAt ?? 0, timestamp)`.
abbrev pub later : Option ℕ → ℕ → Option ℕ
later at timestamp = some (max (or_else at 0) timestamp)

unfoldable pub reduce_task_state : TaskState → Payload → ℕ → TaskState
unfolding has_item update_item find_blocker record_blocker
reduce_task_state s (spec_set spec) t = record s {
  spec = some spec;
  updated_at = later s.updated_at t;
}
reduce_task_state s (status_set status) t = record s {
  status = some status;
  updated_at = later s.updated_at t;
}
reduce_task_state s (checkpoint_set c) t = record c { updated_at = later c.updated_at t }
reduce_task_state s (item_added id text status) t =
    if has_item id s.items then record s { updated_at = later s.updated_at t } else record s {
      items = s.items ++ new_item id text status t ∷ [];
      updated_at = later s.updated_at t;
    }
reduce_task_state s (item_updated id text status) t = record s {
  items = map (λ i. if i.id == id then update_item text status t i else i) s.items;
  updated_at = later s.updated_at t;
}
reduce_task_state s (blocker_recorded id message source truth) t = record s {
  blockers = record_blocker (find_blocker id s.blockers) id message source truth t s.blockers;
  updated_at = later s.updated_at t;
}
reduce_task_state s (blocker_resolved id) t = record s {
  blockers = keep (λ b. not (b.id == id)) s.blockers;
  updated_at = later s.updated_at t;
}
