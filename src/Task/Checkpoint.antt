-- ===== src/Task/Checkpoint.antt =====
-- A checkpoint of a session's task state stands for the events before it
-- (packages/brewva-runtime/src/task/ledger.ts, `buildCheckpointSetEvent` and `coerceTaskState`).
use pi_roaster.Base.{
  ℕ, ◌≡◌, refl, ap, sym, ◌∙◌, Option, none, some, List, [], ◌∷◌, ◌++◌, map, All, inl, inr,
  Bool-cases,
}
use mathlib.Core.Option
use pi_roaster.Base.Coerce.{◌>>=◌}
use pi_roaster.Task.{
  TaskStatus, Item, Blocker, TaskState, Payload, spec_set, checkpoint_set, status_set, item_added,
  item_updated, blocker_recorded, blocker_resolved, empty_state, reduce_task_state, has_item,
}
use pi_roaster.Task.Reading.{
  RawStatus, RawItem, RawBlocker, RawState, raw_checkpoint, coerce_task_status, coerce_item,
  coerce_blocker, read_all, coerce_task_state, coerce_payload, TaskEvent, apply_payload, fold_from,
  fold_task_events,
}
use pi_roaster.Task.Normal.{IsNormalStatus, IsNormalItem, IsNormalBlocker, IsNormal}
use pi_roaster.Base.Coerce.{Holds}
use pi_roaster.Task.Normal.Reducer.{fold_from-IsNormal, empty-IsNormal}

-- The JSON of a state, field by field.
abbrev pub raw_status_of : TaskStatus → RawStatus
raw_status_of s = record {
  phase = some s.phase;
  health = some s.health;
  reason = s.reason;
  updated_at = some s.updated_at;
  truth_fact_ids = s.truth_fact_ids;
}

abbrev raw_item_of : Item → RawItem
raw_item_of i = record {
  id = some i.id;
  text = some i.text;
  status = some i.status;
  created_at = some i.created_at;
  updated_at = some i.updated_at;
}

abbrev raw_blocker_of : Blocker → RawBlocker
raw_blocker_of b = record {
  id = some b.id;
  message = some b.message;
  created_at = some b.created_at;
  source = b.source;
  truth_fact_id = b.truth_fact_id;
}

unfoldable pub raw_state_of : TaskState → RawState
raw_state_of s = record {
  spec = s.spec;
  status = Option.map raw_status_of s.status;
  items = some (map raw_item_of s.items);
  blockers = some (map raw_blocker_of s.blockers);
  updated_at = s.updated_at;
}

-- `buildCheckpointSetEvent`, in an event of its time.
unfoldable pub checkpoint_event : TaskState → ℕ → TaskEvent
unfolding raw_state_of
checkpoint_event s timestamp = record {
  payload = raw_checkpoint (some (raw_state_of s));
  timestamp = timestamp;
}

pub read_status-written :
    (o : Option TaskStatus)
    → Holds IsNormalStatus o
    → (Option.map raw_status_of o >>= coerce_task_status) ≡ o
unfolding coerce_task_status
read_status-written none h = refl
read_status-written (some s) h = rw (h.reason_clean, h.ids_clean) refl

coerce_item-written : (i : Item) → IsNormalItem i → coerce_item (raw_item_of i) ≡ some i
unfolding coerce_item
coerce_item-written i h = rw (h.id_trimmed, ◌>>=◌) (rw (h.text_trimmed, ◌>>=◌) refl)

coerce_blocker-written :
    (b : Blocker) → IsNormalBlocker b → coerce_blocker (raw_blocker_of b) ≡ some b
unfolding coerce_blocker
coerce_blocker-written b h =
    rw (h.id_trimmed, ◌>>=◌)
      (rw (h.message_trimmed, ◌>>=◌) (rw (h.source_clean, h.truth_clean) refl))

read_all-written {ℓ κ μ} :
    {A : Type ℓ} {B : Type κ} (P : B → Type μ) (read : A → Option B) (write : B → A)
    → ((b : B) → P b → read (write b) ≡ some b)
    → (bs : List B) → All P bs
    → read_all read (map write bs) ≡ bs
unfolding read_all
read_all-written P read write back [] h = refl
read_all-written P read write back (b ∷ bs) h =
    rw (back b h.0) (ap (λ l. b ∷ l) (read_all-written P read write back bs h.1))

coerce_task_state-written :
    (s : TaskState) → IsNormal s → coerce_task_state (raw_state_of s) ≡ some s
unfolding coerce_task_state raw_state_of
coerce_task_state-written s h =
    rw
      (
        read_status-written s.status h.status_normal,
        read_all-written IsNormalItem coerce_item raw_item_of coerce_item-written s.items
            h.items_normal,
        read_all-written IsNormalBlocker coerce_blocker raw_blocker_of coerce_blocker-written
            s.blockers h.blockers_normal,
      )
      refl

-- A state without the time of its last event.
abbrev pub untimed : TaskState → TaskState
untimed s = record s { updated_at = none }

reduce-untimed :
    (s : TaskState) (p : Payload) (t : ℕ)
    → untimed (reduce_task_state s p t) ≡ untimed (reduce_task_state (untimed s) p t)
unfolding reduce_task_state
reduce-untimed s (spec_set spec) t = refl
reduce-untimed s (checkpoint_set c) t = refl
reduce-untimed s (status_set status) t = refl
reduce-untimed s (item_added id text status) t = elim (Bool-cases (has_item id s.items)) [
  | inl known ↦ rw known refl
  | inr new ↦ rw new refl
]
reduce-untimed s (item_updated id text status) t = refl
reduce-untimed s (blocker_recorded id message source truth) t = refl
reduce-untimed s (blocker_resolved id) t = refl

apply-untimed :
    (p : Option Payload) (t : ℕ) (s s' : TaskState)
    → untimed s ≡ untimed s'
    → untimed (apply_payload p t s) ≡ untimed (apply_payload p t s')
apply-untimed none t s s' e = e
apply-untimed (some p) t s s' e =
    reduce-untimed s p t
    ∙ ap (λ q. untimed (reduce_task_state q p t)) e
    ∙ sym (reduce-untimed s' p t)

fold-untimed :
    (s s' : TaskState) (es : List TaskEvent)
    → untimed s ≡ untimed s'
    → untimed (fold_from s es) ≡ untimed (fold_from s' es)
unfolding fold_from
fold-untimed s s' [] e = e
fold-untimed s s' (x ∷ es) e =
    fold-untimed (apply_payload (coerce_payload x.payload) x.timestamp s)
      (apply_payload (coerce_payload x.payload) x.timestamp s') es
      (apply-untimed (coerce_payload x.payload) x.timestamp s s' e)

pub fold_from-append :
    (s : TaskState) (es fs : List TaskEvent)
    → fold_from s (es ++ fs) ≡ fold_from (fold_from s es) fs
unfolding fold_from
fold_from-append s [] fs = refl
fold_from-append s (e ∷ es) fs =
    fold_from-append (apply_payload (coerce_payload e.payload) e.timestamp s) es fs

coerce_payload-checkpoint_event :
    (s : TaskState) (t : ℕ)
    → IsNormal s
    → coerce_payload (checkpoint_event s t).payload ≡ some (checkpoint_set s)
unfolding checkpoint_event coerce_payload
coerce_payload-checkpoint_event s t h =
    ap (λ o. o >>= λ c. some (checkpoint_set c)) (coerce_task_state-written s h)

-- A checkpoint puts its state in place of any other.
pub untimed-checkpoint :
    (s other : TaskState) (t : ℕ)
    → IsNormal s
    → untimed (apply_payload (coerce_payload (checkpoint_event s t).payload) t other) ≡ untimed s
unfolding reduce_task_state
untimed-checkpoint s other t h =
    ap (λ p. untimed (apply_payload p t other)) (coerce_payload-checkpoint_event s t h)

-- The fold over a tape into which a checkpoint of the state so far is put at any place, at any time,
-- gives the spec, the status, the items and the blockers that the tape gives without it; and the
-- fold over the checkpoint alone gives them as they were when it was taken.
pub checkpoint_stands :
    (before more : List TaskEvent) (t : ℕ)
    → (untimed (fold_task_events (before ++ checkpoint_event (fold_task_events before) t ∷ more))
        ≡ untimed (fold_task_events (before ++ more)))
      × (untimed (fold_task_events (checkpoint_event (fold_task_events before) t ∷ []))
          ≡ untimed (fold_task_events before))
unfolding fold_task_events fold_from checkpoint_event
checkpoint_stands before more t = (
  ap untimed (fold_from-append empty_state before (checkpoint_event state t ∷ more))
      ∙ fold-untimed (apply_payload (coerce_payload (checkpoint_event state t).payload) t state)
          state more (untimed-checkpoint state state t normal)
      ∙ sym (ap untimed (fold_from-append empty_state before more)),
  untimed-checkpoint state empty_state t normal,
)
  where
    state : TaskState
    state = fold_task_events before

    normal : IsNormal state
    normal = fold_from-IsNormal empty_state before empty-IsNormal
