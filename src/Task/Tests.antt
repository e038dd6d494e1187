-- ===== src/Task/Tests.antt =====
-- A tape with two items and a blocker, and a checkpoint in it.
use pi_roaster.Base.{◌≡◌, refl, some, none, [], ◌∷◌, ◌++◌, List, keep}
use pi_roaster.Base.Text.{trim, normalize_optional}
use pi_roaster.Task.{
  item_done, reduce_task_state, has_item, update_item, find_blocker, record_blocker, Item,
}
use pi_roaster.Task.Reading.{
  TaskEvent, raw_item_added, raw_item_updated, raw_blocker_recorded, raw_blocker_resolved,
  coerce_payload, fold_from, fold_task_events,
}
use pi_roaster.Task.Checkpoint.{checkpoint_event, untimed, checkpoint_stands}

abbrev before : List TaskEvent
before =
    (record { payload = raw_item_added (some " i1") (some "read") none; timestamp = 1 })
    ∷ (record {
      payload = raw_blocker_recorded (some "b1") (some "no key ") none none;
      timestamp = 2;
    })
    ∷ []

abbrev more : List TaskEvent
more =
    (record { payload = raw_item_updated (some "i1") (some " ") (some item_done); timestamp = 5 })
    ∷ (record { payload = raw_item_added (some "i1") (some "again") none; timestamp = 6 })
    ∷ (record { payload = raw_blocker_resolved (some "b1"); timestamp = 7 })
    ∷ []

abbrev read_done : Item
read_done = record { id = "i1"; text = "read"; status = item_done; created_at = 1; updated_at = 5 }

items_after : (fold_task_events (before ++ more)).items ≡ read_done ∷ []
unfolding fold_task_events fold_from coerce_payload reduce_task_state has_item update_item
    find_blocker record_blocker keep normalize_optional trim
items_after = refl

checkpoint_stands_example :
    (untimed (fold_task_events (before ++ checkpoint_event (fold_task_events before) 4 ∷ more))
      ≡ untimed (fold_task_events (before ++ more)))
    × (untimed (fold_task_events (checkpoint_event (fold_task_events before) 4 ∷ []))
        ≡ untimed (fold_task_events before))
checkpoint_stands_example = checkpoint_stands before more 4
