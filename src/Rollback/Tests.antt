-- ===== src/Rollback/Tests.antt =====
-- A session in which a tool changed the task, and is rolled back.
use pi_roaster.Base.{suc, ◌≡◌, refl, true, false, none, some, [], ◌∷◌, length, All, string_eq}
use pi_roaster.Base.Dict
use pi_roaster.Base.Members
use pi_roaster.Base.Text.{trim, to_lower_case}
use pi_roaster.Desk.{normalize_tool_name}
use pi_roaster.Task.{TaskState, empty_state, new_item}
use pi_roaster.Task.Reading.{fold_task_events}
use pi_roaster.Task.Normal.Reducer.{empty-IsNormal}
use pi_roaster.Task.Checkpoint.{untimed, checkpoint_event}
use pi_roaster.Rollback.{
  Descriptor, Cell, Recorded, Outcome, task_state_journal, task_state_replay, resolve_strategy,
  prepare, recorded_of, record_mutation, clear_mutations, rollback_candidate, latest_open,
}
use pi_roaster.Rollback.Service.{
  PatchAnswer, RollbackResult, rollback_last, task_events_of, restore_failed,
}
use pi_roaster.Rollback.Ending.{HasCleanId, roll_back_all, roll_back_all-ends}
use pi_roaster.Rollback.Restoring.{rollback_last-restores}

abbrev tool : Descriptor
tool = record { is_reversible = true; effects = "memory_write" ∷ [] }

abbrev changed_state : TaskState
changed_state = record empty_state { items = new_item "i1" "test" none 7 ∷ [] }

abbrev outcome : Outcome
outcome = record { patch_set = none; artifact = none; state = changed_state }

-- The first call prepares a mutation, and the second records that the task changed.
abbrev used : Cell
used =
    let prepared =
      (prepare (some tool) "mutation:task_add:c1:5" "c1" " task_add " empty_state 1 5
        clear_mutations).0 in
    (record_mutation (λ before after. false) "c1" outcome prepared).0

abbrev done : Recorded
done = record {
  receipt = record {
    id = "mutation:task_add:c1:5";
    call_id = "c1";
    tool = "task_add";
    strategy = task_state_journal;
    kind = task_state_replay;
    effects = "memory_write" ∷ [];
    turn = 1;
    timestamp = 5;
  };
  changed = true;
  patch_set = none;
  before = some empty_state;
  after = some changed_state;
  artifact = none;
}

used_once : used.history ≡ done ∷ []
unfolding prepare resolve_strategy record_mutation recorded_of Dict.get Dict.set Dict.delete
    Members.has trim normalize_tool_name to_lower_case
used_once = refl

done_found : rollback_candidate used ≡ some done
unfolding prepare resolve_strategy record_mutation recorded_of rollback_candidate latest_open
    Dict.get Dict.set Dict.delete Members.has trim normalize_tool_name to_lower_case
done_found = refl

abbrev refused : PatchAnswer
refused = record { ok = false; restored = []; failed = "a.ts" ∷ []; reason = some restore_failed }

rollback_last-restores_example :
    ((rollback_last 9 (λ id. refused) used).1.ok ≡ true)
    × (untimed (
          fold_task_events (
            checkpoint_event changed_state 8
            ∷ task_events_of (rollback_last 9 (λ id. refused) used).2))
        ≡ untimed empty_state)
rollback_last-restores_example =
    rollback_last-restores 9 (λ id. refused) used done empty_state
      (checkpoint_event changed_state 8 ∷ []) done_found refl refl empty-IsNormal

used-HasCleanId : All HasCleanId used.history
unfolding prepare resolve_strategy record_mutation recorded_of Dict.get Dict.set Dict.delete
    Members.has trim normalize_tool_name to_lower_case
used-HasCleanId = ((refl, refl), tt)

roll_back_all-ends_example :
    (r : RollbackResult) × (roll_back_all (suc (length used.history)) (λ n id. refused) used
      ≡ some r)
    × (r.ok ≡ false)
roll_back_all-ends_example = roll_back_all-ends (λ n id. refused) used used-HasCleanId
