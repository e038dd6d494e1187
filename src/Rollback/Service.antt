-- ===== src/Rollback/Service.antt =====
-- packages/brewva-runtime/src/services/mutation-rollback.ts: the rollback of the last mutation. What
-- `FileChangeService.rollbackPatchSet` answers for a patch set is an argument; that it marks the
-- receipt of its patch set itself, before a rollback that is ok marks it, is left out.
use pi_roaster.Base.{
  ℕ, String, Bool, true, false, Option, none, some, List, [], ◌∷◌, ◌++◌, length, if◌then◌else◌,
  ◌==◌, string_eq,
}
use pi_roaster.Task.{TaskState}
use pi_roaster.Task.Reading.{TaskEvent}
use pi_roaster.Task.Checkpoint.{checkpoint_event}
use pi_roaster.Rollback.{
  Strategy, workspace_patchset, task_state_journal, artifact_write, generic_journal, Recorded, Cell,
  rollback_candidate, mark_rolled_back,
}

pub data RollbackReason : Type 0 where
  no_mutation_receipt unsupported_rollback no_patchset restore_failed patchset_not_latest :
      RollbackReason

-- `ToolMutationRollbackResult`; what it copies of the receipt is the receipt of `mutation`.
pub record RollbackResult : Type 0 where
  pub ok : Bool
  pub mutation : Option Recorded
  pub restored : List String
  pub failed : List String
  pub reason : Option RollbackReason

-- The answer of `rollbackPatchSet`.
pub record PatchAnswer : Type 0 where
  pub ok : Bool
  pub restored : List String
  pub failed : List String
  pub reason : Option RollbackReason

-- What a rollback does besides, in its order; `trust_observed` is the call of the trust meter.
pub data Effect : Type 0 where
  task_recorded : TaskEvent → Effect
  verification_reset : String → Effect
  trust_observed : Bool → ℕ → Effect
  rolled_back_recorded : RollbackResult → Effect

-- `buildBaseResult` with no overrides but these three.
abbrev pub base_result : Recorded → Bool → List String → List String → RollbackResult
base_result m ok restored failed = record {
  ok = ok;
  mutation = some m;
  restored = restored;
  failed = failed;
  reason = some unsupported_rollback;
}

abbrev pub no_candidate : RollbackResult
no_candidate = record {
  ok = false;
  mutation = none;
  restored = [];
  failed = [];
  reason = some no_mutation_receipt;
}

unfoldable pub roll_back_patch_set : (String → PatchAnswer) → Recorded → RollbackResult
roll_back_patch_set patch m = elim m.patch_set [
  | none ↦ record (base_result m false [] []) { reason = some no_patchset }
  | some id ↦
      if id == ""
      then record (base_result m false [] []) { reason = some no_patchset }
      else (let a = patch id in
          record (base_result m a.ok a.restored a.failed) { reason = a.reason })
]

-- The branch for a task's journal.
unfoldable pub roll_back_task : ℕ → Recorded → Option TaskState → RollbackResult × List Effect
roll_back_task timestamp m none = (base_result m false [] [], [])
roll_back_task timestamp m (some before) = (
  base_result m true ("task_state" ∷ []) [],
  task_recorded (checkpoint_event before timestamp) ∷ verification_reset m.receipt.id ∷ [],
)

unfoldable pub roll_back :
    ℕ → (String → PatchAnswer) → Recorded → Strategy → RollbackResult × List Effect
unfolding roll_back_patch_set roll_back_task
roll_back timestamp patch m workspace_patchset = (roll_back_patch_set patch m, [])
roll_back timestamp patch m task_state_journal = roll_back_task timestamp m m.before
roll_back timestamp patch m artifact_write = (base_result m false [] [], [])
roll_back timestamp patch m generic_journal = (base_result m false [] [], [])

abbrev pub observed : Strategy → RollbackResult → List Effect
observed workspace_patchset r = []
observed _ r = trust_observed r.ok (length r.failed) ∷ []

-- The end of `rollbackLast`, once a mutation is rolled back or not.
unfoldable pub finish_rollback :
    Recorded → RollbackResult × List Effect → Cell → Cell × RollbackResult × List Effect
finish_rollback m (r, effects) c = (
  if r.ok then mark_rolled_back m.receipt.id c else c,
  r,
  effects ++ observed m.receipt.strategy r ++ rolled_back_recorded r ∷ [],
)

-- `rollbackLast`.
unfoldable pub rollback_last :
    ℕ → (String → PatchAnswer) → Cell → Cell × RollbackResult × List Effect
unfolding roll_back finish_rollback
rollback_last timestamp patch c = elim (rollback_candidate c) [
  | none ↦ (c, no_candidate, [])
  | some m ↦ finish_rollback m (roll_back timestamp patch m m.receipt.strategy) c
]

-- The task events among some effects.
unfoldable pub task_events_of : List Effect → List TaskEvent
task_events_of [] = []
task_events_of (task_recorded e ∷ rest) = e ∷ task_events_of rest
task_events_of (verification_reset id ∷ rest) = task_events_of rest
task_events_of (trust_observed ok failed ∷ rest) = task_events_of rest
task_events_of (rolled_back_recorded r ∷ rest) = task_events_of rest
