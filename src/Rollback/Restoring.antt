-- ===== src/Rollback/Restoring.antt =====
-- What a rollback restores (packages/brewva-runtime/src/services/mutation-rollback.ts).
use pi_roaster.Base.{
  ℕ, ◌≡◌, refl, sym, ◌∙◌, ap, subst, String, true, some, List, [], ◌∷◌, ◌++◌, string_eq,
}
use pi_roaster.Task.{TaskState, empty_state}
use pi_roaster.Task.Reading.{TaskEvent, fold_from, fold_task_events}
use pi_roaster.Task.Normal.{IsNormal}
use pi_roaster.Task.Checkpoint.{untimed, untimed-checkpoint, fold_from-append, checkpoint_event}
use pi_roaster.Rollback.{
  Recorded, Cell, Strategy, workspace_patchset, artifact_write, generic_journal, task_state_journal,
  rollback_candidate,
}
use pi_roaster.Rollback.Service.{
  PatchAnswer, RollbackResult, Effect, rolled_back_recorded, observed, roll_back, roll_back_task,
  finish_rollback, rollback_last, task_events_of,
}
use pi_roaster.Rollback.Ending.{rollback_last-some}

observed-nothing :
    (strategy : Strategy) (r : RollbackResult)
    → task_events_of (observed strategy r ++ rolled_back_recorded r ∷ []) ≡ []
unfolding task_events_of
observed-nothing workspace_patchset r = refl
observed-nothing task_state_journal r = refl
observed-nothing artifact_write r = refl
observed-nothing generic_journal r = refl

rollback_last-journal :
    (t : ℕ) (patch : String → PatchAnswer) (c : Cell) (m : Recorded) (before : TaskState)
    → rollback_candidate c ≡ some m
    → m.receipt.strategy ≡ task_state_journal
    → m.before ≡ some before
    → rollback_last t patch c ≡ finish_rollback m (roll_back_task t m (some before)) c
unfolding roll_back
rollback_last-journal t patch c m before found journal kept =
    rollback_last-some t patch c m found
    ∙ ap (λ s. finish_rollback m (roll_back t patch m s) c) journal
    ∙ ap (λ o. finish_rollback m (roll_back_task t m o) c) kept

-- Where the last mutation that changed something and is not rolled back is one of the task's journal,
-- with a state before it whose texts are as the readers leave them, the rollback succeeds and
-- records on the tape what makes the task's spec, status, items and blockers those of that state.
pub rollback_last-restores :
    (t : ℕ) (patch : String → PatchAnswer) (c : Cell) (m : Recorded) (before : TaskState)
    (tape : List TaskEvent)
    → rollback_candidate c ≡ some m
    → m.receipt.strategy ≡ task_state_journal
    → m.before ≡ some before
    → IsNormal before
    → ((rollback_last t patch c).1.ok ≡ true)
      × (untimed (fold_task_events (tape ++ task_events_of (rollback_last t patch c).2))
          ≡ untimed before)
unfolding finish_rollback roll_back_task fold_task_events fold_from task_events_of checkpoint_event
rollback_last-restores t patch c m before tape found journal kept normal =
    subst
      (λ (q : Cell × RollbackResult × List Effect).
        (q.1.ok ≡ true)
        × (untimed (fold_task_events (tape ++ task_events_of q.2)) ≡ untimed before))
      (sym (rollback_last-journal t patch c m before found journal kept))
      (
        refl,
        ap (λ es. untimed (fold_task_events (tape ++ checkpoint_event before t ∷ es)))
              (observed-nothing m.receipt.strategy _)
            ∙ ap untimed (fold_from-append empty_state tape (checkpoint_event before t ∷ []))
            ∙ untimed-checkpoint before (fold_from empty_state tape) t normal,
      )
