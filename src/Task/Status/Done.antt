-- ===== src/Task/Status/Done.antt =====
-- When packages/brewva-runtime/src/services/task.ts calls a task done, and that it then stays
-- aligned.
use pi_roaster.Base.{
  ℕ, ◌≡◌, refl, ap, sym, ◌∙◌, subst, inl, inr, String, Bool, true, false, not, ◌&&◌, Option, none,
  some, List, [], ◌∷◌, ◌++◌, ◌==◌, nat_eq, string_eq, eq_iff, ltb, if◌then◌else◌, if_cases,
  Bool-cases, or_else, is_some, length, arith,
}
use pi_roaster.Base.Text
use pi_roaster.Base.Coerce.{◌>>=◌}
use pi_roaster.Task.{
  Phase, execute, phase_done, health_ok, TaskStatus, Item, Blocker, TaskState, empty_state,
  reduce_task_state, status_set,
}
use pi_roaster.Task.Reading.{
  TaskEvent, raw_status, coerce_payload, apply_payload, fold_from, fold_task_events,
}
use pi_roaster.Task.Normal.{IsNormalStatus}
use pi_roaster.Task.Checkpoint.{raw_status_of, read_status-written, fold_from-append}
use pi_roaster.Task.Status.{
  Verification, Usage, Inputs, Verdict, open_items, has_verifier_blocker, blocked_verdict,
  verified_verdict, progress_verdict, verdict, under_pressure, compute_task_status,
  is_same_task_status, same_ids, maybe_align_task_status, phase_rank, health_rank,
}

abbrev pub is_phase_done : Phase → Bool
is_phase_done phase_done = true
is_phase_done _ = false

abbrev pub is_empty {ℓ} : {A : Type ℓ} → List A → Bool
is_empty [] = true
is_empty (x ∷ xs) = false

phase-under_pressure : (u : Usage) (v : Verdict) → (under_pressure u v).phase ≡ v.phase
unfolding under_pressure
phase-under_pressure u v = ground arith

blocked_not_done :
    (spec verifier : Bool) → is_phase_done (blocked_verdict spec verifier).phase ≡ false
unfolding blocked_verdict
blocked_not_done true true = refl
blocked_not_done true false = refl
blocked_not_done false true = refl
blocked_not_done false false = refl

done-verified_verdict : (r : Verification) → is_phase_done (verified_verdict r).phase ≡ r.passed
unfolding verified_verdict
done-verified_verdict r = ground arith

module _ (show : ℕ → String) where
  done-progress_verdict :
      (spec : Bool) (items : List Item) (r : Verification)
      → is_phase_done (progress_verdict show spec items r).phase
        ≡ (spec && not (is_empty items) && is_empty (open_items items) && r.passed)
  unfolding progress_verdict
  done-progress_verdict false items r =
      if_cases (λ (v : Verdict). is_phase_done v.phase ≡ false) (ltb 0 (length (open_items items)))
        (λ _. refl) (λ _. refl)
  done-progress_verdict true [] r = refl
  done-progress_verdict true (i ∷ is) r = go (open_items (i ∷ is))
    where
      go :
          (os : List Item)
          → is_phase_done
              (if ltb 0 (length os)
                then record {
                  phase = execute;
                  health = health_ok;
                  reason = Text.◌++◌ "open_items=" (show (length os));
                }
                else verified_verdict r).phase
            ≡ (is_empty os && r.passed)
      go [] = done-verified_verdict r
      go (o ∷ os) = ground arith

  done-verdict :
      (spec : Bool) (items : List Item) (bs : List Blocker) (r : Verification)
      → is_phase_done (verdict show spec items bs r).phase
        ≡ (spec && is_empty bs && not (is_empty items) && is_empty (open_items items) && r.passed)
  unfolding verdict
  done-verdict true items [] r = done-progress_verdict true items r
  done-verdict false items [] r = done-progress_verdict false items r
  done-verdict true items (b ∷ bs) r = blocked_not_done true (has_verifier_blocker (b ∷ bs))
  done-verdict false items (b ∷ bs) r = blocked_not_done false (has_verifier_blocker (b ∷ bs))

-- A task is called done exactly if it has a spec and items, no blocker and no open item, and its
-- verification passed.
pub computes_done :
    (show : ℕ → String) (x : Inputs) (s : TaskState) (now : ℕ)
    → is_phase_done (compute_task_status show x s now).phase ≡ (
        is_some s.spec
        && is_empty s.blockers
        && not (is_empty s.items)
        && is_empty (open_items s.items)
        && x.report.passed)
unfolding compute_task_status
computes_done show x s now =
    ap is_phase_done (phase-under_pressure x.usage _)
    ∙ done-verdict show (is_some s.spec) s.items s.blockers x.report

same_ids_refl : (l : List String) → same_ids l l ≡ true
unfolding same_ids
same_ids_refl [] = refl
same_ids_refl (a ∷ l) = ground (arith, eq_iff a a, same_ids_refl l)

nat_refl : (n : ℕ) → (n == n) ≡ true
nat_refl n = ground arith

same_but_time :
    (s : TaskStatus) (now : ℕ) → is_same_task_status (some s) (record s { updated_at = now }) ≡ true
unfolding is_same_task_status
same_but_time s now = ground (
  arith,
  nat_refl (phase_rank s.phase),
  nat_refl (health_rank s.health),
  eq_iff (or_else s.reason "") (or_else s.reason ""),
  same_ids_refl (or_else s.truth_fact_ids []),
)

-- The status that the last event of a tape sets.
fold-status_set :
    (st : TaskStatus) (recorded : ℕ) (tape : List TaskEvent)
    → IsNormalStatus st
    → fold_task_events (
        tape
        ++ (record { payload = raw_status (some (raw_status_of st)); timestamp = recorded }) ∷ [])
      ≡ reduce_task_state (fold_task_events tape) (status_set st) recorded
unfolding fold_task_events fold_from coerce_payload
fold-status_set st recorded tape h =
    fold_from-append empty_state tape _
    ∙ ap (λ o. apply_payload (o >>= λ q. some (status_set q)) recorded (fold_from empty_state tape))
        (read_status-written (some st) h)

is_same-any_time :
    (o : Option TaskStatus) (st : TaskStatus) (t : ℕ)
    → is_same_task_status o (record st { updated_at = t }) ≡ is_same_task_status o st
unfolding is_same_task_status
is_same-any_time none st t = refl
is_same-any_time (some s) st t = refl

-- No event is recorded where the computed status is the one that is there.
align-same :
    (show : ℕ → String) (x : Inputs) (now recorded : ℕ) (tape : List TaskEvent)
    → is_same_task_status
        (fold_task_events tape).status
        (compute_task_status show x (fold_task_events tape) now)
      ≡ true
    → maybe_align_task_status show x now recorded tape ≡ tape
unfolding maybe_align_task_status
align-same show x now recorded tape e = rw e refl

align-new :
    (show : ℕ → String) (x : Inputs) (now recorded : ℕ) (tape : List TaskEvent)
    → is_same_task_status
        (fold_task_events tape).status
        (compute_task_status show x (fold_task_events tape) now)
      ≡ false
    → maybe_align_task_status show x now recorded tape
      ≡ tape
        ++ (record {
          payload =
              raw_status
                (some (raw_status_of (compute_task_status show x (fold_task_events tape) now)));
          timestamp = recorded;
        })
          ∷ []
unfolding maybe_align_task_status
align-new show x now recorded tape e = rw e refl

-- The status that was just set is the one that is computed after it.
set_is_same :
    (show : ℕ → String) (x : Inputs) (now later_now recorded : ℕ) (s : TaskState)
    → (let after = reduce_task_state s (status_set (compute_task_status show x s now)) recorded in
        is_same_task_status after.status (compute_task_status show x after later_now) ≡ true)
unfolding reduce_task_state compute_task_status
set_is_same show x now later_now recorded s = same_but_time _ later_now

-- Aligning the status twice, with the same inputs at any two times, records the same events as
-- aligning it once, where the texts of the computed status are trimmed.
pub align_settles :
    (show : ℕ → String) (x : Inputs) (now later_now recorded later_recorded : ℕ)
    (tape : List TaskEvent)
    → IsNormalStatus (compute_task_status show x (fold_task_events tape) now)
    → maybe_align_task_status show x later_now later_recorded
        (maybe_align_task_status show x now recorded tape)
      ≡ maybe_align_task_status show x now recorded tape
unfolding compute_task_status
align_settles show x now later_now recorded later_recorded tape h =
    elim (Bool-cases (is_same_task_status state.status next)) [
      | inl same ↦ rw (align-same show x now recorded tape same) (
          align-same show x later_now later_recorded tape
            (is_same-any_time state.status next later_now ∙ same))
      | inr new ↦ rw (align-new show x now recorded tape new) (
          align-same show x later_now later_recorded _ (
            subst
              (λ (q : TaskState).
                is_same_task_status q.status (compute_task_status show x q later_now) ≡ true)
              (sym (fold-status_set next recorded tape h))
              (set_is_same show x now later_now recorded state)))
    ]
  where
    state : TaskState
    state = fold_task_events tape

    next : TaskStatus
    next = compute_task_status show x state now
