-- ===== src/Task/Status.antt =====
-- packages/brewva-runtime/src/services/task.ts: `computeTaskStatus` and `maybeAlignTaskStatus`. The
-- report of the verification, the use of the context and the printing of a number come from other
-- parts and are arguments; ratios are whole parts of one unit.
pub mod Done
mod Tests
use text.Mathlib.Text.{starts_with}
use pi_roaster.Base.{
  ℕ, String, Bool, true, false, not, ◌&&◌, ◌||◌, Option, none, some, List, [], ◌∷◌, ◌++◌, map, leb,
  ltb, ◌==◌, nat_eq, string_eq, if◌then◌else◌, or_else, length, keep, take, is_some,
}
use pi_roaster.Base.Text
use pi_roaster.Base.Sorting.{sort}
use pi_roaster.Task.{
  ItemStatus, item_done, Phase, align, investigate, execute, verify, phase_blocked, phase_done,
  Health, health_ok, exploring, health_blocked, verification_failed, budget_pressure, unknown,
  TaskStatus, Item, Blocker, TaskState,
}
use pi_roaster.Task.Reading.{TaskEvent, raw_status, none_if_empty, fold_task_events}
use pi_roaster.Task.Checkpoint.{raw_status_of}
use pi_roaster.Truth.{FactStatus, active, Severity, info, warn, error, Fact, is_resolved}

-- The fields of `VerificationReport` that are read.
pub record Verification : Type 0 where
  pub passed : Bool
  pub missing_evidence : List String

-- The use of the context and its two limits, after `normalizePercent`.
pub record Usage : Type 0 where
  pub ratio : Option ℕ
  pub enabled : Bool
  pub threshold : ℕ
  pub hard_limit : ℕ

abbrev pub is_done : ItemStatus → Bool
is_done item_done = true
is_done _ = false

unfoldable pub open_items : List Item → List Item
open_items = keep (λ i. not (is_done i.status))

unfoldable pub has_verifier_blocker : List Blocker → Bool
has_verifier_blocker [] = false
has_verifier_blocker (b ∷ bs) = starts_with b.id "verifier:" || has_verifier_blocker bs

abbrev severity_rank : Severity → ℕ
severity_rank error = 3
severity_rank warn = 2
severity_rank info = 1

abbrev is_before : Fact → Fact → Bool
is_before left right =
    if severity_rank left.severity == severity_rank right.severity
    then leb right.last_seen_at left.last_seen_at
    else ltb (severity_rank right.severity) (severity_rank left.severity)

unfoldable pub truth_fact_ids_of : List Fact → List String
truth_fact_ids_of facts =
    map (λ (f : Fact). f.id)
      (take 6 (sort is_before (keep (λ (f : Fact). not (is_resolved f.status)) facts)))

-- `xs.join(",")`.
join : List String → String
join [] = ""
join (x ∷ []) = x
join (x ∷ y ∷ xs) = Text.◌++◌ x (Text.◌++◌ "," (join (y ∷ xs)))

pub record Verdict : Type 0 where
  pub phase : Phase
  pub health : Health
  pub reason : String

unfoldable pub blocked_verdict : Bool → Bool → Verdict
blocked_verdict true true = record {
  phase = phase_blocked;
  health = verification_failed;
  reason = "verification_blockers_present";
}
blocked_verdict true false = record {
  phase = phase_blocked;
  health = health_blocked;
  reason = "blockers_present";
}
blocked_verdict false true = record {
  phase = phase_blocked;
  health = verification_failed;
  reason = "verification_blockers_present_without_spec";
}
blocked_verdict false false = record {
  phase = phase_blocked;
  health = health_blocked;
  reason = "blockers_present_without_spec";
}

unfoldable pub verified_verdict : Verification → Verdict
unfolding join
verified_verdict report =
    if report.passed
    then record { phase = phase_done; health = health_ok; reason = "verification_passed" }
    else record {
      phase = verify;
      health = verification_failed;
      reason =
          if ltb 0 (length report.missing_evidence)
          then Text.◌++◌ "missing_evidence=" (join report.missing_evidence)
          else "verification_missing";
    }

abbrev pub is_well : Health → Bool
is_well health_ok = true
is_well exploring = true
is_well _ = false

-- The context's pressure on a state that is well.
unfoldable pub under_pressure : Usage → Verdict → Verdict
under_pressure u v = elim u.ratio [
  | none ↦ v
  | some ratio ↦
      if is_well v.health && u.enabled && (leb u.hard_limit ratio || leb u.threshold ratio)
      then record v {
        health = budget_pressure;
        reason =
            if leb u.hard_limit ratio
            then "context_hard_limit_pressure"
            else "context_usage_pressure";
      }
      else v
]

abbrev pub phase_rank : Phase → ℕ
phase_rank align = 0
phase_rank investigate = 1
phase_rank execute = 2
phase_rank verify = 3
phase_rank phase_blocked = 4
phase_rank phase_done = 5

abbrev pub health_rank : Health → ℕ
health_rank health_ok = 0
health_rank exploring = 1
health_rank health_blocked = 2
health_rank verification_failed = 3
health_rank budget_pressure = 4
health_rank unknown = 5

-- The comparison of two lists of texts, place by place.
unfoldable pub same_ids : List String → List String → Bool
same_ids [] [] = true
same_ids (a ∷ left) (b ∷ right) = a == b && same_ids left right
same_ids [] (b ∷ right) = false
same_ids (a ∷ left) [] = false

-- `isSameTaskStatus`.
unfoldable pub is_same_task_status : Option TaskStatus → TaskStatus → Bool
unfolding same_ids
is_same_task_status none right = false
is_same_task_status (some left) right =
    phase_rank left.phase == phase_rank right.phase
    && health_rank left.health == health_rank right.health
    && or_else left.reason "" == or_else right.reason ""
    && same_ids (or_else left.truth_fact_ids []) (or_else right.truth_fact_ids [])

-- What a status is computed from, besides the task state.
pub record Inputs : Type 0 where
  pub truth_facts : List Fact
  pub report : Verification
  pub usage : Usage

module _ (show : ℕ → String) where
  -- The branches for a state without a blocker.
  unfoldable pub progress_verdict : Bool → List Item → Verification → Verdict
  unfolding open_items verified_verdict
  progress_verdict false items report =
      if ltb 0 (length (open_items items))
      then record {
        phase = execute;
        health = exploring;
        reason = Text.◌++◌ "spec_missing_open_items=" (show (length (open_items items)));
      }
      else record { phase = investigate; health = exploring; reason = "exploring_without_spec" }
  progress_verdict true [] report = record {
    phase = investigate;
    health = health_ok;
    reason = "no_task_items";
  }
  progress_verdict true (i ∷ is) report =
      if ltb 0 (length (open_items (i ∷ is)))
      then record {
        phase = execute;
        health = health_ok;
        reason = Text.◌++◌ "open_items=" (show (length (open_items (i ∷ is))));
      }
      else verified_verdict report

  unfoldable pub verdict : Bool → List Item → List Blocker → Verification → Verdict
  unfolding progress_verdict blocked_verdict has_verifier_blocker
  verdict has_spec items [] report = progress_verdict has_spec items report
  verdict has_spec items (b ∷ bs) report = blocked_verdict has_spec (has_verifier_blocker (b ∷ bs))

  -- `computeTaskStatus`.
  unfoldable pub compute_task_status : Inputs → TaskState → ℕ → TaskStatus
  unfolding verdict under_pressure truth_fact_ids_of
  compute_task_status x s now =
      let v = under_pressure x.usage (verdict (is_some s.spec) s.items s.blockers x.report) in
      record {
        phase = v.phase;
        health = v.health;
        reason = some v.reason;
        updated_at = now;
        truth_fact_ids = none_if_empty (truth_fact_ids_of x.truth_facts);
      }

  -- `maybeAlignTaskStatus` on the session's tape; the event is recorded at a time of its own.
  unfoldable pub maybe_align_task_status : Inputs → ℕ → ℕ → List TaskEvent → List TaskEvent
  unfolding compute_task_status is_same_task_status
  maybe_align_task_status x now recorded tape =
      let next = compute_task_status x (fold_task_events tape) now in
      if is_same_task_status (fold_task_events tape).status next
      then tape
      else tape
        ++ (record { payload = raw_status (some (raw_status_of next)); timestamp = recorded }) ∷ []
