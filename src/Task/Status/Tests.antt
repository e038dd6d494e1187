-- ===== src/Task/Status/Tests.antt =====
-- A session with a blocker: its status is set once.
use pi_roaster.Base.{
  ℕ, zero, suc, String, ◌≡◌, refl, some, none, true, false, not, ◌&&◌, [], ◌∷◌, List, keep, take,
  is_some,
}
use pi_roaster.Base.Text.{trim, normalize_optional}
use pi_roaster.Base.Coerce.{normalize_string_array}
use pi_roaster.Base.Sorting.{insert, sort}
use pi_roaster.Truth.{Fact, active, error}
use pi_roaster.Task.{reduce_task_state, find_blocker, record_blocker}
use pi_roaster.Task.Reading.{
  TaskEvent, raw_blocker_recorded, coerce_payload, read_ids, fold_from, fold_task_events,
}
use pi_roaster.Task.Normal.{IsNormalStatus}
use pi_roaster.Task.Status.{
  Inputs, verdict, blocked_verdict, has_verifier_blocker, under_pressure, truth_fact_ids_of,
  open_items, compute_task_status, maybe_align_task_status,
}
use pi_roaster.Task.Status.Done.{is_phase_done, is_empty, computes_done, align_settles}

show : ℕ → String
show zero = "0"
show (suc n) = "some"

abbrev failing_build : Fact
failing_build = record {
  id = "build";
  kind = "command_failure";
  status = active;
  severity = error;
  summary = "build fails";
  details = none;
  evidence_ids = [];
  first_seen_at = 1;
  last_seen_at = 3;
  resolved_at = none;
}

abbrev inputs : Inputs
inputs = record {
  truth_facts = failing_build ∷ [];
  report = record { passed = false; missing_evidence = "lint" ∷ [] };
  usage = record { ratio = some 60; enabled = true; threshold = 80; hard_limit = 90 };
}

abbrev tape : List TaskEvent
tape =
    (record {
      payload = raw_blocker_recorded (some "verifier:build") (some "build fails") none none;
      timestamp = 2;
    })
    ∷ []

computed-IsNormal : IsNormalStatus (compute_task_status show inputs (fold_task_events tape) 4)
unfolding compute_task_status verdict blocked_verdict has_verifier_blocker under_pressure
    truth_fact_ids_of sort insert keep take fold_task_events fold_from coerce_payload
    reduce_task_state find_blocker record_blocker read_ids normalize_string_array normalize_optional
    trim
computed-IsNormal = record { reason_clean = refl; ids_clean = refl }

align_settles_example :
    maybe_align_task_status show inputs 8 9 (maybe_align_task_status show inputs 4 5 tape)
    ≡ maybe_align_task_status show inputs 4 5 tape
align_settles_example = align_settles show inputs 4 8 5 9 tape computed-IsNormal

computes_done_example :
    is_phase_done (compute_task_status show inputs (fold_task_events tape) 4).phase ≡ (
      is_some (fold_task_events tape).spec
      && is_empty (fold_task_events tape).blockers
      && not (is_empty (fold_task_events tape).items)
      && is_empty (open_items (fold_task_events tape).items)
      && inputs.report.passed)
computes_done_example = computes_done show inputs (fold_task_events tape) 4
