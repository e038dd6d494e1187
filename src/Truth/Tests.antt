-- ===== src/Truth/Tests.antt =====
-- The truth ledger on one fact that is reported, resolved and reported again.
use mathlib.Core.Option
use pi_roaster.Base.{
  ◌≡◌, refl, max, String, none, some, List, [], ◌∷◌, ◌==◌, string_eq, if◌then◌else◌, not, ◌&&◌,
}
use pi_roaster.Base.Members
use pi_roaster.Base.Text.{trim, normalize_optional}
use pi_roaster.Truth.{
  Fact, active, resolved, error, TruthEvent, is_resolved, find_fact, fold_truth_events,
}
use pi_roaster.Truth.Service.{UpsertInput, upsert_truth_fact, resolve_truth_fact}
use pi_roaster.Truth.PerFact.{history, find_fact-fold}
use pi_roaster.Truth.Changes.{fact_on, resolve_resolves}

abbrev key : String
key = "tests"

abbrev report : UpsertInput
report = record {
  id = some " tests ";
  kind = some "command_failure";
  severity = error;
  summary = some "bun test failed";
  details = none;
  evidence_ids = "e1" ∷ "e1" ∷ [];
  status = none;
}

abbrev reported : Fact
reported = record {
  id = "tests";
  kind = "command_failure";
  status = active;
  severity = error;
  summary = "bun test failed";
  details = none;
  evidence_ids = "e1" ∷ [];
  first_seen_at = 5;
  last_seen_at = 5;
  resolved_at = none;
}

abbrev tape : List TruthEvent
tape = (upsert_truth_fact report 5 6 []).0

id_trims : normalize_optional (some "tests ") ≡ some "tests"
unfolding normalize_optional trim
id_trims = refl

resolve_resolves_example :
    fact_on "tests" (resolve_truth_fact (some "tests ") 8 9 tape).0
    ≡ Option.map
        (λ (f : Fact).
          if key == key && not (is_resolved f.status)
          then record f {
            status = resolved;
            resolved_at = some 8;
            last_seen_at = max f.last_seen_at 9;
          }
          else f)
        (fact_on "tests" tape)
resolve_resolves_example = resolve_resolves (some "tests ") "tests" "tests" 8 9 tape id_trims

-- The same report again, as one that is resolved.
abbrev closing : UpsertInput
closing = record report { status = some resolved }

abbrev closed : Fact
closed = record reported { status = resolved; last_seen_at = 12; resolved_at = some 12 }

find_fact-fold_example : find_fact "tests" (fold_truth_events tape).facts ≡ history "tests" tape
find_fact-fold_example = find_fact-fold "tests" tape
