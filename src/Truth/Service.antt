-- ===== src/Truth/Service.antt =====
-- packages/brewva-runtime/src/services/truth.ts: `TruthService` on the truth events of one session.
-- `getTruthState` is the fold of the events; the arguments `now` and `recorded` are the readings of
-- the clock by the service and by `recordEvent`.
use pi_roaster.Base.{ℕ, String, Option, none, some, List, [], ◌∷◌, ◌++◌, or_else}
use pi_roaster.Base.Members
use pi_roaster.Base.Text.{normalize_optional}
use pi_roaster.Truth.{
  FactStatus, active, resolved, Severity, Fact, RawFact, RawPayload, raw_upserted, raw_resolved,
  TruthEvent, find_fact, fold_truth_events,
}

pub record UpsertInput : Type 0 where
  pub id : Option String
  pub kind : Option String
  pub severity : Severity
  pub summary : Option String
  pub details : Option String
  pub evidence_ids : List String
  pub status : Option FactStatus

pub data UpsertResult : Type 0 where
  stored : Fact → UpsertResult
  missing_id missing_kind missing_summary : UpsertResult

pub data ResolveResult : Type 0 where
  resolve_ok resolve_missing_id : ResolveResult

-- The JSON of a fact.
abbrev pub to_raw : Fact → RawFact
to_raw f = record {
  id = some f.id;
  kind = some f.kind;
  status = some f.status;
  severity = some f.severity;
  summary = some f.summary;
  details = f.details;
  evidence_ids = f.evidence_ids;
  first_seen_at = some f.first_seen_at;
  last_seen_at = some f.last_seen_at;
  resolved_at = f.resolved_at;
}

abbrev evidence_of : Option Fact → List String
evidence_of none = []
evidence_of (some f) = f.evidence_ids

abbrev first_seen_of : Option Fact → ℕ → ℕ
first_seen_of none now = now
first_seen_of (some f) now = f.first_seen_at

abbrev resolved_at_of : FactStatus → Option Fact → ℕ → Option ℕ
resolved_at_of active existing now = none
resolved_at_of resolved none now = some now
resolved_at_of resolved (some f) now = some (or_else f.resolved_at now)

-- The fact that `upsertTruthFact` records and returns.
unfoldable pub make_fact : String → String → String → UpsertInput → Option Fact → ℕ → Fact
make_fact id kind summary input existing now = record {
  id = id;
  kind = kind;
  status = or_else input.status active;
  severity = input.severity;
  summary = summary;
  details = input.details;
  evidence_ids = Members.add_all (evidence_of existing ++ input.evidence_ids) [];
  first_seen_at = first_seen_of existing now;
  last_seen_at = now;
  resolved_at = resolved_at_of (or_else input.status active) existing now;
}

abbrev pub record_event : RawPayload → ℕ → List TruthEvent → List TruthEvent
record_event payload recorded tape =
    tape ++ (record { payload = payload; timestamp = recorded }) ∷ []

unfoldable pub upsert_found :
    String
    → String
    → String
    → UpsertInput
    → ℕ
    → ℕ
    → List TruthEvent
    → List TruthEvent × UpsertResult
upsert_found id kind summary input now recorded tape =
    let fact = make_fact id kind summary input (find_fact id (fold_truth_events tape).facts) now in
    (record_event (raw_upserted (to_raw fact)) recorded tape, stored fact)

-- The three early returns of `upsertTruthFact`.
unfoldable pub upsert_checked :
    Option String
    → Option String
    → Option String
    → UpsertInput
    → ℕ
    → ℕ
    → List TruthEvent
    → List TruthEvent × UpsertResult
upsert_checked none kind summary input now recorded tape = (tape, missing_id)
upsert_checked (some id) none summary input now recorded tape = (tape, missing_kind)
upsert_checked (some id) (some kind) none input now recorded tape = (tape, missing_summary)
upsert_checked (some id) (some kind) (some summary) input now recorded tape =
    upsert_found id kind summary input now recorded tape

unfoldable pub upsert_truth_fact :
    UpsertInput → ℕ → ℕ → List TruthEvent → List TruthEvent × UpsertResult
unfolding upsert_checked
upsert_truth_fact input now recorded tape =
    upsert_checked (normalize_optional input.id) (normalize_optional input.kind)
      (normalize_optional input.summary) input now recorded tape

unfoldable pub resolve_checked :
    Option String → ℕ → ℕ → List TruthEvent → List TruthEvent × ResolveResult
resolve_checked none now recorded tape = (tape, resolve_missing_id)
resolve_checked (some id) now recorded tape =
    (record_event (raw_resolved (some id) (some now)) recorded tape, resolve_ok)

unfoldable pub resolve_truth_fact :
    Option String → ℕ → ℕ → List TruthEvent → List TruthEvent × ResolveResult
unfolding resolve_checked
resolve_truth_fact id now recorded tape = resolve_checked (normalize_optional id) now recorded tape
