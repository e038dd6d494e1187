-- ===== src/Truth.antt =====
-- packages/brewva-runtime/src/truth/ledger.ts: the facts of a session as a fold of its truth events,
-- and the reader of an event's payload. A raw payload is what the reader finds in the JSON of an
-- event with the ledger's schema: a field is `none` where it has no value of its type.
pub mod Service
pub mod PerFact
pub mod Changes
mod Tests
use pi_roaster.Base.{
  ℕ, max, String, Bool, true, false, Option, none, some, List, [], ◌∷◌, ◌++◌, map, ◌==◌, string_eq,
  if◌then◌else◌, or_else, keep, not, is_some,
}
use pi_roaster.Base.Members
use pi_roaster.Base.Coerce.{◌>>=◌, normalize_string_array}
use pi_roaster.Base.Text.{trim, normalize_optional}

pub data FactStatus : Type 0 where
  active resolved : FactStatus

pub data Severity : Type 0 where
  info warn error : Severity

-- `TruthFact`; the details are one JSON text.
pub record Fact : Type 0 where
  pub id : String
  pub kind : String
  pub status : FactStatus
  pub severity : Severity
  pub summary : String
  pub details : Option String
  pub evidence_ids : List String
  pub first_seen_at : ℕ
  pub last_seen_at : ℕ
  pub resolved_at : Option ℕ

pub record TruthState : Type 0 where
  pub facts : List Fact
  pub updated_at : Option ℕ

pub data Payload : Type 0 where
  fact_upserted : Fact → Payload
  fact_resolved : String → Option ℕ → Payload

abbrev pub empty_state : TruthState
empty_state = record { facts = []; updated_at = none }

-- `mergeEvidenceIds`.
unfoldable pub merge_evidence_ids : List String → List String → List String
merge_evidence_ids existing [] = existing
merge_evidence_ids existing (id ∷ ids) = Members.add_all (id ∷ ids) (Members.add_all existing [])

unfoldable pub find_fact : String → List Fact → Option Fact
find_fact id [] = none
find_fact id (f ∷ fs) = if f.id == id then some f else find_fact id fs

-- The fact that an upsert makes of the one that is there.
unfoldable pub merge_fact : Fact → Fact → Fact
merge_fact existing incoming = record existing {
  kind = incoming.kind;
  status = incoming.status;
  severity = incoming.severity;
  summary = incoming.summary;
  details = incoming.details;
  evidence_ids = merge_evidence_ids existing.evidence_ids incoming.evidence_ids;
  last_seen_at = max existing.last_seen_at incoming.last_seen_at;
}

-- `state.facts.map` with a new fact for each of that id.
unfoldable pub replace_fact : Fact → List Fact → List Fact
replace_fact new [] = []
replace_fact new (f ∷ fs) = (if f.id == new.id then new else f) ∷ replace_fact new fs

unfoldable pub upsert_into : Option Fact → Fact → List Fact → List Fact
unfolding merge_fact
upsert_into none incoming fs = fs ++ incoming ∷ []
upsert_into (some existing) incoming fs = replace_fact (merge_fact existing incoming) fs

abbrev pub is_resolved : FactStatus → Bool
is_resolved active = false
is_resolved resolved = true

-- A fact of the id that is resolved, at the event's time where the payload names none.
unfoldable pub resolve_fact : Option ℕ → ℕ → Fact → Fact
resolve_fact at timestamp f = if is_resolved f.status then f else record f {
  status = resolved;
  resolved_at = some (or_else at timestamp);
  last_seen_at = max f.last_seen_at timestamp;
}

unfoldable pub resolve_all : String → Option ℕ → ℕ → List Fact → List Fact
resolve_all id at timestamp [] = []
resolve_all id at timestamp (f ∷ fs) =
    (if f.id == id then resolve_fact at timestamp f else f) ∷ resolve_all id at timestamp fs

unfoldable pub reduce_facts : List Fact → Payload → ℕ → List Fact
reduce_facts fs (fact_upserted incoming) timestamp =
    upsert_into (find_fact incoming.id fs) incoming fs
reduce_facts fs (fact_resolved id at) timestamp = resolve_all id at timestamp fs

-- `reduceTruthState`.
unfoldable pub reduce_truth_state : TruthState → Payload → ℕ → TruthState
unfolding reduce_facts
reduce_truth_state s p timestamp = record {
  facts = reduce_facts s.facts p timestamp;
  updated_at = some (max (or_else s.updated_at 0) timestamp);
}

-- The fields of a payload, before they are read.
pub record RawFact : Type 0 where
  pub id : Option String
  pub kind : Option String
  pub status : Option FactStatus
  pub severity : Option Severity
  pub summary : Option String
  pub details : Option String
  pub evidence_ids : List String
  pub first_seen_at : Option ℕ
  pub last_seen_at : Option ℕ
  pub resolved_at : Option ℕ

pub data RawPayload : Type 0 where
  raw_upserted : RawFact → RawPayload
  raw_resolved : Option String → Option ℕ → RawPayload
  raw_other : RawPayload

-- `coerceTruthFact`.
unfoldable pub coerce_truth_fact : RawFact → Option Fact
coerce_truth_fact r = do
  id ← normalize_optional r.id
  kind ← normalize_optional r.kind
  status ← r.status
  severity ← r.severity
  summary ← normalize_optional r.summary
  first_seen_at ← r.first_seen_at
  last_seen_at ← r.last_seen_at
  some (record {
    id = id;
    kind = kind;
    status = status;
    severity = severity;
    summary = summary;
    details = r.details;
    evidence_ids = normalize_string_array r.evidence_ids;
    first_seen_at = first_seen_at;
    last_seen_at = last_seen_at;
    resolved_at = r.resolved_at;
  })

-- `coerceTruthLedgerPayload`.
unfoldable pub coerce_payload : RawPayload → Option Payload
unfolding coerce_truth_fact
coerce_payload (raw_upserted r) = coerce_truth_fact r >>= λ f. some (fact_upserted f)
coerce_payload (raw_resolved id at) = normalize_optional id >>= λ i. some (fact_resolved i at)
coerce_payload raw_other = none

-- A truth event: the payload and the time of the event.
pub record TruthEvent : Type 0 where
  pub payload : RawPayload
  pub timestamp : ℕ

abbrev pub apply_payload : Option Payload → ℕ → TruthState → TruthState
apply_payload none timestamp s = s
apply_payload (some p) timestamp s = reduce_truth_state s p timestamp

-- The loop of `foldTruthLedgerEvents`.
unfoldable pub fold_from : TruthState → List TruthEvent → TruthState
fold_from s [] = s
fold_from s (e ∷ es) = fold_from (apply_payload (coerce_payload e.payload) e.timestamp s) es

unfoldable pub fold_truth_events : List TruthEvent → TruthState
unfolding fold_from
fold_truth_events es = fold_from empty_state es
