-- ===== src/Desk/Hydration.antt =====
-- How packages/brewva-runtime/src/services/effect-commitment-desk.ts rebuilds its records from the
-- events of a session.
use mathlib.Core.Option
use pi_roaster.Base.{
  ℕ, String, Bool, true, false, ◌&&◌, Option, none, some, List, [], ◌∷◌, string_eq, if◌then◌else◌,
  or_else,
}
use pi_roaster.Base.Dict
use pi_roaster.Base.Dict.{Dict}
use pi_roaster.Base.Text.{normalize_optional}
use pi_roaster.Desk.Records.{
  EvidenceRef, ProposalKind, effect_commitment, Posture, commitment, Proposal, RequestState,
  pending, accepted, rejected, consumed, RequestRecord, DeskState, empty_desk, Decision, accept,
  EventType, receipt_recorded, approval_requested, approval_decided, approval_consumed,
  EventPayload, Event,
}

-- `readEvidenceRefs`: it does not read the hash of a reference.
unfoldable pub read_evidence_refs : List EvidenceRef → List EvidenceRef
read_evidence_refs [] = []
read_evidence_refs (r ∷ rs) = record r { hash = none } ∷ read_evidence_refs rs

abbrev is_effect_commitment : ProposalKind → Bool
is_effect_commitment effect_commitment = true
is_effect_commitment _ = false

abbrev is_commitment : Posture → Bool
is_commitment commitment = true
is_commitment _ = false

-- `readProposalEnvelope` on a value that has the fields of an envelope.
unfoldable pub read_proposal : Option Proposal → Option Proposal
read_proposal none = none
read_proposal (some p) =
    if is_effect_commitment p.kind && is_commitment p.payload.posture
    then some (record p { evidence_refs = read_evidence_refs p.evidence_refs })
    else none

abbrev proposal_in : Option EventPayload → Option Proposal
proposal_in none = none
proposal_in (some p) = p.proposal

abbrev carries_proposal : EventType → Bool
carries_proposal receipt_recorded = true
carries_proposal approval_requested = true
carries_proposal _ = false

-- `readProposalEnvelopeFromEvent`.
unfoldable pub proposal_of_event : Event → Option Proposal
unfolding read_proposal
proposal_of_event e =
    if carries_proposal e.type_of then read_proposal (proposal_in e.payload) else none

abbrev add_proposal : Option Proposal → Dict Proposal → Dict Proposal
add_proposal none d = d
add_proposal (some p) d = Dict.set p.id p d

-- The first loop of `hydrateStateFromEvents`.
unfoldable pub collect_proposals : Dict Proposal → List Event → Dict Proposal
collect_proposals d [] = d
collect_proposals d (e ∷ es) = collect_proposals (add_proposal (proposal_of_event e) d) es

-- `createHydratedRecord`; an event with no turn counts as turn 0.
unfoldable pub create_record : String → Proposal → Option ℕ → ℕ → RequestRecord
create_record request_id p turn created_at = record {
  request = record {
    request_id = request_id;
    proposal_id = p.id;
    tool_name = p.payload.tool_name;
    tool_call_id = p.payload.tool_call_id;
    subject = p.subject;
    effects = p.payload.effects;
    default_risk = p.payload.default_risk;
    args_summary = p.payload.args_summary;
    evidence_refs = p.evidence_refs;
    turn = or_else turn 0;
    created_at = created_at;
  };
  proposal = p;
  state = pending;
  actor = none;
  reason = none;
}

-- The four texts that both readers want: trimmed, and none of them blank.
pub record Ids : Type 0 where
  pub request_id : String
  pub proposal_id : String
  pub tool_name : String
  pub tool_call_id : String

abbrev pub all_ids : Option String → Option String → Option String → Option String → Option Ids
all_ids (some r) (some p) (some t) (some c) =
    some (record { request_id = r; proposal_id = p; tool_name = t; tool_call_id = c })
all_ids _ _ _ _ = none

unfoldable pub read_ids : EventPayload → Option Ids
read_ids p =
    all_ids (normalize_optional p.request_id) (normalize_optional p.proposal_id)
      (normalize_optional p.tool_name) (normalize_optional p.tool_call_id)

abbrev pub first_of_two : Option Proposal → Option Proposal → Option Proposal
first_of_two (some p) q = some p
first_of_two none q = q

abbrev pub put_record : RequestRecord → DeskState → DeskState
put_record r s = record {
  records = Dict.set r.request.request_id r s.records;
  request_id_by_proposal =
      Dict.set r.request.proposal_id r.request.request_id s.request_id_by_proposal;
}

abbrev put_requested : Option Proposal → Ids → Event → DeskState → DeskState
put_requested none ids e s = s
put_requested (some p) ids e s = put_record (create_record ids.request_id p e.turn e.timestamp) s

-- `readApprovalRequestedEvent` and what the loop does with its answer.
unfoldable pub apply_requested :
    Dict Proposal → EventPayload → Event → Option Ids → DeskState → DeskState
apply_requested proposals p e none s = s
apply_requested proposals p e (some ids) s =
    put_requested (first_of_two (read_proposal p.proposal) (Dict.get ids.proposal_id proposals)) ids
      e s

-- A record, the way `ensureHydratedRecord` finds or makes it.
unfoldable pub ensure_record :
    Option RequestRecord
    → Ids
    → Event
    → Dict Proposal
    → DeskState
    → Option (RequestRecord × DeskState)
ensure_record (some r) ids e proposals s = some (r, s)
ensure_record none ids e proposals s =
    Option.map
      (λ (p : Proposal). (
        create_record ids.request_id p e.turn p.created_at,
        put_record (create_record ids.request_id p e.turn p.created_at) s,
      ))
      (Dict.get ids.proposal_id proposals)

-- The assignments to a record that is in the map.
abbrev pub mark :
    String
    → RequestState
    → Option String
    → Option String
    → Option (RequestRecord × DeskState)
    → DeskState
    → DeskState
mark id state actor reason none s = s
mark id state actor reason (some (r, s')) s = record s' {
  records = Dict.set id (record r { state = state; actor = actor; reason = reason }) s'.records;
}

abbrev decided_state : Option Decision → RequestState
decided_state (some accept) = accepted
decided_state _ = rejected

-- `readDecisionEventPayload`, `ensureHydratedRecord` and the update of the record's state.
unfoldable pub apply_decision :
    Dict Proposal → RequestState → EventPayload → Event → Option Ids → DeskState → DeskState
unfolding ensure_record
apply_decision proposals state p e none s = s
apply_decision proposals state p e (some ids) s =
    mark ids.request_id state (normalize_optional p.actor) (normalize_optional p.reason)
      (ensure_record (Dict.get ids.request_id s.records) ids e proposals s) s

unfoldable pub apply_payload :
    Dict Proposal → EventType → EventPayload → Event → DeskState → DeskState
apply_payload proposals approval_requested p e s = apply_requested proposals p e (read_ids p) s
apply_payload proposals approval_decided p e s =
    apply_decision proposals (decided_state p.decision) p e (read_ids p) s
apply_payload proposals approval_consumed p e s =
    apply_decision proposals consumed p e (read_ids p) s
apply_payload proposals _ p e s = s

abbrev pub apply_event : Dict Proposal → Event → DeskState → DeskState
apply_event proposals e s = elim e.payload [
  | none ↦ s
  | some p ↦ apply_payload proposals e.type_of p e s
]

-- The second loop of `hydrateStateFromEvents`.
unfoldable pub replay : Dict Proposal → DeskState → List Event → DeskState
unfolding apply_payload
replay proposals s [] = s
replay proposals s (e ∷ es) = replay proposals (apply_event proposals e s) es

unfoldable pub hydrate : List Event → DeskState
unfolding replay collect_proposals
hydrate events = replay (collect_proposals [] events) empty_desk events
