-- ===== src/Desk/Records.antt =====
-- The data of packages/brewva-runtime/src/services/effect-commitment-desk.ts: proposals, requests,
-- records and the events of the tape (packages/brewva-runtime/src/types.ts).
use pi_roaster.Base.{ℕ, String, Option, List, []}
use pi_roaster.Base.Dict.{Dict}

pub record EvidenceRef : Type 0 where
  pub id : String
  pub source_type : String
  pub locator : String
  pub hash : Option String
  pub created_at : ℕ

pub data ProposalKind : Type 0 where
  skill_selection context_packet effect_commitment : ProposalKind

pub data Posture : Type 0 where
  observe reversible_mutate commitment : Posture

-- `EffectCommitmentProposalPayload`.
pub record ProposalPayload : Type 0 where
  pub tool_name : String
  pub tool_call_id : String
  pub posture : Posture
  pub effects : List String
  pub default_risk : Option String
  pub args_summary : Option String

-- `ProposalEnvelope<"effect_commitment">`.
pub record Proposal : Type 0 where
  pub id : String
  pub kind : ProposalKind
  pub issuer : String
  pub subject : String
  pub payload : ProposalPayload
  pub evidence_refs : List EvidenceRef
  pub confidence : Option ℕ
  pub expires_at : Option ℕ
  pub created_at : ℕ

-- `PendingEffectCommitmentRequest`; its posture is always `commitment`.
pub record Request : Type 0 where
  pub request_id : String
  pub proposal_id : String
  pub tool_name : String
  pub tool_call_id : String
  pub subject : String
  pub effects : List String
  pub default_risk : Option String
  pub args_summary : Option String
  pub evidence_refs : List EvidenceRef
  pub turn : ℕ
  pub created_at : ℕ

pub data RequestState : Type 0 where
  pending accepted rejected consumed : RequestState

pub record RequestRecord : Type 0 where
  pub request : Request
  pub proposal : Proposal
  pub state : RequestState
  pub actor : Option String
  pub reason : Option String

pub record DeskState : Type 0 where
  pub records : Dict RequestRecord
  pub request_id_by_proposal : Dict String

abbrev pub empty_desk : DeskState
empty_desk = record { records = []; request_id_by_proposal = [] }

pub data Decision : Type 0 where
  accept reject : Decision

pub data EventType : Type 0 where
  receipt_recorded approval_requested approval_decided approval_consumed other_event : EventType

-- What the desk reads of a payload. A field is `none` where the payload has no value of its type.
pub record EventPayload : Type 0 where
  pub request_id : Option String
  pub proposal_id : Option String
  pub tool_name : Option String
  pub tool_call_id : Option String
  pub decision : Option Decision
  pub actor : Option String
  pub reason : Option String
  pub proposal : Option Proposal

-- `BrewvaEventRecord`; the payload is `none` where it is not an object.
pub record Event : Type 0 where
  pub type_of : EventType
  pub turn : Option ℕ
  pub timestamp : ℕ
  pub payload : Option EventPayload
