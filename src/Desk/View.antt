-- ===== src/Desk/View.antt =====
-- What the tape keeps of a desk: all but when a request was made and the hashes of its evidence.
use mathlib.Core.Option
use pi_roaster.Base.{
  ℕ, ◌≡◌, refl, ap, ◌∙◌, inl, inr, String, Option, some, List, [], ◌∷◌, Option-cases, arith,
  string_eq,
}
use pi_roaster.Base.Dict
use pi_roaster.Base.Dict.{Dict, map_values, get-map_values, map_values-set}
use pi_roaster.Base.Text.{normalize_optional}
use pi_roaster.Desk.Records.{
  EvidenceRef, effect_commitment, commitment, Proposal, RequestState, RequestRecord, DeskState,
  EventPayload, Event,
}
use pi_roaster.Desk.Hydration.{
  read_evidence_refs, read_proposal, create_record, put_record, Ids, ensure_record, apply_decision,
}

unfoldable pub settle : RequestRecord → RequestRecord
settle r = record r {
  request = record r.request {
    created_at = 0;
    evidence_refs = read_evidence_refs r.request.evidence_refs;
  };
  proposal = record r.proposal { evidence_refs = read_evidence_refs r.proposal.evidence_refs };
}

unfoldable pub view : DeskState → DeskState
view d = record d { records = map_values settle d.records }

pub read_evidence_refs_idem :
    (rs : List EvidenceRef) → read_evidence_refs (read_evidence_refs rs) ≡ read_evidence_refs rs
unfolding read_evidence_refs
read_evidence_refs_idem [] = refl
read_evidence_refs_idem (r ∷ rs) = cc (read_evidence_refs_idem rs)

abbrev pub stripped : Proposal → Proposal
stripped p = record p { evidence_refs = read_evidence_refs p.evidence_refs }

-- A record that is made of the proposal on the tape settles like the one of the proposal itself.
pub settle-create_record :
    (id : String) (p : Proposal) (turn : Option ℕ) (t t' : ℕ)
    → settle (create_record id (stripped p) turn t) ≡ settle (create_record id p turn t')
unfolding settle create_record
settle-create_record id p turn t t' = simp read_evidence_refs_idem

pub view-put_record :
    (r : RequestRecord) (d : DeskState)
    → view (put_record r d) ≡ record (view d) {
      records = Dict.set r.request.request_id (settle r) (view d).records;
      request_id_by_proposal =
          Dict.set r.request.proposal_id r.request.request_id (view d).request_id_by_proposal;
    }
unfolding view
view-put_record r d = simp map_values-set

-- `settle` leaves the ids and the state of a record alone.
pub view-set :
    (k : String) (r : RequestRecord) (d : DeskState)
    → view (record d { records = Dict.set k r d.records })
      ≡ record (view d) { records = Dict.set k (settle r) (view d).records }
unfolding view
view-set k r d = simp map_values-set

pub get-view :
    (k : String) (d : DeskState)
    → Dict.get k (view d).records ≡ Option.map settle (Dict.get k d.records)
unfolding view
get-view k d = get-map_values settle k d.records

-- A text that is not blank and has no space at its ends.
abbrev pub IsNormal : String → Type 0
IsNormal s = normalize_optional (some s) ≡ some s

-- What holds of every record that the service makes, under its key.
pub record IsGood (k : String) (r : RequestRecord) : Type 0 where
  pub key : r.request.request_id ≡ k
  pub id_normal : IsNormal r.request.request_id
  pub proposal_normal : IsNormal r.request.proposal_id
  pub tool_normal : IsNormal r.request.tool_name
  pub call_normal : IsNormal r.request.tool_call_id
  pub actor_normal : normalize_optional r.actor ≡ r.actor
  pub reason_normal : normalize_optional r.reason ≡ r.reason

abbrev pub AllGood : DeskState → Type 0
AllGood v = (k : String) (r : RequestRecord) → Dict.get k v.records ≡ some r → IsGood k r

-- A proposal that the service can read back from the tape.
pub record IsReadable (p : Proposal) : Type 0 where
  pub kind : p.kind ≡ effect_commitment
  pub posture : p.payload.posture ≡ commitment
  pub id_normal : IsNormal p.id
  pub tool_normal : IsNormal p.payload.tool_name
  pub call_normal : IsNormal p.payload.tool_call_id

pub read_proposal_of_IsReadable :
    (p : Proposal) → IsReadable p → read_proposal (some p) ≡ some (stripped p)
unfolding read_proposal
read_proposal_of_IsReadable p h = ground arith

-- The update of a record's state, actor and reason.
abbrev pub marked : RequestState → Option String → Option String → RequestRecord → RequestRecord
marked state actor reason r = record r { state = state; actor = actor; reason = reason }

pub settle-marked :
    (state : RequestState) (actor reason : Option String) (r : RequestRecord)
    → settle (marked state actor reason r) ≡ marked state actor reason (settle r)
unfolding settle
settle-marked state actor reason r = refl

-- The view of a desk in which a record was updated.
pub view-marked :
    (k : String) (state : RequestState) (actor reason : Option String) (d : DeskState)
    (r v : RequestRecord)
    → Dict.get k d.records ≡ some r
    → Dict.get k (view d).records ≡ some v
    → view (record d { records = Dict.set k (marked state actor reason r) d.records })
      ≡ record (view d) { records = Dict.set k (marked state actor reason v) (view d).records }
view-marked k state actor reason d r v e h =
    view-set k (marked state actor reason r) d
    ∙ ap (λ (q : RequestRecord). record (view d) { records = Dict.set k q (view d).records })
        (settle-marked state actor reason r ∙ ap (marked state actor reason) same)
  where
    same : settle r ≡ v
    same = ground (arith, e, h, get-view k d)

-- A decided or consumed event about a record that is there changes that record alone.
pub view-apply_decision :
    (proposals : Dict Proposal) (state : RequestState) (p : EventPayload) (e : Event) (ids : Ids)
    (s : DeskState) (r : RequestRecord)
    → Dict.get ids.request_id (view s).records ≡ some r
    → view (apply_decision proposals state p e (some ids) s) ≡ record (view s) {
      records =
          Dict.set ids.request_id
            (marked state (normalize_optional p.actor) (normalize_optional p.reason) r)
            (view s).records;
    }
unfolding apply_decision
view-apply_decision proposals state p e ids s r h =
    elim (Option-cases (Dict.get ids.request_id s.records)) [
      | inl missing ↦ absurd (ground (arith, h, get-view ids.request_id s, missing))
      | inr (r₀, found) ↦
          rw (found, ensure_record)
            (view-marked ids.request_id state (normalize_optional p.actor)
              (normalize_optional p.reason) s r₀ r found h)
    ]
