-- ===== src/Desk/Tape.antt =====
-- The tape and the desk that it rebuilds (packages/brewva-runtime/src/services/effect-commitment-desk.ts).
use mathlib.Core.Option
use pi_roaster.Base.{
  ℕ, ◌≡◌, refl, ap, sym, subst, ◌∙◌, inl, inr, String, Option, none, some, List, [], ◌∷◌, ◌++◌,
  Option-cases, Bool-cases, arith, ◌==◌, string_eq, eq_iff,
}
use pi_roaster.Base.Dict
use pi_roaster.Base.Dict.{Dict}
use pi_roaster.Base.Text.{trim, normalize_optional}
use pi_roaster.Desk.Records.{
  Proposal, RequestState, RequestRecord, DeskState, empty_desk, Decision, EventType,
  approval_requested, EventPayload, Event,
}
use pi_roaster.Desk.Hydration.{
  create_record, put_record, read_ids, Ids, apply_requested, apply_decision, apply_payload,
  apply_event, replay,
}
use pi_roaster.Desk.View.{
  settle, settle-marked, view, stripped, settle-create_record, view-put_record, view-marked,
  view-apply_decision, get-view, marked, IsNormal, IsGood, AllGood, IsReadable,
  read_proposal_of_IsReadable,
}
use pi_roaster.Desk.{
  Service, get_state, approval_payload, approval_event, with_event, authorize_new,
  get_record_by_proposal,
}

-- Whatever proposals the first loop collects, the tape rebuilds the desk's view.
pub record Restores (s : Service) : Type 0 where
  pub replays :
      (proposals : Dict Proposal) → view (replay proposals empty_desk s.tape) ≡ view (get_state s)
  pub good : AllGood (view (get_state s))

replay-append :
    (proposals : Dict Proposal) (s : DeskState) (es : List Event) (e : Event)
    → replay proposals s (es ++ e ∷ []) ≡ apply_event proposals e (replay proposals s es)
unfolding replay
replay-append proposals s [] e = refl
replay-append proposals s (x ∷ es) e = replay-append proposals (apply_event proposals x s) es e

pub IsGood-of_settle : (k : String) (r : RequestRecord) → IsGood k (settle r) → IsGood k r
unfolding settle
IsGood-of_settle k r h = record {
  key = h.key;
  id_normal = h.id_normal;
  proposal_normal = h.proposal_normal;
  tool_normal = h.tool_normal;
  call_normal = h.call_normal;
  actor_normal = h.actor_normal;
  reason_normal = h.reason_normal;
}

settle-IsGood : (k : String) (r : RequestRecord) → IsGood k r → IsGood k (settle r)
unfolding settle
settle-IsGood k r h = record {
  key = h.key;
  id_normal = h.id_normal;
  proposal_normal = h.proposal_normal;
  tool_normal = h.tool_normal;
  call_normal = h.call_normal;
  actor_normal = h.actor_normal;
  reason_normal = h.reason_normal;
}

abbrev ids_of : String → RequestRecord → Ids
ids_of k r = record {
  request_id = k;
  proposal_id = r.request.proposal_id;
  tool_name = r.request.tool_name;
  tool_call_id = r.request.tool_call_id;
}

-- The ids of an event about a good record are read back as they are.
read_ids_of_good :
    (k : String) (r : RequestRecord) (decision : Option Decision) (p : Option Proposal)
    → IsGood k r
    → read_ids (approval_payload r k decision p) ≡ some (ids_of k r)
unfolding read_ids
read_ids_of_good k r decision p h = ground (
  arith,
  h.key,
  h.id_normal,
  ap (λ (t : String). normalize_optional (some t)) h.key,
  h.proposal_normal,
  h.tool_normal,
  h.call_normal,
)

-- An update that keeps the texts of actor and reason normal keeps every record good.
AllGood-set :
    (k : String) (v : RequestRecord) (d : DeskState)
    → AllGood d
    → IsGood k v
    → AllGood (record d { records = Dict.set k v d.records })
AllGood-set k v d good h j r e = elim (Bool-cases (k == j)) [
  | inl same ↦
      subst (λ (i : String). IsGood i r) ((eq_iff k j).0 same)
        (subst (IsGood k) (ground (arith, Dict.get-set k j v d.records, e)) h)
  | inr other ↦ good j r (ground (arith, Dict.get-set k j v d.records, e))
]

module _ (s : Service) (d : DeskState) (k : String) (r : RequestRecord) (st : RequestState)
    (actor reason : Option String) (type : EventType) (turn now : ℕ)
    (decision : Option Decision) where
  abbrev new_record : RequestRecord
  new_record = marked st actor reason r

  abbrev new_payload : EventPayload
  new_payload = approval_payload new_record k decision none

  abbrev new_event : Event
  new_event = approval_event type turn now new_payload

  -- The desk's view after the update.
  abbrev updated : DeskState → DeskState
  updated v = record v { records = Dict.set k (marked st actor reason (settle r)) v.records }

  -- A call that updates one record and writes the event about it keeps the tape in step.
  pub update-Restores :
      Restores s
      → get_state s ≡ d
      → Dict.get k d.records ≡ some r
      → normalize_optional actor ≡ actor
      → normalize_optional reason ≡ reason
      → ((proposals : Dict Proposal) (q : DeskState)
          → apply_event proposals new_event q
            ≡ apply_decision proposals st new_payload new_event (read_ids new_payload) q)
      → Restores (with_event (record d { records = Dict.set k new_record d.records }) new_event s)
  unfolding get_state
  update-Restores h same found a_normal r_normal event = record {
    replays = λ proposals.
        ap view (replay-append proposals empty_desk s.tape new_event)
        ∙ replayed proposals (replay proposals empty_desk s.tape)
            (h.replays proposals ∙ ap view same)
        ∙ sym live;
    good = rw live (AllGood-set k (marked st actor reason (settle r)) (view d) all settled);
  }
    where
      seen : Dict.get k (view d).records ≡ some (settle r)
      seen = get-view k d ∙ ap (Option.map settle) found

      live : view (record d { records = Dict.set k new_record d.records }) ≡ updated (view d)
      live = view-marked k st actor reason d r (settle r) found seen

      all : AllGood (view d)
      all = subst (λ (q : DeskState). AllGood (view q)) same h.good

      old : IsGood k (settle r)
      old = all k (settle r) seen

      settled : IsGood k (marked st actor reason (settle r))
      settled = record {
        key = old.key;
        id_normal = old.id_normal;
        proposal_normal = old.proposal_normal;
        tool_normal = old.tool_normal;
        call_normal = old.call_normal;
        actor_normal = a_normal;
        reason_normal = r_normal;
      }

      ids : read_ids new_payload ≡ some (ids_of k new_record)
      ids = read_ids_of_good k new_record decision none (
          IsGood-of_settle k new_record
            (subst (IsGood k) (sym (settle-marked st actor reason r)) settled))

      replayed :
          (proposals : Dict Proposal) (q : DeskState)
          → view q ≡ view d
          → view (apply_event proposals new_event q) ≡ updated (view d)
      replayed proposals q e =
          ap view (event proposals q)
          ∙ ap (λ o. view (apply_decision proposals st new_payload new_event o q)) ids
          ∙ view-apply_decision proposals st new_payload new_event (ids_of k new_record) q
              (settle r) (ap (λ (v : DeskState). Dict.get k v.records) e ∙ seen)
          ∙ rw (a_normal, r_normal) (ap updated e)

none_normal : normalize_optional none ≡ none
unfolding normalize_optional
none_normal = refl

made-IsGood :
    (id : String) (p : Proposal) (turn : Option ℕ) (t : ℕ)
    → IsNormal id
    → IsReadable p
    → IsGood id (create_record id p turn t)
unfolding create_record
made-IsGood id p turn t id_normal h = record {
  key = refl;
  id_normal = id_normal;
  proposal_normal = h.id_normal;
  tool_normal = h.tool_normal;
  call_normal = h.call_normal;
  actor_normal = none_normal;
  reason_normal = none_normal;
}

-- The event about a new request.
abbrev requested_event : String → Proposal → ℕ → ℕ → Event
requested_event id p turn now =
    approval_event approval_requested turn now
      (approval_payload (create_record id p (some turn) p.created_at) id none (some p))

-- It is read back as a record of the same proposal, made when the event was written.
apply_requested_event :
    (proposals : Dict Proposal) (id : String) (p : Proposal) (turn now : ℕ) (q : DeskState)
    → IsNormal id
    → IsReadable p
    → apply_event proposals (requested_event id p turn now) q
      ≡ put_record (create_record id (stripped p) (some turn) now) q
unfolding apply_payload
apply_requested_event proposals id p turn now q id_normal h =
    ap
      (λ o.
        apply_requested proposals
          (approval_payload (create_record id p (some turn) p.created_at) id none (some p))
          (requested_event id p turn now) o q)
      (read_ids_of_good id (create_record id p (some turn) p.created_at) none (some p)
        (made-IsGood id p (some turn) p.created_at id_normal h))
    ∙ (unfold apply_requested in rw (read_proposal_of_IsReadable p h) refl)

-- A new request and the event about it keep the tape in step.
pub create-Restores :
    (s : Service) (d : DeskState) (id : String) (p : Proposal) (turn now : ℕ)
    → Restores s
    → get_state s ≡ d
    → IsNormal id
    → IsReadable p
    → Restores (authorize_new id p turn now d s).0
unfolding authorize_new get_state create_record
create-Restores s d id p turn now h same id_normal readable = record {
  replays = λ proposals.
      ap view (replay-append proposals empty_desk s.tape (requested_event id p turn now))
      ∙ replayed proposals (replay proposals empty_desk s.tape) (h.replays proposals ∙ ap view same)
      ∙ sym (view-put_record made d);
  good = rw view-put_record (
      AllGood-set id (settle made) (view d)
        (subst (λ (q : DeskState). AllGood (view q)) same h.good)
        (settle-IsGood id made (made-IsGood id p (some turn) p.created_at id_normal readable)));
}
  where
    made : RequestRecord
    made = create_record id p (some turn) p.created_at

    grown : RequestRecord → DeskState → DeskState
    grown r v = record v {
      records = Dict.set id r v.records;
      request_id_by_proposal = Dict.set p.id id v.request_id_by_proposal;
    }

    replayed :
        (proposals : Dict Proposal) (q : DeskState)
        → view q ≡ view d
        → view (apply_event proposals (requested_event id p turn now) q)
          ≡ grown (settle made) (view d)
    replayed proposals q e =
        ap view (apply_requested_event proposals id p turn now q id_normal readable)
        ∙ view-put_record (create_record id (stripped p) (some turn) now) q
        ∙ ap (λ (r : RequestRecord). grown r (view q))
            (settle-create_record id p (some turn) now p.created_at)
        ∙ ap (grown (settle made)) e

pub get_record_by_proposal_found :
    (d : DeskState) (proposal_id : String) (r : RequestRecord)
    → AllGood (view d)
    → get_record_by_proposal d proposal_id ≡ some r
    → Dict.get r.request.request_id d.records ≡ some r
unfolding get_record_by_proposal
get_record_by_proposal_found d proposal_id r good e =
    elim (Option-cases (Dict.get (trim proposal_id) d.request_id_by_proposal)) [
      | inl missing ↦ absurd (ground (arith, e, missing))
      | inr (id, f) ↦
          let found : Dict.get id d.records ≡ some r = ground (arith, e, f) in
          subst (λ (k : String). Dict.get k d.records ≡ some r)
            (sym
              (IsGood-of_settle id r
                (good id (settle r) (get-view id d ∙ ap (Option.map settle) found))).key)
            found
    ]
