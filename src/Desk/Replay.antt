-- ===== src/Desk/Replay.antt =====
-- The desk before and after a restart (packages/brewva-runtime/src/services/effect-commitment-desk.ts).
use mathlib.Core.Option
use pi_roaster.Base.{
  ℕ, ◌≡◌, refl, ap, sym, subst, ◌∙◌, inl, inr, String, Option, none, some, List, [], ◌∷◌,
  Option-cases, if_cases, All, ◌==◌, string_eq,
}
use pi_roaster.Base.Dict
use pi_roaster.Base.Dict.{Dict}
use pi_roaster.Base.Text.{trim, normalize_optional, normalize_optional_idem}
use pi_roaster.Desk.Records.{
  Proposal, RequestState, pending, accepted, rejected, consumed, RequestRecord, DeskState, Decision,
  accept, reject, approval_decided, approval_consumed,
}
use pi_roaster.Desk.Hydration.{
  read_ids, apply_decision, apply_payload, apply_event, replay, hydrate, collect_proposals,
}
use pi_roaster.Desk.View.{settle, view, get-view, IsNormal, IsGood, AllGood, IsReadable}
use pi_roaster.Desk.{
  Service, get_state, approval_payload, approval_event, authorize_known, authorize, decide_found,
  decide, Call, authorizes, lists, decides, resumes, looks_up, clears, step, run_calls, new_service,
  ResumeResult, list_pending, prepare_resume, get_request_id_for_proposal, clear, DecideResult,
  is_pending, as_decided, state_after, get_record_by_proposal,
}
use pi_roaster.Desk.Tape.{
  Restores, IsGood-of_settle, create-Restores, get_record_by_proposal_found, update-Restores,
}

-- Only the desk is put in place: the tape stays.
desk-Restores :
    (s : Service) (d : DeskState)
    → Restores s
    → get_state s ≡ d
    → Restores (record s { desk = some d })
unfolding get_state
desk-Restores s d h same = record {
  replays = λ proposals. h.replays proposals ∙ ap view same;
  good = subst (λ (q : DeskState). AllGood (view q)) same h.good;
}

known-Restores :
    (st : RequestState) (r : RequestRecord) (turn now : ℕ) (d : DeskState) (s : Service)
    → Restores s
    → get_state s ≡ d
    → Dict.get r.request.request_id d.records ≡ some r
    → Restores (authorize_known st r turn now d s).0
unfolding authorize_known
known-Restores pending r turn now d s h same found = desk-Restores s d h same
known-Restores rejected r turn now d s h same found = desk-Restores s d h same
known-Restores consumed r turn now d s h same found = desk-Restores s d h same
known-Restores accepted r turn now d s h same found =
    update-Restores s d r.request.request_id r consumed r.actor r.reason approval_consumed turn now
      (some accept) h same found good.actor_normal good.reason_normal
      (λ proposals q. unfold apply_payload in refl)
  where
    all : AllGood (view d)
    all = subst (λ (q : DeskState). AllGood (view q)) same h.good

    good : IsGood r.request.request_id r
    good = IsGood-of_settle r.request.request_id r (
        all r.request.request_id (settle r)
          (get-view r.request.request_id d ∙ ap (Option.map settle) found))

-- `authorize`, whatever it answers.
pub authorize-Restores :
    (id : String) (p : Proposal) (turn now : ℕ) (s : Service)
    → IsNormal id
    → IsReadable p
    → Restores s
    → Restores (authorize id p turn now s).0
unfolding authorize
authorize-Restores id p turn now s id_normal readable h =
    elim (Option-cases (get_record_by_proposal (get_state s) p.id)) [
      | inl e ↦
          rw (e, authorize)
            (create-Restores s (get_state s) id p turn now h refl id_normal readable)
      | inr (r, e) ↦
          rw (e, authorize)
            (known-Restores r.state r turn now (get_state s) s h refl
              (get_record_by_proposal_found (get_state s) p.id r h.good e))
    ]

-- A decided event is read back with its decision.
decided_event :
    (choice : Decision) (id : String) (r : RequestRecord) (turn now : ℕ) (proposals : Dict Proposal)
    (q : DeskState)
    → let payload = approval_payload r id (some choice) none in
      apply_event proposals (approval_event approval_decided turn now payload) q
      ≡ apply_decision proposals
          (state_after choice)
          payload
          (approval_event approval_decided turn now payload)
          (read_ids payload)
          q
unfolding apply_payload
decided_event accept id r turn now proposals q = refl
decided_event reject id r turn now proposals q = refl

decide_found-Restores :
    (o : Option RequestRecord) (id : String) (choice : Decision) (actor reason : Option String)
    (turn now : ℕ) (d : DeskState) (s : Service)
    → Restores s
    → get_state s ≡ d
    → Dict.get id d.records ≡ o
    → Restores (decide_found o id choice actor reason turn now d s).0
unfolding decide_found
decide_found-Restores none id choice actor reason turn now d s h same found =
    desk-Restores s d h same
decide_found-Restores (some r) id choice actor reason turn now d s h same found =
    if_cases {A = Service × DecideResult} (λ x. Restores x.0) (is_pending r.state)
      (λ _.
        update-Restores s d id r (state_after choice) (normalize_optional actor)
          (normalize_optional reason) approval_decided turn now (some choice) h same found
          (normalize_optional_idem actor) (normalize_optional_idem reason)
          (decided_event choice id (as_decided choice actor reason r) turn now))
      (λ _. desk-Restores s d h same)

decide-Restores :
    (id : String) (decision : Option Decision) (actor reason : Option String) (turn now : ℕ)
    (s : Service)
    → Restores s
    → Restores (decide id decision actor reason turn now s).0
unfolding decide
decide-Restores id none actor reason turn now s h =
    if_cases {A = Service × DecideResult} (λ x. Restores x.0) (trim id == "") (λ _. h) (λ _. h)
decide-Restores id (some choice) actor reason turn now s h =
    if_cases {A = Service × DecideResult} (λ x. Restores x.0) (trim id == "") (λ _. h)
      (λ _.
        decide_found-Restores _ (trim id) choice actor reason turn now (get_state s) s h refl refl)

-- What the desk needs of a call: a new request's id is normal, and its proposal can be read back.
abbrev pub IsReadableCall : Call → Type 0
IsReadableCall (authorizes id p turn now) = IsNormal id × IsReadable p
IsReadableCall _ = Unit

hydrate-Restores : (s : Service) → Restores s → Restores (clear s)
unfolding clear get_state hydrate
hydrate-Restores s h = record {
  replays = λ proposals. h.replays proposals ∙ sym (h.replays (collect_proposals [] s.tape));
  good = subst AllGood (sym (h.replays (collect_proposals [] s.tape))) h.good;
}

pub view-clear : (s : Service) → Restores s → view (get_state (clear s)) ≡ view (get_state s)
unfolding clear get_state hydrate
view-clear s h = h.replays (collect_proposals [] s.tape)

-- Every call, a restart included, keeps the tape in step with the desk: whatever proposals are
-- collected, replaying the tape gives the desk's view.
pub step-Restores : (s : Service) (c : Call) → IsReadableCall c → Restores s → Restores (step s c)
unfolding step list_pending prepare_resume get_request_id_for_proposal
step-Restores s (authorizes id p turn now) ok h = authorize-Restores id p turn now s ok.0 ok.1 h
step-Restores s lists ok h = desk-Restores s (get_state s) h refl
step-Restores s (decides id decision actor reason turn now) ok h =
    decide-Restores id decision actor reason turn now s h
step-Restores s (resumes id tool_name call_id args) ok h =
    if_cases {A = Service × ResumeResult} (λ x. Restores x.0) (trim id == "") (λ _. h)
      (λ _. desk-Restores s (get_state s) h refl)
step-Restores s (looks_up proposal_id) ok h = desk-Restores s (get_state s) h refl
step-Restores s clears ok h = hydrate-Restores s h

pub new-Restores : Restores new_service
unfolding get_state hydrate replay view Dict.map_values Dict.get
new-Restores = record { replays = λ proposals. refl; good = λ k r e. absurd (nothing k r e) }
  where
    nothing : (k : String) (r : RequestRecord) → Dict.get k [] ≡ some r → ⊥
    nothing k r e = cc e

pub run-Restores :
    (s : Service) (cs : List Call) → All IsReadableCall cs → Restores s → Restores (run_calls s cs)
unfolding run_calls
run-Restores s [] ok h = h
run-Restores s (c ∷ cs) ok h = run-Restores (step s c) cs ok.1 (step-Restores s c ok.0 h)
