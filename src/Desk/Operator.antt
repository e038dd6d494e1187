-- ===== src/Desk/Operator.antt =====
-- Decisions and resumed calls (packages/brewva-runtime/src/services/effect-commitment-desk.ts).
use pi_roaster.Base.{
  ℕ, ◌≡◌, refl, subst, String, Option, none, some, inl, inr, Option-cases, Bool-cases,
  if◌then◌else◌, arith, ◌==◌, string_eq, eq_iff,
}
use pi_roaster.Base.Dict
use pi_roaster.Base.Text.{trim, normalize_optional}
use pi_roaster.Desk.Records.{
  Proposal, RequestState, pending, accepted, rejected, consumed, RequestRecord, DeskState, Decision,
  Request,
}
use pi_roaster.Desk.{
  Service, get_state, decide_found, decide, decided, state_after, as_decided, resumed, resume_state,
  resume_found, prepare_resume, normalize_tool_name, args_text,
}

-- The call `tool_name`, `call_id`, `args` is the one that the record `r` is about.
pub record IsCallOf (tool_name call_id : String) (args : Option String) (r : RequestRecord)
    : Type 0 where
  pub same_tool : normalize_tool_name tool_name ≡ r.request.tool_name
  pub same_call : trim call_id ≡ r.request.tool_call_id
  pub same_args : args_text args ≡ args_text r.request.args_summary

resume_state_accepted :
    (st : RequestState) (id k : String) (p q : Proposal)
    → resume_state st id p ≡ resumed k q
    → (st ≡ accepted) × (id ≡ k) × (p ≡ q)
unfolding resume_state
resume_state_accepted pending id k p q e = absurd (ground (arith, e))
resume_state_accepted rejected id k p q e = absurd (ground (arith, e))
resume_state_accepted consumed id k p q e = absurd (ground (arith, e))
resume_state_accepted accepted id k p q e = (refl, ground (arith, e), ground (arith, e))

resume_found_accepted :
    (r : RequestRecord) (id tool_name call_id : String) (args : Option String) (k : String)
    (p : Proposal)
    → resume_found (some r) id tool_name call_id args ≡ resumed k p
    → IsCallOf tool_name call_id args r × (r.state ≡ accepted) × (id ≡ k) × (r.proposal ≡ p)
unfolding resume_found
resume_found_accepted r id tool_name call_id args k p e = ground (
  arith,
  e,
  resume_state_accepted r.state id k r.proposal p,
  eq_iff (normalize_tool_name tool_name) r.request.tool_name,
  eq_iff (trim call_id) r.request.tool_call_id,
  eq_iff (args_text args) (args_text r.request.args_summary),
)

-- `prepareResume` gives back a proposal only for a request that stands accepted, and only to the
-- call that the request is about: the tool's name, the call's id and the trimmed arguments agree.
pub resume_accepted :
    (id tool_name call_id : String) (args : Option String) (s : Service) (k : String) (p : Proposal)
    → (prepare_resume id tool_name call_id args s).1 ≡ resumed k p
    → (r : RequestRecord) × (Dict.get k (get_state s).records ≡ some r)
      × (r.state ≡ accepted)
      × (r.proposal ≡ p)
      × IsCallOf tool_name call_id args r
unfolding prepare_resume
resume_accepted id tool_name call_id args s k p e = elim (Bool-cases (trim id == "")) [
  | inl blank ↦ absurd (ground (arith, e, blank))
  | inr filled ↦ elim (Option-cases (Dict.get (trim id) (get_state s).records)) [
    | inl missing ↦ absurd (unfold resume_found in ground (arith, e, filled, missing))
    | inr (r, found) ↦
        let e' : resume_found (some r) (trim id) tool_name call_id args ≡ resumed k p =
          ground (arith, e, filled, found) in
        let (call, state, same, proposal) =
          resume_found_accepted r (trim id) tool_name call_id args k p e' in
        (
          r,
          subst (λ (i : String). Dict.get i (get_state s).records ≡ some r) same found,
          state,
          proposal,
          call,
        )
  ]
]

decide_found_pending :
    (r : RequestRecord) (id : String) (choice : Decision) (actor reason : Option String)
    (turn now : ℕ) (d : DeskState) (s : Service) (request : Request) (choice' : Decision)
    (k : String)
    → (decide_found (some r) id choice actor reason turn now d s).1 ≡ decided request choice'
    → (r.state ≡ pending)
      × (Dict.get k
            (get_state (decide_found (some r) id choice actor reason turn now d s).0).records
          ≡ (if id == k then some (as_decided choice actor reason r) else Dict.get k d.records))
unfolding decide_found get_state
decide_found_pending r id choice actor reason turn now d s request choice' k e =
    ground (arith, e, Dict.get-set id k (as_decided choice actor reason r) d.records)

decide_found-none :
    (id : String) (choice : Decision) (actor reason : Option String) (turn now : ℕ) (d : DeskState)
    (s : Service) (request : Request) (choice' : Decision)
    → (decide_found none id choice actor reason turn now d s).1 ≡ decided request choice'
    → ⊥
unfolding decide_found
decide_found-none id choice actor reason turn now d s request choice' e = ground (arith, e)

-- A decision is taken only on a request that is pending. It gives that request the state of the
-- decision with the actor and the reason, trimmed, and leaves all else of it and every other request
-- as it was.
pub decides_pending :
    (id : String) (choice : Decision) (actor reason : Option String) (turn now : ℕ) (s : Service)
    (request : Request) (choice' : Decision) (k : String)
    → (decide id (some choice) actor reason turn now s).1 ≡ decided request choice'
    → (r : RequestRecord) × (Dict.get (trim id) (get_state s).records ≡ some r)
      × (r.state ≡ pending)
      × (Dict.get k (get_state (decide id (some choice) actor reason turn now s).0).records ≡ (
          if trim id == k
          then some (record r {
            state = state_after choice;
            actor = normalize_optional actor;
            reason = normalize_optional reason;
          })
          else Dict.get k (get_state s).records))
unfolding decide
decides_pending id choice actor reason turn now s request choice' k e =
    elim (Bool-cases (trim id == "")) [
      | inl blank ↦ absurd (ground (arith, e, blank))
      | inr filled ↦ elim (Option-cases (Dict.get (trim id) (get_state s).records)) [
        | inl missing ↦ absurd (
            decide_found-none (trim id) choice actor reason turn now (get_state s) s request choice'
              (rw (filled, missing, decide) at e))
        | inr (r, found) ↦
            let both =
              decide_found_pending r (trim id) choice actor reason turn now (get_state s) s request
                choice' k (rw (filled, found, decide) at e) in
            (r, found, both.0, rw (filled, found, decide) both.1)
      ]
    ]
