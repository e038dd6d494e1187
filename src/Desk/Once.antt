-- ===== src/Desk/Once.antt =====
-- The use of an operator's approval (packages/brewva-runtime/src/services/effect-commitment-desk.ts).
use mathlib.Core.Option
use pi_roaster.Base.{
  ℕ, ◌≡◌, ◌≢◌, refl, ap, sym, subst, ◌∙◌, inl, inr, String, Option, none, some, List, [], ◌∷◌,
  Option-cases, if_cases, All, arith, ◌==◌, string_eq, eq_iff,
}
use pi_roaster.Base.Dict
use pi_roaster.Base.Dict.{Dict}
use pi_roaster.Base.Text.{trim}
use pi_roaster.Desk.Records.{
  Proposal, RequestState, pending, accepted, rejected, consumed, RequestRecord, DeskState, Decision,
}
use pi_roaster.Desk.Hydration.{create_record}
use pi_roaster.Desk.View.{view, settle, get-view}
use pi_roaster.Desk.Tape.{Restores, get_record_by_proposal_found}
use pi_roaster.Desk.Replay.{
  authorize-Restores, run-Restores, new-Restores, IsReadableCall, step-Restores, view-clear,
}
use pi_roaster.Desk.{
  Service, accept_of, get_state, authorize_known, authorize_new, authorize, decide_found, decide,
  Call, authorizes, lists, decides, resumes, looks_up, clears, step, run_calls, new_service,
  ResumeResult, DecideResult, list_pending, prepare_resume, get_request_id_for_proposal, clear,
  is_pending, get_record_by_proposal,
}

-- The state of the request with an id, if there is one.
abbrev pub status_in : String → DeskState → Option RequestState
status_in k d = Option.map (λ (r : RequestRecord). r.state) (Dict.get k d.records)

abbrev pub status : String → Service → Option RequestState
status k s = status_in k (get_state s)

status_in-view : (k : String) (d : DeskState) → status_in k (view d) ≡ status_in k d
unfolding settle
status_in-view k d = ground (arith, get-view k d)

status-clear : (k : String) (s : Service) → Restores s → status k (clear s) ≡ status k s
status-clear k s h =
    sym (status_in-view k (get_state (clear s)))
    ∙ ap (status_in k) (view-clear s h)
    ∙ status_in-view k (get_state s)

-- A record is put under another id.
status-set :
    (k id : String) (r : RequestRecord) (d : DeskState)
    → id ≢ k
    → status_in k (record d { records = Dict.set id r d.records }) ≡ status_in k d
status-set k id r d ne = ground (arith, Dict.get-set id k r d.records, eq_iff id k)

-- `randomUUID` gives an id that no request of the session has.
abbrev pub IsNew : Service → Call → Type 0
IsNew s (authorizes id p turn now) = status id s ≡ none
IsNew s _ = Unit

known_consumed :
    (st : RequestState) (r : RequestRecord) (turn now : ℕ) (d : DeskState) (s : Service)
    (k : String)
    → st ≡ r.state
    → Dict.get r.request.request_id d.records ≡ some r
    → get_state s ≡ d
    → status_in k d ≡ some consumed
    → status k (authorize_known st r turn now d s).0 ≡ some consumed
unfolding authorize_known get_state
known_consumed pending r turn now d s k e found same c = c
known_consumed rejected r turn now d s k e found same c = c
known_consumed consumed r turn now d s k e found same c = c
known_consumed accepted r turn now d s k e found same c =
    status-set k r.request.request_id _ d
      (λ q. ground (arith, e, found, c, ap (λ (i : String). Dict.get i d.records) q))
    ∙ c

new_consumed :
    (id : String) (p : Proposal) (turn now : ℕ) (d : DeskState) (s : Service) (k : String)
    → id ≢ k
    → status_in k d ≡ some consumed
    → status k (authorize_new id p turn now d s).0 ≡ some consumed
unfolding authorize_new get_state create_record
new_consumed id p turn now d s k ne c =
    status-set k id (create_record id p (some turn) p.created_at) d ne ∙ c

authorize_consumed :
    (id : String) (p : Proposal) (turn now : ℕ) (s : Service) (k : String)
    → Restores s
    → status id s ≡ none
    → status k s ≡ some consumed
    → status k (authorize id p turn now s).0 ≡ some consumed
unfolding authorize
authorize_consumed id p turn now s k h new c =
    elim (Option-cases (get_record_by_proposal (get_state s) p.id)) [
      | inl e ↦
          rw (e, authorize)
            (new_consumed id p turn now (get_state s) s k
              (λ q. ground (arith, new, c, ap (λ (i : String). status i s) q)) c)
      | inr (r, e) ↦
          rw (e, authorize)
            (known_consumed r.state r turn now (get_state s) s k refl
              (get_record_by_proposal_found (get_state s) p.id r h.good e) refl c)
    ]

decide_found_consumed :
    (o : Option RequestRecord) (id : String) (choice : Decision) (actor reason : Option String)
    (turn now : ℕ) (d : DeskState) (s : Service) (k : String)
    → Dict.get id d.records ≡ o
    → status_in k d ≡ some consumed
    → status k (decide_found o id choice actor reason turn now d s).0 ≡ some consumed
unfolding decide_found get_state
decide_found_consumed none id choice actor reason turn now d s k found c = c
decide_found_consumed (some r) id choice actor reason turn now d s k found c =
    if_cases {A = Service × DecideResult} (λ x. status k x.0 ≡ some consumed) (is_pending r.state)
      (λ open_.
        status-set k id _ d
          (λ q. ground (arith, open_, found, c, ap (λ (i : String). Dict.get i d.records) q))
        ∙ c)
      (λ _. c)

-- On a service whose tape restores its desk, and with a new id for a new request, a request whose
-- approval was used stays used under every call, restarts included.
pub step_consumed :
    (s : Service) (call : Call) (k : String)
    → Restores s
    → IsNew s call
    → status k s ≡ some consumed
    → status k (step s call) ≡ some consumed
unfolding step list_pending prepare_resume get_request_id_for_proposal decide get_state
step_consumed s (authorizes id p turn now) k h new c = authorize_consumed id p turn now s k h new c
step_consumed s lists k h new c = c
step_consumed s (decides id none actor reason turn now) k h new c =
    if_cases {A = Service × DecideResult} (λ x. status k x.0 ≡ some consumed) (trim id == "")
      (λ _. c) (λ _. c)
step_consumed s (decides id (some choice) actor reason turn now) k h new c =
    if_cases {A = Service × DecideResult} (λ x. status k x.0 ≡ some consumed) (trim id == "")
      (λ _. c)
      (λ _. decide_found_consumed _ (trim id) choice actor reason turn now (get_state s) s k refl c)
step_consumed s (resumes id tool_name call_id args) k h new c =
    if_cases {A = Service × ResumeResult} (λ x. status k x.0 ≡ some consumed) (trim id == "")
      (λ _. c) (λ _. c)
step_consumed s (looks_up proposal_id) k h new c = c
step_consumed s clears k h new c = status-clear k s h ∙ c

-- Each call finds a new id for a new request, along a run.
abbrev pub AllNew : Service → List Call → Type 0
AllNew s [] = Unit
AllNew s (c ∷ cs) = IsNew s c × AllNew (step s c) cs

run_consumed :
    (s : Service) (cs : List Call) (k : String)
    → All IsReadableCall cs
    → AllNew s cs
    → Restores s
    → status k s ≡ some consumed
    → status k (run_calls s cs) ≡ some consumed
unfolding run_calls
run_consumed s [] k ok new h c = c
run_consumed s (call ∷ cs) k ok new h c =
    run_consumed (step s call) cs k ok.1 new.1 (step-Restores s call ok.0 h)
      (step_consumed s call k h new.0 c)

known_accepts :
    (st : RequestState) (r : RequestRecord) (turn now : ℕ) (d : DeskState) (s : Service)
    (k : String)
    → st ≡ r.state
    → Dict.get r.request.request_id d.records ≡ some r
    → (authorize_known st r turn now d s).1 ≡ accept_of k
    → (status_in k d ≡ some accepted)
      × (status k (authorize_known st r turn now d s).0 ≡ some consumed)
unfolding authorize_known get_state
known_accepts pending r turn now d s k e found a = absurd (ground (arith, a))
known_accepts rejected r turn now d s k e found a = absurd (ground (arith, a))
known_accepts consumed r turn now d s k e found a = absurd (ground (arith, a))
known_accepts accepted r turn now d s k e found a = (
  ap (Option.map (λ (q : RequestRecord). q.state)) at_k ∙ ap some (sym e),
  ground (
    arith,
    same,
    eq_iff r.request.request_id k,
    Dict.get-set r.request.request_id k (record r { state = consumed }) d.records,
  ),
)
  where
    same : r.request.request_id ≡ k
    same = ground (arith, a)

    at_k : Dict.get k d.records ≡ some r
    at_k = subst (λ (i : String). Dict.get i d.records ≡ some r) same found

-- On a service whose tape restores its desk, `authorize` accepts only a request that was in the
-- state `accepted`, and leaves it `consumed`.
pub authorize_accepts :
    (id : String) (p : Proposal) (turn now : ℕ) (s : Service) (k : String)
    → Restores s
    → (authorize id p turn now s).1 ≡ accept_of k
    → (status k s ≡ some accepted) × (status k (authorize id p turn now s).0 ≡ some consumed)
unfolding authorize
authorize_accepts id p turn now s k h a =
    elim (Option-cases (get_record_by_proposal (get_state s) p.id)) [
      | inl e ↦ absurd (unfold authorize_new in ground (arith, a, e))
      | inr (r, e) ↦
          rw (e, authorize)
            (known_accepts r.state r turn now (get_state s) s k refl
              (get_record_by_proposal_found (get_state s) p.id r h.good e) (rw (e, authorize) at a))
    ]

-- An approval is used at most once: if, after any calls on a new service, `authorize` accepts the
-- request `k`, then after any further calls, restarts included, `authorize` on whatever proposal
-- does not accept `k` again. The id of a request that is made after the approval was used must be
-- new; all new ids must be trimmed and not blank, and the proposals ones that the tape keeps.
pub approval_used_once :
    (before after : List Call) (id id' k : String) (p p' : Proposal) (turn now turn' now' : ℕ)
    → All IsReadableCall before
    → IsReadableCall (authorizes id p turn now)
    → All IsReadableCall after
    → AllNew (authorize id p turn now (run_calls new_service before)).0 after
    → (authorize id p turn now (run_calls new_service before)).1 ≡ accept_of k
    → (authorize id' p' turn' now'
        (run_calls (authorize id p turn now (run_calls new_service before)).0 after)).1
      ≢ accept_of k
approval_used_once before after id id' k p p' turn now turn' now' ok call_ok ok' new a again =
    let s = run_calls new_service before in
    let h : Restores s = run-Restores new_service before ok new-Restores in
    let t = (authorize id p turn now s).0 in
    let h' : Restores t = authorize-Restores id p turn now s call_ok.0 call_ok.1 h in
    let spent : status k (run_calls t after) ≡ some consumed =
      run_consumed t after k ok' new h' (authorize_accepts id p turn now s k h a).1 in
    let fresh : status k (run_calls t after) ≡ some accepted =
      (authorize_accepts id' p' turn' now' (run_calls t after) k (run-Restores t after ok' h')
        again).0 in
    cc (sym spent ∙ fresh)
