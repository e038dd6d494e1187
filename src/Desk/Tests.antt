-- ===== src/Desk/Tests.antt =====
-- The desk on one proposal that an operator approves.
use pi_roaster.Base.{◌≡◌, ◌≢◌, refl, none, some, List, [], ◌∷◌, All, ◌==◌, string_eq, if◌then◌else◌}
use pi_roaster.Base.Dict
use pi_roaster.Base.Text.{trim, normalize_optional, to_lower_case}
use pi_roaster.Desk.Records.{
  Proposal, effect_commitment, commitment, consumed, accepted, accept, pending, RequestRecord,
  EvidenceRef,
}
use pi_roaster.Desk.Hydration.{create_record, hydrate, replay, collect_proposals}
use pi_roaster.Desk.View.{IsReadable}
use pi_roaster.Desk.Tape.{Restores}
use pi_roaster.Desk.Replay.{IsReadableCall, run-Restores, new-Restores}
use pi_roaster.Desk.Operator.{IsCallOf, resume_accepted, decides_pending}
use pi_roaster.Desk.Once.{status, authorize_accepts, approval_used_once}
use pi_roaster.Desk.{
  Service, accept_of, get_state, authorize_known, authorize_new, authorize, decide_found, decide,
  Call, authorizes, lists, decides, clears, step, run_calls, new_service, get_record_by_proposal,
  prepare_resume, resume_found, resume_state, resumed, decided, args_text, normalize_tool_name,
  state_after,
}

abbrev evidence : EvidenceRef
evidence = record {
  id = "e1";
  source_type = "event";
  locator = "event://1";
  hash = some "abc";
  created_at = 4;
}

abbrev proposal : Proposal
proposal = record {
  id = "p1";
  kind = effect_commitment;
  issuer = "tool-gate";
  subject = "run exec";
  payload = record {
    tool_name = "exec";
    tool_call_id = "call-1";
    posture = commitment;
    effects = "local_exec" ∷ [];
    default_risk = some "high";
    args_summary = some "rm -r build";
  };
  evidence_refs = evidence ∷ [];
  confidence = none;
  expires_at = none;
  created_at = 5;
}

abbrev approved : List Call
approved =
    authorizes "r1" proposal 1 10 ∷ decides " r1 " (some accept) (some "operator") none 1 20 ∷ []

proposal-IsReadable : IsReadable proposal
unfolding normalize_optional trim
proposal-IsReadable = record {
  kind = refl;
  posture = refl;
  id_normal = refl;
  tool_normal = refl;
  call_normal = refl;
}

approved_readable : All IsReadableCall approved
unfolding normalize_optional trim
approved_readable = ((refl, proposal-IsReadable), (tt, tt))

second_readable : IsReadableCall (authorizes "r2" proposal 2 30)
unfolding normalize_optional trim
second_readable = (refl, proposal-IsReadable)

accepts_second : (authorize "r2" proposal 2 30 (run_calls new_service approved)).1 ≡ accept_of "r1"
unfolding authorize authorize_known authorize_new decide decide_found run_calls step get_state
    hydrate replay collect_proposals create_record get_record_by_proposal trim normalize_optional
    Dict.get Dict.set
accepts_second = refl

approved-Restores : Restores (run_calls new_service approved)
approved-Restores = run-Restores new_service approved approved_readable new-Restores

-- A service on which the approval was used.
abbrev used : Service
used = (authorize "r2" proposal 2 30 (run_calls new_service approved)).0

approval_used_once_example :
    (authorize "r3" proposal 3 50 (run_calls used (clears ∷ lists ∷ []))).1 ≢ accept_of "r1"
approval_used_once_example =
    approval_used_once approved (clears ∷ lists ∷ []) "r2" "r3" "r1" proposal proposal 2 30 3 50
      approved_readable second_readable (tt, (tt, tt)) (tt, (tt, tt)) accepts_second

authorize_accepts_example :
    (status "r1" (run_calls new_service approved) ≡ some accepted)
    × (status "r1" used ≡ some consumed)
authorize_accepts_example =
    authorize_accepts "r2" proposal 2 30 (run_calls new_service approved) "r1" approved-Restores
      accepts_second

abbrev finished : List Call
finished =
    authorizes "r1" proposal 1 10
    ∷ decides " r1 " (some accept) (some "operator") none 1 20
    ∷ authorizes "r2" proposal 2 30
    ∷ []

finished-Restores : Restores (run_calls new_service finished)
finished-Restores =
    run-Restores new_service finished (approved_readable.0, (tt, (second_readable, tt)))
      new-Restores

finished_consumed : status "r1" (run_calls new_service finished) ≡ some consumed
unfolding authorize authorize_known authorize_new decide decide_found run_calls step get_state
    hydrate replay collect_proposals create_record get_record_by_proposal trim normalize_optional
    Dict.get Dict.set
finished_consumed = refl

resumes_r1 :
    (prepare_resume "r1 " " Exec" "call-1" (some "rm -r build ") (run_calls new_service approved)).1
    ≡ resumed "r1" proposal
unfolding prepare_resume resume_found resume_state args_text normalize_tool_name to_lower_case
    authorize authorize_known authorize_new decide decide_found run_calls step get_state hydrate
    replay collect_proposals create_record get_record_by_proposal trim normalize_optional Dict.get
    Dict.set
resumes_r1 = refl

resume_accepted_example :
    (r : RequestRecord) × (Dict.get "r1" (get_state (run_calls new_service approved)).records
      ≡ some r)
    × (r.state ≡ accepted)
    × (r.proposal ≡ proposal)
    × IsCallOf " Exec" "call-1" (some "rm -r build ") r
resume_accepted_example =
    resume_accepted "r1 " " Exec" "call-1" (some "rm -r build ") (run_calls new_service approved)
      "r1" proposal resumes_r1

abbrev asked : Service
asked = step new_service (authorizes "r1" proposal 1 10)

decides_r1 :
    (decide " r1" (some accept) (some "operator") none 1 20 asked).1
    ≡ decided (create_record "r1" proposal (some 1) 5).request accept
unfolding authorize authorize_known authorize_new decide decide_found step get_state hydrate replay
    collect_proposals create_record get_record_by_proposal trim normalize_optional Dict.get Dict.set
decides_r1 = refl

decides_pending_example :
    (r : RequestRecord) × (Dict.get (trim " r1") (get_state asked).records ≡ some r)
    × (r.state ≡ pending)
    × (Dict.get "r1"
          (get_state (decide " r1" (some accept) (some "operator") none 1 20 asked).0).records
        ≡ (if trim " r1" == "r1"
            then some (record r {
              state = state_after accept;
              actor = normalize_optional (some "operator");
              reason = normalize_optional none;
            })
            else Dict.get "r1" (get_state asked).records))
decides_pending_example =
    decides_pending " r1" accept (some "operator") none 1 20 asked
      (create_record "r1" proposal (some 1) 5).request accept "r1" decides_r1
