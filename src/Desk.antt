-- ===== src/Desk.antt =====
-- packages/brewva-runtime/src/services/effect-commitment-desk.ts: `EffectCommitmentDeskService` for
-- one session. The tape is the session's event list, to which `recordEvent` appends; the desk is
-- `none` until `getState` rebuilds it from the tape, and again after `clear` or a restart.
pub mod Records
pub mod Hydration
pub mod View
pub mod Tape
pub mod Replay
pub mod Once
pub mod Operator
mod Tests
use mathlib.Core.Option
use Records.{
  Proposal, Request, RequestState, pending, accepted, rejected, consumed, RequestRecord, DeskState,
  Decision, accept, reject, EventType, approval_requested, approval_decided, approval_consumed,
  EventPayload, Event,
}
use Hydration.{create_record, put_record, hydrate}
use pi_roaster.Base.{
  ℕ, ◌≡◌, refl, String, Bool, true, false, ◌&&◌, ◌||◌, not, Option, none, some, List, [], ◌∷◌, ◌++◌,
  map, ◌==◌, string_eq, leb, if◌then◌else◌, or_else, keep,
}
use pi_roaster.Base.Dict
use pi_roaster.Base.Dict.{Dict}
use pi_roaster.Base.Sorting.{sort}
use pi_roaster.Base.Text.{trim, normalize_optional, to_lower_case}

pub record Service : Type 0 where
  pub desk : Option DeskState
  pub tape : List Event

-- `getState`.
unfoldable pub get_state : Service → DeskState
get_state s = elim s.desk [ some d ↦ d | none ↦ hydrate s.tape ]

pub data Verdict : Type 0 where
  accept_of reject_of reject_consumed defer_of : String → Verdict

abbrev pub is_pending : RequestState → Bool
is_pending pending = true
is_pending _ = false

unfoldable pub get_record_by_proposal : DeskState → String → Option RequestRecord
get_record_by_proposal d proposal_id = elim (Dict.get (trim proposal_id) d.request_id_by_proposal) [
  | none ↦ none
  | some request_id ↦ if request_id == "" then none else Dict.get request_id d.records
]

-- The payload of the three approval events about a record.
abbrev pub approval_payload :
    RequestRecord → String → Option Decision → Option Proposal → EventPayload
approval_payload r request_id decision proposal = record {
  request_id = some request_id;
  proposal_id = some r.request.proposal_id;
  tool_name = some r.request.tool_name;
  tool_call_id = some r.request.tool_call_id;
  decision = decision;
  actor = r.actor;
  reason = r.reason;
  proposal = proposal;
}

abbrev pub approval_event : EventType → ℕ → ℕ → EventPayload → Event
approval_event type turn now payload = record {
  type_of = type;
  turn = some turn;
  timestamp = now;
  payload = some payload;
}

-- The new service, its desk known, after an event was recorded.
abbrev pub with_event : DeskState → Event → Service → Service
with_event d e s = record { desk = some d; tape = s.tape ++ e ∷ [] }

-- `authorize` on a proposal that has a record.
unfoldable pub authorize_known :
    RequestState → RequestRecord → ℕ → ℕ → DeskState → Service → Service × Verdict
authorize_known accepted r turn now d s =
    let r' = record r { state = consumed } in
    (
      with_event (record d { records = Dict.set r.request.request_id r' d.records })
          (approval_event approval_consumed turn now
            (approval_payload r' r.request.request_id (some accept) none))
          s,
      accept_of r.request.request_id,
    )
authorize_known rejected r turn now d s =
    (record s { desk = some d }, reject_of r.request.request_id)
authorize_known consumed r turn now d s =
    (record s { desk = some d }, reject_consumed r.request.request_id)
authorize_known pending r turn now d s = (record s { desk = some d }, defer_of r.request.request_id)

-- `authorize` on a proposal that has none; `request_id` is the new request's id.
unfoldable pub authorize_new : String → Proposal → ℕ → ℕ → DeskState → Service → Service × Verdict
authorize_new request_id p turn now d s =
    let r = create_record request_id p (some turn) p.created_at in
    (
      with_event (put_record r d)
          (approval_event approval_requested turn now (approval_payload r request_id none (some p)))
          s,
      defer_of request_id,
    )

abbrev authorize_found :
    Option RequestRecord → String → Proposal → ℕ → ℕ → DeskState → Service → Service × Verdict
authorize_found none request_id p turn now d s = authorize_new request_id p turn now d s
authorize_found (some r) request_id p turn now d s = authorize_known r.state r turn now d s

unfoldable pub authorize : String → Proposal → ℕ → ℕ → Service → Service × Verdict
unfolding authorize_known authorize_new
authorize request_id p turn now s =
    let d = get_state s in authorize_found (get_record_by_proposal d p.id) request_id p turn now d s

unfoldable pub list_pending : Service → Service × List Request
list_pending s =
    let d = get_state s in
    (
      record s { desk = some d },
      sort (λ left right. leb right.created_at left.created_at)
          (map (λ r. r.request) (keep (λ r. is_pending r.state) (Dict.values d.records))),
    )

pub data DecideResult : Type 0 where
  decided : Request → Decision → DecideResult
  request_not_found decision_required : DecideResult

abbrev pub state_after : Decision → RequestState
state_after accept = accepted
state_after reject = rejected

-- The update of a pending record by a decision.
abbrev pub as_decided : Decision → Option String → Option String → RequestRecord → RequestRecord
as_decided decision actor reason r = record r {
  state = state_after decision;
  actor = normalize_optional actor;
  reason = normalize_optional reason;
}

unfoldable pub decide_found :
    Option RequestRecord
    → String
    → Decision
    → Option String
    → Option String
    → ℕ
    → ℕ
    → DeskState
    → Service
    → Service × DecideResult
decide_found none id decision actor reason turn now d s =
    (record s { desk = some d }, request_not_found)
decide_found (some r) id decision actor reason turn now d s =
    if is_pending r.state
    then (let r' = as_decided decision actor reason r in
        (
          with_event (record d { records = Dict.set id r' d.records })
              (approval_event approval_decided turn now
                (approval_payload r' id (some decision) none))
              s,
          decided r.request decision,
        ))
    else (record s { desk = some d }, request_not_found)

-- `decide`; a decision that is neither "accept" nor "reject" is `none`.
unfoldable pub decide :
    String
    → Option Decision
    → Option String
    → Option String
    → ℕ
    → ℕ
    → Service
    → Service × DecideResult
decide request_id decision actor reason turn now s =
    if trim request_id == "" then (s, request_not_found) else elim decision [
      | none ↦ (s, decision_required)
      | some choice ↦
          decide_found (Dict.get (trim request_id) (get_state s).records) (trim request_id) choice
            actor reason turn now (get_state s) s
    ]

pub data ResumeResult : Type 0 where
  resumed : String → Proposal → ResumeResult
  blank_request not_found tool_mismatch call_id_mismatch args_mismatch : String → ResumeResult
  still_pending was_rejected was_consumed : String → ResumeResult

-- `normalizeArgsSummary`.
unfoldable pub args_text : Option String → String
args_text none = ""
args_text (some s) = trim s

-- `normalizeToolName` (packages/brewva-runtime/src/utils/tool-name.ts).
unfoldable pub normalize_tool_name : String → String
normalize_tool_name name = to_lower_case (trim name)

unfoldable pub resume_state : RequestState → String → Proposal → ResumeResult
resume_state pending id p = still_pending id
resume_state rejected id p = was_rejected id
resume_state consumed id p = was_consumed id
resume_state accepted id p = resumed id p

unfoldable pub resume_found :
    Option RequestRecord → String → String → String → Option String → ResumeResult
resume_found none id tool_name call_id args = not_found id
resume_found (some r) id tool_name call_id args =
    if not (normalize_tool_name tool_name == r.request.tool_name)
    then tool_mismatch id
    else if not (trim call_id == r.request.tool_call_id)
    then call_id_mismatch id
    else if not (args_text args == args_text r.request.args_summary)
    then args_mismatch id
    else resume_state r.state id r.proposal

unfoldable pub prepare_resume :
    String → String → String → Option String → Service → Service × ResumeResult
prepare_resume request_id tool_name call_id args s =
    let id = trim request_id in
    if id == "" then (s, blank_request id) else (
      record s { desk = some (get_state s) },
      resume_found (Dict.get id (get_state s).records) id tool_name call_id args,
    )

unfoldable pub get_request_id_for_proposal : String → Service → Service × Option String
get_request_id_for_proposal proposal_id s = (
  record s { desk = some (get_state s) },
  Dict.get (trim proposal_id) (get_state s).request_id_by_proposal,
)

unfoldable pub clear : Service → Service
clear s = record s { desk = none }

-- The calls on the service; `clears` is also what a restart does. A new request's id and the clock
-- are arguments.
pub data Call : Type 0 where
  authorizes : String → Proposal → ℕ → ℕ → Call
  lists : Call
  decides : String → Option Decision → Option String → Option String → ℕ → ℕ → Call
  resumes : String → String → String → Option String → Call
  looks_up : String → Call
  clears : Call

unfoldable pub step : Service → Call → Service
step s (authorizes id p turn now) = (authorize id p turn now s).0
step s lists = (list_pending s).0
step s (decides id decision actor reason turn now) = (decide id decision actor reason turn now s).0
step s (resumes id tool_name call_id args) = (prepare_resume id tool_name call_id args s).0
step s (looks_up proposal_id) = (get_request_id_for_proposal proposal_id s).0
step s clears = clear s

unfoldable pub run_calls : Service → List Call → Service
run_calls s [] = s
run_calls s (c ∷ cs) = run_calls (step s c) cs

abbrev pub new_service : Service
new_service = record { desk = none; tape = [] }
