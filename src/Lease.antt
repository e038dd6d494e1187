-- ===== src/Lease.antt =====
-- packages/brewva-runtime/src/services/resource-lease.ts: `ResourceLeaseService` on the leases of
-- one session's cell, with the events that it records. A method that reads the clock several times
-- takes one reading for each; the turn does not change within a call.
pub mod Amounts
pub mod Expiry
pub mod Ceiling
pub mod Effective
pub mod Grants
mod Tests
use Amounts.{
  Budget, SkillDocument, no_budget, default_lease_of, hard_ceiling_of, clone_budget, sum_budget,
  clamp_additional_budget, budget_has_values, clamp_budget, same_budget,
}
use pi_roaster.Base.{
  ℕ, ◌+◌, ◌≡◌, String, Bool, true, false, not, ◌&&◌, ◌||◌, Option, none, some, List, [], ◌∷◌, ◌++◌,
  map, leb, ltb, ◌==◌, string_eq, if◌then◌else◌, or_else, keep,
}
use pi_roaster.Base.Dict
use pi_roaster.Base.Dict.{Dict}
use pi_roaster.Base.Numeric.{JsNumber, positive_integer}
use pi_roaster.Base.Text.{trim, normalize_optional}
use pi_roaster.Base.Sorting.{sort}

pub data LeaseStatus : Type 0 where
  active expired cancelled : LeaseStatus

-- `ResourceLeaseRecord`.
pub record Lease : Type 0 where
  pub id : String
  pub session_id : String
  pub skill_name : String
  pub reason : String
  pub budget : Budget
  pub created_at : ℕ
  pub expires_at : Option ℕ
  pub expires_after_turn : Option ℕ
  pub status : LeaseStatus
  pub cancelled_at : Option ℕ
  pub cancelled_reason : Option String

pub record LeaseRequest : Type 0 where
  pub reason : String
  pub max_tool_calls : Option JsNumber
  pub max_tokens : Option JsNumber
  pub max_parallel : Option JsNumber
  pub ttl_ms : Option JsNumber
  pub ttl_turns : Option JsNumber

pub record LeaseQuery : Type 0 where
  pub include_inactive : Bool
  pub skill_name : Option String

pub data ExpiredBy : Type 0 where
  time turn : ExpiredBy

-- The recorded events: type, turn, payload and timestamp.
pub data LeaseEvent : Type 0 where
  granted : ℕ → Lease → ℕ → LeaseEvent
  lease_expired : ℕ → String → ExpiredBy → ℕ → LeaseEvent
  lease_cancelled : ℕ → String → ℕ → String → LeaseEvent

pub data LeaseError : Type 0 where
  reason_required skill_required no_expansion : LeaseError
  no_headroom not_found : String → LeaseError
  already : String → LeaseStatus → LeaseError

pub data LeaseResult : Type 0 where
  ok : Lease → LeaseResult
  failed : LeaseError → LeaseResult

pub record Cell : Type 0 where
  pub leases : Dict Lease
  pub events : List LeaseEvent

abbrev pub is_active : LeaseStatus → Bool
is_active active = true
is_active _ = false

-- `x !== undefined && x <= y`.
abbrev pub is_reached : Option ℕ → ℕ → Bool
is_reached none y = false
is_reached (some x) y = leb x y

unfoldable pub is_due : ℕ → ℕ → Lease → Bool
is_due now current_turn lease =
    is_active lease.status
    && (is_reached lease.expires_at now || is_reached lease.expires_after_turn current_turn)

unfoldable pub expire_one : ℕ → ℕ → Lease → Lease
expire_one now current_turn lease =
    if is_due now current_turn lease then record lease { status = expired } else lease

-- The loop of `expireLeases` over the leases.
unfoldable pub expire_all : ℕ → ℕ → Dict Lease → Dict Lease
expire_all now current_turn [] = []
expire_all now current_turn ((k, lease) ∷ rest) =
    (k, expire_one now current_turn lease) ∷ expire_all now current_turn rest

unfoldable pub expiry_events : ℕ → ℕ → Dict Lease → List LeaseEvent
expiry_events now current_turn [] = []
expiry_events now current_turn ((k, lease) ∷ rest) =
    let later = expiry_events now current_turn rest in
    if is_due now current_turn lease
    then lease_expired current_turn lease.id
        (if is_reached lease.expires_at now then time else turn) now
      ∷ later
    else later

unfoldable pub expire_leases : ℕ → ℕ → Cell → Cell
expire_leases now current_turn cell = record {
  leases = expire_all now current_turn cell.leases;
  events = cell.events ++ expiry_events now current_turn cell.leases;
}

abbrev pub is_named : Option String → String → Bool
is_named none name = false
is_named (some n) name = name == n

-- The sum over `getApplicableActiveLeases`, in the order of the leases.
unfoldable pub sum_active : Option String → Budget → Dict Lease → Budget
sum_active skill budget [] = budget
sum_active skill budget ((k, lease) ∷ rest) =
    sum_active skill
      (if is_active lease.status && is_named skill lease.skill_name
        then sum_budget budget lease.budget
        else budget)
      rest

abbrev name_of : Option SkillDocument → Option String
name_of none = none
name_of (some s) = some s.name

-- `getGrantedBudget`; the first argument is the name that the caller gives, the second the active
-- skill.
unfoldable pub get_granted_budget :
    Option String → Option SkillDocument → ℕ → ℕ → Cell → Cell × Budget
get_granted_budget skill_name active_skill now current_turn cell =
    let cell' = expire_leases now current_turn cell in
    (
      cell',
      sum_active (elim skill_name [ some n ↦ some n | none ↦ name_of active_skill ]) no_budget
          cell'.leases,
    )

unfoldable pub requested_budget : LeaseRequest → Budget
requested_budget request = record {
  max_tool_calls = positive_integer request.max_tool_calls;
  max_tokens = positive_integer request.max_tokens;
  max_parallel = positive_integer request.max_parallel;
}

abbrev add_optional : ℕ → Option ℕ → Option ℕ
add_optional n none = none
add_optional n (some k) = some (n + k)

-- The times that `requestLease` reads, in their order.
pub record Readings : Type 0 where
  pub first : ℕ
  pub second : ℕ
  pub third : ℕ

unfoldable pub new_lease : String → String → SkillDocument → LeaseRequest → Budget → ℕ → ℕ → Lease
new_lease id session_id skill request budget now current_turn = record {
  id = id;
  session_id = session_id;
  skill_name = skill.name;
  reason = trim request.reason;
  budget = budget;
  created_at = now;
  expires_at = add_optional now (positive_integer request.ttl_ms);
  expires_after_turn = add_optional current_turn (positive_integer request.ttl_turns);
  status = active;
  cancelled_at = none;
  cancelled_reason = none;
}

unfoldable pub additional_budget : SkillDocument → LeaseRequest → Budget → Budget
additional_budget skill request current =
    clamp_additional_budget (requested_budget request) (default_lease_of skill) current
      (hard_ceiling_of skill)

-- The end of `requestLease`, where there is a lease to grant.
unfoldable pub issue : Lease → ℕ → ℕ → Cell → Cell × LeaseResult
issue lease now current_turn cell = (
  record {
    leases = Dict.set lease.id lease cell.leases;
    events = cell.events ++ granted current_turn lease now ∷ [];
  },
  ok lease,
)

-- `requestLease` once there is a skill and its granted budget is known.
unfoldable pub grant_lease :
    String → String → SkillDocument → LeaseRequest → Budget → ℕ → ℕ → Cell → Cell × LeaseResult
grant_lease id session_id skill request current now current_turn cell =
    let budget = additional_budget skill request current in
    if budget_has_values budget
    then issue (new_lease id session_id skill request budget now current_turn) now current_turn cell
    else (
      cell,
      failed (
          if same_budget (default_lease_of skill) (hard_ceiling_of skill)
          then no_headroom skill.name
          else no_expansion),
    )

-- `requestLease` after its first expiry.
unfoldable pub request_for :
    String → String → Option SkillDocument → LeaseRequest → Readings → ℕ → Cell → Cell × LeaseResult
request_for id session_id none request read current_turn cell = (cell, failed skill_required)
request_for id session_id (some skill) request read current_turn cell =
    let (cell', current) =
      get_granted_budget (some skill.name) (some skill) read.second current_turn cell in
    grant_lease id session_id skill request current read.third current_turn cell'

unfoldable pub request_lease :
    String → String → Option SkillDocument → LeaseRequest → Readings → ℕ → Cell → Cell × LeaseResult
request_lease id session_id active_skill request read current_turn cell =
    if trim request.reason == ""
    then (cell, failed reason_required)
    else request_for id session_id active_skill request read current_turn
        (expire_leases read.first current_turn cell)

abbrev pub cancel_reason : Option String → String
cancel_reason reason = or_else (normalize_optional reason) "cancelled"

abbrev pub as_cancelled : Option String → ℕ → Lease → Lease
as_cancelled reason now lease = record lease {
  status = cancelled;
  cancelled_at = some now;
  cancelled_reason = some (cancel_reason reason);
}

unfoldable pub cancel_found :
    Option Lease → String → Option String → ℕ → ℕ → Cell → Cell × LeaseResult
cancel_found none lease_id reason now current_turn cell = (cell, failed (not_found lease_id))
cancel_found (some lease) lease_id reason now current_turn cell =
    if is_active lease.status
    then (
      record {
        leases = Dict.set lease_id (as_cancelled reason now lease) cell.leases;
        events =
            cell.events ++ lease_cancelled current_turn lease.id now (cancel_reason reason) ∷ [];
      },
      ok (as_cancelled reason now lease),
    )
    else (cell, failed (already lease_id lease.status))

unfoldable pub cancel_lease : String → Option String → ℕ → ℕ → ℕ → Cell → Cell × LeaseResult
cancel_lease lease_id reason expiry_now now current_turn cell =
    let cell' = expire_leases expiry_now current_turn cell in
    cancel_found (Dict.get lease_id cell'.leases) lease_id reason now current_turn cell'

-- The three filters of `listLeases`.
unfoldable pub is_listed : LeaseQuery → Option SkillDocument → Lease → Bool
is_listed query active_skill lease =
    (query.include_inactive || is_active lease.status) && elim query.skill_name [
      | none ↦ query.include_inactive || is_named (name_of active_skill) lease.skill_name
      | some name ↦ name == "" || lease.skill_name == name
    ]

unfoldable pub list_leases : LeaseQuery → Option SkillDocument → ℕ → ℕ → Cell → Cell × List Lease
list_leases query active_skill now current_turn cell =
    let cell' = expire_leases now current_turn cell in
    (
      cell',
      sort (λ left right. leb right.created_at left.created_at)
          (keep (is_listed query active_skill) (Dict.values cell'.leases)),
    )

-- `getEffectiveBudget`.
unfoldable pub get_effective_budget :
    SkillDocument → Option String → Option SkillDocument → ℕ → ℕ → Cell → Cell × Option Budget
get_effective_budget contract skill_name active_skill now current_turn cell =
    let (cell', expansion) = get_granted_budget skill_name active_skill now current_turn cell in
    let combined = sum_budget (default_lease_of contract) expansion in
    (
      cell',
      if budget_has_values combined
          then some (clamp_budget combined (hard_ceiling_of contract))
          else none,
    )

unfoldable pub restore_lease : Lease → Cell → Cell
restore_lease lease cell = record cell { leases = Dict.set lease.id lease cell.leases }

unfoldable pub with_status : LeaseStatus → Option ℕ → Option String → Lease → Lease
with_status cancelled at why lease = record lease {
  status = cancelled;
  cancelled_at = at;
  cancelled_reason = why;
}
with_status status at why lease = record lease { status = status }

unfoldable pub mark_lease_status : String → LeaseStatus → Option ℕ → Option String → Cell → Cell
mark_lease_status lease_id status at why cell = elim (Dict.get lease_id cell.leases) [
  | none ↦ cell
  | some lease ↦ record cell {
    leases = Dict.set lease_id (with_status status at why lease) cell.leases;
  }
]

-- The public calls on a session that change it, each with its clock readings, the turn and the active skill.
pub data Call : Type 0 where
  requests : String → String → Option SkillDocument → LeaseRequest → Readings → ℕ → Call
  cancels : String → Option String → ℕ → ℕ → ℕ → Call
  lists : LeaseQuery → Option SkillDocument → ℕ → ℕ → Call
  reads_budget : SkillDocument → Option String → Option SkillDocument → ℕ → ℕ → Call
  restores : Lease → Call
  marks : String → LeaseStatus → Option ℕ → Option String → Call

unfoldable pub step : Cell → Call → Cell
step cell (requests id session_id active_skill request read current_turn) =
    (request_lease id session_id active_skill request read current_turn cell).0
step cell (cancels lease_id reason expiry_now now current_turn) =
    (cancel_lease lease_id reason expiry_now now current_turn cell).0
step cell (lists query active_skill now current_turn) =
    (list_leases query active_skill now current_turn cell).0
step cell (reads_budget contract skill_name active_skill now current_turn) =
    (get_effective_budget contract skill_name active_skill now current_turn cell).0
step cell (restores lease) = restore_lease lease cell
step cell (marks lease_id status at why) = mark_lease_status lease_id status at why cell

-- `randomUUID` gives an id that no lease of the session has.
abbrev pub IsFresh : Cell → Call → Type 0
IsFresh cell (requests id session_id active_skill request read current_turn) =
    Dict.get id cell.leases ≡ none
IsFresh cell _ = Unit
