-- ===== src/Lease/Ceiling.antt =====
-- The active leases of a skill against the hard ceiling of its contract.
use mathlib.Core.Option
use pi_roaster.Base.{
  ℕ, ◌+◌, ◌≤◌, ◌≡◌, ◌≢◌, refl, ap, ◌∙◌, inl, inr, String, false, ◌&&◌, Option, none, some, [], ◌∷◌,
  ◌==◌, string_eq, if◌then◌else◌, arith, eq_iff, if_cases, Bool-cases, Option-cases,
}
use pi_roaster.Base.Dict
use pi_roaster.Base.Dict.{Dict}
use pi_roaster.Base.Text.{trim}
use pi_roaster.Lease.Amounts.{
  Budget, SkillDocument, Dimension, tool_calls, tokens, parallel, limit_on, amount,
  amount-sum_budget, clamp_fits, no_budget, default_lease_of, hard_ceiling_of, budget_has_values,
  sum_budget,
}
use pi_roaster.Lease.{
  Lease, Cell, Call, requests, cancels, lists, reads_budget, restores, marks, LeaseStatus, active,
  cancelled, expired, restore_lease, with_status, mark_lease_status, LeaseResult, IsFresh,
  is_active, expire_one, expire_all, expire_leases, get_granted_budget, grant_lease, request_lease,
  sum_active, cancel_lease, list_leases, get_effective_budget, step, LeaseRequest, Readings,
  request_for, issue, new_lease, as_cancelled, cancel_found, additional_budget, requested_budget,
}
use pi_roaster.Lease.Expiry.{get-expire_leases}

-- What a lease adds to the budget of the skill of that name.
unfoldable pub contribution : Dimension → String → Lease → ℕ
contribution d name lease =
    if is_active lease.status && lease.skill_name == name then amount d lease.budget else 0

-- What the active leases of a skill add to its budget on one dimension.
unfoldable pub leased : Dimension → String → Dict Lease → ℕ
leased d name [] = 0
leased d name ((k, lease) ∷ rest) = contribution d name lease + leased d name rest

pub amount-sum_active :
    (d : Dimension) (name : String) (b : Budget) (leases : Dict Lease)
    → amount d (sum_active (some name) b leases) ≡ amount d b + leased d name leases
unfolding sum_active leased contribution
amount-sum_active d name b [] = omega arith
amount-sum_active d name b ((k, l) ∷ rest) = ground (
  arith,
  amount-sum_active d name b rest,
  amount-sum_active d name (sum_budget b l.budget) rest,
  amount-sum_budget d b l.budget,
)

contribution-expire_one :
    (d : Dimension) (name : String) (now t : ℕ) (l : Lease)
    → contribution d name (expire_one now t l) ≤ contribution d name l
unfolding contribution expire_one
contribution-expire_one d name now t l = ground arith

leased-expire_all :
    (d : Dimension) (name : String) (now t : ℕ) (leases : Dict Lease)
    → leased d name (expire_all now t leases) ≤ leased d name leases
unfolding leased expire_all
leased-expire_all d name now t [] = omega arith
leased-expire_all d name now t ((k, l) ∷ rest) =
    omega (arith, contribution-expire_one d name now t l, leased-expire_all d name now t rest)

pub amount-no_budget : (d : Dimension) → amount d no_budget ≡ 0
amount-no_budget tool_calls = refl
amount-no_budget tokens = refl
amount-no_budget parallel = refl

abbrev contribution_of : Dimension → String → Option Lease → ℕ
contribution_of d name none = 0
contribution_of d name (some l) = contribution d name l

-- A lease that is put under an id replaces what the one before it added.
leased-set :
    (d : Dimension) (name id : String) (new : Lease) (leases : Dict Lease)
    → leased d name (Dict.set id new leases) + contribution_of d name (Dict.get id leases)
      ≡ leased d name leases + contribution d name new
unfolding leased Dict.set Dict.get
leased-set d name id new [] = omega arith
leased-set d name id new ((k, l) ∷ rest) = elim (Bool-cases (k == id)) [
  | inl hit ↦ rw hit (omega arith)
  | inr miss ↦ rw miss (omega (arith, leased-set d name id new rest))
]

grant_fits :
    (d : Dimension) (skill : SkillDocument) (request : LeaseRequest) (current : Budget) (h : ℕ)
    → limit_on d (hard_ceiling_of skill) ≡ some h
    → amount d (default_lease_of skill) + amount d current ≤ h
    → amount d (default_lease_of skill)
        + (amount d current + amount d (additional_budget skill request current))
      ≤ h
unfolding additional_budget
grant_fits d skill request current h e k =
    clamp_fits d (requested_budget request) (default_lease_of skill) current (hard_ceiling_of skill)
      h e k

-- The skill's default budget and its leases stay within the ceiling on every dimension that has one.
abbrev pub IsUnderCeiling : SkillDocument → Cell → Type 0
IsUnderCeiling skill cell =
    (d : Dimension) (h : ℕ)
    → limit_on d (hard_ceiling_of skill) ≡ some h
    → amount d (default_lease_of skill) + leased d skill.name cell.leases ≤ h

-- Whoever is active under the skill's name is the skill.
abbrev pub Agrees : SkillDocument → Option SkillDocument → Type 0
Agrees skill none = Unit
Agrees skill (some other) = other.name ≡ skill.name → other ≡ skill

pub expire_leases-IsUnderCeiling :
    (skill : SkillDocument) (now t : ℕ) (cell : Cell)
    → IsUnderCeiling skill cell
    → IsUnderCeiling skill (expire_leases now t cell)
unfolding expire_leases
expire_leases-IsUnderCeiling skill now t cell v d h e =
    omega (arith, v d h e, leased-expire_all d skill.name now t cell.leases)

get-expire_leases-none :
    (now t : ℕ) (k : String) (cell : Cell)
    → Dict.get k cell.leases ≡ none
    → Dict.get k (expire_leases now t cell).leases ≡ none
get-expire_leases-none now t k cell e =
    get-expire_leases now t k cell ∙ ap (Option.map (expire_one now t)) e

leased-issue :
    (d : Dimension) (name : String) (lease : Lease) (now t : ℕ) (cell : Cell)
    → Dict.get lease.id cell.leases ≡ none
    → leased d name (issue lease now t cell).0.leases
      ≡ leased d name cell.leases + contribution d name lease
unfolding issue
leased-issue d name lease now t cell fresh =
    omega (arith, leased-set d name lease.id lease cell.leases, ap (contribution_of d name) fresh)

contribution_own :
    (d : Dimension) (id session_id : String) (skill : SkillDocument) (request : LeaseRequest)
    (b : Budget) (now t : ℕ)
    → contribution d skill.name (new_lease id session_id skill request b now t) ≡ amount d b
unfolding contribution new_lease
contribution_own d id session_id skill request b now t = rw ((eq_iff skill.name skill.name).1 refl)

contribution_other :
    (d : Dimension) (name id session_id : String) (skill : SkillDocument) (request : LeaseRequest)
    (b : Budget) (now t : ℕ)
    → skill.name ≢ name
    → contribution d name (new_lease id session_id skill request b now t) ≡ 0
unfolding contribution new_lease
contribution_other d name id session_id skill request b now t ne =
    ground (arith, eq_iff skill.name name)

-- A grant for the skill itself.
grant_own :
    (id session_id : String) (skill : SkillDocument) (request : LeaseRequest) (now t : ℕ)
    (cell : Cell)
    → Dict.get id cell.leases ≡ none
    → IsUnderCeiling skill cell
    → IsUnderCeiling skill
        (grant_lease id session_id skill request
          (sum_active (some skill.name) no_budget cell.leases)
          now
          t
          cell).0
unfolding grant_lease
grant_own id session_id skill request now t cell fresh v =
    elim (Bool-cases (budget_has_values (additional_budget skill request current))) [
      | inl e ↦ rw (e, grant_lease) fits
      | inr e ↦ rw (e, grant_lease) v
    ]
  where
    current : Budget
    current = sum_active (some skill.name) no_budget cell.leases

    lease : Lease
    lease = new_lease id session_id skill request (additional_budget skill request current) now t

    fits : IsUnderCeiling skill (issue lease now t cell).0
    fits d h e = omega (
      arith,
      v d h e,
      leased-issue d skill.name lease now t cell (unfold new_lease in fresh),
      contribution_own d id session_id skill request (additional_budget skill request current) now
          t,
      amount-sum_active d skill.name no_budget cell.leases,
      amount-no_budget d,
      grant_fits d skill request current h e,
    )

-- A grant for another skill.
grant_other :
    (id session_id : String) (skill other : SkillDocument) (request : LeaseRequest)
    (current : Budget) (now t : ℕ) (cell : Cell)
    → other.name ≢ skill.name
    → Dict.get id cell.leases ≡ none
    → IsUnderCeiling skill cell
    → IsUnderCeiling skill (grant_lease id session_id other request current now t cell).0
unfolding grant_lease
grant_other id session_id skill other request current now t cell ne fresh v =
    elim (Bool-cases (budget_has_values (additional_budget other request current))) [
      | inl e ↦ rw (e, grant_lease) same
      | inr e ↦ rw (e, grant_lease) v
    ]
  where
    lease : Lease
    lease = new_lease id session_id other request (additional_budget other request current) now t

    same : IsUnderCeiling skill (issue lease now t cell).0
    same d h e = omega (
      arith,
      v d h e,
      leased-issue d skill.name lease now t cell (unfold new_lease in fresh),
      contribution_other d skill.name id session_id other request
          (additional_budget other request current) now t ne,
    )

request_for-IsUnderCeiling :
    (id session_id : String) (skill : SkillDocument) (by : Option SkillDocument)
    (request : LeaseRequest) (read : Readings) (t : ℕ) (cell : Cell)
    → Agrees skill by
    → Dict.get id cell.leases ≡ none
    → IsUnderCeiling skill cell
    → IsUnderCeiling skill (request_for id session_id by request read t cell).0
unfolding request_for get_granted_budget
request_for-IsUnderCeiling id session_id skill none request read t cell agrees fresh v = v
request_for-IsUnderCeiling id session_id skill (some other) request read t cell agrees fresh v =
    elim (Bool-cases (other.name == skill.name)) [
      | inl same ↦
          let e : other ≡ skill = agrees ((eq_iff other.name skill.name).0 same) in
          rw e (
            grant_own id session_id skill request read.third t (expire_leases read.second t cell)
              (get-expire_leases-none read.second t id cell fresh)
              (expire_leases-IsUnderCeiling skill read.second t cell v))
      | inr different ↦
          grant_other id session_id skill other request _ read.third t _
            (λ e. ground (arith, eq_iff other.name skill.name))
            (get-expire_leases-none read.second t id cell fresh)
            (expire_leases-IsUnderCeiling skill read.second t cell v)
    ]

contribution_nothing :
    (d : Dimension) (name : String) (l : Lease)
    → (is_active l.status && l.skill_name == name) ≡ false
    → contribution d name l ≡ 0
unfolding contribution
contribution_nothing d name l e = rw e refl

with_status-inactive :
    (status : LeaseStatus) (at : Option ℕ) (why : Option String) (l : Lease) (name : String)
    → is_active status ≡ false
    → (is_active (with_status status at why l).status
        && (with_status status at why l).skill_name == name)
      ≡ false
unfolding with_status
with_status-inactive active at why l name h = absurd (ground arith)
with_status-inactive cancelled at why l name h = refl
with_status-inactive expired at why l name h = refl

contribution_inactive :
    (d : Dimension) (name : String) (l : Lease)
    → is_active l.status ≡ false
    → contribution d name l ≡ 0
unfolding contribution
contribution_inactive d name l e = ground arith

-- To put a lease that is not active in a place never lifts the sum.
leased-set_inactive :
    (d : Dimension) (name id : String) (l : Lease) (leases : Dict Lease)
    → is_active l.status ≡ false
    → leased d name (Dict.set id l leases) ≤ leased d name leases
leased-set_inactive d name id l leases e =
    omega (arith, leased-set d name id l leases, contribution_inactive d name l e)

cancel_found-IsUnderCeiling :
    (skill : SkillDocument) (o : Option Lease) (id : String) (reason : Option String) (now t : ℕ)
    (cell : Cell)
    → IsUnderCeiling skill cell
    → IsUnderCeiling skill (cancel_found o id reason now t cell).0
unfolding cancel_found
cancel_found-IsUnderCeiling skill none id reason now t cell v = v
cancel_found-IsUnderCeiling skill (some lease) id reason now t cell v =
    elim (Bool-cases (is_active lease.status)) [
      | inl live ↦
          rw (live, cancel_found)
            (λ d h e. omega (
              arith,
              v d h e,
              leased-set_inactive d skill.name id (as_cancelled reason now lease) cell.leases refl,
            ))
      | inr over ↦ rw (over, cancel_found) v
    ]

-- The active skill of a call.
abbrev caller : Call → Option SkillDocument
caller (requests id session_id active_skill request read t) = active_skill
caller _ = none

-- To put a lease that adds nothing to the skill in a place never lifts its sum.
set_nothing-IsUnderCeiling :
    (skill : SkillDocument) (id : String) (l : Lease) (cell : Cell)
    → (is_active l.status && l.skill_name == skill.name) ≡ false
    → IsUnderCeiling skill cell
    → IsUnderCeiling skill (record cell { leases = Dict.set id l cell.leases })
unfolding contribution
set_nothing-IsUnderCeiling skill id l cell nothing v d h e = omega (
  arith,
  v d h e,
  leased-set d skill.name id l cell.leases,
  contribution_nothing d skill.name l nothing,
)

mark_lease_status-IsUnderCeiling :
    (skill : SkillDocument) (id : String) (status : LeaseStatus) (at : Option ℕ)
    (why : Option String) (cell : Cell)
    → is_active status ≡ false
    → IsUnderCeiling skill cell
    → IsUnderCeiling skill (mark_lease_status id status at why cell)
unfolding mark_lease_status
mark_lease_status-IsUnderCeiling skill id status at why cell over v =
    elim (Option-cases (Dict.get id cell.leases)) [
      | inl missing ↦ rw (missing, mark_lease_status) v
      | inr (lease, found) ↦
          rw (found, mark_lease_status)
            (set_nothing-IsUnderCeiling skill id (with_status status at why lease) cell
              (with_status-inactive status at why lease skill.name over) v)
    ]

-- `restoreLease` and `markLeaseStatus`, which check no ceiling, make no lease of the skill active.
abbrev pub AddsNothing : SkillDocument → Call → Type 0
AddsNothing skill (restores lease) =
    (is_active lease.status && lease.skill_name == skill.name) ≡ false
AddsNothing skill (marks id status at why) = is_active status ≡ false
AddsNothing skill _ = Unit

-- If the default budget of a skill and its active leases are within the hard ceiling on every
-- dimension that has one, then so they are after any call of the service, provided that the id of
-- a new lease is new, that a skill of that name which requests it is this skill, and that
-- `restoreLease` and `markLeaseStatus`, which check no ceiling, make no lease of the skill active.
pub step-IsUnderCeiling :
    (skill : SkillDocument) (cell : Cell) (call : Call)
    → IsFresh cell call
    → Agrees skill (caller call)
    → AddsNothing skill call
    → IsUnderCeiling skill cell
    → IsUnderCeiling skill (step cell call)
unfolding step request_lease cancel_lease list_leases get_effective_budget get_granted_budget
    restore_lease
step-IsUnderCeiling skill cell (requests id session_id by request read t) fresh agrees nothing v =
    if_cases {A = Cell × LeaseResult} (λ r. IsUnderCeiling skill r.0) (trim request.reason == "")
      (λ _. v)
      (λ _.
        request_for-IsUnderCeiling id session_id skill by request read t _ agrees
          (get-expire_leases-none read.first t id cell fresh)
          (expire_leases-IsUnderCeiling skill read.first t cell v))
step-IsUnderCeiling skill cell (cancels id reason expiry_now now t) fresh agrees nothing v =
    cancel_found-IsUnderCeiling skill _ id reason now t _
      (expire_leases-IsUnderCeiling skill expiry_now t cell v)
step-IsUnderCeiling skill cell (lists query by now t) fresh agrees nothing v =
    expire_leases-IsUnderCeiling skill now t cell v
step-IsUnderCeiling skill cell (reads_budget contract name by now t) fresh agrees nothing v =
    expire_leases-IsUnderCeiling skill now t cell v
step-IsUnderCeiling skill cell (restores lease) fresh agrees nothing v =
    set_nothing-IsUnderCeiling skill lease.id lease cell nothing v
step-IsUnderCeiling skill cell (marks id status at why) fresh agrees nothing v =
    mark_lease_status-IsUnderCeiling skill id status at why cell nothing v
