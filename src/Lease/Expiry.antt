-- ===== src/Lease/Expiry.antt =====
-- `expireLeases` and the leases that are over (packages/brewva-runtime/src/services/resource-lease.ts).
use mathlib.Core.Option
use pi_roaster.Base.{
  ℕ, ◌≡◌, ◌≢◌, refl, ap, ◌∙◌, inl, inr, String, false, Option, none, some, [], ◌∷◌, ◌==◌, string_eq,
  All, arith, eq_iff, if_cases, Bool-cases, Option-cases,
}
use pi_roaster.Base.Dict
use pi_roaster.Base.Dict.{Dict}
use pi_roaster.Base.Text.{trim}
use pi_roaster.Lease.Amounts.{Budget, SkillDocument, budget_has_values}
use pi_roaster.Lease.{
  Lease, Cell, Call, requests, cancels, lists, reads_budget, restores, marks, LeaseStatus,
  restore_lease, with_status, mark_lease_status, LeaseResult, IsFresh, is_active, is_due,
  expire_one, expire_all, expire_leases, get_granted_budget, grant_lease, request_lease,
  request_for, issue, new_lease, cancel_found, additional_budget, cancel_lease, list_leases,
  get_effective_budget, step, LeaseRequest, Readings,
}

pub get-expire_all :
    (now t : ℕ) (k : String) (d : Dict Lease)
    → Dict.get k (expire_all now t d) ≡ Option.map (expire_one now t) (Dict.get k d)
unfolding expire_all Dict.get
get-expire_all now t k [] = refl
get-expire_all now t k ((j, l) ∷ d) = ground (arith, get-expire_all now t k d)

-- A lease changes when its time or its turn has come: it is then expired, and all else stays.
pub get-expire_leases :
    (now t : ℕ) (k : String) (cell : Cell)
    → Dict.get k (expire_leases now t cell).leases
      ≡ Option.map (expire_one now t) (Dict.get k cell.leases)
unfolding expire_leases
get-expire_leases now t k cell = get-expire_all now t k cell.leases

expire_one_live : (now t : ℕ) (l : Lease) → is_due now t (expire_one now t l) ≡ false
unfolding expire_one is_due
expire_one_live now t l = ground arith

-- After `expireLeases` no active lease has reached its time or its turn.
pub expire_all_live :
    (now t : ℕ) (d : Dict Lease)
    → All (λ l. is_due now t l ≡ false) (Dict.values (expire_all now t d))
unfolding expire_all Dict.values
expire_all_live now t [] = tt
expire_all_live now t ((k, l) ∷ d) = (expire_one_live now t l, expire_all_live now t d)

pub expire_one_inactive :
    (now t : ℕ) (l : Lease) → is_active l.status ≡ false → expire_one now t l ≡ l
unfolding expire_one is_due
expire_one_inactive now t l e = ground arith

-- The lease `l` under the id `k` is over.
abbrev pub IsOver : String → Lease → Cell → Type 0
IsOver k l cell = (Dict.get k cell.leases ≡ some l) × (is_active l.status ≡ false)

pub expire_leases-IsOver :
    (now t : ℕ) (k : String) (l : Lease) (cell : Cell)
    → IsOver k l cell
    → IsOver k l (expire_leases now t cell)
expire_leases-IsOver now t k l cell h = (
  get-expire_leases now t k cell
      ∙ ap (Option.map (expire_one now t)) h.0
      ∙ ap some (expire_one_inactive now t l h.1),
  h.1,
)

set-IsOver :
    (id k : String) (l new : Lease) (d : Dict Lease)
    → id ≢ k
    → Dict.get k d ≡ some l
    → Dict.get k (Dict.set id new d) ≡ some l
set-IsOver id k l new d ne h = ground (arith, Dict.get-set id k new d, eq_iff id k)

grant_lease-IsOver :
    (id session_id : String) (skill : SkillDocument) (request : LeaseRequest) (current : Budget)
    (now t : ℕ) (k : String) (l : Lease) (cell : Cell)
    → id ≢ k
    → IsOver k l cell
    → IsOver k l (grant_lease id session_id skill request current now t cell).0
unfolding grant_lease issue new_lease
grant_lease-IsOver id session_id skill request current now t k l cell ne h =
    elim (Bool-cases (budget_has_values (additional_budget skill request current))) [
      | inl e ↦ rw (e, grant_lease) (set-IsOver id k l _ cell.leases ne h.0, h.1)
      | inr e ↦ rw (e, grant_lease) h
    ]

request_for-IsOver :
    (id session_id : String) (skill : Option SkillDocument) (request : LeaseRequest)
    (read : Readings) (t : ℕ) (k : String) (l : Lease) (cell : Cell)
    → id ≢ k
    → IsOver k l cell
    → IsOver k l (request_for id session_id skill request read t cell).0
unfolding request_for get_granted_budget
request_for-IsOver id session_id none request read t k l cell ne h = h
request_for-IsOver id session_id (some skill) request read t k l cell ne h =
    grant_lease-IsOver id session_id skill request _ read.third t k l _ ne
      (expire_leases-IsOver read.second t k l cell h)

cancel_found-IsOver :
    (o : Option Lease) (id : String) (reason : Option String) (now t : ℕ) (k : String) (l : Lease)
    (cell : Cell)
    → Dict.get id cell.leases ≡ o
    → IsOver k l cell
    → IsOver k l (cancel_found o id reason now t cell).0
unfolding cancel_found
cancel_found-IsOver none id reason now t k l cell e h = h
cancel_found-IsOver (some lease) id reason now t k l cell e h =
    elim (Bool-cases (is_active lease.status)) [
      | inl live ↦
          rw (live, cancel_found)
            (
              set-IsOver id k l _ cell.leases
                  (λ same. ground (arith, h.0, h.1, live, ap (λ j. Dict.get j cell.leases) same))
                  h.0,
              h.1,
            )
      | inr over ↦ rw (over, cancel_found) h
    ]

mark_lease_status-IsOver :
    (id : String) (status : LeaseStatus) (at : Option ℕ) (why : Option String) (k : String)
    (l : Lease) (cell : Cell)
    → id ≢ k
    → IsOver k l cell
    → IsOver k l (mark_lease_status id status at why cell)
unfolding mark_lease_status
mark_lease_status-IsOver id status at why k l cell ne h =
    elim (Option-cases (Dict.get id cell.leases)) [
      | inl missing ↦ rw (missing, mark_lease_status) h
      | inr (lease, found) ↦
          rw (found, mark_lease_status)
            (set-IsOver id k l (with_status status at why lease) cell.leases ne h.0, h.1)
    ]

-- `restoreLease` and `markLeaseStatus`, which check nothing, are not called for the lease `k`.
abbrev pub Spares : String → Call → Type 0
Spares k (restores lease) = lease.id ≢ k
Spares k (marks id status at why) = id ≢ k
Spares k _ = Unit

-- A lease that has expired or was cancelled stays as it is under every call of the service, and
-- so is not active again, provided that the id of a new lease is new and that `restoreLease` and
-- `markLeaseStatus`, which overwrite a lease without a test, are called for other ids.
pub step-IsOver :
    (cell : Cell) (call : Call) (k : String) (l : Lease)
    → IsFresh cell call
    → Spares k call
    → IsOver k l cell
    → IsOver k l (step cell call)
unfolding step request_lease cancel_lease list_leases get_effective_budget get_granted_budget
    restore_lease
step-IsOver cell (requests id session_id skill request read t) k l fresh spared h =
    if_cases {A = Cell × LeaseResult} (λ r. IsOver k l r.0) (trim request.reason == "") (λ _. h)
      (λ _.
        request_for-IsOver id session_id skill request read t k l _
          (λ same. ground (arith, h.0, fresh, ap (λ j. Dict.get j cell.leases) same))
          (expire_leases-IsOver read.first t k l cell h))
step-IsOver cell (cancels id reason expiry_now now t) k l fresh spared h =
    cancel_found-IsOver _ id reason now t k l _ refl (expire_leases-IsOver expiry_now t k l cell h)
step-IsOver cell (lists query skill now t) k l fresh spared h =
    expire_leases-IsOver now t k l cell h
step-IsOver cell (reads_budget contract name skill now t) k l fresh spared h =
    expire_leases-IsOver now t k l cell h
step-IsOver cell (restores lease) k l fresh spared h =
    (set-IsOver lease.id k l lease cell.leases spared h.0, h.1)
step-IsOver cell (marks id status at why) k l fresh spared h =
    mark_lease_status-IsOver id status at why k l cell spared h
