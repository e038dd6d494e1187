-- ===== src/Lease/Grants.antt =====
-- What a request that succeeds grants (packages/brewva-runtime/src/services/resource-lease.ts).
use pi_roaster.Base.{
  ℕ, ◌≡◌, ◌≤◌, refl, subst, String, Option, none, some, inl, inr, Bool-cases, arith, ◌==◌,
  string_eq, eq_iff,
}
use pi_roaster.Base.Dict
use pi_roaster.Base.Text.{trim}
use pi_roaster.Lease.Amounts.{
  Budget, SkillDocument, Dimension, amount, budget_has_values, clamp_le_requested, default_lease_of,
  hard_ceiling_of,
}
use pi_roaster.Lease.{
  Lease, Cell, active, LeaseRequest, Readings, ok, additional_budget, requested_budget, new_lease,
  issue, grant_lease, request_for, request_lease, expire_leases,
}

-- The lease is active, stands under its id, and is no more than was asked for.
pub record IsGrant (id : String) (request : LeaseRequest) (lease : Lease) (cell : Cell)
    : Type 0 where
  pub stored : Dict.get id cell.leases ≡ some lease
  pub is_live : lease.status ≡ active
  pub bounded : (d : Dimension) → amount d lease.budget ≤ amount d (requested_budget request)

issue-IsGrant :
    (id session_id : String) (skill : SkillDocument) (request : LeaseRequest) (current : Budget)
    (now t : ℕ) (cell : Cell)
    → let lease =
        new_lease id session_id skill request (additional_budget skill request current) now t in
      IsGrant id request lease (issue lease now t cell).0
unfolding issue new_lease additional_budget
issue-IsGrant id session_id skill request current now t cell = record {
  stored = ground (
    arith,
    Dict.get-set id id
        (new_lease id session_id skill request (additional_budget skill request current) now t)
        cell.leases,
    eq_iff id id,
  );
  is_live = refl;
  bounded = λ d.
      clamp_le_requested d (requested_budget request) (default_lease_of skill) current
        (hard_ceiling_of skill);
}

grant_lease-IsGrant :
    (id session_id : String) (skill : SkillDocument) (request : LeaseRequest) (current : Budget)
    (now t : ℕ) (cell : Cell) (lease : Lease)
    → (grant_lease id session_id skill request current now t cell).1 ≡ ok lease
    → IsGrant id request lease (grant_lease id session_id skill request current now t cell).0
unfolding grant_lease
grant_lease-IsGrant id session_id skill request current now t cell lease e =
    elim (Bool-cases (budget_has_values (additional_budget skill request current))) [
      | inl has ↦
          let same : new_lease id session_id skill request (additional_budget skill request current)
                now t
              ≡ lease =
            unfold issue in ground (arith, e, has) in
          rw (has, grant_lease)
            (subst
              (λ l.
                IsGrant id request l
                  (issue
                    (new_lease id session_id skill request (additional_budget skill request current)
                      now t)
                    now t cell).0)
              same (issue-IsGrant id session_id skill request current now t cell))
      | inr empty ↦ absurd (ground (arith, e, empty))
    ]

request_for-IsGrant :
    (id session_id : String) (by : Option SkillDocument) (request : LeaseRequest) (read : Readings)
    (t : ℕ) (cell : Cell) (lease : Lease)
    → (request_for id session_id by request read t cell).1 ≡ ok lease
    → IsGrant id request lease (request_for id session_id by request read t cell).0
unfolding request_for
request_for-IsGrant id session_id none request read t cell lease e = absurd (ground (arith, e))
request_for-IsGrant id session_id (some skill) request read t cell lease e =
    grant_lease-IsGrant id session_id skill request _ read.third t _ lease e

-- A request that succeeds leaves its lease under its id: it is active, and on every dimension no
-- more than was asked for.
pub request_grants :
    (id session_id : String) (by : Option SkillDocument) (request : LeaseRequest) (read : Readings)
    (t : ℕ) (cell : Cell) (lease : Lease)
    → (request_lease id session_id by request read t cell).1 ≡ ok lease
    → IsGrant id request lease (request_lease id session_id by request read t cell).0
unfolding request_lease
request_grants id session_id by request read t cell lease e =
    elim (Bool-cases (trim request.reason == "")) [
      | inl blank ↦ absurd (ground (arith, e, blank))
      | inr filled ↦
          rw (filled, request_lease)
            (request_for-IsGrant id session_id by request read t (expire_leases read.first t cell)
              lease (rw (filled, request_lease) at e))
    ]
