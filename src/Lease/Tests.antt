-- ===== src/Lease/Tests.antt =====
-- The leases of a skill whose contract allows ten tool calls, four of them by default.
use pi_roaster.Base.{ℕ, ◌+◌, ◌≡◌, refl, false, true, none, some, [], ◌∷◌, arith}
use pi_roaster.Base.Dict
use pi_roaster.Base.Dict.{Dict}
use pi_roaster.Base.Numeric.{whole}
use pi_roaster.Lease.Amounts.{
  Budget, SkillDocument, tool_calls, tokens, parallel, limit_on, amount, default_lease_of,
  hard_ceiling_of, clone_budget, sum_budget, sum_dimension, clamp_budget, clamp_dimension,
  budget_has_values,
}
use pi_roaster.Lease.Grants.{IsGrant, request_grants}
use pi_roaster.Base.Text.{trim}
use pi_roaster.Base.Numeric.{positive_integer, trunc_at_least}
use pi_roaster.Lease.Amounts.{clamp, clamp_additional_budget}
use pi_roaster.Lease.{
  Readings, ok, new_lease, request_lease, request_for, grant_lease, issue, additional_budget,
  requested_budget, Lease, Cell, Call, requests, active, expired, LeaseRequest, IsFresh, is_due,
  expire_one, expire_all, expire_leases, get_granted_budget, get_effective_budget, sum_active, step,
}
use pi_roaster.Lease.Expiry.{IsOver, step-IsOver}
use pi_roaster.Lease.Ceiling.{leased, contribution, IsUnderCeiling, Agrees, step-IsUnderCeiling}
use pi_roaster.Lease.Effective.{effective_exact}

abbrev calls_budget : ℕ → Budget
calls_budget n = record { max_tool_calls = some n; max_tokens = none; max_parallel = none }

abbrev review : SkillDocument
review = record {
  name = "review";
  resources =
      some
        (record { default_lease = some (calls_budget 4); hard_ceiling = some (calls_budget 10) });
}

abbrev old_lease : Lease
old_lease = record {
  id = "l1";
  session_id = "s";
  skill_name = "review";
  reason = "more calls";
  budget = calls_budget 3;
  created_at = 1;
  expires_at = some 90;
  expires_after_turn = none;
  status = active;
  cancelled_at = none;
  cancelled_reason = none;
}

abbrev over_lease : Lease
over_lease = record old_lease { id = "l0"; status = expired }

abbrev cell : Cell
cell = record { leases = ("l0", over_lease) ∷ ("l1", old_lease) ∷ []; events = [] }

abbrev request : LeaseRequest
request = record {
  reason = "deeper review";
  max_tool_calls = some (whole 20 false);
  max_tokens = none;
  max_parallel = none;
  ttl_ms = none;
  ttl_turns = some (whole 2 true);
}

abbrev asks : Call
asks = requests "l2" "s" (some review) request (record { first = 10; second = 10; third = 11 }) 3

asks-IsFresh : IsFresh cell asks
unfolding Dict.get
asks-IsFresh = refl

cell-IsUnderCeiling : IsUnderCeiling review cell
unfolding leased contribution hard_ceiling_of default_lease_of clone_budget
cell-IsUnderCeiling tool_calls h e = ground arith
cell-IsUnderCeiling tokens h e = ground arith
cell-IsUnderCeiling parallel h e = ground arith

review-Agrees : Agrees review (some review)
review-Agrees e = refl

step-IsUnderCeiling_example : IsUnderCeiling review (step cell asks)
step-IsUnderCeiling_example =
    step-IsUnderCeiling review cell asks asks-IsFresh review-Agrees tt cell-IsUnderCeiling

over : IsOver "l0" over_lease cell
unfolding Dict.get
over = (refl, refl)

step-IsOver_example : IsOver "l0" over_lease (step cell asks)
step-IsOver_example = step-IsOver cell asks "l0" over_lease asks-IsFresh tt over

effective : (get_effective_budget review (some "review") none 10 3 cell).1 ≡ some (calls_budget 7)
unfolding get_effective_budget get_granted_budget expire_leases expire_all expire_one is_due
    sum_active sum_budget sum_dimension clamp_budget clamp_dimension budget_has_values
    hard_ceiling_of default_lease_of clone_budget
effective = refl

ceiling_of_review : limit_on tool_calls (hard_ceiling_of review) ≡ some 10
unfolding hard_ceiling_of clone_budget
ceiling_of_review = refl

effective_exact_example :
    amount tool_calls (calls_budget 7)
    ≡ amount tool_calls (default_lease_of review)
      + leased tool_calls "review" (expire_leases 10 3 cell).leases
effective_exact_example =
    effective_exact review none 10 3 cell (calls_budget 7) tool_calls cell-IsUnderCeiling effective

abbrev times : Readings
times = record { first = 10; second = 10; third = 11 }

abbrev new_grant : Lease
new_grant = new_lease "l2" "s" review request (calls_budget 3) 11 3

grants_three : (request_lease "l2" "s" (some review) request times 3 cell).1 ≡ ok new_grant
unfolding request_lease request_for grant_lease issue additional_budget requested_budget
    positive_integer trunc_at_least clamp clamp_additional_budget trim get_granted_budget
    expire_leases expire_all expire_one is_due sum_active sum_budget sum_dimension budget_has_values
    hard_ceiling_of default_lease_of clone_budget
grants_three = refl

request_grants_example :
    IsGrant "l2" request new_grant (request_lease "l2" "s" (some review) request times 3 cell).0
request_grants_example =
    request_grants "l2" "s" (some review) request times 3 cell new_grant grants_three
