-- ===== src/Lease/Effective.antt =====
-- The budget that a skill has from its default and its leases, against the hard ceiling.
use pi_roaster.Base.{ℕ, ◌+◌, ◌≤◌, ◌≡◌, Option, some, string_eq, arith}
use pi_roaster.Lease.Amounts.{
  Budget, SkillDocument, Dimension, tool_calls, tokens, parallel, limit_on, amount,
  amount-sum_budget, no_budget, default_lease_of, hard_ceiling_of, sum_budget, clamp_budget,
  clamp_dimension,
}
use pi_roaster.Lease.{Cell, expire_leases, get_granted_budget, sum_active, get_effective_budget}
use pi_roaster.Lease.Ceiling.{
  leased, IsUnderCeiling, amount-sum_active, amount-no_budget, expire_leases-IsUnderCeiling,
}

amount-clamp_budget :
    (d : Dimension) (combined hard : Budget)
    → ((h : ℕ) → limit_on d hard ≡ some h → amount d combined ≤ h)
    → amount d (clamp_budget combined hard) ≡ amount d combined
unfolding clamp_budget clamp_dimension
amount-clamp_budget tool_calls combined hard fits = grind arith
amount-clamp_budget tokens combined hard fits = grind arith
amount-clamp_budget parallel combined hard fits = grind arith

clamp_budget-le :
    (d : Dimension) (combined hard : Budget) (h : ℕ)
    → limit_on d hard ≡ some h
    → amount d (clamp_budget combined hard) ≤ h
unfolding clamp_budget clamp_dimension
clamp_budget-le tool_calls combined hard h e = ground arith
clamp_budget-le tokens combined hard h e = ground arith
clamp_budget-le parallel combined hard h e = ground arith

-- The budget that a skill has, whatever its leases are, is within its hard ceiling on every
-- dimension that has one.
pub effective_within_ceiling :
    (skill : SkillDocument) (by : Option SkillDocument) (now t : ℕ) (cell : Cell) (b : Budget)
    (d : Dimension) (h : ℕ)
    → (get_effective_budget skill (some skill.name) by now t cell).1 ≡ some b
    → limit_on d (hard_ceiling_of skill) ≡ some h
    → amount d b ≤ h
unfolding get_effective_budget get_granted_budget
effective_within_ceiling skill by now t cell b d h e k = ground (
  arith,
  clamp_budget-le d
      (sum_budget (default_lease_of skill)
        (sum_active (some skill.name) no_budget (expire_leases now t cell).leases))
      (hard_ceiling_of skill) h k,
)

-- Where the default budget and the active leases are within the ceiling, the budget that a skill
-- has is their sum on every dimension, over the leases that have not expired.
pub effective_exact :
    (skill : SkillDocument) (by : Option SkillDocument) (now t : ℕ) (cell : Cell) (b : Budget)
    (d : Dimension)
    → IsUnderCeiling skill cell
    → (get_effective_budget skill (some skill.name) by now t cell).1 ≡ some b
    → amount d b
      ≡ amount d (default_lease_of skill) + leased d skill.name (expire_leases now t cell).leases
unfolding get_effective_budget get_granted_budget
effective_exact skill by now t cell b d v e = ground (
  arith,
  amount-clamp_budget d combined (hard_ceiling_of skill)
      (λ h k. omega (arith, total, expire_leases-IsUnderCeiling skill now t cell v d h k)),
  total,
)
  where
    combined : Budget
    combined =
        sum_budget (default_lease_of skill)
          (sum_active (some skill.name) no_budget (expire_leases now t cell).leases)

    total :
        amount d combined
        ≡ amount d (default_lease_of skill) + leased d skill.name (expire_leases now t cell).leases
    total = omega (
      arith,
      amount-sum_budget d (default_lease_of skill)
          (sum_active (some skill.name) no_budget (expire_leases now t cell).leases),
      amount-sum_active d skill.name no_budget (expire_leases now t cell).leases,
      amount-no_budget d,
    )
