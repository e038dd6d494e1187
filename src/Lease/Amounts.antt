-- ===== src/Lease/Amounts.antt =====
-- The budget arithmetic of packages/brewva-runtime/src/services/resource-lease.ts, and the two
-- budgets of a skill's contract (packages/brewva-runtime/src/skills/facets.ts).
use pi_roaster.Base.{
  ℕ, ◌+◌, ◌-◌, ◌≤◌, ◌≡◌, min, String, Bool, false, ◌&&◌, ◌||◌, Option, none, some, ltb, or_else,
  option_beq, if◌then◌else◌, arith,
}

-- `ResourceLeaseBudget` and `SkillResourceBudget`; the skill contract's numbers are whole.
pub record Budget : Type 0 where
  pub max_tool_calls : Option ℕ
  pub max_tokens : Option ℕ
  pub max_parallel : Option ℕ

pub record ResourcePolicy : Type 0 where
  pub default_lease : Option Budget
  pub hard_ceiling : Option Budget

-- A skill document with what the service reads of its contract.
pub record SkillDocument : Type 0 where
  pub name : String
  pub resources : Option ResourcePolicy

abbrev pub no_budget : Budget
no_budget = record { max_tool_calls = none; max_tokens = none; max_parallel = none }

-- `budget?.maxTokens` and its kin: an absent budget has no dimension.
unfoldable pub clone_budget : Option Budget → Budget
clone_budget b = or_else b no_budget

abbrev default_lease_in : Option ResourcePolicy → Option Budget
default_lease_in none = none
default_lease_in (some r) = r.default_lease

abbrev hard_ceiling_in : Option ResourcePolicy → Option Budget
hard_ceiling_in none = none
hard_ceiling_in (some r) = r.hard_ceiling

-- `resolveSkillDefaultLease` and `resolveSkillHardCeiling`.
unfoldable pub default_lease_of : SkillDocument → Budget
unfolding clone_budget
default_lease_of skill = clone_budget (default_lease_in skill.resources)

unfoldable pub hard_ceiling_of : SkillDocument → Budget
unfolding clone_budget
hard_ceiling_of skill = clone_budget (hard_ceiling_in skill.resources)

unfoldable pub sum_dimension : Option ℕ → Option ℕ → Option ℕ
sum_dimension none none = none
sum_dimension left right = some (or_else left 0 + or_else right 0)

unfoldable pub sum_budget : Budget → Budget → Budget
sum_budget base delta = record {
  max_tool_calls = sum_dimension base.max_tool_calls delta.max_tool_calls;
  max_tokens = sum_dimension base.max_tokens delta.max_tokens;
  max_parallel = sum_dimension base.max_parallel delta.max_parallel;
}

abbrev positive_or_none : ℕ → Option ℕ
positive_or_none n = if ltb 0 n then some n else none

-- `clamp` of `clampAdditionalBudget`; the truncated `-` is its `Math.max(0, …)`.
unfoldable pub clamp : Option ℕ → Option ℕ → Option ℕ → Option ℕ → Option ℕ
clamp none base current hard = none
clamp (some requested) base current none = some requested
clamp (some requested) base current (some hard) =
    positive_or_none (min requested (hard - or_else base 0 - or_else current 0))

unfoldable pub clamp_additional_budget : Budget → Budget → Budget → Budget → Budget
clamp_additional_budget requested base current hard = record {
  max_tool_calls =
      clamp requested.max_tool_calls base.max_tool_calls current.max_tool_calls hard.max_tool_calls;
  max_tokens = clamp requested.max_tokens base.max_tokens current.max_tokens hard.max_tokens;
  max_parallel =
      clamp requested.max_parallel base.max_parallel current.max_parallel hard.max_parallel;
}

abbrev is_positive : Option ℕ → Bool
is_positive none = false
is_positive (some n) = ltb 0 n

unfoldable pub budget_has_values : Budget → Bool
budget_has_values b =
    is_positive b.max_tool_calls || is_positive b.max_tokens || is_positive b.max_parallel

-- `noHeadroom` of `requestLease`.
unfoldable pub same_budget : Budget → Budget → Bool
same_budget a b =
    option_beq a.max_tool_calls b.max_tool_calls
    && option_beq a.max_tokens b.max_tokens
    && option_beq a.max_parallel b.max_parallel

-- `clampDimension` of `getEffectiveBudget`.
unfoldable pub clamp_dimension : Option ℕ → Option ℕ → Option ℕ
clamp_dimension none hard = none
clamp_dimension (some value) none = some value
clamp_dimension (some value) (some hard) = some (min value hard)

unfoldable pub clamp_budget : Budget → Budget → Budget
clamp_budget combined hard = record {
  max_tool_calls = clamp_dimension combined.max_tool_calls hard.max_tool_calls;
  max_tokens = clamp_dimension combined.max_tokens hard.max_tokens;
  max_parallel = clamp_dimension combined.max_parallel hard.max_parallel;
}

pub data Dimension : Type 0 where
  tool_calls tokens parallel : Dimension

-- The limit of a budget on one dimension.
abbrev pub limit_on : Dimension → Budget → Option ℕ
limit_on tool_calls b = b.max_tool_calls
limit_on tokens b = b.max_tokens
limit_on parallel b = b.max_parallel

-- The amount of a budget on one dimension; an absent one is nothing.
abbrev pub amount : Dimension → Budget → ℕ
amount d b = or_else (limit_on d b) 0

pub amount-sum_budget :
    (d : Dimension) (a b : Budget) → amount d (sum_budget a b) ≡ amount d a + amount d b
unfolding sum_budget sum_dimension
amount-sum_budget tool_calls a b = ground arith
amount-sum_budget tokens a b = ground arith
amount-sum_budget parallel a b = ground arith

-- A grant is no more than was asked for, and fits under the ceiling beside what is there.
pub clamp_fits :
    (d : Dimension) (requested base current hard : Budget) (h : ℕ)
    → limit_on d hard ≡ some h
    → amount d base + amount d current ≤ h
    → amount d base
        + (amount d current + amount d (clamp_additional_budget requested base current hard))
      ≤ h
unfolding clamp_additional_budget clamp
clamp_fits tool_calls requested base current hard h e k = ground arith
clamp_fits tokens requested base current hard h e k = ground arith
clamp_fits parallel requested base current hard h e k = ground arith

pub clamp_le_requested :
    (d : Dimension) (requested base current hard : Budget)
    → amount d (clamp_additional_budget requested base current hard) ≤ amount d requested
unfolding clamp_additional_budget clamp
clamp_le_requested tool_calls requested base current hard = ground arith
clamp_le_requested tokens requested base current hard = ground arith
clamp_le_requested parallel requested base current hard = ground arith
