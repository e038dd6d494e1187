-- ===== src/Parallel/Security.antt =====
-- packages/brewva-runtime/src/security/mode.ts: `resolveSecurityPolicy` on a configuration.
use pi_roaster.Base.{Bool, true, Option, none, some}

pub data SecurityMode : Type 0 where
  permissive standard strict : SecurityMode

pub data EnforcementMode : Type 0 where
  mode_off mode_warn mode_enforce : EnforcementMode

pub data Preference : Type 0 where
  prefer : EnforcementMode → Preference
  inherit : Preference

pub record Enforcement : Type 0 where
  pub effect_authorization : Option Preference
  pub skill_max_tokens : Option Preference
  pub skill_max_tool_calls : Option Preference
  pub skill_max_parallel : Option Preference

pub record SecurityPolicy : Type 0 where
  pub enforce_denied_effects : Bool
  pub effect_authorization_mode : EnforcementMode
  pub skill_max_tokens_mode : EnforcementMode
  pub skill_max_tool_calls_mode : EnforcementMode
  pub skill_max_parallel_mode : EnforcementMode

abbrev uniform : EnforcementMode → SecurityPolicy
uniform m = record {
  enforce_denied_effects = true;
  effect_authorization_mode = m;
  skill_max_tokens_mode = m;
  skill_max_tool_calls_mode = m;
  skill_max_parallel_mode = m;
}

-- `toBaseSecurityPolicy`.
abbrev pub base_policy : SecurityMode → SecurityPolicy
base_policy strict = uniform mode_enforce
base_policy permissive = uniform mode_off
base_policy standard = uniform mode_warn

-- `applyEnforcementPreference`.
abbrev pub apply_preference : EnforcementMode → Option Preference → EnforcementMode
apply_preference fallback (some (prefer m)) = m
apply_preference fallback _ = fallback

abbrev with_enforcement : SecurityPolicy → Enforcement → SecurityPolicy
with_enforcement base e = record base {
  effect_authorization_mode =
      apply_preference base.effect_authorization_mode e.effect_authorization;
  skill_max_tokens_mode = apply_preference base.skill_max_tokens_mode e.skill_max_tokens;
  skill_max_tool_calls_mode =
      apply_preference base.skill_max_tool_calls_mode e.skill_max_tool_calls;
  skill_max_parallel_mode = apply_preference base.skill_max_parallel_mode e.skill_max_parallel;
}

unfoldable pub resolve_security_policy : SecurityMode → Option Enforcement → SecurityPolicy
resolve_security_policy strict enforcement = base_policy strict
resolve_security_policy mode none = base_policy mode
resolve_security_policy mode (some e) = with_enforcement (base_policy mode) e
