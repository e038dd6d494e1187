-- ===== src/Parallel/Service/Warnings.antt =====
-- The warnings of packages/brewva-runtime/src/services/parallel.ts, which the service records once
-- for each skill.
use text.Mathlib.TextLemmas.{append_cancel_left}
use pi_roaster.Base.{
  ℕ, suc, ◌+◌, ◌≤◌, ◌≡◌, refl, ◌∙◌, inl, inr, String, Bool, true, false, not, ◌&&◌, ◌||◌, Option,
  none, some, List, [], ◌∷◌, ◌++◌, leb, ltb, ◌==◌, string_eq, if◌then◌else◌, if_cases, Bool-cases,
  Option-cases, eq_iff, arith,
}
use pi_roaster.Base.Members
use pi_roaster.Base.Members.{has-append}
use pi_roaster.Base.Numeric.{JsNumber}
use pi_roaster.Base.Text
use pi_roaster.Lease.Amounts.{SkillDocument}
use pi_roaster.Parallel.Budget.{
  Reason, AcquireResult, accepted, rejected, AsyncResult, settled, waiting, is_at_max_concurrent,
  active_run_count,
}
use pi_roaster.Parallel.Security.{EnforcementMode, mode_off, mode_warn, mode_enforce}
use pi_roaster.Parallel.Service.{
  Service, Reading, Call, acquires, acquires_async, settles, releases, records, clears, SlotEvent,
  skill_parallel_warning, skill_limit_rejected, slot_rejected, read_limit, try_within, take_slot,
  at_limit, is_off, warn_once, record_rejection, record_if_rejected, finish_async, settle_waiter,
  try_acquire_parallel_slot, acquire_parallel_slot, acquire_parallel_slot_async, step, run_calls,
  release_parallel_slot, record_worker_result, clear_worker_results,
}

-- The warnings about a skill among the events.
unfoldable pub warnings : String → List SlotEvent → ℕ
warnings skill [] = 0
warnings skill (skill_parallel_warning t name a l ∷ es) =
    let rest = warnings skill es in if name == skill then suc rest else rest
warnings skill (slot_rejected t q name reason ∷ es) = warnings skill es
warnings skill (skill_limit_rejected t q name a l ∷ es) = warnings skill es

warnings-append :
    (skill : String) (es fs : List SlotEvent)
    → warnings skill (es ++ fs) ≡ warnings skill es + warnings skill fs
unfolding warnings
warnings-append skill [] fs = omega arith
warnings-append skill (skill_parallel_warning t name a l ∷ es) fs =
    ground (arith, warnings-append skill es fs)
warnings-append skill (slot_rejected t q name reason ∷ es) fs = warnings-append skill es fs
warnings-append skill (skill_limit_rejected t q name a l ∷ es) fs = warnings-append skill es fs

abbrev pub warning_key : String → String
warning_key skill = Text.◌++◌ "maxParallel:" skill

warning_key_injective : (a b : String) → warning_key a ≡ warning_key b → a ≡ b
warning_key_injective = append_cancel_left "maxParallel:"

-- A skill has one warning if its key is among the keys that were warned of, and none otherwise.
abbrev pub IsWarnedOnce : String → Service → Type 0
IsWarnedOnce skill s =
    warnings skill s.events
    ≡ (if Members.has (warning_key skill) s.skill_parallel_warnings then 1 else 0)

record_rejection-IsWarnedOnce :
    (skill run : String) (r : Reading) (reason : Reason) (s : Service)
    → IsWarnedOnce skill s
    → IsWarnedOnce skill (record_rejection run r reason s)
unfolding record_rejection
record_rejection-IsWarnedOnce skill run r reason s w =
    warnings-append skill s.events _ ∙ unfold warnings in omega (arith, w)

record_if_rejected-IsWarnedOnce :
    (skill run : String) (r : Reading) (result : AcquireResult) (s : Service)
    → IsWarnedOnce skill s
    → IsWarnedOnce skill (record_if_rejected run r result s)
unfolding record_if_rejected
record_if_rejected-IsWarnedOnce skill run r accepted s w = w
record_if_rejected-IsWarnedOnce skill run r (rejected reason) s w =
    record_rejection-IsWarnedOnce skill run r reason s w

take_slot-IsWarnedOnce :
    (skill sid run : String) (recording : Bool) (r : Reading) (s : Service)
    → IsWarnedOnce skill s
    → IsWarnedOnce skill (take_slot sid run recording r s).0
unfolding take_slot
take_slot-IsWarnedOnce skill sid run true r s w = record_if_rejected-IsWarnedOnce skill run r _ _ w
take_slot-IsWarnedOnce skill sid run false r s w = w

warned :
    (skill name : String) (a l : ℕ) (r : Reading) (s : Service)
    → Members.has (warning_key name) s.skill_parallel_warnings ≡ false
    → IsWarnedOnce skill s
    → warnings skill s.events + warnings skill (skill_parallel_warning r.turn name a l ∷ []) ≡ (
        if Members.has (warning_key skill) s.skill_parallel_warnings
          || Members.has (warning_key skill) (warning_key name ∷ [])
        then 1
        else 0)
unfolding warnings Members.has
warned skill name a l r s new w = elim (Bool-cases (name == skill)) [
  | inl same ↦
      ground
        (arith, w, new, (eq_iff name skill).0 same, eq_iff (warning_key skill) (warning_key skill))
  | inr other ↦ ground (
    arith,
    w,
    other,
    eq_iff name skill,
    eq_iff (warning_key name) (warning_key skill),
    warning_key_injective name skill,
  )
]

warn_once-IsWarnedOnce :
    (skill run name : String) (a l : ℕ) (r : Reading) (s : Service)
    → IsWarnedOnce skill s
    → IsWarnedOnce skill (warn_once run name a l r s)
unfolding warn_once
warn_once-IsWarnedOnce skill run name a l r s w =
    elim (Bool-cases (Members.has (warning_key name) s.skill_parallel_warnings)) [
      | inl seen ↦ rw seen w
      | inr new ↦ rw new (
          rw (warnings-append skill s.events (skill_parallel_warning r.turn name a l ∷ [])) (
            rw (has-append (warning_key skill) s.skill_parallel_warnings (warning_key name ∷ []))
              (warned skill name a l r s new w)))
    ]

at_limit-IsWarnedOnce :
    (skill sid run : String) (recording : Bool) (name : String) (a l : ℕ) (r : Reading)
    (mode : EnforcementMode) (s : Service)
    → IsWarnedOnce skill s
    → IsWarnedOnce skill (at_limit sid run recording name a l r mode s).0
unfolding at_limit
at_limit-IsWarnedOnce skill sid run recording name a l r mode_off s w =
    take_slot-IsWarnedOnce skill sid run recording r s w
at_limit-IsWarnedOnce skill sid run recording name a l r mode_warn s w =
    take_slot-IsWarnedOnce skill sid run recording r (warn_once run name a l r s)
      (warn_once-IsWarnedOnce skill run name a l r s w)
at_limit-IsWarnedOnce skill sid run true name a l r mode_enforce s w =
    warnings-append skill s.events _ ∙ unfold warnings in omega (arith, w)
at_limit-IsWarnedOnce skill sid run false name a l r mode_enforce s w = w

try_within-IsWarnedOnce :
    (skill sid run : String) (recording : Bool) (contract : Option SkillDocument) (limit : Option ℕ)
    (r : Reading) (s : Service)
    → IsWarnedOnce skill s
    → IsWarnedOnce skill (try_within sid run recording contract limit r s).0
unfolding try_within
try_within-IsWarnedOnce skill sid run recording (some c) (some n) r s w =
    if_cases (λ (q : Service × AcquireResult). IsWarnedOnce skill q.0)
      (ltb 0 n
        && not (is_off s.policy.skill_max_parallel_mode)
        && leb n (active_run_count s.slots sid))
      (λ _. at_limit-IsWarnedOnce skill sid run recording c.name _ n r _ s w)
      (λ _. take_slot-IsWarnedOnce skill sid run recording r s w)
try_within-IsWarnedOnce skill sid run recording (some c) none r s w =
    take_slot-IsWarnedOnce skill sid run recording r s w
try_within-IsWarnedOnce skill sid run recording none limit r s w =
    take_slot-IsWarnedOnce skill sid run recording r s w

read_limit-IsWarnedOnce :
    (skill : String) (r : Reading) (s : Service)
    → IsWarnedOnce skill s
    → IsWarnedOnce skill (read_limit r s).0
unfolding read_limit
read_limit-IsWarnedOnce skill r s w = elim (Option-cases r.active_skill) [
  | inl missing ↦ rw missing w
  | inr (c, found) ↦ rw found w
]

try-IsWarnedOnce :
    (skill sid run : String) (recording : Bool) (r : Reading) (s : Service)
    → IsWarnedOnce skill s
    → IsWarnedOnce skill (try_acquire_parallel_slot sid run recording r s).0
unfolding try_acquire_parallel_slot
try-IsWarnedOnce skill sid run recording r s w =
    try_within-IsWarnedOnce skill sid run recording r.active_skill _ r _
      (read_limit-IsWarnedOnce skill r s w)

finish_async-IsWarnedOnce :
    (skill run : String) (r : Reading) (result : AsyncResult) (s : Service)
    → IsWarnedOnce skill s
    → IsWarnedOnce skill (finish_async run r result s)
unfolding finish_async
finish_async-IsWarnedOnce skill run r (settled result) s w =
    record_if_rejected-IsWarnedOnce skill run r result s w
finish_async-IsWarnedOnce skill run r (waiting ticket) s w = w

async-IsWarnedOnce :
    (skill sid run : String) (timeout_ms : Option JsNumber) (r : Reading) (s : Service)
    → IsWarnedOnce skill s
    → IsWarnedOnce skill (acquire_parallel_slot_async sid run timeout_ms r s).0
unfolding acquire_parallel_slot_async
async-IsWarnedOnce skill sid run timeout_ms r s w =
    if_cases (λ (q : Service × AsyncResult). IsWarnedOnce skill q.0)
      (is_at_max_concurrent (try_acquire_parallel_slot sid run false r s).1)
      (λ _. finish_async-IsWarnedOnce skill run r _ _ (try-IsWarnedOnce skill sid run false r s w))
      (λ _.
        record_if_rejected-IsWarnedOnce skill run r _ _
          (try-IsWarnedOnce skill sid run false r s w))

step-IsWarnedOnce :
    (skill sid : String) (s : Service) (c : Call)
    → IsWarnedOnce skill s
    → IsWarnedOnce skill (step sid s c)
unfolding step acquire_parallel_slot settle_waiter release_parallel_slot record_worker_result
    clear_worker_results
step-IsWarnedOnce skill sid s (acquires run r) w = try-IsWarnedOnce skill sid run true r s w
step-IsWarnedOnce skill sid s (acquires_async run timeout_ms r) w =
    async-IsWarnedOnce skill sid run timeout_ms r s w
step-IsWarnedOnce skill sid s (settles run r result) w =
    record_if_rejected-IsWarnedOnce skill run r result s w
step-IsWarnedOnce skill sid s (releases run) w = w
step-IsWarnedOnce skill sid s (records result) w = w
step-IsWarnedOnce skill sid s clears w = w

run_calls-IsWarnedOnce :
    (skill sid : String) (s : Service) (cs : List Call)
    → IsWarnedOnce skill s
    → IsWarnedOnce skill (run_calls sid s cs)
unfolding run_calls
run_calls-IsWarnedOnce skill sid s [] w = w
run_calls-IsWarnedOnce skill sid s (c ∷ cs) w =
    run_calls-IsWarnedOnce skill sid (step sid s c) cs (step-IsWarnedOnce skill sid s c w)

-- From a service that has recorded no warning, any calls lead to at most one warning for each
-- skill.
pub reachable_warned_once :
    (skill sid : String) (s : Service) (cs : List Call)
    → s.events ≡ []
    → s.skill_parallel_warnings ≡ []
    → warnings skill (run_calls sid s cs).events ≤ 1
reachable_warned_once skill sid s cs e k =
    if_cases
      (λ n.
        warnings skill (run_calls sid s cs).events ≡ n
        → warnings skill (run_calls sid s cs).events ≤ 1)
      (Members.has (warning_key skill) (run_calls sid s cs).skill_parallel_warnings)
      (λ _ h. omega (arith, h)) (λ _ h. omega (arith, h))
      (run_calls-IsWarnedOnce skill sid s cs (rw (e, k) (unfold warnings Members.has in refl)))
