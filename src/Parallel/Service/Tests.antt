-- ===== src/Parallel/Service/Tests.antt =====
-- A session whose active skill may run one thing at a time.
use pi_roaster.Base.{◌≡◌, ◌≤◌, ◌+◌, refl, some, none, true, [], ◌∷◌, List, arith}
use pi_roaster.Base.Dict
use pi_roaster.Base.Members
use pi_roaster.Lease
use pi_roaster.Lease.Amounts
use pi_roaster.Lease.Amounts.{SkillDocument, Budget, hard_ceiling_of, limit_on, parallel}
use pi_roaster.Parallel.Budget
use pi_roaster.Parallel.Budget.{accepted, rejected, timeout, active_run_count, new_manager}
use pi_roaster.Parallel.Security.{strict, standard, SecurityMode, resolve_security_policy}
use pi_roaster.Parallel.Service.{
  Service, Reading, Call, acquires, read_limit, max_parallel_of, try_within, take_slot,
  record_if_rejected, try_acquire_parallel_slot, acquire_parallel_slot, acquire_parallel_slot_async,
  settle_waiter, run_calls,
}
use pi_roaster.Parallel.Service.Limits.{acquire_within_limit}
use pi_roaster.Parallel.Service.Events.{rejections, refusals, refusals_now, rejections_recorded}
use pi_roaster.Parallel.Service.Warnings.{warnings, reachable_warned_once}

abbrev one_run : Budget
one_run = record { max_tool_calls = none; max_tokens = none; max_parallel = some 1 }

abbrev skill : SkillDocument
skill = record {
  name = "review";
  resources = some (record { default_lease = some one_run; hard_ceiling = some one_run });
}

abbrev reading : Reading
reading = record { active_skill = some skill; now = 10; turn = 2 }

abbrev service_in : SecurityMode → Service
service_in mode = record {
  policy = resolve_security_policy mode none;
  slots = new_manager (record { enabled = true; max_concurrent = 4; max_total_per_session = 9 });
  leases = record { leases = []; events = [] };
  results = [];
  skill_parallel_warnings = [];
  events = [];
}

limit_read : (read_limit reading (service_in strict)).1 ≡ some 1
unfolding read_limit max_parallel_of Lease.get_effective_budget Lease.get_granted_budget
    Lease.expire_leases Lease.expire_all Lease.expiry_events Lease.sum_active
    Amounts.default_lease_of Amounts.hard_ceiling_of Amounts.clone_budget Amounts.sum_budget
    Amounts.sum_dimension Amounts.budget_has_values Amounts.clamp_budget Amounts.clamp_dimension
limit_read = refl

first_accepted : (acquire_parallel_slot "s" "a" reading (service_in strict)).1 ≡ accepted
unfolding acquire_parallel_slot try_acquire_parallel_slot try_within take_slot record_if_rejected
    read_limit max_parallel_of Lease.get_effective_budget Lease.get_granted_budget
    Lease.expire_leases Lease.expire_all Lease.expiry_events Lease.sum_active
    Amounts.default_lease_of Amounts.hard_ceiling_of Amounts.clone_budget Amounts.sum_budget
    Amounts.sum_dimension Amounts.budget_has_values Amounts.clamp_budget Amounts.clamp_dimension
    Budget.acquire Budget.acquire_slot Budget.get_or_create Budget.new_manager active_run_count
    resolve_security_policy Dict.get Dict.set Members.has
first_accepted = refl

acquire_within_limit_example :
    (active_run_count (acquire_parallel_slot "s" "a" reading (service_in strict)).0.slots "s" ≤ 1)
    × (1 ≤ 1)
acquire_within_limit_example =
    acquire_within_limit "s" "a" reading (service_in strict) skill 1 1
      (unfold resolve_security_policy in refl) refl
      (unfold hard_ceiling_of Amounts.clone_budget in refl) limit_read (omega arith) first_accepted

rejections_recorded_example :
    (rejections "a" (acquire_parallel_slot "s" "a" reading (service_in strict)).0.events
      ≡ rejections "a" (service_in strict).events
        + refusals (acquire_parallel_slot "s" "a" reading (service_in strict)).1)
    × (rejections "a"
          (acquire_parallel_slot_async "s" "a" none reading (service_in strict)).0.events
        ≡ rejections "a" (service_in strict).events
          + refusals_now (acquire_parallel_slot_async "s" "a" none reading (service_in strict)).1)
    × (rejections "a" (settle_waiter "a" reading (rejected timeout) (service_in strict)).events
        ≡ rejections "a" (service_in strict).events + refusals (rejected timeout))
rejections_recorded_example =
    rejections_recorded "s" "a" none reading reading (service_in strict) (service_in strict)
      (rejected timeout)

abbrev calls : List Call
calls = acquires "a" reading ∷ acquires "b" reading ∷ acquires "c" reading ∷ []

reachable_warned_once_example :
    warnings "review" (run_calls "s" (service_in standard) calls).events ≤ 1
reachable_warned_once_example =
    reachable_warned_once "review" "s" (service_in standard) calls refl refl
