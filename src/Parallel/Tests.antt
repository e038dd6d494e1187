-- ===== src/Parallel/Tests.antt =====
-- The budget manager with one slot, and a run that waits for it.
use pi_roaster.Base.{◌≡◌, ◌<◌, refl, true, false, none, some, List, [], ◌∷◌, ◌++◌, All, arith}
use pi_roaster.Base.Dict
use pi_roaster.Base.Members
use pi_roaster.Base.Numeric.{whole, trunc_at_least}
use pi_roaster.Parallel.Budget.{
  ParallelConfig, Waiter, SessionState, Manager, Call, acquires, acquires_async, times_out,
  accepted, AcquireResult, new_manager, get_or_create, acquire_slot, acquire, acquire_async,
  is_waiting, timer_delay, step, run_calls, release,
}
use pi_roaster.Parallel.Budget.Invariant.{IsWithin, AllSound, step-AllSound, reachable-AllSound}
use pi_roaster.Parallel.Budget.Waiting.{
  IsQueued, IsFinal, served, waiters_of, reachable-IsQueued, release_partition,
  release_serves_oldest,
}

abbrev one_slot : ParallelConfig
one_slot = record { enabled = true; max_concurrent = 1; max_total_per_session = 3 }

abbrev calls : List Call
calls =
    acquires "s" "a"
    ∷ acquires_async "s" "b" (some (whole 50 false))
    ∷ acquires_async "s" "c" none
    ∷ []

abbrev busy : Manager
busy = run_calls (new_manager one_slot) calls

abbrev waiter_b : Waiter
waiter_b = record { ticket = 0; run_id = "b"; timer = some 50 }

abbrev waiter_c : Waiter
waiter_c = record { ticket = 1; run_id = "c"; timer = none }

abbrev full : SessionState
full = record { active = "a" ∷ []; total_started = 1; waiters = waiter_b ∷ waiter_c ∷ [] }

full_at : Dict.get "s" busy.sessions ≡ some full
unfolding run_calls step new_manager acquire acquire_async acquire_slot get_or_create is_waiting
    timer_delay trunc_at_least Members.has Dict.get Dict.set
full_at = refl

full-IsWithin : IsWithin one_slot full
full-IsWithin = record {
  distinct = unfold Members.has in (refl, tt);
  capped = omega arith;
  counted = omega arith;
  total_capped = omega arith;
}

reachable-AllSound_example :
    AllSound
      (run_calls (new_manager one_slot) calls).config
      (run_calls (new_manager one_slot) calls).sessions
reachable-AllSound_example = reachable-AllSound one_slot calls

step-AllSound_example :
    AllSound (step busy (times_out "s" 0)).config (step busy (times_out "s" 0)).sessions
step-AllSound_example = step-AllSound busy (times_out "s" 0) (reachable-AllSound one_slot calls)

reachable-IsQueued_example : IsQueued (run_calls (new_manager one_slot) calls)
reachable-IsQueued_example = reachable-IsQueued one_slot calls

release_partition_example :
    (served (release busy "s" "a").1 ++ waiters_of "s" (release busy "s" "a").0
      ≡ waiters_of "s" busy)
    × All IsFinal (release busy "s" "a").1
release_partition_example = release_partition busy "s" "a"

busy_enabled : busy.config.enabled ≡ true
unfolding run_calls step new_manager acquire acquire_async acquire_slot Members.has get_or_create
    Dict.get Dict.set is_waiting
busy_enabled = refl

full-IsWithin_busy : IsWithin busy.config full
unfolding run_calls step new_manager acquire acquire_async acquire_slot Members.has get_or_create
    Dict.get Dict.set is_waiting
full-IsWithin_busy = full-IsWithin

a_active : Members.has "a" full.active ≡ true
unfolding Members.has
a_active = refl

b_inactive : Members.has "b" full.active ≡ false
unfolding Members.has
b_inactive = refl

one_below_three : 1 < 3
one_below_three = omega arith

room_left : full.total_started < busy.config.max_total_per_session
unfolding run_calls step new_manager acquire acquire_async acquire_slot Members.has get_or_create
    Dict.get Dict.set is_waiting
room_left = one_below_three

release_serves_oldest_example :
    (later : List (Waiter × AcquireResult)) × ((release busy "s" "a").1
      ≡ (waiter_b, accepted) ∷ later)
release_serves_oldest_example =
    release_serves_oldest busy "s" "a" full waiter_b (waiter_c ∷ []) busy_enabled full_at
      full-IsWithin_busy refl a_active b_inactive room_left
