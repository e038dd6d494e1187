-- ===== src/Gateway/Admission/Tests.antt =====
-- A supervisor with one worker, and two calls that wait for it.
use pi_roaster.Base.{◌≡◌, refl, true, [], ◌∷◌, List}
use pi_roaster.Base.Members
use pi_roaster.Gateway.Admission.{
  Open, Supervisor, Event, opens, starts, readies, open_queue_full, new_supervisor, run_events,
  step, open_session, acquire_turn, start_worker, worker_ready, take_open, release,
  notify_if_available,
}
use pi_roaster.Gateway.Admission.Bounds.{IsSound, reachable-IsSound}

abbrev events : List Event
events = opens "a" ∷ starts 0 ∷ opens "b" ∷ readies 0 ∷ opens "c" ∷ []

abbrev one_worker : Supervisor
one_worker = run_events (new_supervisor 1 1) (opens "a" ∷ starts 0 ∷ readies 0 ∷ opens "b" ∷ [])

abbrev open_b : Open
open_b = record { ticket = 1; session_id = "b" }

reachable-IsSound_example : IsSound (run_events (new_supervisor 1 1) events)
reachable-IsSound_example = reachable-IsSound 1 1 events

one_worker_at :
    (one_worker.pending_open_reservations ≡ 0)
    × (one_worker.woken ≡ [])
    × (one_worker.waiters ≡ open_b ∷ [])
    × (Members.has "a" one_worker.workers ≡ true)
unfolding run_events step new_supervisor open_session acquire_turn start_worker worker_ready
    take_open release notify_if_available Members.has
one_worker_at = (refl, refl, refl, refl)

third_refused : (open_session "c" one_worker).1 ≡ open_queue_full
unfolding run_events step new_supervisor open_session acquire_turn start_worker worker_ready
    take_open release notify_if_available Members.has
third_refused = refl
