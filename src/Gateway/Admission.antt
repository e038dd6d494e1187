-- ===== src/Gateway/Admission.antt =====
-- packages/brewva-gateway/src/daemon/session-supervisor/admission.ts,
-- `SessionOpenAdmissionController`, and the calls that session-supervisor.ts makes of it in
-- `openSession`, `stopSession` and `onWorkerExited`. An `openSession` that awaits something is in the
-- list that says where it is, and each part of it between two awaits is one step.
pub mod Bounds
pub mod Queue
mod Tests
use pi_roaster.Base.{
  ℕ, suc, ◌+◌, ◌-◌, max, String, Bool, true, false, Option, none, some, List, [], ◌∷◌, ◌++◌, leb,
  ◌==◌, nat_eq, if◌then◌else◌, length,
}
use pi_roaster.Base.Members

-- A call of `openSession` that has not returned.
pub record Open : Type 0 where
  pub ticket : ℕ
  pub session_id : String

-- `waiters` are the calls in `pendingOpenWaiters`; `woken` those whose promise was resolved,
-- `admitted` those that `acquire` let in, `starting` those that wait for their worker to be ready,
-- and `failing` those that wait for a worker that was not ready to end.
pub record Supervisor : Type 0 where
  pub max_workers : ℕ
  pub max_pending_session_opens : ℕ
  pub workers : List String
  pub pending_open_reservations : ℕ
  pub waiters : List Open
  pub woken : List Open
  pub admitted : List Open
  pub starting : List Open
  pub failing : List Open
  pub next_ticket : ℕ

pub data OpenResult : Type 0 where
  session_exists : OpenResult
  worker_limit open_queue_full : OpenResult
  under_way : ℕ → OpenResult

-- The two limits as the constructor of `SessionSupervisor` reads them.
unfoldable pub new_supervisor : ℕ → ℕ → Supervisor
new_supervisor max_workers max_pending = record {
  max_workers = max 1 max_workers;
  max_pending_session_opens = max_pending;
  workers = [];
  pending_open_reservations = 0;
  waiters = [];
  woken = [];
  admitted = [];
  starting = [];
  failing = [];
  next_ticket = 0;
}

abbrev pub is_full : Supervisor → Bool
is_full s = leb s.max_workers (length s.workers + s.pending_open_reservations)

-- One turn of the loop of `acquire`.
unfoldable pub acquire_turn : Open → Supervisor → Supervisor × OpenResult
acquire_turn o s =
    if is_full s
    then (if leb s.max_pending_session_opens 0
        then (s, worker_limit)
        else if leb s.max_pending_session_opens (length s.waiters)
        then (s, open_queue_full)
        else (record s { waiters = s.waiters ++ o ∷ [] }, under_way o.ticket))
    else (
      record s {
        pending_open_reservations = suc s.pending_open_reservations;
        admitted = s.admitted ++ o ∷ [];
      },
      under_way o.ticket,
    )

abbrev wake_next : List Open → Supervisor → Supervisor
wake_next [] s = s
wake_next (next ∷ rest) s = record s { waiters = rest; woken = s.woken ++ next ∷ [] }

unfoldable pub notify_if_available : Supervisor → Supervisor
notify_if_available s = if is_full s then s else wake_next s.waiters s

-- The guard of `release` is that of the truncated subtraction.
unfoldable pub release : Supervisor → Supervisor
unfolding notify_if_available
release s =
    notify_if_available (record s { pending_open_reservations = s.pending_open_reservations - 1 })

-- `openSession` up to its first `await`.
unfoldable pub open_session : String → Supervisor → Supervisor × OpenResult
unfolding acquire_turn
open_session sid s =
    if Members.has sid s.workers
    then (s, session_exists)
    else acquire_turn (record { ticket = s.next_ticket; session_id = sid })
        (record s { next_ticket = suc s.next_ticket })

unfoldable pub take_open : ℕ → List Open → Option (Open × List Open)
take_open t [] = none
take_open t (o ∷ os) =
    let later = take_open t os in
    if o.ticket == t
    then some (o, os)
    else elim later [ none ↦ none | some (p, ps) ↦ some (p, o ∷ ps) ]

-- A call whose promise was resolved goes on with the loop of `acquire`.
unfoldable pub resume_open : ℕ → Supervisor → Supervisor × OpenResult
unfolding acquire_turn take_open
resume_open t s = elim (take_open t s.woken) [
  | none ↦ (s, under_way t)
  | some (o, rest) ↦ acquire_turn o (record s { woken = rest })
]

-- A call that was let in starts a worker, unless the session has one by now.
unfoldable pub start_worker : ℕ → Supervisor → Supervisor
unfolding release take_open
start_worker t s = elim (take_open t s.admitted) [
  | none ↦ s
  | some (o, rest) ↦
      if Members.has o.session_id s.workers
      then release (record s { admitted = rest })
      else record s {
        admitted = rest;
        workers = s.workers ++ o.session_id ∷ [];
        starting = s.starting ++ o ∷ [];
      }
]

-- The worker is ready.
unfoldable pub worker_ready : ℕ → Supervisor → Supervisor
unfolding release take_open
worker_ready t s = elim (take_open t s.starting) [
  | none ↦ s
  | some (o, rest) ↦ release (record s { starting = rest })
]

-- The worker did not get ready: the `catch`, and the `finally` once its process has ended.
unfoldable pub worker_failed : ℕ → Supervisor → Supervisor
unfolding take_open
worker_failed t s = elim (take_open t s.starting) [
  | none ↦ s
  | some (o, rest) ↦ record s {
    starting = rest;
    workers = Members.delete o.session_id s.workers;
    failing = s.failing ++ o ∷ [];
  }
]

unfoldable pub failure_over : ℕ → Supervisor → Supervisor
unfolding release take_open
failure_over t s = elim (take_open t s.failing) [
  | none ↦ s
  | some (o, rest) ↦ release (record s { failing = rest })
]

-- `onWorkerExited`, and the end of `stopSession`.
unfoldable pub worker_gone : String → Supervisor → Supervisor
unfolding notify_if_available
worker_gone sid s = notify_if_available (record s { workers = Members.delete sid s.workers })

-- What the event loop runs next.
pub data Event : Type 0 where
  opens gone : String → Event
  resumes starts readies fails ends : ℕ → Event

unfoldable pub step : Supervisor → Event → Supervisor
unfolding open_session resume_open start_worker worker_ready worker_failed failure_over worker_gone
step s (opens sid) = (open_session sid s).0
step s (gone sid) = worker_gone sid s
step s (resumes t) = (resume_open t s).0
step s (starts t) = start_worker t s
step s (readies t) = worker_ready t s
step s (fails t) = worker_failed t s
step s (ends t) = failure_over t s

unfoldable pub run_events : Supervisor → List Event → Supervisor
unfolding step
run_events s [] = s
run_events s (e ∷ es) = run_events (step s e) es
