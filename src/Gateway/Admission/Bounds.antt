-- ===== src/Gateway/Admission/Bounds.antt =====
-- How many workers there are, and who waits.
use pi_roaster.Base.{
  ℕ, suc, ◌+◌, ◌-◌, ◌≤◌, ◌<◌, ◌≡◌, refl, ap, inl, inr, String, some, List, [], ◌∷◌, leb, ◌==◌,
  nat_eq, if_cases, length, length-append, Bool-cases, Option-cases, arith,
}
use pi_roaster.Base.Members
use pi_roaster.Base.Members.{
  Distinct, length-delete-le, delete-Distinct, snoc-Distinct, length-delete_member,
}
use pi_roaster.Gateway.Admission.{
  Open, Supervisor, OpenResult, new_supervisor, is_full, acquire_turn, wake_next,
  notify_if_available, release, open_session, take_open, resume_open, start_worker, worker_ready,
  worker_failed, failure_over, worker_gone, Event, opens, gone, resumes, starts, readies, fails,
  ends, step, run_events,
}

-- The workers that run or will be started are within the limit, a reservation is held for each call
-- that was let in, and the queue is within its limit.
pub record IsBounded (s : Supervisor) : Type 0 where
  pub distinct : Distinct s.workers
  pub capped : length s.workers + length s.admitted ≤ s.max_workers
  pub reserved :
      s.pending_open_reservations ≡ length s.admitted + length s.starting + length s.failing
  pub queue_capped : length s.waiters ≤ s.max_pending_session_opens

-- A call waits only while all workers are taken, or another call is under way that will look after
-- the queue.
abbrev pub IsAttended : Supervisor → Type 0
IsAttended s =
    0 < length s.waiters
    → s.pending_open_reservations + length s.woken ≡ 0
    → s.max_workers ≤ length s.workers

pub record IsSound (s : Supervisor) : Type 0 where
  pub bounded : IsBounded s
  pub attended : IsAttended s

length-take_open :
    (t : ℕ) (os : List Open) (o : Open) (rest : List Open)
    → take_open t os ≡ some (o, rest)
    → length os ≡ suc (length rest)
unfolding take_open
length-take_open t [] o rest e = absurd (ground (arith, e))
length-take_open t (p ∷ ps) o rest e = elim (Bool-cases (p.ticket == t)) [
  | inl hit ↦ ground (arith, rw hit at e)
  | inr miss ↦ elim (Option-cases (take_open t ps)) [
    | inl missing ↦ absurd (ground (arith, rw (miss, missing) at e))
    | inr ((q, qs), found) ↦ ground (arith, rw (miss, found) at e, length-take_open t ps q qs found)
  ]
]

-- A turn of the loop of `acquire` leaves nobody unattended.
acquire_turn-IsSound : (o : Open) (s : Supervisor) → IsBounded s → IsSound (acquire_turn o s).0
unfolding acquire_turn
acquire_turn-IsSound o s h = elim (Bool-cases (is_full s)) [
  | inl full ↦ rw full (
      if_cases (λ (q : Supervisor × OpenResult). IsSound q.0) (leb s.max_pending_session_opens 0)
        (λ _. record { bounded = h; attended = λ w r. ground (arith, full, r) })
        (λ _.
          if_cases (λ (q : Supervisor × OpenResult). IsSound q.0)
            (leb s.max_pending_session_opens (length s.waiters))
            (λ _. record { bounded = h; attended = λ w r. ground (arith, full, r) })
            (λ room. record {
              bounded = record {
                distinct = h.distinct;
                capped = h.capped;
                reserved = h.reserved;
                queue_capped = ground (arith, room, length-append s.waiters (o ∷ []));
              };
              attended = λ w r. ground (arith, full, r);
            })))
  | inr free ↦ rw free (record {
    bounded = record {
      distinct = h.distinct;
      capped = ground (arith, free, h.reserved, length-append s.admitted (o ∷ []));
      reserved = omega (arith, h.reserved, length-append s.admitted (o ∷ []));
      queue_capped = h.queue_capped;
    };
    attended = λ w r. absurd (omega (arith, r));
  })
]

wake_next-IsSound :
    (waiters : List Open) (s : Supervisor)
    → s.waiters ≡ waiters
    → IsBounded s
    → IsSound (wake_next waiters s)
wake_next-IsSound [] s e h = record {
  bounded = h;
  attended = λ w. absurd (ground (arith, ap (λ l. length l) e, w));
}
wake_next-IsSound (next ∷ rest) s e h = record {
  bounded = record {
    distinct = h.distinct;
    capped = h.capped;
    reserved = h.reserved;
    queue_capped = omega (arith, ap (λ l. length l) e, h.queue_capped);
  };
  attended = λ w r. absurd (omega (arith, r, length-append s.woken (next ∷ [])));
}

notify-IsSound : (s : Supervisor) → IsBounded s → IsSound (notify_if_available s)
unfolding notify_if_available
notify-IsSound s h = elim (Bool-cases (is_full s)) [
  | inl full ↦ rw full (record { bounded = h; attended = λ w r. ground (arith, full, r) })
  | inr free ↦ rw free (wake_next-IsSound s.waiters s refl h)
]

-- A call that has left the lists gives its reservation back.
release-IsSound :
    (s : Supervisor)
    → IsBounded (record s { pending_open_reservations = s.pending_open_reservations - 1 })
    → IsSound (release s)
unfolding release
release-IsSound s h = notify-IsSound _ h

open_session-IsSound : (sid : String) (s : Supervisor) → IsSound s → IsSound (open_session sid s).0
unfolding open_session
open_session-IsSound sid s h = elim (Bool-cases (Members.has sid s.workers)) [
  | inl known ↦ rw known h
  | inr new ↦ rw new (
      acquire_turn-IsSound _ (record s { next_ticket = suc s.next_ticket })
        (record {
          distinct = h.bounded.distinct;
          capped = h.bounded.capped;
          reserved = h.bounded.reserved;
          queue_capped = h.bounded.queue_capped;
        }))
]

resume_open-IsSound : (t : ℕ) (s : Supervisor) → IsSound s → IsSound (resume_open t s).0
unfolding resume_open
resume_open-IsSound t s h = elim (Option-cases (take_open t s.woken)) [
  | inl missing ↦ rw (missing, resume_open) h
  | inr ((o, rest), found) ↦
      rw (found, resume_open)
        (acquire_turn-IsSound o (record s { woken = rest })
          (record {
            distinct = h.bounded.distinct;
            capped = h.bounded.capped;
            reserved = h.bounded.reserved;
            queue_capped = h.bounded.queue_capped;
          }))
]

start_worker-IsSound : (t : ℕ) (s : Supervisor) → IsSound s → IsSound (start_worker t s)
unfolding start_worker
start_worker-IsSound t s h = elim (Option-cases (take_open t s.admitted)) [
  | inl missing ↦ rw (missing, start_worker) h
  | inr ((o, rest), found) ↦
      rw (found, start_worker)
        (elim (Bool-cases (Members.has o.session_id s.workers)) [
          | inl known ↦ rw known (
              release-IsSound (record s { admitted = rest })
                (record {
                  distinct = h.bounded.distinct;
                  capped =
                      omega (arith, h.bounded.capped, length-take_open t s.admitted o rest found);
                  reserved =
                      omega (arith, h.bounded.reserved, length-take_open t s.admitted o rest found);
                  queue_capped = h.bounded.queue_capped;
                }))
          | inr new ↦ rw new (record {
            bounded = record {
              distinct = snoc-Distinct o.session_id s.workers new h.bounded.distinct;
              capped = omega (
                arith,
                h.bounded.capped,
                length-take_open t s.admitted o rest found,
                length-append s.workers (o.session_id ∷ []),
              );
              reserved = omega (
                arith,
                h.bounded.reserved,
                length-take_open t s.admitted o rest found,
                length-append s.starting (o ∷ []),
              );
              queue_capped = h.bounded.queue_capped;
            };
            attended = λ w r.
                absurd (
                  omega (arith, r, h.bounded.reserved, length-take_open t s.admitted o rest found));
          })
        ])
]

worker_ready-IsSound : (t : ℕ) (s : Supervisor) → IsSound s → IsSound (worker_ready t s)
unfolding worker_ready
worker_ready-IsSound t s h = elim (Option-cases (take_open t s.starting)) [
  | inl missing ↦ rw (missing, worker_ready) h
  | inr ((o, rest), found) ↦
      rw (found, worker_ready)
        (release-IsSound (record s { starting = rest })
          (record {
            distinct = h.bounded.distinct;
            capped = h.bounded.capped;
            reserved =
                omega (arith, h.bounded.reserved, length-take_open t s.starting o rest found);
            queue_capped = h.bounded.queue_capped;
          }))
]

worker_failed-IsSound : (t : ℕ) (s : Supervisor) → IsSound s → IsSound (worker_failed t s)
unfolding worker_failed
worker_failed-IsSound t s h = elim (Option-cases (take_open t s.starting)) [
  | inl missing ↦ rw (missing, worker_failed) h
  | inr ((o, rest), found) ↦
      rw (found, worker_failed)
        (record {
          bounded = record {
            distinct = delete-Distinct o.session_id s.workers h.bounded.distinct;
            capped = omega (arith, h.bounded.capped, length-delete-le o.session_id s.workers);
            reserved = omega (
              arith,
              h.bounded.reserved,
              length-take_open t s.starting o rest found,
              length-append s.failing (o ∷ []),
            );
            queue_capped = h.bounded.queue_capped;
          };
          attended = λ w r.
              absurd
                (omega (arith, r, h.bounded.reserved, length-take_open t s.starting o rest found));
        })
]

failure_over-IsSound : (t : ℕ) (s : Supervisor) → IsSound s → IsSound (failure_over t s)
unfolding failure_over
failure_over-IsSound t s h = elim (Option-cases (take_open t s.failing)) [
  | inl missing ↦ rw (missing, failure_over) h
  | inr ((o, rest), found) ↦
      rw (found, failure_over)
        (release-IsSound (record s { failing = rest })
          (record {
            distinct = h.bounded.distinct;
            capped = h.bounded.capped;
            reserved = omega (arith, h.bounded.reserved, length-take_open t s.failing o rest found);
            queue_capped = h.bounded.queue_capped;
          }))
]

worker_gone-IsSound : (sid : String) (s : Supervisor) → IsSound s → IsSound (worker_gone sid s)
unfolding worker_gone
worker_gone-IsSound sid s h =
    notify-IsSound (record s { workers = Members.delete sid s.workers })
      (record {
        distinct = delete-Distinct sid s.workers h.bounded.distinct;
        capped = omega (arith, h.bounded.capped, length-delete-le sid s.workers);
        reserved = h.bounded.reserved;
        queue_capped = h.bounded.queue_capped;
      })

step-IsSound : (s : Supervisor) (e : Event) → IsSound s → IsSound (step s e)
unfolding step
step-IsSound s (opens sid) h = open_session-IsSound sid s h
step-IsSound s (gone sid) h = worker_gone-IsSound sid s h
step-IsSound s (resumes t) h = resume_open-IsSound t s h
step-IsSound s (starts t) h = start_worker-IsSound t s h
step-IsSound s (readies t) h = worker_ready-IsSound t s h
step-IsSound s (fails t) h = worker_failed-IsSound t s h
step-IsSound s (ends t) h = failure_over-IsSound t s h

run_events-IsSound : (s : Supervisor) (es : List Event) → IsSound s → IsSound (run_events s es)
unfolding run_events
run_events-IsSound s [] h = h
run_events-IsSound s (e ∷ es) h = run_events-IsSound (step s e) es (step-IsSound s e h)

-- Whatever the event loop runs, the sessions' workers differ and with the workers that will be
-- started are within the limit, a reservation is held for each call that was let in, and the queue
-- is within its limit. No call is left waiting while there is room: if some call waits, all workers
-- are taken or another call is under way that will look after the queue.
pub reachable-IsSound :
    (max_workers max_pending : ℕ) (es : List Event)
    → IsSound (run_events (new_supervisor max_workers max_pending) es)
unfolding new_supervisor
reachable-IsSound max_workers max_pending es =
    run_events-IsSound (new_supervisor max_workers max_pending) es (record {
      bounded = record {
        distinct = tt;
        capped = omega arith;
        reserved = omega arith;
        queue_capped = omega arith;
      };
      attended = λ w. absurd (omega (arith, w));
    })
