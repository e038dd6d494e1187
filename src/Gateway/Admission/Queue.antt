-- ===== src/Gateway/Admission/Queue.antt =====
-- Who is served when a worker goes away.
use pi_roaster.Base.{
  suc, ◌≡◌, refl, ap, String, true, false, some, List, [], ◌∷◌, ◌++◌, nat_eq, arith,
}
use pi_roaster.Base.Members
use pi_roaster.Base.Members.{length-delete_member}
use pi_roaster.Gateway.Admission.{
  Open, Supervisor, is_full, acquire_turn, notify_if_available, take_open, resume_open, worker_gone,
  under_way,
}
use pi_roaster.Gateway.Admission.Bounds.{IsSound}

-- One worker less, where no reservation is held, makes room.
gone_not_full :
    (s : Supervisor) (sid : String)
    → IsSound s
    → s.pending_open_reservations ≡ 0
    → Members.has sid s.workers ≡ true
    → is_full (record s { workers = Members.delete sid s.workers }) ≡ false
gone_not_full s sid h r m =
    ground (arith, r, h.bounded.capped, length-delete_member sid s.workers h.bounded.distinct m)

take_open-head : (o : Open) → take_open o.ticket (o ∷ []) ≡ some (o, [])
unfolding take_open
take_open-head o = ground arith

resume_alone :
    (s : Supervisor) (o : Open)
    → is_full s ≡ false
    → resume_open o.ticket (record s { woken = o ∷ [] }) ≡ (
      record s {
        woken = [];
        pending_open_reservations = suc s.pending_open_reservations;
        admitted = s.admitted ++ o ∷ [];
      },
      under_way o.ticket,
    )
unfolding resume_open acquire_turn
resume_alone s o free = rw (take_open-head o, resume_open) (rw free refl)

-- Where no call is under way, a worker that goes away lets in the call that waits longest: it is
-- woken, the others keep waiting in their order, and it finds room when it goes on.
pub gone_serves_oldest :
    (s : Supervisor) (sid : String) (o : Open) (rest : List Open)
    → IsSound s
    → s.pending_open_reservations ≡ 0
    → s.woken ≡ []
    → s.waiters ≡ o ∷ rest
    → Members.has sid s.workers ≡ true
    → ((worker_gone sid s).woken ≡ o ∷ [])
      × ((worker_gone sid s).waiters ≡ rest)
      × ((resume_open o.ticket (worker_gone sid s)).1 ≡ under_way o.ticket)
      × ((resume_open o.ticket (worker_gone sid s)).0.admitted ≡ s.admitted ++ o ∷ [])
unfolding worker_gone notify_if_available
gone_serves_oldest s sid o rest h r w q m =
    rw (gone_not_full s sid h r m, w, q)
      (
        refl,
        refl,
        ap (λ x. x.1) (resume_alone left o free),
        ap (λ x. x.0.admitted) (resume_alone left o free),
      )
  where
    left : Supervisor
    left = record s { workers = Members.delete sid s.workers; waiters = rest }

    free : is_full left ≡ false
    free = gone_not_full s sid h r m
