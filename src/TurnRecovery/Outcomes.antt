-- ===== src/TurnRecovery/Outcomes.antt =====
-- What a recovery does to the rows of a log (packages/brewva-runtime/src/channels/turn-wal-recovery.ts).
use pi_roaster.Base.{
  ℕ, ◌<◌, ◌≡◌, refl, ap, ◌∙◌, String, Bool, true, false, Option, none, some, List, [], ◌∷◌, leb,
  string_eq, if◌then◌else◌, if_cases, arith, eq_iff,
}
use pi_roaster.Base.Text.{◌++◌}
use pi_roaster.Base.Dict
use pi_roaster.Base.Dict.{All-get}
use pi_roaster.Wal.Rows.{Source, Row, Status, failed, expired, is_terminal}
use pi_roaster.Wal.{
  Store, rows_of, is_expired, mark_expired, mark_failed, list_pending, open_store,
  transition_status, transition_found, append_record, next_row, sync_cache, marks_expired,
  marks_failed, lists_pending, step, run_calls,
}
use pi_roaster.Wal.Durable.{
  IsDurable, IsReadable, step-IsDurable, compact-IsDurable, next_row-IsReadable,
  sync_cache-IsDurable,
}
use pi_roaster.Wal.Recovery.{AllReadable, run-IsDurable, open_store-IsDurable}
use pi_roaster.Wal.Terminal.{status, event-status, append_record-status}
use pi_roaster.TurnRecovery.{
  Summary, Outcome, row_retried, row_expired, row_failed, row_skipped, scan, count, settle_row,
  Handled, Options, after_handler, hand_over, recover_row, recover_rows, recover_scope,
}

-- Every handler writes only what can be read back, and the store's clock is past 0.
pub record IsReadableRun (o : Options) : Type 0 where
  pub clock_runs : (row : Row) → 0 < o.clock row
  pub handlers :
      (source : Source) (handler : Row → Store → Handled)
      → o.handler source ≡ some handler
      → (row : Row) (store : Store) → AllReadable store (handler row store).calls

mark_expired-IsDurable :
    (id : String) (now : ℕ) (s : Store)
    → 0 < now
    → IsDurable s
    → IsDurable (mark_expired id now s).0
mark_expired-IsDurable id now s pos h = unfold step in step-IsDurable s (marks_expired id now) pos h

mark_failed-IsDurable :
    (id : String) (message : Option String) (now : ℕ) (s : Store)
    → 0 < now
    → IsDurable s
    → IsDurable (mark_failed id message now s).0
mark_failed-IsDurable id message now s pos h =
    unfold step in step-IsDurable s (marks_failed id message now) pos h

list_pending-IsDurable : (s : Store) → IsDurable s → IsDurable (list_pending s).0
list_pending-IsDurable s h = unfold step in step-IsDurable s lists_pending tt h

after_handler-IsDurable :
    (thrown : Option String) (now : ℕ) (row : Row) (s : Store) (sum : Summary)
    → 0 < now
    → IsDurable s
    → IsDurable (after_handler thrown now row s sum).0
unfolding after_handler
after_handler-IsDurable none now row s sum pos h = h
after_handler-IsDurable (some message) now row s sum pos h =
    mark_failed-IsDurable row.wal_id _ now s pos h

hand_over-IsDurable :
    (found : Option (Row → Store → Handled)) (o : Options) (row : Row) (s : Store) (sum : Summary)
    → o.handler row.source ≡ found
    → IsReadableRun o
    → IsDurable s
    → IsDurable (hand_over found (o.clock row) row s sum).0
unfolding hand_over
hand_over-IsDurable none o row s sum e ok h = h
hand_over-IsDurable (some handler) o row s sum e ok h =
    after_handler-IsDurable (handler row s).thrown (o.clock row) row _ sum (ok.clock_runs row)
      (run-IsDurable s (handler row s).calls (ok.handlers row.source handler e row s) h)

recover_row-IsDurable :
    (o : Options) (at : ℕ) (row : Row) (s : Store) (sum : Summary)
    → IsReadableRun o
    → IsDurable s
    → IsDurable (recover_row o at row s sum).0
unfolding recover_row settle_row
recover_row-IsDurable o at row s sum ok h =
    if_cases {A = Store × Summary} (λ r. IsDurable r.0) (is_expired s.config row at)
      (λ _. mark_expired-IsDurable row.wal_id (o.clock row) s (ok.clock_runs row) h)
      (λ _.
        if_cases {A = Store × Summary} (λ r. IsDurable r.0) (leb o.max_retries row.attempts)
          (λ _. mark_failed-IsDurable row.wal_id _ (o.clock row) s (ok.clock_runs row) h)
          (λ _. hand_over-IsDurable (o.handler row.source) o row s (scan row.source sum) refl ok h))

recover_rows-IsDurable :
    (o : Options) (at : ℕ) (rows : List Row) (s : Store) (sum : Summary)
    → IsReadableRun o
    → IsDurable s
    → IsDurable (recover_rows o at rows s sum).0
unfolding recover_rows
recover_rows-IsDurable o at [] s sum ok h = h
recover_rows-IsDurable o at (row ∷ rows) s sum ok h =
    recover_rows-IsDurable o at rows (recover_row o at row s sum).0 (recover_row o at row s sum).1
      ok (recover_row-IsDurable o at row s sum ok h)

-- The store of a scope that was recovered, its compaction included, knows exactly the rows that its
-- file gives back, provided that the handlers write only what can be read back and that the store's
-- clock is past 0.
pub recover_scope-IsDurable :
    (o : Options) (at : ℕ) (file : List Row) (sum : Summary)
    → IsReadableRun o
    → IsDurable (recover_scope o at file sum).0
unfolding recover_scope
recover_scope-IsDurable o at file sum ok =
    compact-IsDurable o.compacted_at (recover_rows o at opened.1 opened.0 sum).0 (
      recover_rows-IsDurable o at opened.1 opened.0 sum ok
        (list_pending-IsDurable (open_store o.wal file) (open_store-IsDurable o.wal file)))
  where
    opened : Store × List Row
    opened = list_pending (open_store o.wal file)

-- A row that is open takes the status of a transition.
transition_found_open :
    (r : Row) (to : Status) (d : ℕ) (error : Option String) (now : ℕ) (s : Store)
    → 0 < now
    → IsDurable s
    → Dict.get r.wal_id (rows_of s) ≡ some r
    → is_terminal r.status ≡ false
    → status r.wal_id (transition_found (some r) to d error now s).0 ≡ some to
unfolding transition_found next_row
transition_found_open r to d error now s pos h found still =
    rw (still, transition_found)
      (event-status r.wal_id (append_record (next_row r to d error now) s) _
        ∙ append_record-status (next_row r to d error now) r.wal_id s
            (next_row-IsReadable r to d error now pos
              (All-get IsReadable r.wal_id (rows_of s) r h.readable found))
            h
        ∙ rw ((eq_iff r.wal_id r.wal_id).1 refl))

transition_open :
    (r : Row) (to : Status) (d : ℕ) (error : Option String) (now : ℕ) (s : Store)
    → s.config.enabled ≡ true
    → 0 < now
    → IsDurable s
    → Dict.get r.wal_id (rows_of s) ≡ some r
    → is_terminal r.status ≡ false
    → status r.wal_id (transition_status r.wal_id to d error now s).0 ≡ some to
unfolding transition_status sync_cache
transition_open r to d error now s on pos h found still =
    if_cases {A = Store × Option Row} (λ x. status r.wal_id x.0 ≡ some to) s.config.enabled
      (λ _.
        ap (λ o. status r.wal_id (transition_found o to d error now (sync_cache s)).0) found
        ∙ transition_found_open r to d error now (sync_cache s) pos (sync_cache-IsDurable s h) found
            still)
      (λ off. absurd (ground (arith, on, off)))

-- What a row's handler leaves, and what is counted of the row.
abbrev handled_store : Option String → ℕ → Row → Store → Store
handled_store none now row s = s
handled_store (some message) now row s =
    (mark_failed row.wal_id (some ("recovery_retry_failed:" ++ message)) now s).0

abbrev handled_outcome : Option String → Outcome
handled_outcome none = row_retried
handled_outcome (some message) = row_failed

-- What is to become of a row, told by whether it is late, whether its retries are spent, and the
-- handler of its source; `alone` is the recovery without any handler.
abbrev pub Settles :
    Bool
    → Bool
    → Option (Row → Store → Handled)
    → ℕ
    → Row
    → Store
    → Summary
    → Store × Summary
    → Store × Summary
    → Type 0
Settles true spent handler now row s sum alone r =
    (status row.wal_id r.0 ≡ some expired) × (r.1 ≡ count row.source row_expired sum) × (r ≡ alone)
Settles false true handler now row s sum alone r =
    (status row.wal_id r.0 ≡ some failed) × (r.1 ≡ count row.source row_failed sum) × (r ≡ alone)
Settles false false none now row s sum alone r =
    (r.0 ≡ s) × (r.1 ≡ count row.source row_skipped sum)
Settles false false (some handler) now row s sum alone r =
    let h = handler row s in
    (r.0 ≡ handled_store h.thrown now row (run_calls s h.calls))
    × (r.1 ≡ count row.source (handled_outcome h.thrown) sum)

after_handler-Settles :
    (thrown : Option String) (now : ℕ) (row : Row) (t : Store) (sum : Summary)
    → ((after_handler thrown now row t sum).0 ≡ handled_store thrown now row t)
      × ((after_handler thrown now row t sum).1 ≡ count row.source (handled_outcome thrown) sum)
unfolding after_handler
after_handler-Settles none now row t sum = (refl, refl)
after_handler-Settles (some message) now row t sum = (refl, refl)

hand_over-Settles :
    (handler : Option (Row → Store → Handled)) (now : ℕ) (row : Row) (s : Store) (sum : Summary)
    (alone : Store × Summary)
    → Settles false false handler now row s sum alone (hand_over handler now row s sum)
unfolding hand_over
hand_over-Settles none now row s sum alone = (refl, refl)
hand_over-Settles (some handler) now row s sum alone =
    after_handler-Settles (handler row s).thrown now row (run_calls s (handler row s).calls) sum

-- The recovery of a row that is open: if it has expired, it becomes `expired` and is counted so; else
-- if it has no retry left, it becomes `failed` and is counted so; and neither reaches a handler,
-- since without any the recovery is the same. Any other row is skipped and the store is left as it
-- was if its source has no handler; if there is one, its calls run on the store, and the row is
-- counted as retried, or it is marked failed and counted so if the handler throws. The store is
-- enabled and knows what its file says, and its clock is past 0.
pub recover_row-Settles :
    (o : Options) (at : ℕ) (row : Row) (s : Store) (sum : Summary)
    → s.config.enabled ≡ true
    → 0 < o.clock row
    → IsDurable s
    → Dict.get row.wal_id (rows_of s) ≡ some row
    → is_terminal row.status ≡ false
    → Settles
        (is_expired s.config row at)
        (leb o.max_retries row.attempts)
        (o.handler row.source)
        (o.clock row)
        row
        s
        (scan row.source sum)
        (recover_row (record o { handler = λ source. none }) at row s sum)
        (recover_row o at row s sum)
unfolding recover_row settle_row
recover_row-Settles o at row s sum on pos h found still =
    split (is_expired s.config row at) (leb o.max_retries row.attempts)
      (unfold mark_expired in
        transition_open row expired 0 none (o.clock row) s on pos h found still)
      (unfold mark_failed in transition_open row failed 0 _ (o.clock row) s on pos h found still)
  where
    sum' : Summary
    sum' = scan row.source sum

    late_end : Store × Summary
    late_end = ((mark_expired row.wal_id (o.clock row) s).0, count row.source row_expired sum')

    spent_end : Store × Summary
    spent_end = (
      (mark_failed row.wal_id (some "max_retries_exhausted") (o.clock row) s).0,
      count row.source row_failed sum',
    )

    split :
        (late spent : Bool)
        → status row.wal_id late_end.0 ≡ some expired
        → status row.wal_id spent_end.0 ≡ some failed
        → Settles late spent
            (o.handler row.source)
            (o.clock row)
            row
            s
            sum'
            (if late
              then late_end
              else if spent
              then spent_end
              else hand_over none (o.clock row) row s sum')
            (if late
              then late_end
              else if spent
              then spent_end
              else hand_over (o.handler row.source) (o.clock row) row s sum')
    split true spent a b = (a, refl, refl)
    split false true a b = (b, refl, refl)
    split false false a b = hand_over-Settles (o.handler row.source) (o.clock row) row s sum' _
