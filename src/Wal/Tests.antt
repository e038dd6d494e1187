-- ===== src/Wal/Tests.antt =====
-- The turn log on one turn that is taken, dropped by a restart, and finished.
use pi_roaster.Base.{◌<◌, ◌≢◌, ◌≡◌, refl, true, none, some, [], ◌∷◌, arith}
use pi_roaster.Base.Text.{trim, normalize_optional}
use pi_roaster.Base.Numeric.{whole}
use pi_roaster.Wal.Rows.{
  consume, Envelope, Row, done, inflight, is_terminal, parse_row, channel, is_turn_envelope,
}
use pi_roaster.Wal.{
  next_row, pending_row, transition_status, transition_found, mark_done, append_record,
  append_unless, append_with_key, write_pending, find_by_dedupe_key, sync_cache, ends_unread,
  WalConfig, Store, Call, appends, marks_inflight, marks_done, compacts, restarts, open_store,
  append_pending, rows_of, resolve_ttl_ms, step, run_calls,
}
use pi_roaster.Wal.Terminal.{status, step_ended}
use pi_roaster.Base.Dict
use pi_roaster.Wal.Durable.{IsDurable, IsReadableInput, step-IsDurable}
use pi_roaster.Wal.Recovery.{
  run-IsDurable, AllReadable, open_store-IsDurable, restart_recovers, short_ttl_lost,
}

abbrev config : WalConfig
config = record {
  enabled = true;
  default_ttl_ms = 1000;
  schedule_turn_ttl_ms = 2000;
  compact_after_ms = 500;
}

abbrev envelope : Envelope
envelope = record {
  session_id = "s";
  turn_id = "t";
  channel_id = "telegram";
  conversation_id = "c";
  parts = "hello";
}

abbrev takes : Call
takes = appends envelope channel (some (whole 30 true)) (some "k") "t1" "w1" 10 11

abbrev opened : Store
opened = open_store config []

envelope_readable : is_turn_envelope envelope ≡ true
unfolding is_turn_envelope trim
envelope_readable = refl

takes_readable : IsReadableInput opened.config envelope channel (some (whole 30 true)) "w1" 10
unfolding resolve_ttl_ms open_store trim
takes_readable = (envelope_readable, refl, omega arith, omega arith)

calls_readable :
    AllReadable opened
      (takes ∷ marks_inflight "w1" 12 ∷ restarts ∷ marks_done "w1" 14 ∷ compacts 16 ∷ [])
calls_readable = ((takes_readable, omega arith), (omega arith, (tt, (omega arith, (tt, tt)))))

restart_recovers_example :
    rows_of (
      step
        (run_calls
          (open_store config [])
          (takes ∷ marks_inflight "w1" 12 ∷ restarts ∷ marks_done "w1" 14 ∷ compacts 16 ∷ []))
        restarts)
    ≡ rows_of (
        run_calls
          (open_store config [])
          (takes ∷ marks_inflight "w1" 12 ∷ restarts ∷ marks_done "w1" 14 ∷ compacts 16 ∷ []))
restart_recovers_example =
    restart_recovers config []
      (takes ∷ marks_inflight "w1" 12 ∷ restarts ∷ marks_done "w1" 14 ∷ compacts 16 ∷ [])
      calls_readable

step-IsDurable_example : IsDurable (step opened takes)
step-IsDurable_example =
    step-IsDurable opened takes (takes_readable, omega arith) (open_store-IsDurable config [])

opened_enabled : opened.config.enabled ≡ true
unfolding open_store
opened_enabled = refl

short_ttl_lost_example :
    rows_of (
      step
        (append_pending envelope channel (some (whole 0 true)) none "t1" "w1" 10 11 opened).0
        restarts)
    ≡ rows_of opened
short_ttl_lost_example =
    short_ttl_lost envelope channel "t1" "w1" 10 11 opened opened_enabled
      (open_store-IsDurable config [])

abbrev ended_store : Store
ended_store = run_calls opened (takes ∷ marks_done "w1" 14 ∷ [])

abbrev done_row : Row
done_row =
    next_row
      (pending_row opened.config envelope channel (some (whole 30 true)) (some "k") "t1" "w1" 10)
      done 0 none 14

done_at : Dict.get "w1" (rows_of ended_store) ≡ some done_row
unfolding run_calls step append_pending pending_row append_with_key append_unless write_pending
    append_record mark_done transition_status transition_found next_row find_by_dedupe_key
    sync_cache ends_unread open_store rows_of consume parse_row is_turn_envelope resolve_ttl_ms trim
    normalize_optional Dict.get Dict.set Dict.values
done_at = refl

done_ended : is_terminal done_row.status ≡ true
unfolding next_row
done_ended = refl

inflight_other : inflight ≢ done_row.status
unfolding next_row
inflight_other = λ e. ground (arith, e)

ended_store-IsDurable : IsDurable ended_store
ended_store-IsDurable =
    run-IsDurable opened (takes ∷ marks_done "w1" 14 ∷ [])
      ((takes_readable, omega arith), (omega arith, tt)) (open_store-IsDurable config [])

done_status : status "w1" ended_store ≡ some done
unfolding run_calls step append_pending pending_row append_with_key append_unless write_pending
    append_record mark_done transition_status transition_found next_row find_by_dedupe_key
    sync_cache ends_unread open_store rows_of consume parse_row is_turn_envelope resolve_ttl_ms trim
    normalize_optional Dict.get Dict.set Dict.values
done_status = refl

late_readable : 0 < 20
late_readable = omega arith

step_ended_example : status "w1" (step ended_store (marks_inflight "w1" 20)) ≡ some done
step_ended_example =
    step_ended ended_store (marks_inflight "w1" 20) "w1" done late_readable tt ended_store-IsDurable
      refl done_status
