-- ===== src/TurnRecovery/Tests.antt =====
-- A recovery of one log, whose turn has expired.
use pi_roaster.Base.{◌<◌, ◌≡◌, refl, true, Option, none, some, List, [], ◌∷◌, arith, leb, subst}
use pi_roaster.Base.Dict
use pi_roaster.Base.Text.{trim}
use pi_roaster.Wal.Rows.{
  Row, Source, pending, channel, schedule, gateway, heartbeat, parse_row, consume, is_turn_envelope,
}
use pi_roaster.Wal.{Call, Store, marks_done, open_store, rows_of, is_expired}
use pi_roaster.Wal.Recovery.{open_store-IsDurable, AllReadable}
use pi_roaster.TurnRecovery.{Handled, Options, empty_summary, scan, recover, recover_row}
use pi_roaster.TurnRecovery.Accounting.{IsBalanced, Group, scanned_in, to_scan, recover-IsBalanced}
use pi_roaster.TurnRecovery.Outcomes.{IsReadableRun, Settles, recover_row-Settles}

abbrev row : Row
row = record {
  wal_id = "w1";
  turn_id = "t1";
  session_id = "s";
  channel_id = "telegram";
  conversation_id = "c";
  status = pending;
  envelope = record {
    session_id = "s";
    turn_id = "t1";
    channel_id = "telegram";
    conversation_id = "c";
    parts = "hello";
  };
  created_at = 5;
  updated_at = 5;
  attempts = 0;
  source = channel;
  error = none;
  ttl_ms = some 10;
  dedupe_key = none;
}

abbrev handlers : Source → Option (Row → Store → Handled)
handlers channel = some (λ r s. record { calls = marks_done r.wal_id 40 ∷ []; thrown = none })
handlers _ = none

abbrev options : Options
options = record {
  wal = record {
    enabled = true;
    default_ttl_ms = 1000;
    schedule_turn_ttl_ms = 2000;
    compact_after_ms = 500;
  };
  max_retries = 3;
  handler = handlers;
  clock = λ r. 30;
  compacted_at = 50;
}

abbrev opened : Store
opened = open_store options.wal (row ∷ [])

recover-IsBalanced_example :
    IsBalanced (recover options 20 ((row ∷ []) ∷ [])).1
    × ((g : Group)
        → scanned_in g (recover options 20 ((row ∷ []) ∷ [])).1
          ≡ to_scan g options.wal ((row ∷ []) ∷ []))
recover-IsBalanced_example = recover-IsBalanced options 20 ((row ∷ []) ∷ [])

handlers_readable :
    (source : Source) (handler : Row → Store → Handled)
    → handlers source ≡ some handler
    → (r : Row) (s : Store) → AllReadable s (handler r s).calls
handlers_readable channel handler e r s =
    subst (λ (o : Option (Row → Store → Handled)). AllReadable s (calls_of o)) e (omega arith, tt)
  where
    calls_of : Option (Row → Store → Handled) → List Call
    calls_of none = []
    calls_of (some h) = (h r s).calls
handlers_readable schedule handler e r s = absurd (ground (arith, e))
handlers_readable gateway handler e r s = absurd (ground (arith, e))
handlers_readable heartbeat handler e r s = absurd (ground (arith, e))

options-IsReadableRun : IsReadableRun options
options-IsReadableRun = record { clock_runs = λ r. omega arith; handlers = handlers_readable }

opened_enabled : opened.config.enabled ≡ true
unfolding open_store
opened_enabled = refl

row_there : Dict.get row.wal_id (rows_of opened) ≡ some row
unfolding open_store rows_of consume parse_row is_turn_envelope trim Dict.get Dict.set
row_there = refl

clock_runs : 0 < options.clock row
clock_runs = omega arith

recover_row-Settles_example :
    Settles
      (is_expired opened.config row 20)
      (leb options.max_retries row.attempts)
      (options.handler row.source)
      (options.clock row)
      row
      opened
      (scan row.source (empty_summary 20))
      (recover_row (record options { handler = λ source. none }) 20 row opened (empty_summary 20))
      (recover_row options 20 row opened (empty_summary 20))
recover_row-Settles_example =
    recover_row-Settles options 20 row opened (empty_summary 20) opened_enabled clock_runs
      (open_store-IsDurable options.wal (row ∷ [])) row_there refl
