-- ===== src/TurnRecovery.antt =====
-- packages/brewva-runtime/src/channels/turn-wal-recovery.ts: `TurnWALRecovery`, on the stores of
-- Wal. A handler is code of the caller: what it does is the calls that it makes on the store, and
-- the message of the error that it throws, if it throws one. `clock` is what the store's clock says
-- when a row is marked, and `compacted_at` when a scope is compacted.
pub mod Accounting
pub mod Outcomes
mod Tests
use pi_roaster.Base.{
  ℕ, ◌+◌, max, String, Bool, true, false, Option, none, some, List, [], ◌∷◌, leb, if◌then◌else◌,
}
use pi_roaster.Base.Text.{◌++◌}
use pi_roaster.Wal.Rows.{Source, channel, schedule, gateway, heartbeat, Row}
use pi_roaster.Wal.{
  WalConfig, Store, Call, open_store, is_expired, mark_expired, mark_failed, list_pending, compact,
  run_calls, CompactResult,
}

pub record Counts : Type 0 where
  pub scanned : ℕ
  pub retried : ℕ
  pub expired : ℕ
  pub failed : ℕ
  pub skipped : ℕ

-- `TurnWALRecoveryResult`.
pub record Summary : Type 0 where
  pub recovered_at : ℕ
  pub total : Counts
  pub compacted : ℕ
  pub by_channel : Counts
  pub by_schedule : Counts
  pub by_gateway : Counts
  pub by_heartbeat : Counts

abbrev pub no_counts : Counts
no_counts = record { scanned = 0; retried = 0; expired = 0; failed = 0; skipped = 0 }

-- `buildEmptySummary`.
abbrev pub empty_summary : ℕ → Summary
empty_summary recovered_at = record {
  recovered_at = recovered_at;
  total = no_counts;
  compacted = 0;
  by_channel = no_counts;
  by_schedule = no_counts;
  by_gateway = no_counts;
  by_heartbeat = no_counts;
}

pub data Outcome : Type 0 where
  row_retried row_expired row_failed row_skipped : Outcome

-- `scanned += 1` of one group of counters, and the same of what becomes of a row.
unfoldable pub count_scanned : Counts → Counts
count_scanned c = record c { scanned = c.scanned + 1 }

unfoldable pub count_outcome : Outcome → Counts → Counts
count_outcome row_retried c = record c { retried = c.retried + 1 }
count_outcome row_expired c = record c { expired = c.expired + 1 }
count_outcome row_failed c = record c { failed = c.failed + 1 }
count_outcome row_skipped c = record c { skipped = c.skipped + 1 }

-- A change of the total, and one of `bySource[source]`.
abbrev pub in_total : (Counts → Counts) → Summary → Summary
in_total f s = record s { total = f s.total }

unfoldable pub in_source : Source → (Counts → Counts) → Summary → Summary
in_source channel f s = record s { by_channel = f s.by_channel }
in_source schedule f s = record s { by_schedule = f s.by_schedule }
in_source gateway f s = record s { by_gateway = f s.by_gateway }
in_source heartbeat f s = record s { by_heartbeat = f s.by_heartbeat }

abbrev pub scan : Source → Summary → Summary
scan source s = in_source source count_scanned (in_total count_scanned s)

abbrev pub count : Source → Outcome → Summary → Summary
count source o s = in_source source (count_outcome o) (in_total (count_outcome o) s)

-- What a handler does with a row.
pub record Handled : Type 0 where
  pub calls : List Call
  pub thrown : Option String

-- The recovery's options; a source without a handler has none.
pub record Options : Type 0 where
  pub wal : WalConfig
  pub max_retries : ℕ
  pub handler : Source → Option (Row → Store → Handled)
  pub clock : Row → ℕ
  pub compacted_at : ℕ

-- The end of a handler: an error that it throws fails the row.
unfoldable pub after_handler : Option String → ℕ → Row → Store → Summary → Store × Summary
after_handler none now row store sum = (store, count row.source row_retried sum)
after_handler (some message) now row store sum = (
  (mark_failed row.wal_id (some ("recovery_retry_failed:" ++ message)) now store).0,
  count row.source row_failed sum,
)

unfoldable pub hand_over :
    Option (Row → Store → Handled) → ℕ → Row → Store → Summary → Store × Summary
unfolding after_handler
hand_over none now row store sum = (store, count row.source row_skipped sum)
hand_over (some handler) now row store sum =
    after_handler (handler row store).thrown now row (run_calls store (handler row store).calls) sum

-- The body of the loop over the rows of a scope, after the row is counted as scanned.
unfoldable pub settle_row : Options → ℕ → Row → Store → Summary → Store × Summary
unfolding hand_over
settle_row o recovered_at row store sum =
    if is_expired store.config row recovered_at
    then ((mark_expired row.wal_id (o.clock row) store).0, count row.source row_expired sum)
    else if leb o.max_retries row.attempts
    then (
      (mark_failed row.wal_id (some "max_retries_exhausted") (o.clock row) store).0,
      count row.source row_failed sum,
    )
    else hand_over (o.handler row.source) (o.clock row) row store sum

unfoldable pub recover_row : Options → ℕ → Row → Store → Summary → Store × Summary
unfolding settle_row
recover_row o recovered_at row store sum = settle_row o recovered_at row store (scan row.source sum)

unfoldable pub recover_rows : Options → ℕ → List Row → Store → Summary → Store × Summary
recover_rows o recovered_at [] store sum = (store, sum)
recover_rows o recovered_at (row ∷ rows) store sum =
    let (store', sum') = recover_row o recovered_at row store sum in
    recover_rows o recovered_at rows store' sum'

-- One scope: its pending rows, and the compaction of its log.
unfoldable pub recover_scope : Options → ℕ → List Row → Summary → Store × Summary
unfolding recover_rows
recover_scope o recovered_at file sum =
    let (store, rows) = list_pending (open_store o.wal file) in
    let (store', sum') = recover_rows o recovered_at rows store sum in
    let (store'', result) = compact o.compacted_at store' in
    (store'', record sum' { compacted = sum'.compacted + result.dropped })

-- The loop over the scopes, each a log of its own.
unfoldable pub recover_scopes : Options → ℕ → List (List Row) → Summary → List Store × Summary
unfolding recover_scope
recover_scopes o recovered_at [] sum = ([], sum)
recover_scopes o recovered_at (file ∷ files) sum =
    let (store, sum') = recover_scope o recovered_at file sum in
    let (stores, sum'') = recover_scopes o recovered_at files sum' in (store ∷ stores, sum'')

-- `recover`.
unfoldable pub recover : Options → ℕ → List (List Row) → List Store × Summary
unfolding recover_scopes
recover o recovered_at files =
    if o.wal.enabled
    then recover_scopes o recovered_at files (empty_summary recovered_at)
    else ([], empty_summary recovered_at)
