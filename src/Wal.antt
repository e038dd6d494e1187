-- ===== src/Wal.antt =====
-- packages/brewva-runtime/src/channels/turn-wal.ts: `TurnWALStore`, the only writer of its file. The
-- file is the list of its lines, each one row in JSON; the cache is what `syncCache` keeps of it,
-- and is lost with the process. A method that reads the clock twice takes two readings.
pub mod Rows
pub mod Durable
pub mod Recovery
pub mod Terminal
mod Tests
use Rows.{
  Status, pending, inflight, done, failed, expired, Source, schedule, Envelope, Row, is_terminal,
  is_recoverable, same_status, consume, is_older, parse_row,
}
use pi_roaster.Base.{
  is_some, ℕ, ◌+◌, ◌-◌, max, String, Bool, true, false, not, ◌&&◌, ◌||◌, Option, none, some, List,
  [], ◌∷◌, ◌++◌, ltb, leb, ◌==◌, nat_eq, string_eq, if◌then◌else◌, or_else, keep, length,
}
use pi_roaster.Base.Dict
use pi_roaster.Base.Dict.{Dict}
use pi_roaster.Base.Numeric.{JsNumber, nan, infinite, negative, whole}
use pi_roaster.Base.Sorting.{sort}
use pi_roaster.Base.Text.{trim, normalize_optional}

-- `BrewvaConfig["infrastructure"]["turnWal"]`.
pub record WalConfig : Type 0 where
  pub enabled : Bool
  pub default_ttl_ms : ℕ
  pub schedule_turn_ttl_ms : ℕ
  pub compact_after_ms : ℕ

pub record CompactResult : Type 0 where
  pub scanned : ℕ
  pub retained : ℕ
  pub dropped : ℕ

pub data WalEvent : Type 0 where
  appended : Row → WalEvent
  status_changed : Row → Row → WalEvent
  compacted : CompactResult → WalEvent

pub record Store : Type 0 where
  pub config : WalConfig
  pub file : List Row
  pub cache : Option (Dict Row)
  pub fragment : Bool
  pub events : List WalEvent

-- The constructor, on a file that is there.
unfoldable pub open_store : WalConfig → List Row → Store
open_store c file = record {
  config = record c {
    default_ttl_ms = max 1 c.default_ttl_ms;
    schedule_turn_ttl_ms = max 1 c.schedule_turn_ttl_ms;
    compact_after_ms = max 1 c.compact_after_ms;
  };
  file = file;
  cache = none;
  fragment = false;
  events = [];
}

-- The rows of `syncCache`, by log id.
unfoldable pub rows_of : Store → Dict Row
rows_of s = elim s.cache [ some rows ↦ rows | none ↦ consume [] s.file ]

-- Whether the last line of a file is not read back, so that `consumeChunk` keeps it as a fragment.
unfoldable pub ends_unread : List Row → Bool
ends_unread [] = false
ends_unread (r ∷ []) = not (is_some (parse_row r))
ends_unread (r ∷ q ∷ rs) = ends_unread (q ∷ rs)

-- `syncCache`: afterwards there is a cache.
unfoldable pub sync_cache : Store → Store
unfolding rows_of ends_unread
sync_cache s = record s {
  cache = some (rows_of s);
  fragment = elim s.cache [ some rows ↦ s.fragment | none ↦ ends_unread s.file ];
}

abbrev track : Row → Option (Dict Row) → Option (Dict Row)
track r none = none
track r (some rows) = some (Dict.set r.wal_id r rows)

-- `appendRecord` and `trackAppendedRow`: a cache with a fragment is given up.
unfoldable pub append_record : Row → Store → Store
append_record r s = record s {
  file = s.file ++ r ∷ [];
  cache = if s.fragment then none else track r s.cache;
}

abbrev emit : WalEvent → Store → Store
emit e s = record s { events = s.events ++ e ∷ [] }

abbrev ttl_of_source : WalConfig → Source → ℕ
ttl_of_source c schedule = c.schedule_turn_ttl_ms
ttl_of_source c _ = c.default_ttl_ms

-- `resolveTtlMs`: a positive override is rounded down.
unfoldable pub resolve_ttl_ms : WalConfig → Source → Option JsNumber → ℕ
resolve_ttl_ms c source (some (whole n f)) = if ltb 0 n || f then n else ttl_of_source c source
resolve_ttl_ms c source _ = ttl_of_source c source

abbrev ttl_of_row : WalConfig → Row → Option ℕ → ℕ
ttl_of_row c r none = ttl_of_source c r.source
ttl_of_row c r (some t) = if ltb 0 t then t else ttl_of_source c r.source

-- `isExpired`.
unfoldable pub is_expired : WalConfig → Row → ℕ → Bool
is_expired c r now = ltb (max r.created_at r.updated_at + ttl_of_row c r r.ttl_ms) now

abbrev has_key : Option String → String → Bool
has_key none key = false
has_key (some k) key = k == key

abbrev newer : Option Row → Row → Option Row
newer none r = some r
newer (some c) r = if is_older c r then some r else some c

-- The loop of `findRecoverableByDedupeKey`.
unfoldable pub find_by_dedupe_key : String → Option Row → List Row → Option Row
find_by_dedupe_key key candidate [] = candidate
find_by_dedupe_key key candidate (r ∷ rs) =
    find_by_dedupe_key key
      (if has_key r.dedupe_key key && is_recoverable r.status then newer candidate r else candidate)
      rs

abbrev error_after : Status → Option String → Option String → Option String
error_after failed error old = elim error [
  | some e ↦ some e
  | none ↦ some (or_else old "turn_wal_failed")
]
error_after _ error old = none

-- The row that `transitionStatus` writes.
unfoldable pub next_row : Row → Status → ℕ → Option String → ℕ → Row
next_row r status attempts_delta error now = record r {
  status = status;
  updated_at = now;
  attempts = r.attempts + attempts_delta;
  error = error_after status error r.error;
}

unfoldable pub transition_found :
    Option Row → Status → ℕ → Option String → ℕ → Store → Store × Option Row
transition_found none status attempts_delta error now s = (s, none)
transition_found (some r) status attempts_delta error now s =
    if is_terminal r.status && not (same_status status r.status) then (s, none) else (
      emit (status_changed r (next_row r status attempts_delta error now))
          (append_record (next_row r status attempts_delta error now) s),
      some (next_row r status attempts_delta error now),
    )

-- `transitionStatus`.
unfoldable pub transition_status :
    String → Status → ℕ → Option String → ℕ → Store → Store × Option Row
transition_status wal_id status attempts_delta error now s =
    if s.config.enabled
    then transition_found (Dict.get wal_id (rows_of s)) status attempts_delta error now
        (sync_cache s)
    else (s, none)

unfoldable pub mark_inflight : String → ℕ → Store → Store × Option Row
mark_inflight wal_id now s = transition_status wal_id inflight 1 none now s

unfoldable pub mark_done : String → ℕ → Store → Store × Option Row
mark_done wal_id now s = transition_status wal_id done 0 none now s

unfoldable pub mark_failed : String → Option String → ℕ → Store → Store × Option Row
mark_failed wal_id error now s = transition_status wal_id failed 0 (normalize_optional error) now s

unfoldable pub mark_expired : String → ℕ → Store → Store × Option Row
mark_expired wal_id now s = transition_status wal_id expired 0 none now s

-- The row that `appendPending` writes; `turn_id` and `wal_id` are the generated ids.
unfoldable pub pending_row :
    WalConfig → Envelope → Source → Option JsNumber → Option String → String → String → ℕ → Row
pending_row c e source ttl_ms dedupe_key turn_id wal_id now = record {
  wal_id = wal_id;
  turn_id = or_else (normalize_optional (some e.turn_id)) turn_id;
  session_id = or_else (normalize_optional (some e.session_id)) "unknown";
  channel_id = or_else (normalize_optional (some e.channel_id)) "unknown";
  conversation_id = or_else (normalize_optional (some e.conversation_id)) "unknown";
  status = pending;
  envelope = e;
  created_at = now;
  updated_at = now;
  attempts = 0;
  source = source;
  error = none;
  ttl_ms = some (resolve_ttl_ms c source ttl_ms);
  dedupe_key = normalize_optional dedupe_key;
}

unfoldable pub write_pending : Row → Store → Store × Row
write_pending r s = (emit (appended r) (if s.config.enabled then append_record r s else s), r)

-- `appendPending` once the row with the same key is known.
unfoldable pub append_unless : Option Row → Row → ℕ → ℕ → Store → Store × Row
append_unless none r now later s = write_pending r s
append_unless (some old) r now later s =
    if is_expired s.config old now
    then write_pending r (mark_expired old.wal_id later s).0
    else (s, old)

unfoldable pub append_with_key : Option String → Row → ℕ → ℕ → Store → Store × Row
append_with_key none r now later s = write_pending r s
append_with_key (some key) r now later s =
    if s.config.enabled
    then append_unless (find_by_dedupe_key key none (Dict.values (rows_of s))) r now later
        (sync_cache s)
    else write_pending r s

-- `appendPending`.
unfoldable pub append_pending :
    Envelope
    → Source
    → Option JsNumber
    → Option String
    → String
    → String
    → ℕ
    → ℕ
    → Store
    → Store × Row
append_pending e source ttl_ms dedupe_key turn_id wal_id now later s =
    append_with_key (normalize_optional dedupe_key)
      (pending_row s.config e source ttl_ms dedupe_key turn_id wal_id now) now later s

-- In the order of `toSorted(compareByCreatedAt)`.
abbrev pub by_age : List Row → List Row
by_age = sort (λ left right. not (is_older right left))

unfoldable pub list_pending : Store → Store × List Row
list_pending s =
    if s.config.enabled
    then (sync_cache s, by_age (keep (λ r. is_recoverable r.status) (Dict.values (rows_of s))))
    else (s, [])

unfoldable pub list_current : Store → Store × List Row
list_current s =
    if s.config.enabled then (sync_cache s, by_age (Dict.values (rows_of s))) else (s, [])

-- The filter of `compact`.
unfoldable pub is_retained : WalConfig → ℕ → Row → Bool
is_retained c now r = not (is_terminal r.status) || ltb now (r.updated_at + c.compact_after_ms)

unfoldable pub index_rows : Dict Row → List Row → Dict Row
index_rows rows [] = rows
index_rows rows (r ∷ rs) = index_rows (Dict.set r.wal_id r rows) rs

abbrev no_compaction : CompactResult
no_compaction = record { scanned = 0; retained = 0; dropped = 0 }

unfoldable pub compact : ℕ → Store → Store × CompactResult
compact now s =
    let current = by_age (Dict.values (rows_of s)) in
    let retained = keep (is_retained s.config now) current in
    let result : CompactResult = record {
      scanned = length current;
      retained = length retained;
      dropped = length current - length retained;
    } in
    if s.config.enabled
    then (
      record s {
        file = retained;
        cache = some (index_rows [] retained);
        fragment = false;
        events = s.events ++ compacted result ∷ [];
      },
      result,
    )
    else (s, no_compaction)

-- The calls on the store; `restarts` is the end of the process, which loses the cache.
pub data Call : Type 0 where
  appends : Envelope → Source → Option JsNumber → Option String → String → String → ℕ → ℕ → Call
  marks_inflight : String → ℕ → Call
  marks_done : String → ℕ → Call
  marks_failed : String → Option String → ℕ → Call
  marks_expired : String → ℕ → Call
  lists_pending : Call
  lists_current : Call
  compacts : ℕ → Call
  restarts : Call

unfoldable pub step : Store → Call → Store
step s (appends e source ttl_ms dedupe_key turn_id wal_id now later) =
    (append_pending e source ttl_ms dedupe_key turn_id wal_id now later s).0
step s (marks_inflight wal_id now) = (mark_inflight wal_id now s).0
step s (marks_done wal_id now) = (mark_done wal_id now s).0
step s (marks_failed wal_id error now) = (mark_failed wal_id error now s).0
step s (marks_expired wal_id now) = (mark_expired wal_id now s).0
step s lists_pending = (list_pending s).0
step s lists_current = (list_current s).0
step s (compacts now) = (compact now s).0
step s restarts = record s { cache = none }

unfoldable pub run_calls : Store → List Call → Store
run_calls s [] = s
run_calls s (c ∷ cs) = run_calls (step s c) cs
