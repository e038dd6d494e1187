-- ===== src/Wal/Durable.antt =====
-- The rows that the process knows beside those of its file (packages/brewva-runtime/src/channels/turn-wal.ts).
use pi_roaster.Base.{
  ℕ, ◌<◌, ◌≡◌, refl, ap, sym, ◌∙◌, subst, String, true, not, ◌&&◌, Option, none, some, List, [],
  ◌∷◌, ◌++◌, nat_eq, string_eq, if◌then◌else◌, if_cases, or_else, keep, All, All-keep, arith,
}
use pi_roaster.Base.Dict
use pi_roaster.Base.Dict.{Dict, All-get, All-set}
use pi_roaster.Base.Numeric.{JsNumber}
use pi_roaster.Base.Sorting.{All-sort}
use pi_roaster.Base.Text.{trim, normalize_optional, trim_idem}
use pi_roaster.Wal.Rows.{
  Status, inflight, done, failed, expired, Source, Envelope, Row, is_terminal, same_status, consume,
  parse_row, keep_row, is_filled, is_turn_envelope,
}
use pi_roaster.Wal.{
  WalConfig, WalEvent, Store, CompactResult, rows_of, sync_cache, append_record, resolve_ttl_ms,
  next_row, transition_found, transition_status, mark_inflight, mark_done, mark_failed,
  mark_expired, pending_row, write_pending, append_unless, append_with_key, append_pending,
  list_pending, list_current, is_retained, index_rows, compact, Call, appends, marks_inflight,
  marks_done, marks_failed, marks_expired, lists_pending, lists_current, compacts, restarts, step,
  by_age, is_expired,
}

-- The line of the row is read back as the row.
abbrev pub IsReadable : Row → Type 0
IsReadable r = parse_row r ≡ some r

-- What the process knows is what the file says, and every row of it can be read back.
pub record IsDurable (s : Store) : Type 0 where
  pub coherent : rows_of s ≡ consume [] s.file
  pub readable : All IsReadable (Dict.values (rows_of s))

pub consume-append :
    (d : Dict Row) (rs : List Row) (r : Row)
    → consume d (rs ++ r ∷ []) ≡ keep_row (parse_row r) (consume d rs)
unfolding consume
consume-append d [] r = refl
consume-append d (x ∷ rs) r = consume-append (keep_row (parse_row x) d) rs r

pub sync_cache-IsDurable : (s : Store) → IsDurable s → IsDurable (sync_cache s)
unfolding sync_cache
sync_cache-IsDurable s h = record { coherent = h.coherent; readable = h.readable }

pub append_record-rows :
    (r : Row) (s : Store)
    → IsReadable r
    → rows_of s ≡ consume [] s.file
    → (rows_of (append_record r s) ≡ Dict.set r.wal_id r (rows_of s))
      × (rows_of (append_record r s) ≡ consume [] (append_record r s).file)
unfolding rows_of append_record
append_record-rows r s ok h =
    (ground (arith, consume-append [] s.file r, ok), ground (arith, consume-append [] s.file r, ok))

pub append_record-IsDurable :
    (r : Row) (s : Store) → IsReadable r → IsDurable s → IsDurable (append_record r s)
append_record-IsDurable r s ok h =
    let (rows, coherent) = append_record-rows r s ok h.coherent in
    record {
      coherent = coherent;
      readable = rw rows (All-set IsReadable r.wal_id (rows_of s) r h.readable ok);
    }

-- Another event does not touch the rows.
event-IsDurable :
    (s : Store) (es : List WalEvent) → IsDurable s → IsDurable (record s { events = es })
unfolding rows_of
event-IsDurable s es h = record { coherent = h.coherent; readable = h.readable }

pub next_row-IsReadable :
    (r : Row) (status : Status) (d : ℕ) (error : Option String) (now : ℕ)
    → 0 < now
    → IsReadable r
    → IsReadable (next_row r status d error now)
unfolding parse_row next_row
next_row-IsReadable r status d error now pos ok = ground arith

transition_found-IsDurable :
    (o : Option Row) (status : Status) (d : ℕ) (error : Option String) (now : ℕ) (s : Store)
    (k : String)
    → Dict.get k (rows_of s) ≡ o
    → 0 < now
    → IsDurable s
    → IsDurable (transition_found o status d error now s).0
unfolding transition_found
transition_found-IsDurable none status d error now s k e pos h = h
transition_found-IsDurable (some r) status d error now s k e pos h =
    if_cases {A = Store × Option Row} (λ x. IsDurable x.0)
      (is_terminal r.status && not (same_status status r.status)) (λ _. h)
      (λ _. event-IsDurable (append_record (next_row r status d error now) s) _ (
        append_record-IsDurable (next_row r status d error now) s
          (next_row-IsReadable r status d error now pos
            (All-get IsReadable k (rows_of s) r h.readable e))
          h))

pub transition_status-IsDurable :
    (k : String) (status : Status) (d : ℕ) (error : Option String) (now : ℕ) (s : Store)
    → 0 < now
    → IsDurable s
    → IsDurable (transition_status k status d error now s).0
unfolding transition_status sync_cache
transition_status-IsDurable k status d error now s pos h =
    if_cases {A = Store × Option Row} (λ x. IsDurable x.0) s.config.enabled
      (λ _.
        transition_found-IsDurable _ status d error now (sync_cache s) k refl pos
          (sync_cache-IsDurable s h))
      (λ _. h)

write_pending-IsDurable :
    (r : Row) (s : Store) → IsReadable r → IsDurable s → IsDurable (write_pending r s).0
unfolding write_pending
write_pending-IsDurable r s ok h =
    event-IsDurable (if s.config.enabled then append_record r s else s) _
      (if_cases IsDurable s.config.enabled (λ _. append_record-IsDurable r s ok h) (λ _. h))

append_unless-IsDurable :
    (o : Option Row) (r : Row) (now later : ℕ) (s : Store)
    → IsReadable r
    → 0 < later
    → IsDurable s
    → IsDurable (append_unless o r now later s).0
unfolding append_unless mark_expired
append_unless-IsDurable none r now later s ok pos h = write_pending-IsDurable r s ok h
append_unless-IsDurable (some old) r now later s ok pos h =
    if_cases {A = Store × Row} (λ x. IsDurable x.0) (is_expired s.config old now)
      (λ _.
        write_pending-IsDurable r _ ok
          (transition_status-IsDurable old.wal_id expired 0 none later s pos h))
      (λ _. h)

append_with_key-IsDurable :
    (key : Option String) (r : Row) (now later : ℕ) (s : Store)
    → IsReadable r
    → 0 < later
    → IsDurable s
    → IsDurable (append_with_key key r now later s).0
unfolding append_with_key
append_with_key-IsDurable none r now later s ok pos h = write_pending-IsDurable r s ok h
append_with_key-IsDurable (some key) r now later s ok pos h =
    if_cases {A = Store × Row} (λ x. IsDurable x.0) s.config.enabled
      (λ _. append_unless-IsDurable _ r now later (sync_cache s) ok pos (sync_cache-IsDurable s h))
      (λ _. write_pending-IsDurable r s ok h)

-- What a new row needs to be read back: the texts of its envelope and its log id are not blank, the
-- clock is past 0, and its lifetime is at least a millisecond.
abbrev pub IsReadableInput : WalConfig → Envelope → Source → Option JsNumber → String → ℕ → Type 0
IsReadableInput c e source ttl_ms wal_id now =
    (is_turn_envelope e ≡ true)
    × (is_filled wal_id ≡ true)
    × (0 < now)
    × (0 < resolve_ttl_ms c source ttl_ms)

unknown_filled : is_filled "unknown" ≡ true
unfolding trim
unknown_filled = refl

filled_default :
    (s fallback : String)
    → is_filled s ≡ true
    → is_filled (or_else (normalize_optional (some s)) fallback) ≡ true
unfolding normalize_optional
filled_default s fallback h = ground (arith, trim_idem s)

pub pending_row-IsReadable :
    (c : WalConfig) (e : Envelope) (source : Source) (ttl_ms : Option JsNumber)
    (key : Option String) (turn_id wal_id : String) (now : ℕ)
    → IsReadableInput c e source ttl_ms wal_id now
    → IsReadable (pending_row c e source ttl_ms key turn_id wal_id now)
unfolding parse_row pending_row is_turn_envelope
pending_row-IsReadable c e source ttl_ms key turn_id wal_id now h = ground (
  arith,
  filled_default e.turn_id turn_id,
  filled_default e.session_id "unknown",
  filled_default e.channel_id "unknown",
  filled_default e.conversation_id "unknown",
)

All-consume : (d : Dict Row) (rs : List Row) → All IsReadable rs → consume d rs ≡ index_rows d rs
unfolding consume index_rows
All-consume d [] h = refl
All-consume d (r ∷ rs) h =
    ap (λ o. consume (keep_row o d) rs) h.0 ∙ All-consume (Dict.set r.wal_id r d) rs h.1

All-index_rows :
    (d : Dict Row) (rs : List Row)
    → All IsReadable rs
    → All IsReadable (Dict.values d)
    → All IsReadable (Dict.values (index_rows d rs))
unfolding index_rows
All-index_rows d [] h k = k
All-index_rows d (r ∷ rs) h k =
    All-index_rows (Dict.set r.wal_id r d) rs h.1 (All-set IsReadable r.wal_id d r k h.0)

pub compact-IsDurable : (now : ℕ) (s : Store) → IsDurable s → IsDurable (compact now s).0
unfolding compact rows_of Dict.values
compact-IsDurable now s h =
    if_cases {A = Store × CompactResult} (λ x. IsDurable x.0) s.config.enabled
      (λ _. record {
        coherent = sym (All-consume [] kept kept_readable);
        readable = All-index_rows [] kept kept_readable tt;
      })
      (λ _. h)
  where
    kept : List Row
    kept = keep (is_retained s.config now) (by_age (Dict.values (rows_of s)))

    kept_readable : All IsReadable kept
    kept_readable =
        All-keep IsReadable (is_retained s.config now) (by_age (Dict.values (rows_of s)))
          (All-sort _ IsReadable (Dict.values (rows_of s)) h.readable)

-- A call that writes only what can be read back.
abbrev pub IsReadableCall : WalConfig → Call → Type 0
IsReadableCall c (appends e source ttl_ms key turn_id wal_id now later) =
    IsReadableInput c e source ttl_ms wal_id now × (0 < later)
IsReadableCall c (marks_inflight wal_id now) = 0 < now
IsReadableCall c (marks_done wal_id now) = 0 < now
IsReadableCall c (marks_failed wal_id error now) = 0 < now
IsReadableCall c (marks_expired wal_id now) = 0 < now
IsReadableCall c _ = Unit

pub step-IsDurable :
    (s : Store) (call : Call) → IsReadableCall s.config call → IsDurable s → IsDurable (step s call)
unfolding step append_pending mark_inflight mark_done mark_failed mark_expired list_pending
    list_current
step-IsDurable s (appends e source ttl_ms key turn_id wal_id now later) ok h =
    append_with_key-IsDurable (normalize_optional key) _ now later s
      (pending_row-IsReadable s.config e source ttl_ms key turn_id wal_id now ok.0) ok.1 h
step-IsDurable s (marks_inflight wal_id now) ok h =
    transition_status-IsDurable wal_id inflight 1 none now s ok h
step-IsDurable s (marks_done wal_id now) ok h =
    transition_status-IsDurable wal_id done 0 none now s ok h
step-IsDurable s (marks_failed wal_id error now) ok h =
    transition_status-IsDurable wal_id failed 0 (normalize_optional error) now s ok h
step-IsDurable s (marks_expired wal_id now) ok h =
    transition_status-IsDurable wal_id expired 0 none now s ok h
step-IsDurable s lists_pending ok h =
    if_cases {A = Store × List Row} (λ x. IsDurable x.0) s.config.enabled
      (λ _. sync_cache-IsDurable s h) (λ _. h)
step-IsDurable s lists_current ok h =
    if_cases {A = Store × List Row} (λ x. IsDurable x.0) s.config.enabled
      (λ _. sync_cache-IsDurable s h) (λ _. h)
step-IsDurable s (compacts now) ok h = compact-IsDurable now s h
step-IsDurable s restarts ok h =
    unfold rows_of in
    record {
      coherent = refl;
      readable = subst (λ (d : Dict Row). All IsReadable (Dict.values d)) h.coherent h.readable;
    }
