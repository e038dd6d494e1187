-- ===== src/Wal/Recovery.antt =====
-- A store whose process restarts (packages/brewva-runtime/src/channels/turn-wal.ts).
use pi_roaster.Base.{
  ℕ, ◌≡◌, refl, ap, sym, ◌∙◌, subst, inl, inr, String, true, none, some, List, [], ◌∷◌, nat_eq,
  string_eq, Option-cases, All, arith,
}
use pi_roaster.Base.Dict
use pi_roaster.Base.Dict.{Dict, All-get, All-set}
use pi_roaster.Base.Numeric.{whole}
use pi_roaster.Base.Text.{normalize_optional}
use pi_roaster.Wal.Rows.{Source, Envelope, Row, consume, parse_row, keep_row}
use pi_roaster.Wal.{
  WalConfig, Store, rows_of, append_record, resolve_ttl_ms, pending_row, write_pending,
  append_with_key, append_pending, Call, restarts, step, run_calls, open_store,
}
use pi_roaster.Wal.Durable.{IsReadable, IsDurable, IsReadableCall, step-IsDurable, consume-append}

keep_row-IsReadable :
    (r : Row) (d : Dict Row)
    → All IsReadable (Dict.values d)
    → All IsReadable (Dict.values (keep_row (parse_row r) d))
keep_row-IsReadable r d h = elim (Option-cases (parse_row r)) [
  | inl e ↦ rw e h
  | inr (q, e) ↦
      let same : q ≡ r = unfold parse_row in ground (arith, e) in
      rw e (All-set IsReadable q.wal_id d q h (subst IsReadable (sym same) (e ∙ ap some same)))
]

consume-IsReadable :
    (d : Dict Row) (rs : List Row)
    → All IsReadable (Dict.values d)
    → All IsReadable (Dict.values (consume d rs))
unfolding consume
consume-IsReadable d [] h = h
consume-IsReadable d (r ∷ rs) h =
    consume-IsReadable (keep_row (parse_row r) d) rs (keep_row-IsReadable r d h)

-- A store that was just opened knows what its file says, whatever that holds.
pub open_store-IsDurable : (c : WalConfig) (file : List Row) → IsDurable (open_store c file)
unfolding open_store rows_of Dict.values
open_store-IsDurable c file = record { coherent = refl; readable = consume-IsReadable [] file tt }

-- Along a run, every call writes only what can be read back.
abbrev pub AllReadable : Store → List Call → Type 0
AllReadable s [] = Unit
AllReadable s (c ∷ cs) = IsReadableCall s.config c × AllReadable (step s c) cs

pub run-IsDurable :
    (s : Store) (cs : List Call) → AllReadable s cs → IsDurable s → IsDurable (run_calls s cs)
unfolding run_calls
run-IsDurable s [] ok h = h
run-IsDurable s (c ∷ cs) ok h = run-IsDurable (step s c) cs ok.1 (step-IsDurable s c ok.0 h)

-- After any calls on a store that was opened on any file, compactions and restarts included, a
-- restart reads back from the file exactly the rows that the process knew, in the same order,
-- provided that every appended envelope, id, time and lifetime is one that the reader accepts.
pub restart_recovers :
    (c : WalConfig) (file : List Row) (cs : List Call)
    → AllReadable (open_store c file) cs
    → rows_of (step (run_calls (open_store c file) cs) restarts)
      ≡ rows_of (run_calls (open_store c file) cs)
unfolding step rows_of
restart_recovers c file cs ok =
    sym (run-IsDurable (open_store c file) cs ok (open_store-IsDurable c file)).coherent

-- A row that the reader refuses is not among the rows after a restart.
unreadable_lost :
    (r : Row) (s : Store)
    → parse_row r ≡ none
    → s.config.enabled ≡ true
    → IsDurable s
    → rows_of (step (write_pending r s).0 restarts) ≡ rows_of s
unfolding step write_pending append_record rows_of
unreadable_lost r s bad on h =
    rw on
      (consume-append [] s.file r ∙ ap (λ o. keep_row o (consume [] s.file)) bad ∙ sym h.coherent)

short_ttl-IsRefused :
    (c : WalConfig) (e : Envelope) (source : Source) (turn_id wal_id : String) (now : ℕ)
    → parse_row (pending_row c e source (some (whole 0 true)) none turn_id wal_id now) ≡ none
unfolding parse_row pending_row resolve_ttl_ms
short_ttl-IsRefused c e source turn_id wal_id now = ground arith

-- A lifetime above 0 and below a millisecond is rounded down to 0, which the reader refuses: the
-- row that such an append without a key writes to an enabled store is gone after a restart.
pub short_ttl_lost :
    (e : Envelope) (source : Source) (turn_id wal_id : String) (now later : ℕ) (s : Store)
    → s.config.enabled ≡ true
    → IsDurable s
    → rows_of (
        step
          (append_pending e source (some (whole 0 true)) none turn_id wal_id now later s).0
          restarts)
      ≡ rows_of s
unfolding append_pending append_with_key normalize_optional
short_ttl_lost e source turn_id wal_id now later s on h =
    unreadable_lost _ s (short_ttl-IsRefused s.config e source turn_id wal_id now) on h
