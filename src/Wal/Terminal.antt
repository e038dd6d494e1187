-- ===== src/Wal/Terminal.antt =====
-- The statuses of a row that end a turn (packages/brewva-runtime/src/channels/turn-wal.ts).
use mathlib.Core.Option
use pi_roaster.Base.{
  ℕ, ◌<◌, ◌≡◌, ◌≢◌, refl, ap, sym, ◌∙◌, subst, inl, inr, String, true, false, not, ◌&&◌, Option,
  none, some, List, [], ◌∷◌, ◌==◌, nat_eq, string_eq, if◌then◌else◌, if_cases, Option-cases,
  Bool-cases, arith, eq_iff,
}
use pi_roaster.Base.Dict
use pi_roaster.Base.Dict.{Dict, All-get}
use pi_roaster.Wal.Rows.{
  Status, pending, inflight, done, failed, expired, Row, is_terminal, same_status, consume,
  parse_row, keep_row,
}
use pi_roaster.Base.Text.{normalize_optional}
use pi_roaster.Wal.{
  WalEvent, Call, appends, marks_inflight, marks_done, marks_failed, marks_expired, lists_pending,
  lists_current, compacts, restarts, step, append_pending, pending_row, mark_inflight, mark_done,
  mark_failed, mark_expired, list_pending, list_current, write_pending, append_unless,
  append_with_key, is_expired, Store, rows_of, sync_cache, append_record, next_row,
  transition_found, transition_status,
}
use pi_roaster.Wal.Durable.{
  IsDurable, IsReadable, append_record-rows, next_row-IsReadable, sync_cache-IsDurable,
  transition_status-IsDurable, pending_row-IsReadable, IsReadableCall,
}

same_status_lem : (a b : Status) → same_status a b ≡ true → a ≡ b
same_status_lem pending b e = ground arith
same_status_lem inflight b e = ground arith
same_status_lem done b e = ground arith
same_status_lem failed b e = ground arith
same_status_lem expired b e = ground arith

-- A transition of a row that ended to another status is refused: the file, the rows and the events
-- stay as they are, and nothing is returned.
pub transition_refused :
    (r : Row) (k : String) (to : Status) (d : ℕ) (error : Option String) (now : ℕ) (s : Store)
    → Dict.get k (rows_of s) ≡ some r
    → is_terminal r.status ≡ true
    → to ≢ r.status
    → ((transition_status k to d error now s).1 ≡ none)
      × (rows_of (transition_status k to d error now s).0 ≡ rows_of s)
      × ((transition_status k to d error now s).0.file ≡ s.file)
      × ((transition_status k to d error now s).0.events ≡ s.events)
unfolding transition_status transition_found sync_cache rows_of
transition_refused r k to d error now s found ended other =
    ground (arith, found, ended, other, same_status_lem to r.status)

-- Every row stands under its own log id.
abbrev IsKeyed : Dict Row → Type 0
IsKeyed d = (k : String) (r : Row) → Dict.get k d ≡ some r → r.wal_id ≡ k

set-IsKeyed : (r : Row) (d : Dict Row) → IsKeyed d → IsKeyed (Dict.set r.wal_id r d)
set-IsKeyed r d h k q e = ground (arith, e, h k q, Dict.get-set r.wal_id k r d, eq_iff r.wal_id k)

keep_row-IsKeyed : (r : Row) (d : Dict Row) → IsKeyed d → IsKeyed (keep_row (parse_row r) d)
keep_row-IsKeyed r d h = elim (Option-cases (parse_row r)) [
  | inl e ↦ rw e h
  | inr (q, e) ↦ rw e (set-IsKeyed q d h)
]

consume-IsKeyed : (d : Dict Row) (rs : List Row) → IsKeyed d → IsKeyed (consume d rs)
unfolding consume
consume-IsKeyed d [] h = h
consume-IsKeyed d (r ∷ rs) h =
    consume-IsKeyed (keep_row (parse_row r) d) rs (keep_row-IsKeyed r d h)

durable-IsKeyed : (s : Store) → IsDurable s → IsKeyed (rows_of s)
unfolding Dict.get
durable-IsKeyed s h =
    subst IsKeyed (sym h.coherent) (consume-IsKeyed [] s.file (λ k r e. absurd (ground (arith, e))))

-- The status of the row with a log id, if there is one.
abbrev pub status : String → Store → Option Status
status k s = Option.map (λ (r : Row). r.status) (Dict.get k (rows_of s))

pub append_record-status :
    (r : Row) (k : String) (s : Store)
    → IsReadable r
    → IsDurable s
    → status k (append_record r s) ≡ (if r.wal_id == k then some r.status else status k s)
append_record-status r k s ok h =
    rw (append_record-rows r s ok h.coherent).0
      (rw (Dict.get-set r.wal_id k r (rows_of s)) (ground arith))

pub event-status :
    (k : String) (s : Store) (es : List WalEvent) → status k (record s { events = es }) ≡ status k s
unfolding rows_of
event-status k s es = refl

next_ended :
    (r : Row) (to : Status) (d : ℕ) (error : Option String) (now : ℕ) (s : Store) (k : String)
    (st : Status)
    → 0 < now
    → IsDurable s
    → Dict.get r.wal_id (rows_of s) ≡ some r
    → is_terminal r.status && not (same_status to r.status) ≡ false
    → is_terminal st ≡ true
    → status k s ≡ some st
    → status k (append_record (next_row r to d error now) s) ≡ some st
unfolding next_row
next_ended r to d error now s k st pos h found free ended c =
    append_record-status (next_row r to d error now) k s
      (next_row-IsReadable r to d error now pos
        (All-get IsReadable r.wal_id (rows_of s) r h.readable found))
      h
    ∙ (elim (Bool-cases (r.wal_id == k)) [
      | inl same ↦
          let at_k : Dict.get k (rows_of s) ≡ some r =
            subst (λ (i : String). Dict.get i (rows_of s) ≡ some r) ((eq_iff r.wal_id k).0 same)
              found in
          rw same (ground (arith, c, at_k, ended, free, same_status_lem to r.status))
      | inr other ↦ rw other c
    ])

-- A row that ended keeps its status through a transition, of whatever row to whatever status.
transition_found_ended :
    (o : Option Row) (id : String) (to : Status) (d : ℕ) (error : Option String) (now : ℕ)
    (s : Store) (k : String) (st : Status)
    → 0 < now
    → IsDurable s
    → Dict.get id (rows_of s) ≡ o
    → is_terminal st ≡ true
    → status k s ≡ some st
    → status k (transition_found o to d error now s).0 ≡ some st
unfolding transition_found
transition_found_ended none id to d error now s k st pos h found ended c = c
transition_found_ended (some r) id to d error now s k st pos h found ended c =
    if_cases {A = Store × Option Row} (λ x. status k x.0 ≡ some st)
      (is_terminal r.status && not (same_status to r.status)) (λ _. c)
      (λ free.
        event-status k (append_record (next_row r to d error now) s) _
        ∙ next_ended r to d error now s k st pos h
            (subst (λ (i : String). Dict.get i (rows_of s) ≡ some r)
              (sym (durable-IsKeyed s h id r found)) found)
            free ended c)

transition_ended :
    (id : String) (to : Status) (d : ℕ) (error : Option String) (now : ℕ) (s : Store) (k : String)
    (st : Status)
    → 0 < now
    → IsDurable s
    → is_terminal st ≡ true
    → status k s ≡ some st
    → status k (transition_status id to d error now s).0 ≡ some st
unfolding transition_status sync_cache
transition_ended id to d error now s k st pos h ended c =
    if_cases {A = Store × Option Row} (λ x. status k x.0 ≡ some st) s.config.enabled
      (λ _.
        transition_found_ended _ id to d error now (sync_cache s) k st pos
          (sync_cache-IsDurable s h) refl ended c)
      (λ _. c)

write_pending_ended :
    (r : Row) (s : Store) (k : String) (st : Status)
    → IsReadable r
    → IsDurable s
    → r.wal_id ≢ k
    → status k s ≡ some st
    → status k (write_pending r s).0 ≡ some st
unfolding write_pending
write_pending_ended r s k st ok h ne c =
    event-status k (if s.config.enabled then append_record r s else s) _
    ∙ if_cases {A = Store} (λ x. status k x ≡ some st) s.config.enabled
        (λ _. append_record-status r k s ok h ∙ ground (arith, c, ne, eq_iff r.wal_id k)) (λ _. c)

append_unless_ended :
    (o : Option Row) (r : Row) (now later : ℕ) (s : Store) (k : String) (st : Status)
    → IsReadable r
    → 0 < later
    → IsDurable s
    → r.wal_id ≢ k
    → is_terminal st ≡ true
    → status k s ≡ some st
    → status k (append_unless o r now later s).0 ≡ some st
unfolding append_unless mark_expired
append_unless_ended none r now later s k st ok pos h ne ended c =
    write_pending_ended r s k st ok h ne c
append_unless_ended (some old) r now later s k st ok pos h ne ended c =
    if_cases {A = Store × Row} (λ x. status k x.0 ≡ some st) (is_expired s.config old now)
      (λ _.
        write_pending_ended r _ k st ok
          (transition_status-IsDurable old.wal_id expired 0 none later s pos h) ne
          (transition_ended old.wal_id expired 0 none later s k st pos h ended c))
      (λ _. c)

append_with_key_ended :
    (key : Option String) (r : Row) (now later : ℕ) (s : Store) (k : String) (st : Status)
    → IsReadable r
    → 0 < later
    → IsDurable s
    → r.wal_id ≢ k
    → is_terminal st ≡ true
    → status k s ≡ some st
    → status k (append_with_key key r now later s).0 ≡ some st
unfolding append_with_key sync_cache
append_with_key_ended none r now later s k st ok pos h ne ended c =
    write_pending_ended r s k st ok h ne c
append_with_key_ended (some key) r now later s k st ok pos h ne ended c =
    if_cases {A = Store × Row} (λ x. status k x.0 ≡ some st) s.config.enabled
      (λ _.
        append_unless_ended _ r now later (sync_cache s) k st ok pos (sync_cache-IsDurable s h) ne
          ended c)
      (λ _. write_pending_ended r s k st ok h ne c)

-- A call other than a compaction, with a log id that no row has for a new row.
abbrev pub IsPlain : Store → Call → Type 0
IsPlain s (appends e source ttl_ms key turn_id wal_id now later) =
    Dict.get wal_id (rows_of s) ≡ none
IsPlain s (compacts now) = ⊥
IsPlain s _ = Unit

-- A row that ended keeps its status under every call but a compaction, which may drop it, restarts
-- included, on a store whose rows are those of its file, provided that the call writes what can be
-- read back and that a new row's log id is new.
pub step_ended :
    (s : Store) (call : Call) (k : String) (st : Status)
    → IsReadableCall s.config call
    → IsPlain s call
    → IsDurable s
    → is_terminal st ≡ true
    → status k s ≡ some st
    → status k (step s call) ≡ some st
unfolding step append_pending pending_row mark_inflight mark_done mark_failed mark_expired
    list_pending list_current
step_ended s (appends e source ttl_ms key turn_id wal_id now later) k st ok plain h ended c =
    append_with_key_ended (normalize_optional key) _ now later s k st
      (pending_row-IsReadable s.config e source ttl_ms key turn_id wal_id now ok.0) ok.1 h
      (λ same. ground (arith, plain, c, ap (λ (i : String). status i s) same)) ended c
step_ended s (marks_inflight wal_id now) k st ok plain h ended c =
    transition_ended wal_id inflight 1 none now s k st ok h ended c
step_ended s (marks_done wal_id now) k st ok plain h ended c =
    transition_ended wal_id done 0 none now s k st ok h ended c
step_ended s (marks_failed wal_id error now) k st ok plain h ended c =
    transition_ended wal_id failed 0 (normalize_optional error) now s k st ok h ended c
step_ended s (marks_expired wal_id now) k st ok plain h ended c =
    transition_ended wal_id expired 0 none now s k st ok h ended c
step_ended s lists_pending k st ok plain h ended c =
    if_cases {A = Store × List Row} (λ x. status k x.0 ≡ some st) s.config.enabled
      (λ _. unfold sync_cache in c) (λ _. c)
step_ended s lists_current k st ok plain h ended c =
    if_cases {A = Store × List Row} (λ x. status k x.0 ≡ some st) s.config.enabled
      (λ _. unfold sync_cache in c) (λ _. c)
step_ended s (compacts now) k st ok plain h ended c = absurd plain
step_ended s restarts k st ok plain h ended c =
    unfold rows_of in
    ap (λ (d : Dict Row). Option.map (λ (r : Row). r.status) (Dict.get k d)) (sym h.coherent) ∙ c
