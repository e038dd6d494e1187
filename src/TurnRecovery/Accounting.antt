-- ===== src/TurnRecovery/Accounting.antt =====
-- The counters of a recovery (packages/brewva-runtime/src/channels/turn-wal-recovery.ts).
use pi_roaster.Base.{
  ℕ, ◌+◌, ◌≡◌, refl, String, Bool, true, false, if◌then◌else◌, Option, none, some, List, [], ◌∷◌,
  leb, if_cases, arith,
}
use pi_roaster.Wal.Rows.{Source, channel, schedule, gateway, heartbeat, Row}
use pi_roaster.Wal.{WalConfig, list_pending, open_store, Store, is_expired}
use pi_roaster.TurnRecovery.{
  Counts, Summary, empty_summary, Outcome, row_retried, row_expired, row_failed, row_skipped,
  count_scanned, count_outcome, in_source, scan, count, settle_row, Handled, Options, after_handler,
  hand_over, recover_row, recover_rows, recover_scope, recover_scopes, recover,
}

-- Each row that was scanned was counted for one outcome.
abbrev pub Adds : Counts → Type 0
Adds c = c.scanned ≡ c.retried + c.expired + c.failed + c.skipped

-- A counter of the total is the sum of those of the sources.
abbrev pub SumsTo : Summary → (Counts → ℕ) → Type 0
SumsTo s f = f s.total ≡ f s.by_channel + f s.by_schedule + f s.by_gateway + f s.by_heartbeat

pub record IsBalanced (s : Summary) : Type 0 where
  pub total_adds : Adds s.total
  pub channel_adds : Adds s.by_channel
  pub schedule_adds : Adds s.by_schedule
  pub gateway_adds : Adds s.by_gateway
  pub heartbeat_adds : Adds s.by_heartbeat
  pub scanned_sums : SumsTo s (λ c. c.scanned)
  pub retried_sums : SumsTo s (λ c. c.retried)
  pub expired_sums : SumsTo s (λ c. c.expired)
  pub failed_sums : SumsTo s (λ c. c.failed)
  pub skipped_sums : SumsTo s (λ c. c.skipped)

-- The counter of scanned rows, in the total or of one source.
pub data Group : Type 0 where
  in_all : Group
  of_source : Source → Group

abbrev pub scanned_in : Group → Summary → ℕ
scanned_in in_all s = s.total.scanned
scanned_in (of_source channel) s = s.by_channel.scanned
scanned_in (of_source schedule) s = s.by_schedule.scanned
scanned_in (of_source gateway) s = s.by_gateway.scanned
scanned_in (of_source heartbeat) s = s.by_heartbeat.scanned

-- 1 for a source that belongs to the group.
abbrev pub one_of : Group → Source → ℕ
one_of in_all source = 1
one_of (of_source channel) channel = 1
one_of (of_source schedule) schedule = 1
one_of (of_source gateway) gateway = 1
one_of (of_source heartbeat) heartbeat = 1
one_of (of_source s) source = 0

-- A row that is scanned and has come to an outcome.
count-IsBalanced :
    (source : Source) (o : Outcome) (s : Summary)
    → IsBalanced s
    → IsBalanced (count source o (scan source s))
unfolding in_source count_scanned count_outcome
count-IsBalanced source o s h = ground arith

count-scanned :
    (g : Group) (source : Source) (o : Outcome) (s : Summary)
    → scanned_in g (count source o (scan source s)) ≡ scanned_in g s + one_of g source
unfolding in_source count_scanned count_outcome
count-scanned g source o s = ground arith

-- What a row does to a summary that it balances: it is scanned once.
abbrev Counted : Source → Summary → Summary → Type 0
Counted source s s' =
    IsBalanced s' × ((g : Group) → scanned_in g s' ≡ scanned_in g s + one_of g source)

count-Counted :
    (source : Source) (o : Outcome) (s : Summary)
    → IsBalanced s
    → Counted source s (count source o (scan source s))
count-Counted source o s h = (count-IsBalanced source o s h, λ g. count-scanned g source o s)

recover_row-Counted :
    (o : Options) (at : ℕ) (row : Row) (store : Store) (s : Summary)
    → IsBalanced s
    → Counted row.source s (recover_row o at row store s).1
unfolding recover_row settle_row
recover_row-Counted o at row store s h =
    if_cases {A = Store × Summary} P (is_expired store.config row at)
      (λ _. count-Counted row.source row_expired s h)
      (λ _.
        if_cases {A = Store × Summary} P (leb o.max_retries row.attempts)
          (λ _. count-Counted row.source row_failed s h)
          (λ _. hand_over-Counted (o.handler row.source)))
  where
    P : Store × Summary → Type 0
    P r = Counted row.source s r.1

    after_handler-Counted :
        (thrown : Option String) (t : Store)
        → P (after_handler thrown (o.clock row) row t (scan row.source s))
    after_handler-Counted none t = count-Counted row.source row_retried s h
    after_handler-Counted (some message) t = count-Counted row.source row_failed s h

    hand_over-Counted :
        (handler : Option (Row → Store → Handled))
        → P (hand_over handler (o.clock row) row store (scan row.source s))
    hand_over-Counted none = count-Counted row.source row_skipped s h
    hand_over-Counted (some handler) = after_handler-Counted (handler row store).thrown _

-- The rows of a group, counted.
unfoldable pub rows_in : Group → List Row → ℕ
rows_in g [] = 0
rows_in g (row ∷ rows) = one_of g row.source + rows_in g rows

-- The rows of a group that are pending in the logs, before anything is recovered.
unfoldable pub pending_in : Group → WalConfig → List (List Row) → ℕ
unfolding rows_in
pending_in g wal [] = 0
pending_in g wal (file ∷ files) =
    rows_in g (list_pending (open_store wal file)).1 + pending_in g wal files

recover_rows-Counted :
    (o : Options) (at : ℕ) (rows : List Row) (store : Store) (s : Summary)
    → IsBalanced s
    → IsBalanced (recover_rows o at rows store s).1
      × ((g : Group)
          → scanned_in g (recover_rows o at rows store s).1 ≡ scanned_in g s + rows_in g rows)
unfolding recover_rows rows_in
recover_rows-Counted o at [] store s h = (h, λ g. omega arith)
recover_rows-Counted o at (row ∷ rows) store s h =
    let next = recover_row o at row store s in
    let row_counted = recover_row-Counted o at row store s h in
    let rest = recover_rows-Counted o at rows next.0 next.1 row_counted.0 in
    (rest.0, λ g. omega (arith, rest.1 g, row_counted.1 g))

compacted-IsBalanced :
    (s : Summary) (n : ℕ) → IsBalanced s → IsBalanced (record s { compacted = n })
compacted-IsBalanced s n h = ground arith

compacted-scanned :
    (g : Group) (s : Summary) (n : ℕ) → scanned_in g (record s { compacted = n }) ≡ scanned_in g s
compacted-scanned in_all s n = refl
compacted-scanned (of_source channel) s n = refl
compacted-scanned (of_source schedule) s n = refl
compacted-scanned (of_source gateway) s n = refl
compacted-scanned (of_source heartbeat) s n = refl

recover_scopes-Counted :
    (o : Options) (at : ℕ) (files : List (List Row)) (s : Summary)
    → IsBalanced s
    → IsBalanced (recover_scopes o at files s).1
      × ((g : Group)
          → scanned_in g (recover_scopes o at files s).1
            ≡ scanned_in g s + pending_in g o.wal files)
unfolding recover_scopes recover_scope pending_in
recover_scopes-Counted o at [] s h = (h, λ g. omega arith)
recover_scopes-Counted o at (file ∷ files) s h =
    let opened = list_pending (open_store o.wal file) in
    let rows = recover_rows-Counted o at opened.1 opened.0 s h in
    let scope = (recover_scope o at file s).1 in
    let rest = recover_scopes-Counted o at files scope (compacted-IsBalanced _ _ rows.0) in
    (
      rest.0,
      λ g. omega (
        arith,
        rest.1 g,
        rows.1 g,
        compacted-scanned g (recover_rows o at opened.1 opened.0 s).1 scope.compacted,
      ),
    )

empty-IsBalanced : (at : ℕ) → IsBalanced (empty_summary at)
empty-IsBalanced at = ground arith

empty-scanned : (g : Group) (at : ℕ) → scanned_in g (empty_summary at) ≡ 0
empty-scanned in_all at = refl
empty-scanned (of_source channel) at = refl
empty-scanned (of_source schedule) at = refl
empty-scanned (of_source gateway) at = refl
empty-scanned (of_source heartbeat) at = refl

-- The same, and nothing of a log that is not enabled.
abbrev pub to_scan : Group → WalConfig → List (List Row) → ℕ
to_scan g wal files = if wal.enabled then pending_in g wal files else 0

-- Whatever the handlers do, the summary of a recovery adds up: the rows that were scanned, in the
-- total and of each source, are those that were pending in the logs, or none where the log is not
-- enabled; each counter of the total is the sum of that of the four sources; and in each group the
-- scanned rows are those that were retried, expired, failed and skipped.
pub recover-IsBalanced :
    (o : Options) (at : ℕ) (files : List (List Row))
    → IsBalanced (recover o at files).1
      × ((g : Group) → scanned_in g (recover o at files).1 ≡ to_scan g o.wal files)
unfolding recover
recover-IsBalanced o at files =
    let all = recover_scopes-Counted o at files (empty_summary at) (empty-IsBalanced at) in
    let scopes = recover_scopes o at files (empty_summary at) in
    both o.wal.enabled scopes ([], empty_summary at) (λ g. pending_in g o.wal files) all.0
      (λ g. omega (arith, all.1 g, empty-scanned g at)) (empty-IsBalanced at)
      (λ g. empty-scanned g at)
  where
    both :
        (on : Bool) (x y : List Store × Summary) (n : Group → ℕ)
        → IsBalanced x.1
        → ((g : Group) → scanned_in g x.1 ≡ n g)
        → IsBalanced y.1
        → ((g : Group) → scanned_in g y.1 ≡ 0)
        → IsBalanced (if on then x else y).1
          × ((g : Group) → scanned_in g (if on then x else y).1 ≡ (if on then n g else 0))
    both true x y n hx nx hy ny = (hx, nx)
    both false x y n hx nx hy ny = (hy, ny)
