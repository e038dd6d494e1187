-- ===== src/Wal/Rows.antt =====
-- The rows of the turn log, and which of them `parseTurnWALRecord` reads back
-- (packages/brewva-runtime/src/channels/turn-wal.ts, packages/brewva-runtime/src/types.ts).
use pi_roaster.Base.{
  ℕ, String, Bool, true, false, not, ◌&&◌, ◌||◌, Option, none, some, List, [], ◌∷◌, ltb, ◌==◌,
  nat_eq, string_eq, if◌then◌else◌,
}
use pi_roaster.Base.Dict
use pi_roaster.Base.Dict.{Dict}
use pi_roaster.Base.Text.{trim}

pub data Status : Type 0 where
  pending inflight done failed expired : Status

pub data Source : Type 0 where
  channel schedule gateway heartbeat : Source

-- `TurnEnvelope`: what the log reads of it, and the parts as one text.
pub record Envelope : Type 0 where
  pub session_id : String
  pub turn_id : String
  pub channel_id : String
  pub conversation_id : String
  pub parts : String

-- `TurnWALRecord`.
pub record Row : Type 0 where
  pub wal_id : String
  pub turn_id : String
  pub session_id : String
  pub channel_id : String
  pub conversation_id : String
  pub status : Status
  pub envelope : Envelope
  pub created_at : ℕ
  pub updated_at : ℕ
  pub attempts : ℕ
  pub source : Source
  pub error : Option String
  pub ttl_ms : Option ℕ
  pub dedupe_key : Option String

-- `TERMINAL_STATUSES.has` and `RECOVERABLE_STATUSES.has`.
abbrev pub is_terminal : Status → Bool
is_terminal pending = false
is_terminal inflight = false
is_terminal done = true
is_terminal failed = true
is_terminal expired = true

abbrev pub is_recoverable : Status → Bool
is_recoverable pending = true
is_recoverable inflight = true
is_recoverable done = false
is_recoverable failed = false
is_recoverable expired = false

abbrev pub same_status : Status → Status → Bool
same_status pending pending = true
same_status inflight inflight = true
same_status done done = true
same_status failed failed = true
same_status expired expired = true
same_status _ _ = false

-- `value.trim()` is truthy.
abbrev pub is_filled : String → Bool
is_filled s = not (trim s == "")

-- `isTurnEnvelope` on an object with fields of the right types.
unfoldable pub is_turn_envelope : Envelope → Bool
is_turn_envelope e =
    is_filled e.session_id
    && is_filled e.turn_id
    && is_filled e.channel_id
    && is_filled e.conversation_id

abbrev pub is_positive_ttl : Option ℕ → Bool
is_positive_ttl none = true
is_positive_ttl (some t) = ltb 0 t

-- `parseTurnWALRecord` on the line of a row: the row, or nothing.
unfoldable pub parse_row : Row → Option Row
parse_row r =
    if is_filled r.wal_id
      && is_filled r.turn_id
      && is_filled r.session_id
      && is_filled r.channel_id
      && is_filled r.conversation_id
      && is_turn_envelope r.envelope
      && ltb 0 r.created_at
      && ltb 0 r.updated_at
      && is_positive_ttl r.ttl_ms
    then some r
    else none

abbrev pub keep_row : Option Row → Dict Row → Dict Row
keep_row none rows = rows
keep_row (some r) rows = Dict.set r.wal_id r rows

-- The loop of `consumeChunk` over whole lines: a later row of a log id replaces an earlier one.
unfoldable pub consume : Dict Row → List Row → Dict Row
consume rows [] = rows
consume rows (r ∷ rs) = consume (keep_row (parse_row r) rows) rs

-- `compareByCreatedAt(left, right) < 0`.
unfoldable pub is_older : Row → Row → Bool
is_older left right =
    ltb left.created_at right.created_at
    || left.created_at == right.created_at && ltb left.updated_at right.updated_at
