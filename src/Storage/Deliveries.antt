-- ===== src/Storage/Deliveries.antt =====
-- main/core/sqlite-storage.ts: `SqliteOutbox`. A record here has passed `isPersistedReplyRecord`, and so
-- does what is made of it.
pub mod Acknowledged
use lucky_tag.Act.{and_then, throw, ◌>>=◌, ◌>>◌, pure}
use lucky_tag.Common.{ℕ, Bool, true, false, ◌||◌, Option, none, some, ltb, if◌then◌else◌}
use lucky_tag.Contracts.{ReplyRecord, ReplyStatus}
use lucky_tag.Storage.Database.{
  Db, Platform, Session, Payload, transaction, timestamp, append_event, on_outbox,
}
use lucky_tag.Storage.Outbox.{Json, parse_outbox_record}
use lucky_tag.Storage.Table.{
  Row, Table, row_of, row_at, delete_row, upsert_row, next_position, count_rows,
}
use lucky_tag.Text.{Text, lit, is_empty, trim}
use lucky_tag.Worker.Effects.{Result, ok, err}
use lucky_tag.Worker.Records.{or_else}
use lucky_tag.Worker.Status.{is_terminal, status_eq}

pub record OutboxAcknowledgement : Type 0 where
  pub id : Text
  pub status : ReplyStatus
  pub updated_at : Text
  pub reason : Option Text
  pub platform_task_id : Option Text

unfoldable pub already_acknowledged : Text
already_acknowledged = lit "OUTBOX_ALREADY_ACKNOWLEDGED"

unfoldable pub invalid_acknowledgement : Text
invalid_acknowledgement = lit "INVALID_OUTBOX_ACK"

-- The record without its lease, with what the acknowledgement gives.
unfoldable pub acknowledged : OutboxAcknowledgement → ReplyRecord → ReplyRecord
acknowledged input r = record r {
  lease_expires_at = none;
  status = input.status;
  updated_at = input.updated_at;
  reason = or_else input.reason r.reason;
  platform_task_id = or_else input.platform_task_id r.platform_task_id;
}

module _ (j : Json) where
  -- What becomes of a record that stands at a position; `true` says that it was written.
  unfoldable pub settle_record :
      OutboxAcknowledgement → ℕ → Table → ReplyRecord → Result (Table × (ReplyRecord × Bool))
  unfolding acknowledged
  settle_record input position rows current =
      if is_terminal current.status
      then (if status_eq current.status input.status
          then ok (rows, (current, false))
          else err already_acknowledged)
      else (let next = acknowledged input current in
          and_then (upsert_row (row_of next position (j.stringify_record next)) rows)
            (λ rows'. ok (rows', (next, true))))

  abbrev settle_found :
      OutboxAcknowledgement → Table → Option Row → Result (Table × Option (ReplyRecord × Bool))
  settle_found input rows none = ok (rows, none)
  settle_found input rows (some row) = and_then (parse_outbox_record j row.payload_json) (λ current.
      and_then (settle_record input row.position rows current) (λ done. ok (done.0, some done.1)))

  -- The statements of `acknowledge`
  unfoldable pub acknowledge_rows :
      OutboxAcknowledgement → Table → Result (Table × Option (ReplyRecord × Bool))
  unfolding settle_record
  acknowledge_rows input rows = settle_found input rows (row_at input.id rows)

  abbrev position_for : Option Row → Table → ℕ
  position_for none rows = next_position rows
  position_for (some row) rows = row.position

  -- The statements of `upsert`
  unfoldable pub upsert_record : ReplyRecord → Table → Result (Table × Unit {0})
  unfolding next_position upsert_row
  upsert_record r rows =
      and_then
        (upsert_row (row_of r (position_for (row_at r.id rows) rows) (j.stringify_record r)) rows)
        (λ rows'. ok (rows', tt))

  abbrev parsed_row : Option Row → Result (Option ReplyRecord)
  parsed_row none = ok none
  parsed_row (some row) = and_then (parse_outbox_record j row.payload_json) (λ r. ok (some r))

  -- `get(id)`
  unfoldable pub get_record : Text → Table → Result (Option ReplyRecord)
  get_record id rows = parsed_row (row_at id rows)

module _ (p : Platform) where
  unfoldable pub append_outbox_event : Text → Payload → Db ℕ
  unfolding timestamp append_event
  append_outbox_event event_type payload = do
    at ← timestamp p
    append_event (lit "outbox") event_type payload at

  abbrev record_acknowledgement : Option (ReplyRecord × Bool) → Db (Option ReplyRecord)
  record_acknowledgement none = pure none
  record_acknowledgement (some (r, false)) = pure (some r)
  record_acknowledgement (some (r, true)) = do
    append_outbox_event (lit "outbox.acknowledged") (Payload.record_status r.id r.status)
    pure (some r)

  -- `acknowledge(input)`
  unfoldable pub acknowledge : OutboxAcknowledgement → Db (Option ReplyRecord)
  unfolding append_outbox_event acknowledge_rows on_outbox
  acknowledge input =
      if is_empty (trim input.id) || is_empty (trim input.updated_at)
      then throw invalid_acknowledgement
      else transaction p (on_outbox (acknowledge_rows p.json input) >>= record_acknowledgement)

  -- `upsert(record)`
  unfoldable pub upsert : ReplyRecord → Db ℕ
  unfolding append_outbox_event upsert_record on_outbox
  upsert r = transaction p (do
    on_outbox (upsert_record p.json r)
    append_outbox_event (lit "outbox.upserted") (Payload.record_status r.id r.status))

  -- The number of rows deleted
  unfoldable pub delete_record : Text → Table → Result (Table × ℕ)
  delete_record id rows = ok (delete_row id rows, count_rows id rows)

  abbrev record_removal : Text → Bool → Db Bool
  record_removal id false = pure false
  record_removal id true =
      append_outbox_event (lit "outbox.removed") (Payload.record_removed id) >> pure true

  -- `remove(id)`
  unfoldable pub remove : Text → Db Bool
  unfolding append_outbox_event delete_record on_outbox
  remove id =
      transaction p (on_outbox (delete_record id) >>= λ changes. record_removal id (ltb 0 changes))
