-- ===== src/Storage/Deliveries/Acknowledged.antt =====
-- What an acknowledgement does to the table.
use lucky_tag.Common.{
  ℕ, ◌≡◌, refl, true, false, none, some, ap, if◌then◌else◌, inl, inr, Bool-cases,
}
use lucky_tag.Contracts.{ReplyRecord}
use lucky_tag.Storage.Deliveries.{
  OutboxAcknowledgement, acknowledged, acknowledge_rows, settle_record, already_acknowledged,
}
use lucky_tag.Storage.Outbox.{Json, IsJson}
use lucky_tag.Storage.Outbox.Sync.{upsert_row-ok}
use lucky_tag.Storage.Table.{Row, Table, row_of, row_at, put_row, clashes, upsert_row}
use lucky_tag.Text.{Text, text_eq}
use lucky_tag.Text.Keyed.{find_key-put_entry, mem_of_find_key}
use lucky_tag.Worker.Effects.{ok, err}
use lucky_tag.Worker.Records.{or_else}
use lucky_tag.Worker.Status.{is_terminal, status_eq}
use mathlib.Core.List.{Memᴰ}

-- The table keeps `UNIQUE(group_id, message_id)`.
abbrev pub IsUnique : Table → Type 0
IsUnique rows = (a b : Row) → Memᴰ a rows → Memᴰ b rows → clashes a b ≡ false

-- What an acknowledgement makes of a record: its status and time, no lease, a reason and a task where they are
-- given, and nothing else.
pub record IsAcknowledged (input : OutboxAcknowledgement) (r next : ReplyRecord) : Type 0 where
  pub status : next.status ≡ input.status
  pub updated_at : next.updated_at ≡ input.updated_at
  pub unleased : next.lease_expires_at ≡ none
  pub reason : {x : Text} → input.reason ≡ some x → next.reason ≡ some x
  pub reason_kept : input.reason ≡ none → next.reason ≡ r.reason
  pub task : {x : Text} → input.platform_task_id ≡ some x → next.platform_task_id ≡ some x
  pub task_kept : input.platform_task_id ≡ none → next.platform_task_id ≡ r.platform_task_id
  pub others :
      record next {
        status = r.status;
        updated_at = r.updated_at;
        lease_expires_at = r.lease_expires_at;
        reason = r.reason;
        platform_task_id = r.platform_task_id;
      }
      ≡ r

acknowledged-IsAcknowledged :
    (input : OutboxAcknowledgement) (r : ReplyRecord)
    → IsAcknowledged input r (acknowledged input r)
unfolding acknowledged
acknowledged-IsAcknowledged input r = record {
  status = refl;
  updated_at = refl;
  unleased = refl;
  reason = λ e. ap (λ t. or_else t r.reason) e;
  reason_kept = λ e. ap (λ t. or_else t r.reason) e;
  task = λ e. ap (λ t. or_else t r.platform_task_id) e;
  task_kept = λ e. ap (λ t. or_else t r.platform_task_id) e;
  others = refl;
}

module _ (j : Json) (laws : IsJson j) (input : OutboxAcknowledgement) (rows : Table)
    (unique : IsUnique rows) (r : ReplyRecord) (k : ℕ)
    (found : row_at input.id rows ≡ some (row_of r k (j.stringify_record r))) where
  abbrev next_row : Row
  next_row = row_of (acknowledged input r) k (j.stringify_record (acknowledged input r))

  fits : upsert_row next_row rows ≡ ok (put_row next_row rows)
  fits =
      let (stored, _) = mem_of_find_key (λ t. t.id) input.id rows found in
      upsert_row-ok next_row rows (λ x m. unfold clashes row_of acknowledged in unique _ x stored m)

  -- Of a stored record, where JSON texts parse back and no two rows have one message: if it is
  -- finished, an acknowledgement changes nothing, and it returns the record if the status is the same and
  -- is refused otherwise; if it is not, the record with the acknowledged status and time, the given reason and
  -- task, without a lease and otherwise as it was, is returned and takes the row of its id, at its position, and every other id keeps its row.
  pub acknowledge_rows-cases :
      (is_terminal r.status ≡ true
        → acknowledge_rows j input rows ≡ (
            if status_eq r.status input.status
            then ok (rows, some (r, false))
            else err already_acknowledged))
      × (is_terminal r.status ≡ false
          → (rows' : Table) × (next : ReplyRecord) × (acknowledge_rows j input rows
              ≡ ok (rows', some (next, true)))
            × IsAcknowledged input r next
            × ((id : Text)
                → row_at id rows' ≡ (
                    if text_eq r.id id
                    then some (row_of next k (j.stringify_record next))
                    else row_at id rows)))
  unfolding acknowledge_rows settle_record
  acknowledge_rows-cases = (
    λ finished. rw found (
        unfold row_of in
        rw (laws.record_lem r) (
          rw finished (elim (Bool-cases (status_eq r.status input.status)) [
            | inl e ↦ rw e refl
            | inr e ↦ rw e refl
          ]))),
    λ open'. (
      put_row next_row rows,
      acknowledged input r,
      rw found (unfold row_of in rw (laws.record_lem r) (rw open' (rw fits refl))),
      acknowledged-IsAcknowledged input r,
      λ id. unfold row_of acknowledged in find_key-put_entry (λ t. t.id) id next_row rows,
    ),
  )
