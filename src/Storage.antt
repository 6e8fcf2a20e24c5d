-- ===== src/Storage.antt =====
-- main/core/sqlite-storage.ts: how the replies of the state document and those of the outbox table
-- become one list. A record here has passed `isPersistedReplyRecord`.
pub mod Conflict
pub mod Deliveries
pub mod Merge
pub mod Database
pub mod Outbox
pub mod Sample
pub mod State
pub mod Table
mod Tests
use lucky_tag.Common.{
  ℕ, Bool, true, false, not, Option, none, some, List, [], ◌∷◌, compare, Ordering, max, ltb,
  if◌then◌else◌,
}
use lucky_tag.Contracts.{ReplyStatus, pending, sending, sent, ReplyRecord}
use lucky_tag.Host.{Host}
use lucky_tag.Text.{Text, text_eq, truthy}
use lucky_tag.Worker.Records.{or_else}
use lucky_tag.Worker.Status.{status_eq}

unfoldable pub reply_status_safety : ReplyStatus → ℕ
reply_status_safety sent = 4
reply_status_safety sending = 2
reply_status_safety pending = 1
reply_status_safety _ = 3

module _ (h : Host) where
  -- The sign of `compareTimestamps`: dates if both parse, else the collation of the texts.
  unfoldable pub compare_timestamps : Text → Text → Ordering
  compare_timestamps left right = elim (h.parse_date left) [
    | none ↦ h.locale_compare left right
    | some t ↦ elim (h.parse_date right) [
      | none ↦ h.locale_compare left right
      | some u ↦ compare t u
    ]
  ]

  abbrev pub is_later : Text → Text → Bool
  is_later left right = elim (compare_timestamps left right) [ Ordering.gt ↦ true | _ ↦ false ]

  abbrev pub is_earlier : Text → Text → Bool
  is_earlier left right = elim (compare_timestamps left right) [ Ordering.lt ↦ true | _ ↦ false ]

  -- `winner === documentRecord`
  unfoldable pub document_wins : ReplyRecord → ReplyRecord → Bool
  document_wins document_record outbox_record =
      if ltb (reply_status_safety outbox_record.status) (reply_status_safety document_record.status)
      then true
      else (if ltb (reply_status_safety document_record.status)
            (reply_status_safety outbox_record.status)
          then false
          else is_later document_record.updated_at outbox_record.updated_at)

  -- The winner, with what both sides give; `delete` drops the lease unless the status is `sending`.
  unfoldable pub merged_with : ReplyRecord → ReplyRecord → ReplyRecord → ReplyRecord → ReplyRecord
  merged_with document_record outbox_record winner loser = record winner {
    created_at =
        if is_later document_record.created_at outbox_record.created_at
        then outbox_record.created_at
        else document_record.created_at;
    updated_at =
        if is_earlier document_record.updated_at outbox_record.updated_at
        then outbox_record.updated_at
        else document_record.updated_at;
    attempt_count = max document_record.attempt_count outbox_record.attempt_count;
    platform_task_id = elim (truthy winner.platform_task_id) [
      | some t ↦ winner.platform_task_id
      | none ↦ or_else (truthy loser.platform_task_id) winner.platform_task_id
    ];
    lease_expires_at = if status_eq winner.status sending then winner.lease_expires_at else none;
  }

  unfoldable pub merge_reply_conflict : ReplyRecord → ReplyRecord → ReplyRecord
  merge_reply_conflict document_record outbox_record =
      if document_wins document_record outbox_record
      then merged_with document_record outbox_record document_record outbox_record
      else merged_with document_record outbox_record outbox_record document_record

  -- `appendOrMerge`: the record with the same id is merged in place, a new one goes to the end.
  unfoldable pub append_or_merge : ReplyRecord → List ReplyRecord → List ReplyRecord
  append_or_merge r [] = r ∷ []
  append_or_merge r (m ∷ merged) =
      if text_eq m.id r.id then merge_reply_conflict m r ∷ merged else m ∷ append_or_merge r merged

  unfoldable pub merge_all : List ReplyRecord → List ReplyRecord → List ReplyRecord
  merge_all [] merged = merged
  merge_all (r ∷ rs) merged = merge_all rs (append_or_merge r merged)

  unfoldable pub merge_reply_records : List ReplyRecord → List ReplyRecord → List ReplyRecord
  merge_reply_records document_replies outbox_replies =
      merge_all outbox_replies (merge_all document_replies [])
