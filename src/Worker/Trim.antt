-- ===== src/Worker/Trim.antt =====
-- worker.ts: the hourly reservation and the retention of reply records.
pub mod Laws
pub mod Retention
use lucky_tag.Common.{
  ℕ, ◌+◌, ◌-◌, Bool, true, false, not, ◌&&◌, ◌||◌, none, some, List, ◌++◌, leb, filter, length,
  take,
}
use lucky_tag.Common.Sort.{sort}
use lucky_tag.Contracts.{ReplyRecord, sent, sending}
use lucky_tag.Host.{Host, locale_le}
use lucky_tag.Worker.Status.{is_terminal, status_eq}

abbrev pub terminal_reply_retention : ℕ
terminal_reply_retention = 5000

abbrev pub hourly_rate_limit_window_ms : ℕ
hourly_rate_limit_window_ms = 3600000

module _ (h : Host) where
  -- `updatedAt >= now - window`, with the window moved to the other side; NaN counts as recent.
  unfoldable pub reserves_hourly_reply_capacity : ℕ → ReplyRecord → Bool
  reserves_hourly_reply_capacity now reply =
      (status_eq reply.status sent || status_eq reply.status sending)
      && (elim (h.parse_date reply.updated_at) [
        | none ↦ true
        | some updated_at ↦ leb now (updated_at + hourly_rate_limit_window_ms)
      ])

  -- `right.updatedAt.localeCompare(left.updatedAt) <= 0`
  abbrev pub newest_first : ReplyRecord → ReplyRecord → Bool
  newest_first left right = locale_le h right.updated_at left.updated_at

  -- The three lists that the loop of `trimReplies` fills.
  abbrev pub is_unfinished : ReplyRecord → Bool
  is_unfinished reply = not (is_terminal reply.status)

  abbrev pub is_protected : ℕ → ReplyRecord → Bool
  is_protected now reply = is_terminal reply.status && reserves_hourly_reply_capacity now reply

  abbrev pub is_evictable : ℕ → ReplyRecord → Bool
  is_evictable now reply =
      is_terminal reply.status && not (reserves_hourly_reply_capacity now reply)

  abbrev pub retained_terminal : ℕ → List ReplyRecord → List ReplyRecord
  retained_terminal now replies =
      take (terminal_reply_retention - length (filter (is_protected now) replies))
        (sort newest_first (filter (is_evictable now) replies))

  unfoldable pub trim_replies : List ReplyRecord → ℕ → List ReplyRecord
  trim_replies replies now = sort newest_first (
      filter is_unfinished replies
      ++ (filter (is_protected now) replies ++ retained_terminal now replies))
