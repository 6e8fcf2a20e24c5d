-- ===== src/Worker/Run/Passes.antt =====
-- worker.ts: recovery of unfinished records, follow-up windows, and the counters of a run.
use lucky_tag.Common.{
  ℕ, ◌+◌, ◌*◌, Bool, true, false, not, ◌&&◌, ◌||◌, Option, none, some, List, [], ◌∷◌, ◌++◌, head?,
  filter, take, leb, if◌then◌else◌,
}
use lucky_tag.Common.Sort.{sort}
use lucky_tag.Contracts.{
  ReplyStatus, pending, sending, sent, dry_run, ignored, needs_manual, recalled, failed, AppConfig,
  AllowlistedGroup, DemoMessageMessage, ReplyRecord,
}
use lucky_tag.Host.{locale_le, epoch}
use lucky_tag.Text.{Text, lit, text_eq, member, trim, truthy, is_empty}
use lucky_tag.Worker.Effects.{
  ok, Counters, M, Options, pure, ◌>>=◌, ◌>>◌, now, read_state, list_conversation_messages,
}
use lucky_tag.Worker.Fetch.{oldest_first}
use lucky_tag.Worker.Process.{process_record}
use lucky_tag.Worker.Process.Guards.{later_than, because}
use lucky_tag.Worker.Status.{status_eq}
use lucky_tag.Worker.Store.{set_status, close_follow_up_window, ensure_pending_record}
use lucky_tag.Worker.Trim.{newest_first}

unfoldable pub bump : (Counters → Counters) → M (Unit {0})
bump f w = (ok tt, record w { counters = f w.counters })

unfoldable pub add_note : Text → M (Unit {0})
add_note note w = (ok tt, record w { notes = w.notes ++ note ∷ [] })

-- `incrementOutcome`
unfoldable pub increment_outcome : Option ReplyStatus → Counters → Counters
increment_outcome (some sent) c = record c { sent = c.sent + 1 }
increment_outcome (some dry_run) c = record c { previews = c.previews + 1 }
increment_outcome (some ignored) c = record c { ignored = c.ignored + 1 }
increment_outcome (some needs_manual) c = record c { needs_manual = c.needs_manual + 1 }
increment_outcome (some recalled) c = record c { recalled = c.recalled + 1 }
increment_outcome (some failed) c = record c { failed = c.failed + 1 }
increment_outcome _ c = c

unfoldable pub count_outcome : Option ReplyStatus → M (Unit {0})
count_outcome outcome = bump (increment_outcome outcome)

unfoldable pub count_outcomes : List (Option ReplyStatus) → M (Unit {0})
count_outcomes [] = pure tt
count_outcomes (outcome ∷ outcomes) = do count_outcome outcome; count_outcomes outcomes

module _ (o : Options) (group : AllowlistedGroup) (config : AppConfig) where
  abbrev lease_over : Option Text → ℕ → Bool
  lease_over none at = leb epoch at
  lease_over (some lease) at = elim (o.host.parse_date lease) [ none ↦ true | some t ↦ leb t at ]

  unfoldable pub is_recoverable : ℕ → ReplyRecord → Bool
  is_recoverable at reply =
      text_eq reply.group_id group.id
      && (status_eq reply.status pending
          || (status_eq reply.status sending && lease_over (truthy reply.lease_expires_at) at))

  -- `now - updatedAt >= 24 h`, false for NaN
  abbrev is_past_idempotency : ℕ → Option ℕ → Bool
  is_past_idempotency at none = false
  is_past_idempotency at (some t) = leb (t + 86400000) at

  -- The mention as the record remembers it.
  abbrev pub mention_of : ReplyRecord → DemoMessageMessage
  mention_of r = record {
    id = r.message_id;
    group_id = r.group_id;
    text = r.question;
    created_at = r.created_at;
    recalled = false;
    is_self = false;
    sender_id = truthy r.sender_id;
    sender_label = truthy r.sender_label;
  }

  unfoldable pub recover_one : ℕ → ReplyRecord → M (Option ReplyStatus)
  recover_one at r =
      if is_past_idempotency at (o.host.parse_date r.updated_at)
      then (do
        set_status o r.id needs_manual
            (because (lit "未完成发送已超过 DEMO_MESSAGE 24 小时幂等窗口，为避免重复消息已转交人工"))
        pure (some needs_manual))
      else process_record o group r (mention_of r) config

  unfoldable pub recover_each : ℕ → List ReplyRecord → M (List (Option ReplyStatus))
  recover_each at [] = pure []
  recover_each at (r ∷ rs) = do
    outcome ← recover_one at r
    outcomes ← recover_each at rs
    pure (outcome ∷ outcomes)

  abbrev oldest_update_first : ReplyRecord → ReplyRecord → Bool
  oldest_update_first left right = locale_le o.host left.updated_at right.updated_at

  unfoldable pub process_recoverable_records : M (List (Option ReplyStatus))
  process_recoverable_records = do
    state ← read_state o
    at ← now o
    recover_each at (take 50 (sort oldest_update_first (filter (is_recoverable at) state.replies)))

  -- `updatedAt >= now - followUpHours`, false for NaN
  abbrev is_recent : ℕ → Option ℕ → Bool
  is_recent at none = false
  is_recent at (some t) = leb at (t + config.reply_policy.follow_up_hours * 3600000)

  abbrev is_given : Option Text → Bool
  is_given text = elim (truthy text) [ none ↦ false | some t ↦ true ]

  unfoldable pub is_open_window : ℕ → ReplyRecord → Bool
  is_open_window at reply =
      text_eq reply.group_id group.id
      && status_eq reply.status sent
      && is_given reply.sender_id
      && not (is_given reply.follow_up_closed_at)
      && is_recent at (o.host.parse_date reply.updated_at)

  -- The first window of each sender.
  unfoldable pub newest_by_sender : List Text → List ReplyRecord → List ReplyRecord
  newest_by_sender seen [] = []
  newest_by_sender seen (r ∷ rs) = elim (truthy r.sender_id) [
    | none ↦ newest_by_sender seen rs
    | some sender ↦
        let fresh = r ∷ newest_by_sender (sender ∷ seen) rs in
        if member sender seen then newest_by_sender seen rs else fresh
  ]

  unfoldable pub first_human_message :
      ReplyRecord → List DemoMessageMessage → Option DemoMessageMessage
  first_human_message window history = head? (
      sort (oldest_first o.host) (
        filter
          (λ m.
            not m.is_self
            && not m.recalled
            && not (is_empty (trim m.text))
            && later_than (o.host.parse_date m.created_at) (o.host.parse_date window.updated_at))
          history))

  abbrev same_sender : Option Text → Option Text → Bool
  same_sender (some s) (some t) = text_eq s t
  same_sender _ _ = false

  unfoldable pub follow_message : ReplyRecord → DemoMessageMessage → M (List (Option ReplyStatus))
  follow_message window m =
      if same_sender (truthy m.sender_id) window.sender_id
      then (do
        close_follow_up_window o window.id (lit "同一发送者已发起续问")
        (is_new, r) ← ensure_pending_record o m group
        outcome ← process_record o group r m config
        pure (outcome ∷ []))
      else do close_follow_up_window o window.id (lit "其他人先发言，续问窗口已关闭"); pure []

  abbrev pub follow_found : ReplyRecord → Option DemoMessageMessage → M (List (Option ReplyStatus))
  follow_found window none = pure []
  follow_found window (some m) = follow_message window m

  unfoldable pub follow_each : List ReplyRecord → M (List (Option ReplyStatus))
  follow_each [] = pure []
  follow_each (window ∷ windows) = do
    history ←
        list_conversation_messages o
          (record { group_id = group.id; time = window.updated_at; forward = true; limit = 30 })
    here ← follow_found window (first_human_message window history)
    rest ← follow_each windows
    pure (here ++ rest)

  unfoldable pub process_open_follow_ups : M (List (Option ReplyStatus))
  process_open_follow_ups = do
    state ← read_state o
    at ← now o
    follow_each (
        take 10 (
          newest_by_sender []
            (sort (newest_first o.host) (filter (is_open_window at) state.replies))))
