-- ===== src/Worker/Sends/Authorised.antt =====
-- What every call of `sendMessage` satisfies.
use lucky_tag.Common.{ℕ, suc, ◌+◌, ◌≡◌, true, false, not, ◌&&◌, none, some, ◌≤◌, ◌<◌, count}
use lucky_tag.Contracts.{sending, AppConfig, AllowlistedGroup, ReplyRecord, CoreStateFile}
use lucky_tag.Retrieval.{compose_knowledge_reply}
use lucky_tag.Text.{Text, text_eq}
use lucky_tag.Worker.Effects.{ok, World, Options, SendEvent}
use lucky_tag.Worker.Process.Guards.{group_allowed, too_weak}
use lucky_tag.Worker.Records.{Patch}
use lucky_tag.Worker.Store.{set_status}
use lucky_tag.Worker.Trim.{reserves_hourly_reply_capacity}
use mathlib.Core.List.{Memᴰ}

-- Where the configuration that allows a send was read: the engine's current one, two ticks before the
-- send with nothing awaited in between, or, in an engine without one, the stored one, at the last reading of
-- it, seven ticks before the send.
pub data InForce (o : Options) (config : AppConfig) (e : SendEvent) : Type 0 where
  current :
      (read : ℕ → AppConfig) (k : ℕ)
      → o.get_current_config ≡ some read
      → config ≡ read k
      → e.tick ≡ suc (suc k)
      → InForce o config e
  stored :
      (k : ℕ)
      → o.get_current_config ≡ none
      → o.get_config k ≡ ok config
      → e.tick ≡ 7 + k
      → InForce o config e

-- The policy and the evidence that allow a send.
pub record IsPermitted (o : Options) (group : AllowlistedGroup) (record_id : Text) (text : Text)
    (config : AppConfig) : Type 0 where
  pub enabled : config.reply_policy.enabled ≡ true
  pub listed : group_allowed config group ≡ true
  pub live : config.reply_policy.dry_run ≡ false
  pub question : Text
  pub found_at : ℕ
  pub grounded :
      too_weak (o.search found_at question 5) config.reply_policy.confidence_threshold ≡ false
  pub composed :
      text
      ≡ compose_knowledge_reply (o.search found_at question 5) config.reply_policy.max_reply_length

-- The record as it is stored, under a lease, before its message is handed over.
pub record IsClaimed (o : Options) (rec claim : ReplyRecord) (state : CoreStateFile) : Type 0 where
  pub stored : Memᴰ claim state.replies
  pub status : claim.status ≡ sending
  pub named : claim.id ≡ rec.id
  pub attempts : claim.attempt_count ≡ rec.attempt_count + 1
  pub leased_at : ℕ
  pub lease : claim.lease_expires_at ≡ some (o.host.to_iso (o.now leased_at + 120000))

-- How many records other than `rec` held hourly capacity, at an instant, in the very state from which the claim
-- was then stored.
pub record IsCounted (o : Options) (rec claim : ReplyRecord) (state : CoreStateFile)
    (counted_at reserved : ℕ) : Type 0 where
  pub patch : Patch
  pub before : World
  pub after : World
  pub claimed : set_status o rec.id sending patch before ≡ (ok claim, after)
  pub kept : after.state ≡ state
  pub counted :
      reserved
      ≡ count
          (λ r.
            not (text_eq r.id rec.id) && reserves_hourly_reply_capacity o.host (o.now counted_at) r)
          before.state.replies

pub record IsAuthorised (o : Options) (group : AllowlistedGroup) (rec : ReplyRecord) (e : SendEvent)
    : Type 0 where
  pub config : AppConfig
  pub in_force : InForce o config e
  pub permitted : IsPermitted o group rec.id e.input.text config
  pub fresh : e.tick ≤ 6 + permitted.found_at
  pub claim : ReplyRecord
  pub claimed : IsClaimed o rec claim e.stored
  pub counted_at : ℕ
  pub reserved : ℕ
  pub counted : IsCounted o rec claim e.stored counted_at reserved
  pub recent : e.tick ≤ 7 + counted_at
  pub within_limit : reserved < config.reply_policy.max_replies_per_hour
  pub address : e.input.group_id ≡ group.id
  pub key : e.input.uuid ≡ claim.idempotency_uuid
