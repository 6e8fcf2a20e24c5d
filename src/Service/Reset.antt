-- ===== src/Service/Reset.antt =====
-- main/core/service.ts: what `saveConfig` does to the stored state when groups become enabled.
pub mod Safe
use lucky_tag.Common.{
  ℕ, suc, Bool, true, false, not, ◌&&◌, ◌||◌, some, none, List, [], ◌∷◌, map, filter, if◌then◌else◌,
}
use lucky_tag.Contracts.{
  AppConfig, AllowlistedGroup, CoreStateFile, ReplyRecord, pending, sending, needs_manual,
}
use lucky_tag.Text.{Text, lit, member}
use lucky_tag.Worker.Status.{status_eq}

unfoldable pub enabled_group_ids : AppConfig → List Text
enabled_group_ids config = map (λ g. g.id) (filter (λ g. g.enabled) config.groups)

-- `config.replyPolicy.enabled ? … : []`
unfoldable pub allowlisted_group_ids : AppConfig → List Text
unfolding enabled_group_ids
allowlisted_group_ids config = if config.reply_policy.enabled then enabled_group_ids config else []

unfoldable pub newly_enabled_groups : AppConfig → AppConfig → List Text
unfolding enabled_group_ids
newly_enabled_groups previous config =
    map (λ g. g.id)
      (filter (λ g. g.enabled && not (member g.id (enabled_group_ids previous))) config.groups)

unfoldable pub reauthorized_reason : Text
reauthorized_reason = lit "群聊已重新授权；为避免处理停用期间的历史消息，未完成记录已转交人工"

-- `reset.has(reply.groupId)` and the status is `pending` or `sending`
unfoldable pub is_reset : List Text → ReplyRecord → Bool
is_reset groups r =
    member r.group_id groups && (status_eq r.status pending || status_eq r.status sending)

unfoldable pub handed_over : Text → ReplyRecord → ReplyRecord
handed_over updated_at r = record r {
  lease_expires_at = none;
  status = needs_manual;
  reason = some reauthorized_reason;
  updated_at = updated_at;
}

-- `state.replies.map`; `now` gives the time for each record
unfoldable pub reset_replies : List Text → (ℕ → Text) → ℕ → List ReplyRecord → List ReplyRecord
unfolding is_reset handed_over
reset_replies groups now n [] = []
reset_replies groups now n (r ∷ rs) =
    (if is_reset groups r then handed_over (now n) r else r) ∷ reset_replies groups now (suc n) rs

unfoldable pub reset_groups : List Text → (ℕ → Text) → CoreStateFile → CoreStateFile
unfolding reset_replies
reset_groups groups now state = record state {
  initialized_groups = filter (λ id. not (member id groups)) state.initialized_groups;
  replies = reset_replies groups now 0 state.replies;
}
