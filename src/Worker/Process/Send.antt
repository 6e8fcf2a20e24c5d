-- ===== src/Worker/Process/Send.antt =====
-- worker.ts: the last stage of `processRecord`: the claim, the guards around the call, the call and
-- its error path.
use lucky_tag.Common.{
  ℕ, ◌+◌, Bool, not, ◌&&◌, ◌||◌, Option, none, some, List, ◌++◌, leb, if◌then◌else◌,
}
use lucky_tag.Contracts.{
  ReplyStatus, sending, sent, ignored, needs_manual, dry_run, failed, ReplyRecord, ReplyEvidence,
  AppConfig, AllowlistedGroup,
}
use lucky_tag.Retrieval.{compose_knowledge_reply}
use lucky_tag.Text.{Text, lit, text_eq, truthy, decimal, is_empty}
use lucky_tag.Worker.Effects.{
  M, Options, pure, ◌>>=◌, ◌>>◌, catch, observe, now, search_index, send_message,
}
use lucky_tag.Worker.Records.{Patch}
use lucky_tag.Worker.Store.{set_status}
use lucky_tag.Worker.Process.Guards.{
  group_allowed, too_weak, because, with_evidence, with_reply, Verdict, stop, done,
  uncertain_reason,
}

module _ (o : Options) where
  unfoldable pub finish : Text → ReplyStatus → Patch → M ReplyStatus
  finish record_id status patch = do set_status o record_id status patch; pure status

  -- `uncertain` is `hadUncertainSend`: an earlier send of this record may have been delivered.
  unfoldable pub stop_without_retry : Text → Bool → ReplyStatus → Text → Patch → M ReplyStatus
  stop_without_retry record_id uncertain fallback reason patch =
      if uncertain
      then finish record_id needs_manual (record patch { reason = some (uncertain_reason reason) })
      else finish record_id fallback (record patch { reason = some reason })

  abbrev pub stop_now : Text → Bool → ReplyStatus → Text → M ReplyStatus
  stop_now record_id uncertain fallback reason =
      stop_without_retry record_id uncertain fallback reason (because reason)

  abbrev pub hand_over : Text → Patch → M Verdict
  hand_over record_id patch = do set_status o record_id needs_manual patch; pure (done needs_manual)

  -- The `catch`.
  unfoldable pub after_send_error : ReplyRecord → Text → Text → M Verdict
  after_send_error rec lease message =
      if leb 3 rec.attempt_count
      then hand_over rec.id (
          because
            (lit "发送结果连续 " ++ decimal rec.attempt_count ++ lit " 次不确定，已停止重试并转交人工：" ++ message))
      else do
        set_status o rec.id sending
            (record (because (lit "发送结果不确定，将在租约到期后用同一 UUID 重试：" ++ message)) {
              lease_expires_at = some lease;
            })
        pure (done failed)

  abbrev pub settle : Text → Bool → Verdict → M ReplyStatus
  settle record_id uncertain (done outcome) = pure outcome
  settle record_id uncertain (stop fallback reason) = stop_now record_id uncertain fallback reason

module _ (o : Options) (group : AllowlistedGroup) where
  -- The call of DEMO_MESSAGE itself; `rec` is the record as claimed.
  unfoldable pub deliver : ReplyRecord → Text → M Verdict
  deliver rec reply = do
    result ←
        send_message o (record { group_id = group.id; text = reply; uuid = rec.idempotency_uuid })
    set_status o rec.id sent
        (record (because
          (if result.deduplicated then lit "DEMO_MESSAGE 幂等键命中，发送结果已确认" else lit "已发送")) {
            platform_task_id = truthy result.platform_task_id;
          })
    pure (done sent)

  -- The evidence that the index gives at the last moment must lead to the very same reply.
  abbrev pub is_stale : List ReplyEvidence → AppConfig → Text → Bool
  is_stale evidence config reply =
      too_weak evidence config.reply_policy.confidence_threshold
      || (is_empty (compose_knowledge_reply evidence config.reply_policy.max_reply_length)
          || not (
              text_eq (compose_knowledge_reply evidence config.reply_policy.max_reply_length)
                reply))

  unfoldable pub guard_evidence :
      ReplyRecord → Text → ℕ → AppConfig → List ReplyEvidence → M Verdict
  guard_evidence rec reply reserved config evidence =
      if is_stale evidence config reply
      then hand_over o rec.id
          (with_evidence (lit "调用 DEMO_MESSAGE 前检测到知识来源或最新策略已变化，已取消发送") evidence)
      else (if leb config.reply_policy.max_replies_per_hour reserved
          then hand_over o rec.id (because (lit "调用 DEMO_MESSAGE 前检测到最新每小时额度不足，已取消发送"))
          else deliver rec reply)

  -- The guards on the configuration as it stands when the call is about to be made.
  unfoldable pub guard_and_deliver : ReplyRecord → Text → Text → ℕ → AppConfig → M Verdict
  guard_and_deliver rec question reply reserved config =
      if not (config.reply_policy.enabled && group_allowed config group)
      then pure (stop ignored (lit "调用 DEMO_MESSAGE 前检测到自动回复已关闭或群已移出白名单，已取消发送"))
      else (if config.reply_policy.dry_run
          then pure (stop dry_run (lit "调用 DEMO_MESSAGE 前检测到已切换为预演模式；没有发送到示例消息"))
          else do
            evidence ← search_index o question 5
            guard_evidence rec reply reserved config evidence)

  -- With and without a synchronous view of the configuration.
  abbrev pub try_send_by : Option (ℕ → AppConfig) → ReplyRecord → Text → Text → ℕ → M Verdict
  try_send_by none rec question reply reserved = deliver rec reply
  try_send_by (some current) rec question reply reserved = do
    config ← observe current
    guard_and_deliver rec question reply reserved config

  -- The body of the `try`.
  unfoldable pub try_send : ReplyRecord → Text → Text → ℕ → M Verdict
  try_send = try_send_by o.get_current_config

  -- The record is claimed with a lease of two minutes before anything is sent.
  unfoldable pub claim_and_send :
      ReplyRecord → Bool → Text → Text → List ReplyEvidence → ℕ → M ReplyStatus
  claim_and_send rec uncertain question reply evidence reserved = do
    at ← now o
    claimed ←
        set_status o rec.id sending
          (record (with_reply (lit "正在通过 DEMO_MESSAGE 幂等发送") reply evidence) {
            lease_expires_at = some (o.host.to_iso (at + 120000));
            attempt_count = some (rec.attempt_count + 1);
          })
    verdict ←
        catch (try_send claimed question reply reserved)
          (after_send_error o claimed (o.host.to_iso (at + 120000)))
    settle o rec.id uncertain verdict
