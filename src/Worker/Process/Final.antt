-- ===== src/Worker/Process/Final.antt =====
-- worker.ts: the stages of `processRecord` from the second look at the conversation to the claim.
use lucky_tag.Common.{ℕ, Bool, Option, none, some, List, [], ◌++◌, leb, if◌then◌else◌}
use lucky_tag.Contracts.{
  ReplyStatus, ignored, needs_manual, recalled, dry_run, ReplyRecord, ReplyEvidence, AppConfig,
  AllowlistedGroup, DemoMessageMessage,
}
use lucky_tag.Retrieval.{compose_knowledge_reply}
use lucky_tag.Text.{Text, lit}
use lucky_tag.Worker.Effects.{Result, ok, err, M, Options, ◌>>=◌, get_config, search_index}
use lucky_tag.Worker.Store.{count_reserved_in_last_hour}
use lucky_tag.Worker.Process.Guards.{
  best_score, too_weak, with_evidence, with_reply, history_of, is_interrupted, find_message,
  score_reason, attempt, is_withdrawn,
}
use lucky_tag.Worker.Process.Send.{finish, stop_without_retry, claim_and_send}

module _ (o : Options) (group : AllowlistedGroup) where
  abbrev pub within_quota :
      ReplyRecord → Bool → Text → Text → List ReplyEvidence → AppConfig → ℕ → M ReplyStatus
  within_quota rec uncertain question reply evidence config reserved =
      if leb config.reply_policy.max_replies_per_hour reserved
      then finish o rec.id needs_manual
          (with_reply (lit "已达到每小时自动回复上限（含发送结果不确定的保守预留），转交人工处理") reply evidence)
      else claim_and_send o group rec uncertain question reply evidence reserved

  -- 「发送前最终…」: the final policy, the evidence as it is now, and the hourly limit.
  unfoldable pub final_quota :
      ReplyRecord → Bool → Text → Text → List ReplyEvidence → AppConfig → M ReplyStatus
  final_quota rec uncertain question reply evidence config = do
    reserved ← count_reserved_in_last_hour o rec.id
    within_quota rec uncertain question reply evidence config reserved

  unfoldable pub final_evidence :
      ReplyRecord → Bool → Text → AppConfig → List ReplyEvidence → M ReplyStatus
  final_evidence rec uncertain question config evidence =
      if too_weak evidence config.reply_policy.confidence_threshold
      then finish o rec.id needs_manual (
          with_evidence
            (score_reason o.host (lit "发送前最终知识与策略检查未通过（") (best_score evidence)
              config.reply_policy.confidence_threshold)
            evidence)
      else final_quota rec uncertain question
          (compose_knowledge_reply evidence config.reply_policy.max_reply_length) evidence config

  unfoldable pub final_policy :
      ReplyRecord → Bool → Text → Text → List ReplyEvidence → AppConfig → M ReplyStatus
  final_policy rec uncertain question reply evidence config =
      if is_withdrawn config group
      then stop_without_retry o rec.id uncertain ignored (lit "发送前最终配置检查发现自动回复已关闭或群已移出白名单")
          (with_reply [] reply evidence)
      else (if config.reply_policy.dry_run
          then stop_without_retry o rec.id uncertain dry_run (lit "发送前最终检查已切换为预演模式；没有发送到示例消息") (
              with_reply [] (compose_knowledge_reply evidence config.reply_policy.max_reply_length)
                evidence)
          else do
            current ← search_index o question 5
            final_evidence rec uncertain question config current)

  -- The second look at the conversation, just before the send.
  unfoldable pub final_original :
      ReplyRecord
      → Bool
      → Text
      → Text
      → List ReplyEvidence
      → List DemoMessageMessage
      → Option DemoMessageMessage
      → M ReplyStatus
  final_original rec uncertain question reply evidence history none =
      stop_without_retry o rec.id uncertain recalled (lit "发送前二次回查发现原消息已撤回")
        (with_evidence [] evidence)
  final_original rec uncertain question reply evidence history (some original) =
      if original.recalled
      then stop_without_retry o rec.id uncertain recalled (lit "发送前二次回查发现原消息已撤回")
          (with_evidence [] evidence)
      else (if is_interrupted o.host original history
          then finish o rec.id needs_manual
              (with_reply (lit "发送前二次回查检测到人工插话，已取消自动发送") reply evidence)
          else do config ← get_config o; final_policy rec uncertain question reply evidence config)

  abbrev pub final_look :
      ReplyRecord
      → Bool
      → DemoMessageMessage
      → Text
      → Text
      → List ReplyEvidence
      → Result (List DemoMessageMessage)
      → M ReplyStatus
  final_look rec uncertain mention question reply evidence (ok history) =
      final_original rec uncertain question reply evidence history (find_message mention.id history)
  final_look rec uncertain mention question reply evidence (err message) =
      finish o rec.id needs_manual (with_reply (lit "发送前二次回查失败，已取消自动发送：" ++ message) reply evidence)

  unfoldable pub final_history :
      ReplyRecord → Bool → DemoMessageMessage → Text → Text → List ReplyEvidence → M ReplyStatus
  final_history rec uncertain mention question reply evidence = do
    history ← attempt (history_of o group mention)
    final_look rec uncertain mention question reply evidence history
