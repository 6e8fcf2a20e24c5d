-- ===== src/Worker/Process/First.antt =====
-- worker.ts: the stages of `processRecord` up to the second look at the conversation.
use lucky_tag.Common.{
  ℕ, ◌+◌, ◌*◌, Bool, false, Option, none, some, List, [], ◌++◌, ltb, if◌then◌else◌,
}
use lucky_tag.Contracts.{
  ReplyStatus, ignored, needs_manual, recalled, dry_run, ReplyRecord, ReplyEvidence, AppConfig,
  AllowlistedGroup, DemoMessageMessage,
}
use lucky_tag.Retrieval.{compose_knowledge_reply}
use lucky_tag.Text.{Text, lit, trim, is_empty}
use lucky_tag.Worker.Effects.{Result, ok, err, M, Options, ◌>>=◌, now, get_config, search_index}
use lucky_tag.Worker.Process.Guards.{
  best_score, too_weak, because, with_evidence, with_reply, history_of, is_interrupted,
  find_message, score_reason, attempt, is_withdrawn,
}
use lucky_tag.Worker.Process.Send.{finish, stop_without_retry, stop_now}
use lucky_tag.Worker.Process.Final.{final_history}

module _ (o : Options) (group : AllowlistedGroup) where
  -- The configuration as it is after the retrieval.
  unfoldable pub latest_reply :
      ReplyRecord
      → Bool
      → DemoMessageMessage
      → Text
      → List ReplyEvidence
      → AppConfig
      → Text
      → M ReplyStatus
  latest_reply rec uncertain mention question evidence config reply =
      if is_empty reply
      then finish o rec.id needs_manual (with_evidence (lit "发送前无法按最新策略拼装安全回复") evidence)
      else (if config.reply_policy.dry_run
          then stop_without_retry o rec.id uncertain dry_run (lit "发送前已切换为预演模式；已生成预览，没有发送到示例消息")
              (with_reply [] reply evidence)
          else final_history o group rec uncertain mention question reply evidence)

  unfoldable pub latest_policy :
      ReplyRecord
      → Bool
      → DemoMessageMessage
      → Text
      → Text
      → List ReplyEvidence
      → AppConfig
      → M ReplyStatus
  latest_policy rec uncertain mention question reply evidence config =
      if is_withdrawn config group
      then stop_without_retry o rec.id uncertain ignored (lit "发送前配置已关闭自动回复或移出群白名单，已取消发送")
          (with_reply [] reply evidence)
      else (if ltb (best_score evidence) config.reply_policy.confidence_threshold
          then finish o rec.id needs_manual (
              with_evidence
                (score_reason o.host (lit "发送前策略已提高知识置信度要求（") (best_score evidence)
                  config.reply_policy.confidence_threshold)
                evidence)
          else latest_reply rec uncertain mention question evidence config
              (compose_knowledge_reply evidence config.reply_policy.max_reply_length))

  -- The first draft of the reply, under the configuration that the run began with.
  unfoldable pub first_reply :
      ReplyRecord
      → Bool
      → DemoMessageMessage
      → Text
      → List ReplyEvidence
      → AppConfig
      → Text
      → M ReplyStatus
  first_reply rec uncertain mention question evidence config reply =
      if is_empty reply
      then finish o rec.id needs_manual (with_evidence (lit "无法从证据片段拼装安全回复") evidence)
      else (if config.reply_policy.dry_run
          then stop_without_retry o rec.id uncertain dry_run (lit "Dry-run：已生成预览，没有发送到示例消息")
              (with_reply [] reply evidence)
          else do
            latest ← get_config o
            latest_policy rec uncertain mention question reply evidence latest)

  unfoldable pub first_evidence :
      ReplyRecord
      → Bool
      → DemoMessageMessage
      → AppConfig
      → Text
      → List ReplyEvidence
      → M ReplyStatus
  first_evidence rec uncertain mention config question evidence =
      if too_weak evidence config.reply_policy.confidence_threshold
      then finish o rec.id needs_manual (
          with_evidence
            (score_reason o.host (lit "知识库证据置信度不足（") (best_score evidence)
              config.reply_policy.confidence_threshold)
            evidence)
      else first_reply rec uncertain mention question evidence config
          (compose_knowledge_reply evidence config.reply_policy.max_reply_length)

  -- `original.text.trim() || mention.text.trim()`
  abbrev pub question_of : DemoMessageMessage → DemoMessageMessage → Text
  question_of original mention =
      if is_empty (trim original.text) then trim mention.text else trim original.text

  -- The first look at the conversation.
  unfoldable pub first_original :
      ReplyRecord
      → Bool
      → DemoMessageMessage
      → AppConfig
      → List DemoMessageMessage
      → Option DemoMessageMessage
      → M ReplyStatus
  first_original rec uncertain mention config history none =
      stop_now o rec.id uncertain recalled (lit "原消息已不在会话历史中，按撤回处理")
  first_original rec uncertain mention config history (some original) =
      if original.recalled
      then stop_now o rec.id uncertain recalled (lit "回查确认原消息已撤回")
      else (if original.is_self
          then stop_now o rec.id uncertain ignored (lit "回查确认是当前账号发出的消息，回环保护已停止自动回复")
          else (if is_interrupted o.host original history
              then finish o rec.id needs_manual (because (lit "检测到原消息后已有人工插话，已保守停止自动接管"))
              else do
                evidence ← search_index o (question_of original mention) 5
                first_evidence rec uncertain mention config (question_of original mention)
                    evidence))

  abbrev pub first_look :
      ReplyRecord
      → Bool
      → DemoMessageMessage
      → AppConfig
      → Result (List DemoMessageMessage)
      → M ReplyStatus
  first_look rec uncertain mention config (ok history) =
      first_original rec uncertain mention config history (find_message mention.id history)
  first_look rec uncertain mention config (err message) =
      finish o rec.id needs_manual (because (lit "原消息回查失败，为避免误回复已交给人工：" ++ message))

  -- `now - createdAt > followUpHours * 3 600 000`, false for NaN
  abbrev pub is_too_old : ℕ → Option ℕ → AppConfig → Bool
  is_too_old at none config = false
  is_too_old at (some t) config = ltb (t + config.reply_policy.follow_up_hours * 3600000) at

  unfoldable pub check_age : ReplyRecord → Bool → DemoMessageMessage → AppConfig → ℕ → M ReplyStatus
  check_age rec uncertain mention config at =
      if is_too_old at (o.host.parse_date mention.created_at) config
      then stop_now o rec.id uncertain ignored (lit "消息已超过安全跟进时限，不再自动重试")
      else do
        history ← attempt (history_of o group mention)
        first_look rec uncertain mention config history

  unfoldable pub check_mention : ReplyRecord → Bool → DemoMessageMessage → AppConfig → M ReplyStatus
  check_mention rec uncertain mention config =
      if mention.recalled
      then stop_now o rec.id uncertain recalled (lit "原消息已撤回")
      else (if mention.is_self
          then stop_now o rec.id uncertain ignored (lit "回环保护：当前账号发出的消息不应自动回复")
          else (if is_empty (trim mention.text)
              then finish o rec.id needs_manual
                  (because (lit "消息没有可安全自动处理的文本内容，可能包含图片、附件或语音，已转交人工"))
              else do at ← now o; check_age rec uncertain mention config at))
