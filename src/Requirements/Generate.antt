-- ===== src/Requirements/Generate.antt =====
-- main/core/demoWorkflow-requirement.ts: `generateRequirementDraft` and what it calls.
pub mod Bounds
use lucky_tag.Common.{
  ℕ, suc, ◌+◌, ◌-◌, ◌*◌, ◌≤◌, Bool, true, false, not, ◌&&◌, ◌||◌, Option, none, some, List, [], ◌∷◌,
  ◌++◌, map, ltb, leb, if◌then◌else◌, length, take, head?, filter,
}
use lucky_tag.Common.Sort.{insert, sort}
use lucky_tag.Act.{and_then}
use lucky_tag.Contracts.{DemoMessageMessage}
use lucky_tag.Host.{Host}
use lucky_tag.Requirements.{Pattern, Platform, RequirementEvidence}
use lucky_tag.Text.{Text, lit, trim, trim_end, truthy, join, member, is_empty}
use lucky_tag.Worker.Effects.{Result, ok, err}

abbrev pub max_evidence : ℕ
max_evidence = 12

abbrev pub max_evidence_text : ℕ
max_evidence_text = 800

abbrev pub max_description_length : ℕ
max_description_length = 18000

abbrev pub context_window_ms : ℕ
context_window_ms = 45 * 60 * 1000

abbrev pub min_requirement_score : ℕ
min_requirement_score = 5

-- `value.slice(0, Math.max(0, maxLength - 1)).trimEnd()` and an ellipsis, where the value is too long
unfoldable pub truncate : Text → ℕ → Text
unfolding trim_end
truncate value max_length =
    if leb (length value) max_length
    then value
    else trim_end (take (max_length - 1) value) ++ 0x2026 ∷ []

-- `Math.abs(left - right)`
abbrev pub distance : ℕ → ℕ → ℕ
distance left right = (left - right) + (right - left)

-- A message with its place among the usable ones and its score.
pub record Scored : Type 0 where
  pub message : DemoMessageMessage
  pub index : ℕ
  pub score : ℕ

pub record Candidate : Type 0 where
  pub text : Text
  pub points : ℕ
  pub excess : ℕ

pub record Generated : Type 0 where
  pub title : Text
  pub description : Text
  pub evidence : List RequirementEvidence

abbrev points : Bool → ℕ → ℕ
points test n = if test then n else 0

unfoldable pub as_bullets : List Text → List Text
unfolding lit
as_bullets [] = lit "- 按群聊原始诉求完成实现并补充回归验证。" ∷ []
as_bullets (item ∷ items) = map (λ t. lit "- " ++ t) (item ∷ items)

module _ (p : Platform) where
  unfoldable pub clean_message_text : Text → Text
  unfolding trim lit
  clean_message_text value =
      let untagged = p.replace Pattern.mention_tag value [] in
      let unlinked = p.replace Pattern.link untagged [] in
      let plain = p.replace Pattern.markup unlinked [] in
      trim (p.replace Pattern.blanks plain (lit " "))

  unfoldable pub requirement_score : Text → ℕ
  unfolding clean_message_text
  requirement_score value =
      let text = clean_message_text value in
      points (p.test Pattern.explicit_record text) 8
      + points (p.test Pattern.action text) 4
      + points (p.test Pattern.problem text) 3
      + points (p.test Pattern.technical_signal text) 2
      + points (leb 12 (length text) && leb (length text) 1200) 1

  -- `usable`, in `pickRelevantMessages`
  unfoldable pub is_usable : DemoMessageMessage → Bool
  unfolding clean_message_text
  is_usable message = not message.recalled && ltb 1 (length (clean_message_text message.text))

  unfoldable pub scored_from : ℕ → List DemoMessageMessage → List Scored
  unfolding requirement_score
  scored_from index [] = []
  scored_from index (message ∷ messages) =
      record { message = message; index = index; score = requirement_score message.text }
      ∷ scored_from (suc index) messages

  -- `timeDistance <= CONTEXT_WINDOW_MS`, false where a date is not valid
  abbrev within_window : Option ℕ → Option ℕ → Bool
  within_window (some left) (some right) = leb (distance left right) context_window_ms
  within_window _ _ = false

  unfoldable pub is_near : Host → Scored → Scored → Bool
  is_near h focal entry =
      leb 3 entry.score
      || (leb (distance entry.index focal.index) 4
          && within_window (h.parse_date entry.message.created_at)
              (h.parse_date focal.message.created_at))

  unfoldable pub around : Host → List Scored → Option Scored → List DemoMessageMessage
  unfolding is_near
  around h scored none = []
  around h scored (some focal) =
      if ltb focal.score min_requirement_score
      then []
      else map (λ e. e.message) (filter (is_near h focal) scored)

  unfoldable pub pick_relevant_messages : Host → List DemoMessageMessage → List DemoMessageMessage
  unfolding is_usable scored_from around sort insert filter
  pick_relevant_messages h messages =
      let scored = scored_from 0 (filter is_usable messages) in
      around h scored (head? (sort (λ left right. leb right.score left.score) scored))

  unfoldable pub strip_bullets : List Text → List Text
  unfolding trim
  strip_bullets [] = []
  strip_bullets (part ∷ parts) =
      let stripped = p.replace Pattern.bullet (trim part) [] in
      let rest = strip_bullets parts in if leb 4 (length stripped) then stripped ∷ rest else rest

  unfoldable pub split_statements : Text → List Text
  unfolding strip_bullets
  split_statements value = strip_bullets (p.split Pattern.statement_end value)

  unfoldable pub strip_request_prefix : Text → Text
  unfolding trim
  strip_request_prefix value =
      trim (p.replace Pattern.label_prefix (p.replace Pattern.request_prefix value []) [])

  unfoldable pub unique_from : List Text → List Text → List Text
  unfolding member
  unique_from seen [] = []
  unique_from seen (item ∷ items) =
      let key = p.to_lower_case (p.replace Pattern.white item []) in
      let skipped = is_empty key || member key seen in
      let rest = unique_from (if skipped then seen else key ∷ seen) items in
      if skipped then rest else item ∷ rest

  unfoldable pub unique : List Text → List Text
  unfolding unique_from
  unique items = unique_from [] items

  -- The statements of the messages, in order.
  unfoldable pub statements_of : List DemoMessageMessage → List Text
  unfolding split_statements clean_message_text
  statements_of [] = []
  statements_of (message ∷ messages) =
      split_statements (clean_message_text message.text) ++ statements_of messages

  unfoldable pub candidate_of : Text → Candidate
  candidate_of text = record {
    text = text;
    points =
        points (p.test Pattern.title_action text) 5
        + points (p.test Pattern.problem text) 3
        + points (p.test Pattern.technical_signal text) 2;
    excess = length text - 90;
  }

  abbrev first_text : Option Candidate → Text
  first_text none = lit "修复群聊反馈的功能异常"
  first_text (some candidate) = candidate.text

  unfoldable pub best_title : List Text → Text
  unfolding candidate_of trim strip_request_prefix lit
  best_title statements =
      let long = filter (λ t. leb 6 (length t)) (map strip_request_prefix statements) in
      let ranked =
        sort (λ left right. p.title_before left.points left.excess right.points right.excess)
          (map candidate_of long) in
      let title = trim (p.replace Pattern.trailing_marks (first_text (head? ranked)) []) in
      if p.test Pattern.title_action title
      then title
      else (if p.test Pattern.problem title then lit "修复" else lit "优化") ++ lit " " ++ title

  unfoldable pub derive_title : List DemoMessageMessage → Text
  unfolding best_title statements_of truncate clean_message_text join lit
  derive_title messages =
      let combined = join (lit "；") (map (λ m. clean_message_text m.text) messages) in
      if p.test Pattern.subagent combined
        && (p.test Pattern.span_words combined && p.test Pattern.token_words combined)
      then lit "修复 Subagent 场景下链路追踪与指标归因异常"
      else truncate (best_title (statements_of messages)) 120

  abbrev only_if : Bool → Text → List Text
  only_if test text = if test then text ∷ [] else []

  unfoldable pub derive_acceptance : List Text → List Text
  unfolding unique join lit
  derive_acceptance statements =
      let combined = join (lit "；") statements in
      unique (
        only_if (p.test Pattern.parent_span_id combined)
          (lit "Subagent 子任务的 parentSpanId 应正确关联父任务 Span，不得为空或丢失。")
        ++ (only_if (p.test Pattern.cron combined && p.test Pattern.trigger_user combined)
              (lit "Cron 触发的 Subagent 应归因到真实触发来源，不得错误标记为 user。")
            ++ (only_if (p.test Pattern.attribution combined)
                  (lit "各触发场景的 Token 指标应归因到正确场景，且总 Token 统计保持一致。")
                ++ (only_if (p.test Pattern.release combined)
                      (lit "修复随新版 dtclaw 镜像发布，并完成链路追踪与指标统计回归。")
                    ++ lit "群聊中记录的异常场景均有可复现用例，修复后通过回归验证且不引入已有流程退化。" ∷ []))))

  abbrev trimmed : Option Text → Option Text
  trimmed none = none
  trimmed (some label) = some (trim label)

  abbrev sender_of : Option Text → Text
  sender_of none = lit "群成员"
  sender_of (some label) = label

  unfoldable pub evidence_of : DemoMessageMessage → RequirementEvidence
  unfolding truncate clean_message_text trim lit
  evidence_of message = record {
    sent_at = message.created_at;
    sender = sender_of (truthy (trimmed message.sender_label));
    text = truncate (clean_message_text message.text) max_evidence_text;
  }

  -- `formatTime(new Date(item.sentAt))`, which throws where the date is not valid
  abbrev time_of : Option ℕ → Result Text
  time_of none = err (lit "Invalid time value")
  time_of (some instant) = ok (p.format_time instant)

  unfoldable pub evidence_lines : Host → List RequirementEvidence → Result (List Text)
  unfolding lit
  evidence_lines h [] = ok []
  evidence_lines h (item ∷ items) =
      let rest = evidence_lines h items in
      and_then (time_of (h.parse_date item.sent_at)) λ time. and_then rest λ lines.
        ok ((lit "> " ++ (time ++ (lit " " ++ (item.sender ++ (lit "：" ++ item.text))))) ∷ lines)

  abbrev or_else : List Text → List Text → List Text
  or_else [] fallback = fallback
  or_else (item ∷ items) fallback = item ∷ items

  unfoldable pub describe : Text → ℕ → ℕ → Text → List Text → List Text → Text
  unfolding as_bullets derive_acceptance join lit
  describe group_name window_start window_end title statements evidence =
      let problems = take 6 (filter (p.test Pattern.problem) statements) in
      let requests = take 6 (filter (p.test Pattern.action) statements) in
      join (lit "\n") (
        lit "## 1. 需求背景"
        ∷ (lit "需求来源：示例消息群「" ++ (group_name ++ lit "」"))
        ∷ (lit "分析窗口：" ++ (p.format_time window_start ++ (lit " 至 " ++ p.format_time window_end)))
        ∷ (lit "群聊中反馈了与「" ++ (title ++ lit "」相关的问题，需要形成可跟踪、可验收的 DemoWorkflow 需求。"))
        ∷ []
        ∷ lit "## 2. 问题现象"
        ∷ (as_bullets (or_else problems (take 4 statements))
            ++ ([]
                ∷ lit "## 3. 需求内容"
                ∷ (as_bullets (or_else requests (take 6 statements))
                    ++ ([]
                        ∷ lit "## 4. 验收标准"
                        ∷ (as_bullets (derive_acceptance statements)
                            ++ ([]
                                ∷ lit "## 5. 群聊依据"
                                ∷ (evidence
                                    ++ ([]
                                        ∷ lit "_本草稿由 LuckyTag 根据所选时间窗口内的群聊记录自动整理，创建前可编辑。_"
                                        ∷ [])))))))))

  -- The evidence of the first messages that were picked.
  unfoldable pub evidence_from : List DemoMessageMessage → List RequirementEvidence
  unfolding evidence_of
  evidence_from relevant = map evidence_of (take max_evidence relevant)

  unfoldable pub assembled : Text → ℕ → ℕ → List DemoMessageMessage → List Text → Generated
  unfolding derive_title evidence_from statements_of unique describe truncate
  assembled group_name window_start window_end relevant lines =
      let title = derive_title relevant in
      let statements = unique (statements_of relevant) in
      record {
        title = title;
        description =
            truncate (describe group_name window_start window_end title statements lines)
              max_description_length;
        evidence = evidence_from relevant;
      }

  unfoldable pub draft_from : Host → Text → ℕ → ℕ → List DemoMessageMessage → Result Generated
  unfolding assembled evidence_from evidence_lines lit
  draft_from h group_name window_start window_end [] =
      err (lit "没有从群聊中识别到明确的需求、问题或修复诉求，请缩短窗口或确认群内存在“记录需求”等表达")
  draft_from h group_name window_start window_end (message ∷ messages) =
      let relevant = message ∷ messages in
      and_then (evidence_lines h (evidence_from relevant))
        λ lines. ok (assembled group_name window_start window_end relevant lines)

  unfoldable pub generate_requirement_draft :
      Host → Text → ℕ → ℕ → List DemoMessageMessage → Result Generated
  unfolding pick_relevant_messages draft_from
  generate_requirement_draft h group_name window_start window_end messages =
      draft_from h group_name window_start window_end (pick_relevant_messages h messages)
