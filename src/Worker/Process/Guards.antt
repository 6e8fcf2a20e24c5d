-- ===== src/Worker/Process/Guards.antt =====
-- worker.ts: the tests and messages of `processRecord`.
use lucky_tag.Common.{
  ℕ, ◌+◌, ◌-◌, Bool, true, false, not, ◌&&◌, ◌||◌, Option, none, some, List, [], ◌∷◌, ◌++◌, find,
  any, ltb, if◌then◌else◌,
}
use lucky_tag.Contracts.{
  ReplyStatus, ReplyEvidence, AppConfig, AllowlistedGroup, DemoMessageMessage,
}
use lucky_tag.Host.{Host}
use lucky_tag.Text.{Text, lit, text_eq}
use lucky_tag.Worker.Effects.{
  Result, ok, err, M, Options, ◌>>=◌, of_result, list_conversation_messages,
}
use lucky_tag.Worker.Records.{Patch}

-- `config.groups.some((g) => g.enabled && g.id === group.id)`
unfoldable pub group_allowed : AppConfig → AllowlistedGroup → Bool
group_allowed config group = any (λ g. g.enabled && text_eq g.id group.id) config.groups

-- `evidence[0]?.score ?? 0`
abbrev pub best_score : List ReplyEvidence → ℕ
best_score [] = 0
best_score (e ∷ es) = e.score

-- `evidence.length === 0 || bestScore < threshold`
abbrev pub too_weak : List ReplyEvidence → ℕ → Bool
too_weak [] threshold = true
too_weak (e ∷ es) threshold = ltb e.score threshold

-- `left > right + 500`, false if either is NaN
abbrev pub later_than : Option ℕ → Option ℕ → Bool
later_than (some t) (some u) = ltb (u + 500) t
later_than _ _ = false

abbrev pub because : Text → Patch
because reason = record {
  reason = some reason;
  reply = none;
  evidence = none;
  lease_expires_at = none;
  platform_task_id = none;
  attempt_count = none;
}

abbrev pub with_evidence : Text → List ReplyEvidence → Patch
with_evidence reason evidence = record (because reason) { evidence = some evidence }

abbrev pub with_reply : Text → Text → List ReplyEvidence → Patch
with_reply reason reply evidence = record (because reason) {
  reply = some reply;
  evidence = some evidence;
}

-- `new Date(new Date(text).getTime() - ms).toISOString()`; an invalid date throws.
unfoldable pub iso_before : Host → ℕ → Option ℕ → Result Text
iso_before h ms none = err (lit "Invalid time value")
iso_before h ms (some t) =
    if ltb t ms then err (lit "Invalid time value") else ok (h.to_iso (t - ms))

-- How the body of the `try` around the send ends: `stop` is a `return stopWithoutRetry(…)`, which is
-- not awaited there, so its errors pass the `catch` by.
pub data Verdict : Type 0 where
  stop : ReplyStatus → Text → Verdict
  done : ReplyStatus → Verdict

-- `limit: 30` around the mention, from two minutes before it.
unfoldable pub history_of :
    Options → AllowlistedGroup → DemoMessageMessage → M (List DemoMessageMessage)
history_of o group mention = do
  time ← of_result (iso_before o.host 120000 (o.host.parse_date mention.created_at))
  list_conversation_messages o
      (record { group_id = group.id; time = time; forward = true; limit = 30 })

-- Somebody else spoke more than half a second after the original.
unfoldable pub is_interrupted : Host → DemoMessageMessage → List DemoMessageMessage → Bool
is_interrupted h original history =
    any
      (λ m.
        not (text_eq m.id original.id)
        && not m.is_self
        && later_than (h.parse_date m.created_at) (h.parse_date original.created_at))
      history

unfoldable pub find_message : Text → List DemoMessageMessage → Option DemoMessageMessage
find_message id = find (λ m. text_eq m.id id)

unfoldable pub uncertain_reason : Text → Text
uncertain_reason reason = lit "此前 DEMO_MESSAGE 发送结果不确定，不能确认消息是否已送达；" ++ reason ++ lit "，请人工核对"

unfoldable pub score_reason : Host → Text → ℕ → ℕ → Text
score_reason h what best threshold =
    what ++ h.to_fixed3 best ++ lit " < " ++ h.to_fixed3 threshold ++ lit "）"

-- The value of a `try` whose `catch` returns: the result, or the error's message.
unfoldable pub attempt {ℓ} : {A : Type ℓ} → M A → M (Result A)
attempt m w = (ok (m w).0, (m w).1)

-- What a later check of a configuration cancels: the switch is off, or the group has left the list.
abbrev pub is_withdrawn : AppConfig → AllowlistedGroup → Bool
is_withdrawn config group = not config.reply_policy.enabled || not (group_allowed config group)
