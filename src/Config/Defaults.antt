-- ===== src/Config/Defaults.antt =====
-- shared/contracts.ts: `DEFAULT_CONFIG`; shared/validation.ts: the entry points that only throw.
use lucky_tag.Common.{true, false, Option, none, some, if◌then◌else◌}
use lucky_tag.Config.Agent.{as_runtime}
use lucky_tag.Config.App.{is_app_config}
use lucky_tag.Config.Migrate.{canonical_app_config, default_agent_configuration}
use lucky_tag.Config.Value.{Value, Values, Fields, Number, Url}
use lucky_tag.Contracts.{AgentRuntimeKind}
use lucky_tag.Text.{Text, lit}
use lucky_tag.Worker.Effects.{Result, ok, err}

unfoldable pub assert_agent_runtime_kind : Value → Result AgentRuntimeKind
assert_agent_runtime_kind v = elim (as_runtime v) [
  | some runtime ↦ ok runtime
  | none ↦ err (lit "不支持的 Agent Runtime")
]

unfoldable pub assert_app_config : (Text → Option Url) → Value → Result Value
assert_app_config parse_url v =
    if is_app_config parse_url v then ok (canonical_app_config v) else err (lit "配置格式不合法，已拒绝保存")

unfoldable pub default_policy : Value
default_policy = Value.object (
    Fields.field (lit "enabled") (Value.boolean false) (
      Fields.field (lit "dryRun") (Value.boolean true) (
        Fields.field (lit "pollIntervalSeconds") (Value.number (Number.whole 300)) (
          Fields.field (lit "lookbackMinutes") (Value.number (Number.whole 15)) (
            Fields.field (lit "confidenceThreshold") (Value.number (Number.between 0)) (
              Fields.field (lit "maxReplyLength") (Value.number (Number.whole 900)) (
                Fields.field (lit "maxRepliesPerHour") (Value.number (Number.whole 8)) (
                  Fields.field (lit "followUpHours") (Value.number (Number.whole 6)) (
                    Fields.field (lit "markExistingIgnored") (Value.boolean true)
                      Fields.empty)))))))))

unfoldable pub default_config : Value
default_config = Value.object (
    Fields.field (lit "version") (Value.number (Number.whole 3)) (
      Fields.field (lit "onboardingComplete") (Value.boolean false) (
        Fields.field (lit "groups") (Value.array Values.nil) (
          Fields.field (lit "knowledgeSources") (Value.array Values.nil) (
            Fields.field (lit "replyPolicy") default_policy
              (Fields.field (lit "agent") default_agent_configuration Fields.empty))))))
