-- ===== src/Config/Tests.antt =====
-- Accepted and rejected values.
use lucky_tag.Common.{ℕ, ◌≡◌, refl, Bool, true, false, Option, none, some, List, [], ◌∷◌, ◌++◌}
use lucky_tag.Config.Agent.{
  as_runtime, as_mode, as_protocol, as_authentication, as_provider, protocol_for_runtime,
  same_protocol, default_provider_for_runtime, provider_supports_protocol,
  provider_allows_no_authentication, is_loopback_host, is_agent_base_url, is_loopback_model_url,
}
use lucky_tag.Config.App.{is_app_config, is_true}
use lucky_tag.Config.Bounds.{IsBounded, is_app_config-IsBounded}
use lucky_tag.Config.Input.{
  AgentConfigurationInput, reject_if, is_bad_key, is_bad_flag, is_given_key, check_input,
  assert_agent_configuration_input,
}
use lucky_tag.Config.Defaults.{default_config, default_policy, assert_app_config}
use lucky_tag.Config.Kept.{IsMigrated, migrate_app_config-IsMigrated}
use lucky_tag.Config.Migrate.{
  set_field, with_field, canonical_app_config, default_agent_configuration, is_version,
  migrate_legacy_v1_config, migrate_legacy_v2_config, migrate_app_config,
}
use lucky_tag.Config.Sound.{IsSound, assert_agent_configuration_input-IsSound}
use lucky_tag.Config.Value.{Value, Values, Fields, Number, Url}
use lucky_tag.Worker.Effects.{ok}
use lucky_tag.Contracts.{codex, custom_model, ollama, openai_responses, unauthenticated}
use lucky_tag.Text.{Text, lit, text_eq}
use Prim.Native.String.{String}

abbrev parse_local : Text → Option Url
parse_local text = some (record {
  protocol = lit "http:";
  hostname = lit "localhost";
  username = [];
  password = [];
  hash = [];
})

checks : Unit {0}
unfolding assert_agent_configuration_input check_input reject_if as_runtime as_mode as_protocol
    as_authentication as_provider protocol_for_runtime same_protocol default_provider_for_runtime
    provider_supports_protocol provider_allows_no_authentication is_loopback_host is_agent_base_url
    is_loopback_model_url is_bad_key is_bad_flag is_given_key is_true is_app_config
    lucky_tag.Config.App.is_version_3 lucky_tag.Config.App.items lucky_tag.Config.App.every_item
    lucky_tag.Config.App.ids_of lucky_tag.Config.App.all_distinct lucky_tag.Config.App.is_list_of
    lucky_tag.Config.App.is_group lucky_tag.Config.App.is_reply_policy
    lucky_tag.Config.App.is_agent_configuration lucky_tag.Config.Value.lookup
    lucky_tag.Config.Value.is_record lucky_tag.Config.Value.get lucky_tag.Config.Value.is_boolean
    lucky_tag.Config.Value.is_integer_within lucky_tag.Config.Value.is_fraction
    lucky_tag.Config.Value.is_text lucky_tag.Config.Value.text_of lucky_tag.Config.Value.is_literal
    lucky_tag.Config.Value.is_non_empty_string lucky_tag.Config.Value.is_control
    lucky_tag.Config.Value.has_control_characters lucky_tag.Config.Value.is_external_id
    lucky_tag.Config.Value.is_knowledge_source lucky_tag.Common.any lucky_tag.Text.trim
    lucky_tag.Text.trim_start lucky_tag.Text.trim_end lucky_tag.Text.is_space
    lucky_tag.Text.distinct_from lucky_tag.Text.member text_eq lit migrate_app_config
    migrate_legacy_v1_config migrate_legacy_v2_config is_version set_field with_field
    default_agent_configuration default_config default_policy assert_app_config
checks = tt

abbrev property : String → Value → Text × Value
property key v = (lit key, v)

abbrev object_of : List (Text × Value) → Fields
object_of [] = Fields.empty
object_of ((key, v) ∷ rest) = Fields.field key v (object_of rest)

abbrev text : String → Value
text s = Value.string (lit s)

abbrev whole : ℕ → Value
whole n = Value.number (Number.whole n)

abbrev local_model : Value
local_model = Value.object (
    object_of (
      property "enabled" (Value.boolean true)
      ∷ property "runtime" (text "codex")
      ∷ property "mode" (text "custom-model")
      ∷ property "provider" (text "ollama")
      ∷ property "protocol" (text "openai-responses")
      ∷ property "authentication" (text "none")
      ∷ property "modelName" (text " m ")
      ∷ property "baseUrl" (text "http://localhost")
      ∷ []))

abbrev local_input : AgentConfigurationInput
local_input = record {
  enabled = true;
  runtime = codex;
  mode = custom_model;
  provider = ollama;
  protocol = openai_responses;
  authentication = unauthenticated;
  model_name = lit "m";
  base_url = lit "http://localhost";
  api_key = none;
  clear_api_key = false;
}

assert_agent_configuration_input-IsSound_example : IsSound parse_local local_input
unfolding checks
assert_agent_configuration_input-IsSound_example =
    assert_agent_configuration_input-IsSound parse_local local_model local_input refl

abbrev agent : Value
agent = Value.object (
    object_of (
      property "enabled" (Value.boolean false)
      ∷ property "runtime" (text "codex")
      ∷ property "mode" (text "runtime-default")
      ∷ property "model" (
          Value.object (
            object_of (
              property "provider" (text "openai")
              ∷ property "protocol" (text "openai-responses")
              ∷ property "authentication" (text "api-key")
              ∷ property "name" (text "")
              ∷ property "baseUrl" (text "")
              ∷ property "apiKeyConfigured" (Value.boolean false)
              ∷ [])))
      ∷ []))

abbrev policy : Value
policy = Value.object (
    object_of (
      property "enabled" (Value.boolean true)
      ∷ property "dryRun" (Value.boolean true)
      ∷ property "pollIntervalSeconds" (whole 300)
      ∷ property "lookbackMinutes" (whole 60)
      ∷ property "confidenceThreshold" (Value.number (Number.between 0))
      ∷ property "maxReplyLength" (whole 800)
      ∷ property "maxRepliesPerHour" (whole 20)
      ∷ property "followUpHours" (whole 24)
      ∷ property "markExistingIgnored" (Value.boolean true)
      ∷ []))

abbrev group : Value
group = Value.object (
    object_of (
      property "id" (text "g")
      ∷ property "label" (text "G")
      ∷ property "enabled" (Value.boolean true)
      ∷ []))

abbrev config : Value
config = Value.object (
    object_of (
      property "version" (whole 3)
      ∷ property "onboardingComplete" (Value.boolean true)
      ∷ property "groups" (Value.array (Values.cons group Values.nil))
      ∷ property "knowledgeSources" (Value.array Values.nil)
      ∷ property "replyPolicy" policy
      ∷ property "agent" agent
      ∷ []))

is_app_config-IsBounded_example : IsBounded config
unfolding checks
is_app_config-IsBounded_example = is_app_config-IsBounded parse_local config refl

default_accepted :
    assert_app_config parse_local default_config ≡ ok (canonical_app_config default_config)
unfolding checks
default_accepted = refl

-- A configuration of version 1 has no agent.
abbrev config_v1 : Value
config_v1 = Value.object (
    object_of (
      property "version" (whole 1)
      ∷ property "onboardingComplete" (Value.boolean true)
      ∷ property "groups" (Value.array (Values.cons group Values.nil))
      ∷ property "knowledgeSources" (Value.array Values.nil)
      ∷ property "replyPolicy" policy
      ∷ []))

abbrev config_now : Value
config_now =
    canonical_app_config
      (with_field "agent" default_agent_configuration (with_field "version" (whole 3) config_v1))

migrate_app_config-IsMigrated_example : IsMigrated parse_local config_v1 config_now
unfolding checks
migrate_app_config-IsMigrated_example =
    migrate_app_config-IsMigrated parse_local config_v1 config_now refl
