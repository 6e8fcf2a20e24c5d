-- ===== src/Config/Migrate.antt =====
-- shared/validation.ts: `migrateAppConfig`, from configurations of versions 1 and 2.
use lucky_tag.Common.{
  ℕ, Bool, false, ◌&&◌, ◌||◌, Option, none, some, List, [], ◌∷◌, ◌==◌, if◌then◌else◌,
}
use Prim.Native.String.{String}
use lucky_tag.Config.Agent.{as_runtime, protocol_for_runtime, default_provider_for_runtime}
use lucky_tag.Config.App.{is_app_config}
use lucky_tag.Config.Value.{Value, Values, Fields, Number, Url, get, is_record, is_literal, text_of}
use lucky_tag.Contracts.{
  AgentRuntimeKind, AgentModelProtocol, openai_responses, anthropic_messages, AgentProviderId,
  openai, anthropic, sample_cloud, openrouter, azure_openai, aws_bedrock, ollama, custom,
}
use lucky_tag.Text.{Text, lit, text_eq, is_empty, trim}
use lucky_tag.Worker.Effects.{Result, ok, err}

-- `{ ...object, [key]: value }`: a known key keeps its place.
unfoldable pub set_field : Text → Value → Fields → Fields
set_field key v Fields.empty = Fields.field key v Fields.empty
set_field key v (Fields.field k u fields) =
    if text_eq k key then Fields.field k v fields else Fields.field k u (set_field key v fields)

unfoldable pub with_field : String → Value → Value → Value
with_field key v (Value.object fields) = Value.object (set_field (lit key) v fields)
with_field key v u = u

abbrev text : String → Value
text t = Value.string (lit t)

unfoldable pub protocol_text : AgentModelProtocol → Value
protocol_text openai_responses = text "openai-responses"
protocol_text anthropic_messages = text "anthropic-messages"

unfoldable pub provider_text : AgentProviderId → Value
provider_text openai = text "openai"
provider_text anthropic = text "anthropic"
provider_text sample_cloud = text "sample-cloud"
provider_text openrouter = text "openrouter"
provider_text azure_openai = text "azure-openai"
provider_text aws_bedrock = text "aws-bedrock"
provider_text ollama = text "ollama"
provider_text custom = text "custom"

abbrev field_of : String → Value → Fields → Fields
field_of key v fields = Fields.field (lit key) v fields

unfoldable pub default_agent_configuration : Value
default_agent_configuration = Value.object (
    field_of "enabled" (Value.boolean false) (
      field_of "runtime" (text "codex") (
        field_of "mode" (text "runtime-default") (
          field_of "model"
            (Value.object (
              field_of "provider" (text "openai") (
                field_of "protocol" (text "openai-responses") (
                  field_of "authentication" (text "api-key") (
                    field_of "name" (text "") (
                      field_of "baseUrl" (text "")
                        (field_of "apiKeyConfigured" (Value.boolean false) Fields.empty)))))))
            Fields.empty))))

unfoldable pub is_version : ℕ → Value → Bool
is_version n (Value.number (Number.whole m)) = m == n
is_version n _ = false

-- The value with the fields of `keys` only, in their order.
unfoldable pub pick : List String → Value → Fields
pick [] v = Fields.empty
pick (key ∷ keys) v = Fields.field (lit key) (get key v) (pick keys v)

unfoldable pub map_items : (Value → Value) → Value → Value
map_items f (Value.array vs) = Value.array (go vs)
  where
    go : Values → Values
    go Values.nil = Values.nil
    go (Values.cons u us) = Values.cons (f u) (go us)
map_items f v = v

unfoldable pub canonical_source : Value → Value
canonical_source v =
    if is_literal "local-directory" (get "type" v)
    then Value.object (pick ("id" ∷ "type" ∷ "label" ∷ "path" ∷ "enabled" ∷ []) v)
    else (if is_literal "sampleLibrary-doc" (get "type" v)
        then Value.object (pick ("id" ∷ "type" ∷ "label" ∷ "routeOrUrl" ∷ "enabled" ∷ []) v)
        else Value.object (pick ("id" ∷ "type" ∷ "label" ∷ "namespace" ∷ "enabled" ∷ []) v))

unfoldable pub canonical_group : Value → Value
canonical_group v = Value.object (pick ("id" ∷ "label" ∷ "enabled" ∷ []) v)

unfoldable pub canonical_policy : Value → Value
canonical_policy v = Value.object (
    pick
      ("enabled" ∷ "dryRun" ∷ "pollIntervalSeconds" ∷ "lookbackMinutes" ∷ "confidenceThreshold"
        ∷ "maxReplyLength" ∷ "maxRepliesPerHour" ∷ "followUpHours" ∷ "markExistingIgnored" ∷ [])
      v)

unfoldable pub canonical_model : Value → Value
canonical_model v = Value.object (
    pick ("provider" ∷ "protocol" ∷ "authentication" ∷ "name" ∷ "baseUrl" ∷ "apiKeyConfigured" ∷ [])
      v)

unfoldable pub canonical_agent : Value → Value
canonical_agent v = Value.object (
    field_of "enabled" (get "enabled" v) (
      field_of "runtime" (get "runtime" v) (
        field_of "mode" (get "mode" v)
          (field_of "model" (canonical_model (get "model" v)) Fields.empty))))

unfoldable pub canonical_app_config : Value → Value
canonical_app_config v = Value.object (
    field_of "version" (Value.number (Number.whole 3)) (
      field_of "onboardingComplete" (get "onboardingComplete" v) (
        field_of "groups" (map_items canonical_group (get "groups" v)) (
          field_of "knowledgeSources" (map_items canonical_source (get "knowledgeSources" v)) (
            field_of "replyPolicy" (canonical_policy (get "replyPolicy" v))
              (field_of "agent" (canonical_agent (get "agent" v)) Fields.empty))))))

module _ (parse_url : Text → Option Url) where
  abbrev provider_at : AgentRuntimeKind → Option Url → AgentProviderId
  provider_at runtime none = default_provider_for_runtime runtime
  provider_at runtime (some url) =
      if text_eq url.hostname (lit "api.openai.com")
      then openai
      else (if text_eq url.hostname (lit "api.anthropic.com")
          then anthropic
          else (if text_eq url.hostname (lit "api.example.invalid")
              then sample_cloud
              else (if text_eq url.hostname (lit "openrouter.ai") then openrouter else custom)))

  -- A loopback host gives 'custom', like every other.
  unfoldable pub infer_provider : AgentRuntimeKind → Text → AgentProviderId
  infer_provider runtime base_url = provider_at runtime (parse_url base_url)

  abbrev pub if_valid : Value → Option Value
  if_valid migrated = if is_app_config parse_url migrated then some migrated else none

  abbrev pub migrated_v1 : Value → Value
  migrated_v1 v =
      with_field "agent" default_agent_configuration
        (with_field "version" (Value.number (Number.whole 3)) v)

  unfoldable pub migrate_legacy_v1_config : Value → Option Value
  migrate_legacy_v1_config v =
      if is_record v && is_version 1 (get "version" v) then if_valid (migrated_v1 v) else none

  -- The mode of a version 2 agent: its own, or one that its model's name tells.
  unfoldable pub legacy_mode : Value → Value
  legacy_mode agent =
      if is_literal "runtime-default" (get "mode" agent)
        || is_literal "custom-model" (get "mode" agent)
      then get "mode" agent
      else (if is_empty (trim (text_of (get "name" (get "model" agent))))
          then text "runtime-default"
          else text "custom-model")

  unfoldable pub migrated_model : AgentRuntimeKind → Value → Value → Value
  migrated_model runtime mode model =
      let known = with_field "authentication" (text "api-key") (
        with_field "protocol" (protocol_text (protocol_for_runtime runtime)) (
          with_field "provider"
            (provider_text (
              if is_literal "runtime-default" mode
              then default_provider_for_runtime runtime
              else infer_provider runtime (text_of (get "baseUrl" model))))
            model)) in
      if is_literal "runtime-default" mode
      then with_field "apiKeyConfigured" (Value.boolean false)
          (with_field "baseUrl" (text "") (with_field "name" (text "") known))
      else known

  abbrev pub migrated_agent : AgentRuntimeKind → Value → Value
  migrated_agent runtime agent =
      with_field "model" (migrated_model runtime (legacy_mode agent) (get "model" agent))
        (with_field "mode" (legacy_mode agent) agent)

  abbrev pub migrated_v2 : AgentRuntimeKind → Value → Value
  migrated_v2 runtime v =
      with_field "agent" (migrated_agent runtime (get "agent" v))
        (with_field "version" (Value.number (Number.whole 3)) v)

  abbrev pub with_runtime : Value → Option AgentRuntimeKind → Option Value
  with_runtime v none = none
  with_runtime v (some runtime) = if_valid (migrated_v2 runtime v)

  unfoldable pub migrate_legacy_v2_config : Value → Option Value
  migrate_legacy_v2_config v =
      if is_record v
        && is_version 2 (get "version" v)
        && is_record (get "agent" v)
        && is_record (get "model" (get "agent" v))
      then with_runtime v (as_runtime (get "runtime" (get "agent" v)))
      else none

  abbrev pub first_migrated : Option Value → Option Value → Result Value
  first_migrated (some migrated) version_2 = ok (canonical_app_config migrated)
  first_migrated none (some migrated) = ok (canonical_app_config migrated)
  first_migrated none none = err (lit "配置格式不合法，无法迁移")

  unfoldable pub migrate_app_config : Value → Result Value
  migrate_app_config v =
      if is_app_config parse_url v
      then ok (canonical_app_config v)
      else first_migrated (migrate_legacy_v1_config v) (migrate_legacy_v2_config v)
