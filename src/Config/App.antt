-- ===== src/Config/App.antt =====
-- shared/validation.ts: `isAgentConfiguration` and `isAppConfig`.
use lucky_tag.Common.{Bool, true, false, not, ◌&&◌, ◌==◌, Option, some, List, [], ◌∷◌, leb, length}
use lucky_tag.Config.Agent.{
  as_runtime, as_mode, as_protocol, as_authentication, as_provider, protocol_for_runtime,
  same_protocol, provider_supports_protocol, provider_allows_no_authentication, is_agent_base_url,
  is_loopback_model_url,
}
use lucky_tag.Config.Value.{
  Value, Values, Number, Url, is_record, get, is_boolean, is_text, text_of, is_integer_within,
  is_fraction, is_non_empty_string, is_external_id, is_knowledge_source, has_control_characters,
}
use lucky_tag.Contracts.{
  AgentRuntimeKind, AgentConfigurationMode, runtime_default, custom_model, AgentProviderId,
  AgentModelProtocol, AgentAuthenticationKind, api_key, unauthenticated,
}
use lucky_tag.Text.{Text, is_empty, trim, distinct}

unfoldable pub is_version_3 : Value → Bool
is_version_3 (Value.number (Number.whole n)) = n == 3
is_version_3 _ = false

unfoldable pub is_true : Value → Bool
is_true (Value.boolean b) = b
is_true _ = false

unfoldable pub items : Values → List Value
items Values.nil = []
items (Values.cons v vs) = v ∷ items vs

unfoldable pub every_item : (Value → Bool) → Values → Bool
every_item test Values.nil = true
every_item test (Values.cons v vs) = test v && every_item test vs

unfoldable pub ids_of : Values → List Text
ids_of Values.nil = []
ids_of (Values.cons v vs) = text_of (get "id" v) ∷ ids_of vs

-- `new Set(ids).size === ids.length`
unfoldable pub all_distinct : List Text → Bool
all_distinct ids = length (distinct ids) == length ids

-- An array of at most 100 entries that pass a test, with distinct ids.
unfoldable pub is_list_of : (Value → Bool) → Value → Bool
is_list_of test (Value.array vs) =
    leb (length (ids_of vs)) 100 && every_item test vs && all_distinct (ids_of vs)
is_list_of test _ = false

unfoldable pub is_group : Value → Bool
is_group v =
    is_record v
    && is_external_id (get "id" v)
    && is_non_empty_string 120 (get "label" v)
    && is_boolean (get "enabled" v)

unfoldable pub is_reply_policy : Value → Bool
is_reply_policy policy =
    is_record policy
    && is_boolean (get "enabled" policy)
    && is_boolean (get "dryRun" policy)
    && is_integer_within 60 3600 (get "pollIntervalSeconds" policy)
    && is_integer_within 1 1440 (get "lookbackMinutes" policy)
    && is_fraction (get "confidenceThreshold" policy)
    && is_integer_within 100 4000 (get "maxReplyLength" policy)
    && is_integer_within 1 100 (get "maxRepliesPerHour" policy)
    && is_integer_within 1 24 (get "followUpHours" policy)
    && is_boolean (get "markExistingIgnored" policy)

module _ (parse_url : Text → Option Url) where
  abbrev is_custom_model : AgentProviderId → AgentAuthenticationKind → Value → Bool
  is_custom_model provider unauthenticated model =
      not (is_true (get "apiKeyConfigured" model))
      && provider_allows_no_authentication provider
      && is_loopback_model_url parse_url (text_of (get "baseUrl" model))
  is_custom_model provider api_key model = true

  abbrev is_default_model : AgentAuthenticationKind → Value → Bool
  is_default_model api_key model =
      is_empty (text_of (get "name" model))
      && is_empty (text_of (get "baseUrl" model))
      && not (is_true (get "apiKeyConfigured" model))
  is_default_model unauthenticated model = false

  abbrev is_model_of :
      AgentConfigurationMode → AgentProviderId → AgentAuthenticationKind → Value → Bool
  is_model_of custom_model provider authentication model =
      not (is_empty (trim (text_of (get "name" model))))
      && is_agent_base_url parse_url (text_of (get "baseUrl" model))
      && is_custom_model provider authentication model
  is_model_of runtime_default provider authentication model = is_default_model authentication model

  -- The fields of known kinds, then the rest.
  abbrev agrees :
      Option AgentRuntimeKind
      → Option AgentConfigurationMode
      → Option AgentProviderId
      → Option AgentModelProtocol
      → Option AgentAuthenticationKind
      → Value
      → Bool
  agrees (some runtime) (some mode) (some provider) (some protocol) (some authentication) model =
      same_protocol protocol (protocol_for_runtime runtime)
      && provider_supports_protocol provider protocol
      && is_model_of mode provider authentication model
  agrees _ _ _ _ _ model = false

  unfoldable pub is_agent_configuration : Value → Bool
  is_agent_configuration v =
      let model = get "model" v in
      is_record v
      && is_boolean (get "enabled" v)
      && is_record model
      && is_text (get "name" model)
      && leb (length (text_of (get "name" model))) 256
      && not (has_control_characters (text_of (get "name" model)))
      && is_text (get "baseUrl" model)
      && is_boolean (get "apiKeyConfigured" model)
      && agrees (as_runtime (get "runtime" v)) (as_mode (get "mode" v))
          (as_provider (get "provider" model)) (as_protocol (get "protocol" model))
          (as_authentication (get "authentication" model)) model

  unfoldable pub is_app_config : Value → Bool
  is_app_config v =
      is_record v
      && is_version_3 (get "version" v)
      && is_boolean (get "onboardingComplete" v)
      && is_list_of is_group (get "groups" v)
      && is_list_of (is_knowledge_source parse_url) (get "knowledgeSources" v)
      && is_agent_configuration (get "agent" v)
      && is_reply_policy (get "replyPolicy" v)
