-- ===== src/Config/Agent.antt =====
-- shared/validation.ts: providers, protocols, model addresses, and the agent's part of a configuration.
use lucky_tag.Common.{Bool, true, false, not, ◌&&◌, ◌||◌, Option, none, some, if◌then◌else◌}
use lucky_tag.Config.Value.{Value, Url, is_literal, is_non_empty_string, has_control_characters}
use lucky_tag.Contracts.{
  AgentRuntimeKind, codex, claude_code, AgentConfigurationMode, runtime_default, custom_model,
  AgentProviderId, openai, anthropic, sample_cloud, openrouter, azure_openai, aws_bedrock, ollama,
  custom, AgentModelProtocol, openai_responses, anthropic_messages, AgentAuthenticationKind,
  api_key, unauthenticated,
}
use lucky_tag.Text.{Text, lit, text_eq, is_empty}

unfoldable pub as_runtime : Value → Option AgentRuntimeKind
as_runtime v =
    if is_literal "codex" v
    then some codex
    else (if is_literal "claude-code" v then some claude_code else none)

unfoldable pub as_mode : Value → Option AgentConfigurationMode
as_mode v =
    if is_literal "runtime-default" v
    then some runtime_default
    else (if is_literal "custom-model" v then some custom_model else none)

unfoldable pub as_protocol : Value → Option AgentModelProtocol
as_protocol v =
    if is_literal "openai-responses" v
    then some openai_responses
    else (if is_literal "anthropic-messages" v then some anthropic_messages else none)

unfoldable pub as_authentication : Value → Option AgentAuthenticationKind
as_authentication v =
    if is_literal "api-key" v
    then some api_key
    else (if is_literal "none" v then some unauthenticated else none)

unfoldable pub as_provider : Value → Option AgentProviderId
as_provider v =
    if is_literal "openai" v
    then some openai
    else (if is_literal "anthropic" v
        then some anthropic
        else (if is_literal "sample-cloud" v
            then some sample_cloud
            else (if is_literal "openrouter" v
                then some openrouter
                else (if is_literal "azure-openai" v
                    then some azure_openai
                    else (if is_literal "aws-bedrock" v
                        then some aws_bedrock
                        else (if is_literal "ollama" v
                            then some ollama
                            else (if is_literal "custom" v then some custom else none)))))))

unfoldable pub protocol_for_runtime : AgentRuntimeKind → AgentModelProtocol
protocol_for_runtime codex = openai_responses
protocol_for_runtime claude_code = anthropic_messages

unfoldable pub default_provider_for_runtime : AgentRuntimeKind → AgentProviderId
default_provider_for_runtime codex = openai
default_provider_for_runtime claude_code = anthropic

unfoldable pub same_protocol : AgentModelProtocol → AgentModelProtocol → Bool
same_protocol openai_responses openai_responses = true
same_protocol anthropic_messages anthropic_messages = true
same_protocol _ _ = false

unfoldable pub provider_supports_protocol : AgentProviderId → AgentModelProtocol → Bool
provider_supports_protocol custom protocol = true
provider_supports_protocol aws_bedrock protocol = true
provider_supports_protocol anthropic anthropic_messages = true
provider_supports_protocol _ anthropic_messages = false
provider_supports_protocol anthropic openai_responses = false
provider_supports_protocol _ openai_responses = true

unfoldable pub provider_allows_no_authentication : AgentProviderId → Bool
provider_allows_no_authentication ollama = true
provider_allows_no_authentication custom = true
provider_allows_no_authentication _ = false

unfoldable pub is_loopback_host : Text → Bool
is_loopback_host hostname =
    text_eq hostname (lit "localhost")
    || text_eq hostname (lit "127.0.0.1")
    || text_eq hostname (lit "::1")
    || text_eq hostname (lit "[::1]")

module _ (parse_url : Text → Option Url) where
  abbrev pub is_model_url : Option Url → Bool
  is_model_url none = false
  is_model_url (some url) =
      is_empty url.username
      && is_empty url.password
      && is_empty url.hash
      && (text_eq url.protocol (lit "https:")
          || (text_eq url.protocol (lit "http:") && is_loopback_host url.hostname))

  unfoldable pub is_agent_base_url : Text → Bool
  is_agent_base_url text =
      is_non_empty_string 2048 (Value.string text)
      && not (has_control_characters text)
      && is_model_url (parse_url text)

  abbrev pub is_loopback_url : Option Url → Bool
  is_loopback_url none = false
  is_loopback_url (some url) = is_loopback_host url.hostname

  unfoldable pub is_loopback_model_url : Text → Bool
  is_loopback_model_url text = is_loopback_url (parse_url text)
