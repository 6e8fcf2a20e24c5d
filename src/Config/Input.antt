-- ===== src/Config/Input.antt =====
-- shared/validation.ts: `assertAgentConfigurationInput`.
use lucky_tag.Common.{
  Bool, true, false, not, ◌&&◌, ◌||◌, Option, none, some, ltb, if◌then◌else◌, length,
}
use Prim.Native.String.{String}
use lucky_tag.Config.Agent.{
  as_runtime, as_mode, as_protocol, as_authentication, as_provider, protocol_for_runtime,
  same_protocol, default_provider_for_runtime, provider_supports_protocol,
  provider_allows_no_authentication, is_agent_base_url, is_loopback_model_url,
}
use lucky_tag.Config.App.{is_true}
use lucky_tag.Config.Value.{Value, Url, is_record, get, is_boolean, text_of, has_control_characters}
use lucky_tag.Contracts.{
  AgentRuntimeKind, AgentConfigurationMode, runtime_default, custom_model, AgentProviderId,
  AgentModelProtocol, AgentAuthenticationKind, api_key, unauthenticated,
}
use lucky_tag.Text.{Text, lit, is_empty, trim}
use lucky_tag.Worker.Effects.{Result, ok, err}

pub record AgentConfigurationInput : Type 0 where
  pub enabled : Bool
  pub runtime : AgentRuntimeKind
  pub mode : AgentConfigurationMode
  pub provider : AgentProviderId
  pub protocol : AgentModelProtocol
  pub authentication : AgentAuthenticationKind
  pub model_name : Text
  pub base_url : Text
  pub api_key : Option Text
  pub clear_api_key : Bool

-- `if (test) throw invalidAgentInput(message)`
unfoldable pub reject_if :
    Bool → String → Result AgentConfigurationInput → Result AgentConfigurationInput
reject_if true message rest = err (lit message)
reject_if false message rest = rest

abbrev pub is_custom : AgentConfigurationMode → Bool
is_custom custom_model = true
is_custom runtime_default = false

abbrev pub is_open : AgentAuthenticationKind → Bool
is_open unauthenticated = true
is_open api_key = false

-- A key that is given but is no text, blank, too long, or has control characters.
unfoldable pub is_bad_key : Value → Bool
is_bad_key Value.undefined = false
is_bad_key (Value.string t) = is_empty (trim t) || ltb 8192 (length t) || has_control_characters t
is_bad_key _ = true

unfoldable pub is_bad_flag : Value → Bool
is_bad_flag Value.undefined = false
is_bad_flag (Value.boolean b) = false
is_bad_flag _ = true

unfoldable pub is_given_key : Value → Bool
is_given_key key = not (is_empty (text_of key))

module _ (parse_url : Text → Option Url) where
  abbrev key_of : Value → Option Text
  key_of key = if is_given_key key then some (trim (text_of key)) else none

  abbrev pub accepted :
      Bool
      → AgentRuntimeKind
      → AgentConfigurationMode
      → AgentProviderId
      → AgentAuthenticationKind
      → Text
      → Text
      → Value
      → Value
      → AgentConfigurationInput
  accepted enabled runtime mode provider authentication model_name base_url key clear = record {
    enabled = enabled;
    runtime = runtime;
    mode = mode;
    provider = if is_custom mode then provider else default_provider_for_runtime runtime;
    protocol = protocol_for_runtime runtime;
    authentication = if is_custom mode then authentication else api_key;
    model_name = model_name;
    base_url = base_url;
    api_key = key_of key;
    clear_api_key = is_true clear;
  }

  -- The checks once the kinds are known, in their order.
  unfoldable pub check_input :
      Bool
      → AgentRuntimeKind
      → AgentConfigurationMode
      → AgentProviderId
      → AgentModelProtocol
      → AgentAuthenticationKind
      → Text
      → Text
      → Value
      → Value
      → Result AgentConfigurationInput
  check_input enabled runtime mode provider protocol authentication model_name base_url key clear =
      reject_if (not (same_protocol protocol (protocol_for_runtime runtime))) "所选 Runtime 与模型协议不兼容"
        (reject_if (not (provider_supports_protocol provider protocol)) "所选 Provider 与模型协议不兼容" (
          reject_if
            (ltb 256 (length model_name)
              || has_control_characters model_name
              || (is_custom mode && is_empty model_name))
            "使用自定义模型时必须填写模型名称"
            (reject_if (is_custom mode && not (is_agent_base_url parse_url base_url))
              "模型 URL 必须使用 HTTPS，或指向本机回环地址"
              (reject_if
                (not (is_custom mode)
                  && not (is_empty base_url)
                  && not (is_agent_base_url parse_url base_url))
                "模型 URL 格式不合法"
                (reject_if (is_bad_key key) "Key 格式不合法" (
                  reject_if (is_bad_flag clear) "清除 Key 参数不合法" (
                    reject_if (is_given_key key && is_true clear) "不能同时设置和清除 Key" (
                      reject_if (not (is_custom mode) && is_open authentication)
                        "Runtime 默认配置不接受自定义认证方式"
                        (reject_if
                          (is_custom mode
                            && is_open authentication
                            && not (
                                provider_allows_no_authentication provider
                                && is_loopback_model_url parse_url base_url))
                          "无认证仅允许本机回环地址的 Ollama 或自定义服务"
                          (reject_if
                            (is_custom mode
                              && is_open authentication
                              && (is_given_key key || is_true clear))
                            "无认证模式不接收模型 Key"
                            (ok (
                              accepted enabled runtime mode provider authentication model_name
                                base_url key clear))))))))))))

  abbrev pub known_kinds :
      Value
      → Option AgentRuntimeKind
      → Option AgentConfigurationMode
      → Option AgentProviderId
      → Option AgentModelProtocol
      → Option AgentAuthenticationKind
      → Result AgentConfigurationInput
  known_kinds v none _ _ _ _ = err (lit "不支持的 Agent Runtime")
  known_kinds v (some runtime) none _ _ _ = err (lit "不支持的模型配置模式")
  known_kinds v (some runtime) (some mode) none _ _ = err (lit "不支持的模型 Provider")
  known_kinds v (some runtime) (some mode) (some provider) none _ = err (lit "不支持的模型协议")
  known_kinds v (some runtime) (some mode) (some provider) (some protocol) none =
      err (lit "不支持的认证方式")
  known_kinds v (some runtime) (some mode) (some provider) (some protocol) (some authentication) =
      check_input (is_true (get "enabled" v)) runtime mode provider protocol authentication
        (trim (text_of (get "modelName" v))) (trim (text_of (get "baseUrl" v))) (get "apiKey" v)
        (get "clearApiKey" v)

  unfoldable pub assert_agent_configuration_input : Value → Result AgentConfigurationInput
  assert_agent_configuration_input v =
      reject_if (not (is_record v && is_boolean (get "enabled" v))) "配置格式不合法" (
        known_kinds v (as_runtime (get "runtime" v)) (as_mode (get "mode" v))
          (as_provider (get "provider" v)) (as_protocol (get "protocol" v))
          (as_authentication (get "authentication" v)))
