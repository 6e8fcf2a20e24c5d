-- ===== src/Daemon/Save.antt =====
-- daemon/index.ts: `saveAgentConfiguration` and `saveApplicationConfiguration`. The queue of
-- configuration changes runs one of them at a time.
mod Keychain
mod Undo
pub mod Atomic
pub mod Saved
pub mod Live
mod Stored
mod Credential
mod StaysOff
use lucky_tag.Common.{
  Bool, true, false, not, ◌&&◌, ◌||◌, Option, none, some, List, [], ◌∷◌, ◌++◌, if◌then◌else◌,
}
use lucky_tag.Act.{Act, pure, throw, ◌>>=◌, ◌>>◌}
use lucky_tag.Config.Input.{AgentConfigurationInput, is_custom, is_open}
use lucky_tag.Contracts.{AppConfig, AgentModelConfiguration}
use lucky_tag.Daemon.{
  Scope, Options, World, same_runtime, get_credential, write_credential, get_snapshot, save_config,
  decorate_snapshot, normalize_endpoint, credential_scope, or_else, ignoring,
}
use lucky_tag.Text.{Text, lit, text_eq, truthy}
use lucky_tag.Worker.Effects.{Result, ok, err}

abbrev pub is_some {ℓ} : {A : Type ℓ} → Option A → Bool
is_some none = false
is_some (some a) = true

-- `input.apiKey` as a condition
abbrev pub has_key : AgentConfigurationInput → Bool
has_key input = is_some (truthy input.api_key)

unfoldable pub requires_api_key : AgentConfigurationInput → Bool
requires_api_key input = is_custom input.mode && not (is_open input.authentication)

abbrev pub one_if : Bool → Option Text → List (Option Text)
one_if test value = if test then value ∷ [] else []

abbrev pub given : Option Text → List (Option Text)
given none = []
given (some key) = some key ∷ []

-- The credentials that the four conditions ask to write, in order; `none` stands for a deletion.
unfoldable pub writes_of : AgentConfigurationInput → Bool → Option Text → List (Option Text)
unfolding requires_api_key
writes_of input same_credential_scope previous =
    given (truthy input.api_key)
    ++ (one_if input.clear_api_key none
        ++ (one_if (is_custom input.mode && is_open input.authentication && is_some previous) none
            ++ one_if
                (requires_api_key input
                  && not (has_key input)
                  && not input.clear_api_key
                  && not same_credential_scope
                  && is_some previous)
                none))

unfoldable pub with_agent : AgentConfigurationInput → Bool → AppConfig → AppConfig
with_agent input api_key_configured current = record current {
  agent = record {
    enabled = input.enabled;
    runtime = input.runtime;
    mode = input.mode;
    model = record {
      provider = input.provider;
      protocol = input.protocol;
      authentication = input.authentication;
      name = input.model_name;
      base_url = input.base_url;
      api_key_configured = api_key_configured;
    };
  };
}

-- `allowsLiveSending`
unfoldable pub allows_live_sending : AppConfig → Bool
allows_live_sending config = config.reply_policy.enabled && not config.reply_policy.dry_run

-- `assertNativeApprovalValue(nativeApproval, 'enable-live-sending')`
abbrev pub approves : Option Text → Bool
approves none = false
approves (some provided) = text_eq provided (lit "enable-live-sending")

module _ (o : Options) where
  unfoldable pub same_credential_scope : AppConfig → AgentConfigurationInput → Bool
  unfolding requires_api_key normalize_endpoint text_eq
  same_credential_scope current input =
      is_custom current.agent.mode
      && not (is_open current.agent.model.authentication)
      && requires_api_key input
      && same_runtime current.agent.runtime input.runtime
      && text_eq (normalize_endpoint o current.agent.model.base_url)
          (normalize_endpoint o input.base_url)

  -- The writes of the first `try`, with `credentialChanged`
  unfoldable pub run_writes : Scope → List (Option Text) → Bool → Act World Bool
  unfolding write_credential
  run_writes scope [] changed = pure changed
  run_writes scope (value ∷ values) changed =
      write_credential o scope value >> run_writes scope values true

  unfoldable pub restore_credential : Scope → Option Text → Act World (Unit {0})
  unfolding write_credential
  restore_credential scope previous = ignoring (write_credential o scope previous)

  unfoldable pub update_credential : Scope → List (Option Text) → Option Text → Act World Bool
  unfolding run_writes restore_credential lit
  update_credential scope values previous =
      or_else (run_writes scope values false)
        λ e. restore_credential scope previous >> throw (lit "无法安全更新 Agent 模型凭据")

  unfoldable pub has_credential : Bool → Scope → Act World Bool
  unfolding get_credential
  has_credential true scope = do credential ← get_credential o scope; pure (is_some credential)
  has_credential false scope = pure false

  -- The second `try`, once it is known whether there is a credential
  unfoldable pub store_with : AgentConfigurationInput → AppConfig → Bool → Act World (Unit {0})
  unfolding requires_api_key with_agent save_config decorate_snapshot lit
  store_with input current configured =
      if input.enabled && requires_api_key input && not configured
      then throw (lit "启用自定义模型前必须配置 Key")
      else (save_config o (with_agent input configured current) >> decorate_snapshot o)

  unfoldable pub store_configuration :
      AgentConfigurationInput → Scope → AppConfig → Act World (Unit {0})
  unfolding has_credential requires_api_key store_with
  store_configuration input scope current =
      has_credential (requires_api_key input) scope >>= store_with input current

  unfoldable pub restore_if : Bool → Scope → Option Text → Act World (Unit {0})
  unfolding restore_credential
  restore_if true scope previous = restore_credential scope previous
  restore_if false scope previous = pure tt

  -- Its `catch`
  unfoldable pub undo : Scope → AppConfig → Option Text → Bool → Text → Act World (Unit {0})
  unfolding restore_if save_config
  undo scope current previous changed e =
      restore_if changed scope previous >> (ignoring (save_config o current) >> throw e)

  unfoldable pub store_or_undo :
      AgentConfigurationInput → Scope → AppConfig → Option Text → Bool → Act World (Unit {0})
  unfolding store_configuration undo
  store_or_undo input scope current previous changed =
      or_else (store_configuration input scope current) (undo scope current previous changed)

  unfoldable pub previous_credential : AgentConfigurationInput → Scope → Act World (Option Text)
  unfolding get_credential
  previous_credential input scope =
      if is_custom input.mode then get_credential o scope else pure none

  -- The two `try` blocks
  unfoldable pub change_credential :
      AgentConfigurationInput → AppConfig → Scope → Option Text → Act World (Unit {0})
  unfolding writes_of same_credential_scope update_credential store_or_undo
  change_credential input current scope previous =
      update_credential scope (writes_of input (same_credential_scope current input) previous)
        previous
      >>= store_or_undo input scope current previous

  unfoldable pub change_agent : AgentConfigurationInput → AppConfig → Act World (Unit {0})
  unfolding credential_scope previous_credential change_credential
  change_agent input current =
      let scope = credential_scope o input.runtime input.base_url in
      previous_credential input scope >>= change_credential input current scope

  -- After the current configuration is read
  unfoldable pub checked_change : AgentConfigurationInput → AppConfig → Act World (Unit {0})
  unfolding requires_api_key same_credential_scope change_agent lit
  checked_change input current =
      if not (is_custom input.mode) && (has_key input || input.clear_api_key)
      then throw (lit "Runtime 默认配置模式不接收 LuckyTag 模型 Key")
      else (if input.enabled
            && requires_api_key input
            && not (has_key input)
            && not (same_credential_scope current input)
          then throw (lit "切换 Runtime 或模型 URL 后必须重新输入 Key")
          else change_agent input current)

  unfoldable pub save_agent_configuration : AgentConfigurationInput → Act World (Unit {0})
  unfolding get_snapshot checked_change
  save_agent_configuration input = get_snapshot o >>= checked_change input

  unfoldable pub save_application_configuration : AppConfig → Option Text → Act World (Unit {0})
  unfolding get_snapshot allows_live_sending save_config decorate_snapshot text_eq lit
  save_application_configuration proposed native_approval = do
    current ← get_snapshot o
    if not (allows_live_sending current)
          && allows_live_sending proposed
          && not (approves native_approval)
        then throw (lit "此敏感操作必须先通过 LuckyTag 原生确认")
        else do save_config o (record proposed { agent = current.agent }); decorate_snapshot o
