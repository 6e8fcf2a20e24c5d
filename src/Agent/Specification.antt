-- ===== src/Agent/Specification.antt =====
-- daemon/agent-runtime.ts: `executionSpecification`, `prepareRuntimeConfiguration` and what they call.
pub mod Isolated
use lucky_tag.Common.{
  ℕ, Bool, true, false, not, ◌&&◌, ◌||◌, Option, none, some, List, [], ◌∷◌, ◌++◌, if◌then◌else◌,
}
use lucky_tag.Act.{and_then}
use lucky_tag.Agent.{
  Sandbox, AgentExecutionRequest, Variables, ExecutionSpecification, RuntimeInvocation,
}
use lucky_tag.Config.Agent.{protocol_for_runtime, same_protocol}
use lucky_tag.Config.Input.{is_custom, is_open}
use lucky_tag.Contracts.{
  AgentRuntimeKind, codex, claude_code, AgentModelConfiguration, AgentConfiguration,
}
use lucky_tag.Text.{Text, lit, trim, truthy, is_empty, join}
use lucky_tag.Worker.Effects.{Result, ok, err}

-- What the process knows: `process.env`, `path.join`, `JSON.stringify` of a text, the path that children of
-- Claude Code get, and the programs of the runtimes. `process_of` of Agent/Runtime is one.
pub record Process : Type 0 where
  pub env : Text → Option Text
  pub join_path : Text → Text → Text
  pub stringify : Text → Text
  pub trusted_claude_child_path : Result Text
  pub runtime_invocation : AgentRuntimeKind → Result RuntimeInvocation

abbrev pub or_text : Option Text → Text → Text
or_text none fallback = fallback
or_text (some text) fallback = text

abbrev pub trimmed : Option Text → Text
trimmed none = []
trimmed (some text) = trim text

abbrev has_text : Option Text → Bool
has_text none = false
has_text (some text) = not (is_empty (trim text))

-- `throw codedAgentError(…)`, or go on
unfoldable pub assert_custom_model_request : AgentExecutionRequest → Result (Unit {0})
unfolding protocol_for_runtime same_protocol trim lit
assert_custom_model_request request =
    let model = request.configuration.model in
    if not (same_protocol model.protocol (protocol_for_runtime request.configuration.runtime))
    then err (lit "所选 Agent Runtime 与模型协议不兼容")
    else (if is_empty (trim model.name) || is_empty (trim model.base_url)
        then err (lit "自定义模型名称或 URL 未配置")
        else (if not (is_open model.authentication) && not (has_text request.api_key)
            then err (lit "自定义模型 Key 尚未配置")
            else ok tt))

unfoldable pub claude_ephemeral_environment : Variables
unfolding lit
claude_ephemeral_environment =
    (lit "CLAUDE_CODE_SKIP_PROMPT_HISTORY", lit "1")
    ∷ (lit "CLAUDE_AGENT_SDK_DISABLE_BUILTIN_AGENTS", lit "1")
    ∷ (lit "CLAUDE_CODE_DISABLE_BACKGROUND_TASKS", lit "1")
    ∷ (lit "CLAUDE_CODE_DISABLE_CRON", lit "1")
    ∷ (lit "CLAUDE_CODE_DISABLE_AUTO_MEMORY", lit "1")
    ∷ (lit "CLAUDE_CODE_DISABLE_CLAUDE_MDS", lit "1")
    ∷ (lit "CLAUDE_CODE_DISABLE_NONESSENTIAL_TRAFFIC", lit "1")
    ∷ (lit "DISABLE_AUTOUPDATER", lit "1")
    ∷ (lit "DISABLE_TELEMETRY", lit "1")
    ∷ (lit "DISABLE_ERROR_REPORTING", lit "1")
    ∷ (lit "DISABLE_FEEDBACK_COMMAND", lit "1")
    ∷ (lit "MCP_CONNECTION_NONBLOCKING", lit "true")
    ∷ []

unfoldable pub network_names : List Text
unfolding lit
network_names =
    lit "HTTP_PROXY"
    ∷ lit "HTTPS_PROXY"
    ∷ lit "NO_PROXY"
    ∷ lit "http_proxy"
    ∷ lit "https_proxy"
    ∷ lit "no_proxy"
    ∷ lit "SSL_CERT_FILE"
    ∷ lit "SSL_CERT_DIR"
    ∷ lit "NODE_EXTRA_CA_CERTS"
    ∷ []

unfoldable pub claude_execution_args : Option Text → Bool → List Text
unfolding lit
claude_execution_args model_name bare =
    (if bare then lit "--bare" ∷ [] else [])
    ++ (lit "-p"
        ∷ (elim model_name [ none ↦ [] | some name ↦ lit "--model" ∷ name ∷ [] ]
            ++ (lit "--output-format"
                ∷ lit "text"
                ∷ lit "--tools"
                ∷ []
                ∷ lit "--mcp-config"
                ∷ lit "{\"mcpServers\":{}}"
                ∷ lit "--strict-mcp-config"
                ∷ lit "--no-session-persistence"
                ∷ lit "--disable-slash-commands"
                ∷ lit "--no-chrome"
                ∷ ((if bare then [] else lit "--setting-sources" ∷ [] ∷ [])
                    ++ lit "--settings" ∷ lit "{\"disableAllHooks\":true}" ∷ []))))

abbrev sandbox_of : Option Sandbox → Text
sandbox_of (some Sandbox.workspace_write) = lit "workspace-write"
sandbox_of _ = lit "read-only"

unfoldable pub codex_args : Option Sandbox → List Text → List Text
unfolding lit
codex_args sandbox model =
    lit "exec"
    ∷ lit "--skip-git-repo-check"
    ∷ lit "--ephemeral"
    ∷ lit "--ignore-rules"
    ∷ lit "--sandbox"
    ∷ sandbox_of sandbox
    ∷ (model ++ lit "-" ∷ [])

module _ (p : Process) where
  abbrev pub one_variable : Text → Option Text → Variables
  one_variable name none = []
  one_variable name (some value) = (name, value) ∷ []

  unfoldable pub allowlisted_environment : List Text → Variables
  allowlisted_environment [] = []
  allowlisted_environment (name ∷ names) =
      one_variable name (truthy (p.env name)) ++ allowlisted_environment names

  abbrev home_codex : Text → Text
  home_codex [] = []
  home_codex (c ∷ home) = p.join_path (c ∷ home) (lit ".codex")

  unfoldable pub codex_default_configuration_environment : Variables
  unfolding trim lit
  codex_default_configuration_environment =
      let home = trimmed (p.env (lit "HOME")) in
      let codex_home =
        or_text (truthy (some (trimmed (p.env (lit "CODEX_HOME"))))) (home_codex home) in
      one_variable (lit "CODEX_HOME") (truthy (some codex_home))

  unfoldable pub path_of : AgentRuntimeKind → Result Text
  unfolding lit
  path_of claude_code = p.trusted_claude_child_path
  path_of codex =
      ok (
        or_text (truthy (p.env (lit "PATH")))
          (lit "/usr/local/bin:/opt/homebrew/bin:/usr/bin:/bin"))

  -- `common`, at its PATH
  unfoldable pub common_environment : Text → Text → Variables
  unfolding allowlisted_environment network_names lit
  common_environment path session_root =
      (lit "PATH", path)
      ∷ (lit "LANG", or_text (truthy (p.env (lit "LANG"))) (lit "en_US.UTF-8"))
      ∷ (lit "HOME", session_root)
      ∷ (lit "TMPDIR", session_root)
      ∷ (lit "NO_COLOR", lit "1")
      ∷ allowlisted_environment network_names

  abbrev pub key_of : AgentExecutionRequest → Text
  key_of request = or_text request.api_key (lit "luckytag-local-no-auth")

  -- The specification once the program and its PATH are known
  unfoldable pub specification_of :
      AgentExecutionRequest
      → Text
      → RuntimeInvocation
      → Variables
      → AgentRuntimeKind
      → Bool
      → ExecutionSpecification
  unfolding codex_args codex_default_configuration_environment claude_execution_args
      claude_ephemeral_environment lit
  specification_of request session_root invocation common codex false = record {
    command = invocation.command;
    args = invocation.argument_prefix ++ codex_args request.sandbox [];
    cwd = session_root;
    env = common ++ codex_default_configuration_environment;
  }
  specification_of request session_root invocation common codex true = record {
    command = invocation.command;
    args =
        invocation.argument_prefix
        ++ codex_args request.sandbox (lit "--model" ∷ request.configuration.model.name ∷ []);
    cwd = session_root;
    env =
        common
        ++ (lit "CODEX_HOME", p.join_path session_root (lit ".codex"))
          ∷ (lit "OPENAI_API_KEY", key_of request)
          ∷ (lit "OPENAI_BASE_URL", request.configuration.model.base_url)
          ∷ [];
  }
  specification_of request session_root invocation common claude_code false = record {
    command = invocation.command;
    args = invocation.argument_prefix ++ claude_execution_args none false;
    cwd = session_root;
    env = common ++ claude_ephemeral_environment;
  }
  specification_of request session_root invocation common claude_code true = record {
    command = invocation.command;
    args =
        invocation.argument_prefix
        ++ claude_execution_args (truthy (some request.configuration.model.name)) true;
    cwd = session_root;
    env =
        common
        ++ (claude_ephemeral_environment
            ++ (lit "ANTHROPIC_API_KEY", key_of request)
              ∷ (lit "ANTHROPIC_BASE_URL", request.configuration.model.base_url)
              ∷ []);
  }

  -- A model of one's own is checked first.
  abbrev pub checked : AgentExecutionRequest → Bool → Result (Unit {0})
  checked request true = assert_custom_model_request request
  checked request false = ok tt

  unfoldable pub execution_specification :
      AgentExecutionRequest → Text → Result ExecutionSpecification
  unfolding assert_custom_model_request path_of common_environment specification_of
  execution_specification request session_root =
      let runtime = request.configuration.runtime in
      let custom = is_custom request.configuration.mode in
      and_then (p.runtime_invocation runtime) λ invocation. and_then (path_of runtime) λ path.
        and_then (checked request custom) λ _. ok (
          specification_of request session_root invocation (common_environment path session_root)
            runtime custom)

  -- The text of `config.toml`
  unfoldable pub config_toml : AgentModelConfiguration → Text
  unfolding join lit
  config_toml model = join (lit "\n") (
      lit "model_provider = \"luckytag_custom\""
      ∷ []
      ∷ lit "[model_providers.luckytag_custom]"
      ∷ lit "name = \"LuckyTag custom model\""
      ∷ (lit "base_url = " ++ p.stringify model.base_url)
      ∷ lit "env_key = \"OPENAI_API_KEY\""
      ∷ lit "wire_api = \"responses\""
      ∷ []
      ∷ [])

  abbrev pub file_of :
      AgentExecutionRequest → Text → AgentRuntimeKind → Bool → Result (Option (Text × Text))
  file_of request session_root codex true = and_then (assert_custom_model_request request) λ _. ok (
      some (
        p.join_path (p.join_path session_root (lit ".codex")) (lit "config.toml"),
        config_toml request.configuration.model,
      ))
  file_of request session_root _ _ = ok none

  -- The file that is written, with its path
  unfoldable pub prepare_runtime_configuration :
      AgentExecutionRequest → Text → Result (Option (Text × Text))
  unfolding assert_custom_model_request config_toml lit
  prepare_runtime_configuration request session_root =
      file_of request session_root request.configuration.runtime
        (is_custom request.configuration.mode)
