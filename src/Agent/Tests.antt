-- ===== src/Agent/Tests.antt =====
-- A request to Codex with a model of its own, under two keys; two candidates for Claude Code, the second trusted.
use lucky_tag.Common.{
  ◌≡◌, refl, Bool, true, false, not, none, some, List, [], ◌∷◌, ◌++◌, ◌||◌, All, if◌then◌else◌,
}
use lucky_tag.Agent.{AgentExecutionRequest, ExecutionSpecification}
use lucky_tag.Agent.Runtime.{Machine, run_by, runtime_invocation}
use lucky_tag.Agent.Trust.{Metadata, Files, ClaudeCliTrustPolicy, resolve_trusted_claude_cli}
use lucky_tag.Agent.Trust.Resolved.{IsChosen, resolve_trusted_claude_cli-IsChosen}
use lucky_tag.Config.Value.{Value, Fields}
use lucky_tag.Agent.Specification.{Process, execution_specification, prepare_runtime_configuration}
use lucky_tag.Agent.Specification.Isolated.{
  AgreeBeyond, allowed_names, with_key, execution_specification-IsIsolated,
}
use lucky_tag.Contracts.{
  AgentConfiguration, codex, claude_code, custom_model, openai, openai_responses, api_key,
}
use lucky_tag.Text.{Text, lit, text_eq, is_empty, member}
use lucky_tag.Worker.Effects.{Result, ok, err}

abbrev process : Process
process = record {
  env = λ name. none;
  join_path = λ s t. s;
  stringify = λ s. s;
  trusted_claude_child_path = ok (47 ∷ []);
  runtime_invocation = λ runtime. ok (record { command = 99 ∷ []; argument_prefix = [] });
}

abbrev configuration : AgentConfiguration
configuration = record {
  enabled = true;
  runtime = codex;
  mode = custom_model;
  model = record {
    provider = openai;
    protocol = openai_responses;
    authentication = api_key;
    name = 109 ∷ [];
    base_url = 104 ∷ [];
    api_key_configured = true;
  };
}

abbrev request : AgentExecutionRequest
request = record {
  prompt = 112 ∷ [];
  configuration = configuration;
  api_key = none;
  sandbox = none;
}

abbrev specification_or : Result ExecutionSpecification → ExecutionSpecification
specification_or (ok s) = s
specification_or (err e) = record { command = []; args = []; cwd = []; env = [] }

abbrev under : Text → ExecutionSpecification
unfolding execution_specification
under key = specification_or (execution_specification process (with_key request (some key)) [])

under_ok :
    execution_specification process (with_key request (some (75 ∷ []))) [] ≡ ok (under (75 ∷ []))
unfolding execution_specification
under_ok = refl

under_other :
    execution_specification process (with_key request (some (76 ∷ []))) [] ≡ ok (under (76 ∷ []))
unfolding execution_specification
under_other = refl

execution_specification-IsIsolated_example :
    AgreeBeyond codex (under (75 ∷ [])) (under (76 ∷ []))
    × (true ≡ false → under (75 ∷ []) ≡ under (76 ∷ []))
    × (prepare_runtime_configuration process (with_key request (some (75 ∷ []))) []
        ≡ prepare_runtime_configuration process (with_key request (some (76 ∷ []))) [])
    × All (λ v. member v.0 allowed_names ≡ true) (under (75 ∷ [])).env
execution_specification-IsIsolated_example =
    execution_specification-IsIsolated process request [] (some (75 ∷ [])) (some (76 ∷ [])) under_ok
      under_other

-- A file that the owner alone may write.
abbrev metadata : Bool → Metadata
metadata is_file = record {
  is_file = is_file;
  is_directory = not is_file;
  uid = 501;
  mode = 493;
  size = 1000;
}

unfoldable cli_path : Text
unfolding lit
cli_path = lit "/lib/@anthropic-ai/claude-code/cli.js"

unfoldable real_path : Text → Result Text
unfolding cli_path text_eq lit
real_path s = if text_eq s (lit "/bin/claude") then ok cli_path else err (lit "ENOENT")

abbrev files : Files
files = record {
  realpath = real_path;
  dirname = λ s. [];
  join_path = λ s t. t;
  sep = 47 ∷ [];
  is_symbolic_link = λ s. ok false;
  stat = λ s. ok (metadata (not (is_empty s)));
  read_file = ok;
  sha256_hex = λ s. s;
  parse_json = λ s. ok (
      Value.object (
        Fields.field (lit "name") (Value.string (110 ∷ []))
          (Fields.field (lit "version") (Value.string (50 ∷ [])) Fields.empty)));
  access = λ s. ok tt;
}

abbrev policy : ClaudeCliTrustPolicy
policy = record {
  package_name = 110 ∷ [];
  version = 50 ∷ [];
  sha256 = cli_path;
  package_sha256 = lit "package.json";
  uid = 501;
}

abbrev candidates : List Text
candidates = (47 ∷ []) ∷ (47 ∷ []) ∷ lit "/bin/claude" ∷ []

second_trusted : resolve_trusted_claude_cli files policy candidates ≡ ok cli_path
unfolding resolve_trusted_claude_cli real_path lucky_tag.Config.Value.lookup
second_trusted = refl

resolve_trusted_claude_cli-IsChosen_example :
    IsChosen files policy candidates (resolve_trusted_claude_cli files policy candidates)
resolve_trusted_claude_cli-IsChosen_example =
    resolve_trusted_claude_cli-IsChosen files policy candidates

-- On a machine with the pinned package under /usr, Claude Code runs by Node itself.
unfoldable installed_path : Text
unfolding lit
installed_path = lit "/usr/lib/node_modules/@anthropic-ai/claude-code/cli.js"

unfoldable installed_real_path : Text → Result Text
unfolding installed_path text_eq lit
installed_real_path s =
    if text_eq s (lit "/usr/bin/claude") || text_eq s installed_path
    then ok installed_path
    else (if text_eq s (lit "/opt/node/bin/node") then ok s else err (lit "ENOENT"))

unfoldable digest : Text → Text
unfolding installed_path text_eq lit
digest s =
    if text_eq s installed_path
    then lit "bc3358282800e3e99daa8e71ac5b7b1566bd0d7ca7eb94f714a7859365d3163f"
    else lit "56cd40fd6b7bb73da50ec9259805e3363150a5bc218b69d6dba5bd51a3f27cc0"

abbrev machine : Machine
machine = record {
  files = record files {
    realpath = installed_real_path;
    join_path = λ s t. s ++ 47 ∷ t;
    sha256_hex = digest;
    parse_json = λ s. ok (
        Value.object (
          Fields.field (lit "name") (Value.string (lit "@anthropic-ai/claude-code"))
            (Fields.field (lit "version") (Value.string (lit "2.1.112")) Fields.empty)));
  };
  env = λ name. none;
  exec_path = lit "/opt/node/bin/node";
  uid = some 501;
  read_directory = λ s. ok [];
  delimiter = 58;
  stringify = λ s. s;
}

run_by_node :
    runtime_invocation machine (λ runtime. none) claude_code
    ≡ ok (run_by (lit "/opt/node/bin/node") installed_path)
unfolding runtime_invocation installed_real_path digest lucky_tag.Config.Value.lookup
    lucky_tag.Text.trim
run_by_node = refl
