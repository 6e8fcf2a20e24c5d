-- ===== src/Agent/Runtime.antt =====
-- daemon/agent-runtime.ts: where the programs of the runtimes are: `runtimeInvocation`, `trustedClaudeChildPath`
-- and what they call.
mod Claude
use lucky_tag.Common.{
  ℕ, Bool, true, false, not, ◌==◌, ◌≡◌, ◌∙◌, refl, ap, Option, none, some, List, [], ◌∷◌, ◌++◌,
  filter, find, if◌then◌else◌,
}
use lucky_tag.Act.{and_then}
use lucky_tag.Agent.{RuntimeInvocation}
use lucky_tag.Agent.Specification.{Process, or_text, trimmed}
use lucky_tag.Agent.Trust.{
  Files, ClaudeCliTrustPolicy, untrusted_claude_runtime_error, resolve_trusted_claude_cli,
}
use lucky_tag.Contracts.{AgentRuntimeKind, codex, claude_code}
use lucky_tag.Text.{Text, lit, is_empty, join, truthy, distinct, distinct_from}
use lucky_tag.Worker.Effects.{Result, ok, err}

-- What is given: the files, `process.env`, `process.execPath`, `process.getuid`, `readdirSync` with what
-- `isDirectory` says of each entry, the delimiter of paths, and `JSON.stringify` of a text.
pub record Machine : Type 0 where
  pub files : Files
  pub env : Text → Option Text
  pub exec_path : Text
  pub uid : Option ℕ
  pub read_directory : Text → Result (List (Text × Bool))
  pub delimiter : ℕ
  pub stringify : Text → Text

abbrev pub policy_of : Option ℕ → Result ClaudeCliTrustPolicy
policy_of none = err untrusted_claude_runtime_error
policy_of (some uid) = ok (record {
  package_name = lit "@anthropic-ai/claude-code";
  version = lit "2.1.112";
  sha256 = lit "bc3358282800e3e99daa8e71ac5b7b1566bd0d7ca7eb94f714a7859365d3163f";
  package_sha256 = lit "56cd40fd6b7bb73da50ec9259805e3363150a5bc218b69d6dba5bd51a3f27cc0";
  uid = uid;
})

-- `text.split(delimiter)`: a unit before the first part
abbrev extend : ℕ → List Text → List Text
extend c [] = (c ∷ []) ∷ []
extend c (part ∷ parts) = (c ∷ part) ∷ parts

unfoldable pub split : ℕ → Text → List Text
split delimiter [] = [] ∷ []
split delimiter (c ∷ text) =
    let parts = split delimiter text in if c == delimiter then [] ∷ parts else extend c parts

abbrev pub run_by : Text → Text → RuntimeInvocation
run_by command cli_path = record { command = command; argument_prefix = cli_path ∷ [] }

module _ (m : Machine) where
  abbrev home : Text
  home = trimmed (m.env (lit "HOME"))

  -- `join(root, …names)`
  abbrev under : Text → List Text → Text
  under root [] = root
  under root (name ∷ names) = under (m.files.join_path root name) names

  abbrev directories : Text → List (Text × Bool) → List Text
  directories root [] = []
  directories root ((name, true) ∷ entries) = m.files.join_path root name ∷ directories root entries
  directories root ((name, false) ∷ entries) = directories root entries

  abbrev entries_or_none : Text → Result (List (Text × Bool)) → List Text
  entries_or_none root (ok entries) = directories root entries
  entries_or_none root (err e) = []

  unfoldable pub versioned_node_prefixes : Text → List Text
  versioned_node_prefixes root = entries_or_none root (m.read_directory root)

  unfoldable pub prefixes : Text → List Text
  unfolding versioned_node_prefixes lit
  prefixes home =
      let installed =
        m.files.dirname (m.files.dirname m.exec_path)
        ∷ lit "/opt/homebrew"
        ∷ lit "/usr/local"
        ∷ lit "/usr"
        ∷ [] in
      if is_empty home
      then installed
      else under home (lit ".petclaw" ∷ lit "node" ∷ [])
        ∷ under home (lit ".npm-global" ∷ [])
        ∷ under home (lit ".local" ∷ [])
        ∷ (installed
            ++ (versioned_node_prefixes (under home (lit ".nvm" ∷ lit "versions" ∷ lit "node" ∷ []))
                ++ versioned_node_prefixes
                    (under home (lit ".asdf" ∷ lit "installs" ∷ lit "nodejs" ∷ []))))

  unfoldable pub candidates_under : List Text → List Text
  unfolding lit
  candidates_under [] = []
  candidates_under (root ∷ roots) =
      under root (lit "bin" ∷ lit "claude" ∷ [])
      ∷ under root (
          lit "lib"
          ∷ lit "node_modules"
          ∷ lit "@anthropic-ai"
          ∷ lit "claude-code"
          ∷ lit "cli.js"
          ∷ [])
      ∷ candidates_under roots

  unfoldable pub trusted_claude_cli_candidates : List Text
  unfolding candidates_under prefixes distinct_from
  trusted_claude_cli_candidates = candidates_under (distinct (prefixes home))

  unfoldable pub resolve_trusted_claude_invocation : Result RuntimeInvocation
  unfolding resolve_trusted_claude_cli trusted_claude_cli_candidates
  resolve_trusted_claude_invocation = and_then (policy_of m.uid) λ policy.
      and_then (m.files.realpath m.exec_path) λ command.
        and_then (resolve_trusted_claude_cli m.files policy trusted_claude_cli_candidates)
          λ cli_path. ok (run_by command cli_path)

  abbrev is_ok : Result (Unit {0}) → Bool
  is_ok (ok u) = true
  is_ok (err e) = false

  abbrev pub is_executable_file : Text → Bool
  is_executable_file path = is_ok (m.files.access path)

  abbrev in_each : List Text → List Text
  in_each [] = []
  in_each (directory ∷ directories) =
      m.files.join_path directory (lit "codex") ∷ in_each directories

  abbrev or_name : Option Text → Text
  or_name none = lit "codex"
  or_name (some path) = path

  unfoldable pub codex_candidates : List Text
  unfolding split filter lit
  codex_candidates =
      let path = or_text (m.env (lit "PATH")) [] in
      lit "/Applications/ChatGPT.app/Contents/Resources/codex"
      ∷ ((if is_empty home
            then []
            else under home (lit ".local" ∷ lit "bin" ∷ lit "codex" ∷ []) ∷ [])
          ++ (lit "/opt/homebrew/bin/codex"
              ∷ lit "/usr/local/bin/codex"
              ∷ in_each (filter (λ part. not (is_empty part)) (split m.delimiter path))))

  unfoldable pub runtime_command : AgentRuntimeKind → Text
  unfolding codex_candidates distinct_from find lit
  runtime_command runtime =
      let override = trimmed (m.env (lit "LUCKYTAG_CODEX_PATH")) in
      let found = or_name (truthy (find is_executable_file (distinct codex_candidates))) in
      elim runtime [ codex ↦ if is_empty override then found else override | claude_code ↦ found ]

  unfoldable pub runtime_invocation :
      (AgentRuntimeKind → Option Text) → AgentRuntimeKind → Result RuntimeInvocation
  unfolding resolve_trusted_claude_invocation runtime_command
  runtime_invocation overrides runtime =
      let override = trimmed (overrides runtime) in
      let own : Result RuntimeInvocation = elim runtime [
        | claude_code ↦ resolve_trusted_claude_invocation
        | codex ↦ ok (record { command = runtime_command codex; argument_prefix = [] })
      ] in
      if is_empty override then own else ok (record { command = override; argument_prefix = [] })

  unfoldable pub trusted_claude_child_path : Result Text
  unfolding join lit
  trusted_claude_child_path = and_then (m.files.realpath m.exec_path) λ node. ok (
      join (m.delimiter ∷ [])
        (m.files.dirname node ∷ lit "/usr/bin" ∷ lit "/bin" ∷ lit "/usr/sbin" ∷ lit "/sbin" ∷ []))

  -- What `executionSpecification` asks of the process, on this machine
  abbrev pub process_of : (AgentRuntimeKind → Option Text) → Process
  process_of overrides = record {
    env = m.env;
    join_path = m.files.join_path;
    stringify = m.stringify;
    trusted_claude_child_path = trusted_claude_child_path;
    runtime_invocation = runtime_invocation overrides;
  }
