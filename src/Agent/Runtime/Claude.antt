-- ===== src/Agent/Runtime/Claude.antt =====
-- What runs for Claude Code.
use lucky_tag.Common.{◌≡◌, refl, subst, true, Option, [], ◌∷◌}
use lucky_tag.Act.{and_then, and_then-eq-ok}
use lucky_tag.Agent.{RuntimeInvocation}
use lucky_tag.Agent.Runtime.{
  Machine, policy_of, run_by, trusted_claude_cli_candidates, resolve_trusted_claude_invocation,
  runtime_invocation,
}
use lucky_tag.Agent.Specification.{trimmed}
use lucky_tag.Agent.Trust.{ClaudeCliTrustPolicy, resolve_trusted_claude_cli}
use lucky_tag.Agent.Trust.Resolved.{IsChosen, resolve_trusted_claude_cli-IsChosen}
use lucky_tag.Agent.Trust.Trusted.{IsTrusted}
use lucky_tag.Contracts.{AgentRuntimeKind, claude_code}
use lucky_tag.Text.{Text, is_empty}
use lucky_tag.Worker.Effects.{Result, ok}
use mathlib.Core.List.{Memᴰ}

abbrev resolve : Machine → ClaudeCliTrustPolicy → Result Text
resolve m policy = resolve_trusted_claude_cli m.files policy (trusted_claude_cli_candidates m)

module _ (m : Machine) where
  -- A program that this very Node runs, and that is trusted for the process's own user
  IsTrustedInvocation : RuntimeInvocation → Type 0
  IsTrustedInvocation i =
      (policy : ClaudeCliTrustPolicy) × (policy_of m.uid ≡ ok policy)
      × (m.files.realpath m.exec_path ≡ ok i.command)
      × (path : Text) × (i.argument_prefix ≡ path ∷ [])
      × (c : Text) × Memᴰ c (trusted_claude_cli_candidates m)
      × IsTrusted m.files policy c path

  resolve_trusted_claude_invocation-IsTrusted :
      {i : RuntimeInvocation} → resolve_trusted_claude_invocation m ≡ ok i → IsTrustedInvocation i
  unfolding resolve_trusted_claude_invocation IsTrustedInvocation IsChosen
  resolve_trusted_claude_invocation-IsTrusted {i} e =
      let (policy, mine, e1) =
        and_then-eq-ok (policy_of m.uid)
          (λ policy.
            and_then (m.files.realpath m.exec_path)
              λ command. and_then (resolve m policy) λ cli_path. ok (run_by command cli_path))
          e in
      let (command, node, e2) =
        and_then-eq-ok (m.files.realpath m.exec_path)
          (λ command. and_then (resolve m policy) λ cli_path. ok (run_by command cli_path)) e1 in
      let (path, resolved, last) =
        and_then-eq-ok (resolve m policy) (λ cli_path. ok (run_by command cli_path)) e2 in
      let chosen : IsChosen m.files policy (trusted_claude_cli_candidates m) (ok path) =
        subst (IsChosen m.files policy (trusted_claude_cli_candidates m)) resolved
          (resolve_trusted_claude_cli-IsChosen m.files policy (trusted_claude_cli_candidates m)) in
      let (c, there, trusted) = chosen in
      let same : run_by command path ≡ i = cc last in
      subst IsTrustedInvocation same (policy, mine, node, path, refl, c, there, trusted)

  -- Without an override, what runs for Claude Code is Node itself on a trusted program.
  runtime_invocation-IsTrusted :
      (overrides : AgentRuntimeKind → Option Text) {i : RuntimeInvocation}
      → is_empty (trimmed (overrides claude_code)) ≡ true
      → runtime_invocation m overrides claude_code ≡ ok i
      → IsTrustedInvocation i
  unfolding runtime_invocation
  runtime_invocation-IsTrusted overrides absent e =
      resolve_trusted_claude_invocation-IsTrusted (rw absent at e)
