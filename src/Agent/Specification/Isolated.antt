-- ===== src/Agent/Specification/Isolated.antt =====
-- Where an agent's key goes, and what of the environment its process sees.
use lucky_tag.Common.{
  ◌≡◌, refl, sym, ap, ◌∙◌, subst, Bool, true, false, Option, none, some, List, [], ◌∷◌, ◌++◌, map,
  every, and→both, if◌then◌else◌, All,
}
use lucky_tag.Act.{and_then, and_then-eq-ok}
use lucky_tag.Agent.{
  AgentExecutionRequest, Variables, later_or, variable, ExecutionSpecification, RuntimeInvocation,
}
use lucky_tag.Agent.Specification.{
  Process, key_of, one_variable, allowlisted_environment, network_names,
  codex_default_configuration_environment, claude_ephemeral_environment, path_of,
  common_environment, checked, specification_of, execution_specification,
  prepare_runtime_configuration, file_of,
}
use lucky_tag.Config.Input.{is_custom}
use lucky_tag.Contracts.{AgentRuntimeKind, codex, claude_code}
use lucky_tag.Text.{Text, lit, text_eq, member, truthy}
use lucky_tag.Worker.Effects.{ok}

abbrev pub key_name : AgentRuntimeKind → Text
key_name codex = lit "OPENAI_API_KEY"
key_name claude_code = lit "ANTHROPIC_API_KEY"

abbrev pub with_key : AgentExecutionRequest → Option Text → AgentExecutionRequest
with_key r key = record r { api_key = key }

-- The names of variables that an agent's process may see.
pub allowed_names : List Text
unfolding network_names lit claude_ephemeral_environment
allowed_names =
    lit "PATH"
    ∷ lit "LANG"
    ∷ lit "HOME"
    ∷ lit "TMPDIR"
    ∷ lit "NO_COLOR"
    ∷ lit "CODEX_HOME"
    ∷ lit "OPENAI_API_KEY"
    ∷ lit "OPENAI_BASE_URL"
    ∷ lit "ANTHROPIC_API_KEY"
    ∷ lit "ANTHROPIC_BASE_URL"
    ∷ (network_names ++ map (λ v. v.0) claude_ephemeral_environment)

abbrev AreAllowed : Variables → Type 0
AreAllowed = All (λ v. member v.0 allowed_names ≡ true)

All-append {ℓ κ} :
    {A : Type ℓ} (P : A → Type κ) (xs ys : List A) → All P xs → All P ys → All P (xs ++ ys)
All-append P [] ys a b = b
All-append P (x ∷ xs) ys (h, a) b = (h, All-append P xs ys a b)

All-of_every {ℓ} :
    {A : Type ℓ} (q : A → Bool) (xs : List A) → every q xs ≡ true → All (λ x. q x ≡ true) xs
unfolding every
All-of_every q [] e = tt
All-of_every q (x ∷ xs) e =
    let (here, rest) = and→both (q x) (every q xs) e in (here, All-of_every q xs rest)

-- What is added in front or behind does not tell two environments apart.
variable-append :
    (name : Text) (xs ys zs : Variables)
    → variable name ys ≡ variable name zs
    → variable name (xs ++ ys) ≡ variable name (xs ++ zs)
unfolding variable
variable-append name [] ys zs e = e
variable-append name (x ∷ xs) ys zs e =
    ap (λ v. later_or v (if text_eq x.0 name then some x.1 else none))
      (variable-append name xs ys zs e)

variable-other :
    (name other value value' : Text) (rest : Variables)
    → text_eq other name ≡ false
    → variable name ((other, value) ∷ rest) ≡ variable name ((other, value') ∷ rest)
unfolding variable
variable-other name other value value' rest e = rw e refl

-- Two specifications that differ in the variable of the key at most.
pub record AgreeBeyond (runtime : AgentRuntimeKind) (s t : ExecutionSpecification) : Type 0 where
  pub command : s.command ≡ t.command
  pub args : s.args ≡ t.args
  pub cwd : s.cwd ≡ t.cwd
  pub env :
      (name : Text)
      → text_eq (key_name runtime) name ≡ false
      → variable name s.env ≡ variable name t.env

module _ (p : Process) (r : AgentExecutionRequest) (root : Text) where
  specification_of-AgreeBeyond :
      (k k' : Option Text) (i : RuntimeInvocation) (common : Variables) (runtime : AgentRuntimeKind)
      (custom : Bool)
      → AgreeBeyond runtime
          (specification_of p (with_key r k) root i common runtime custom)
          (specification_of p (with_key r k') root i common runtime custom)
  unfolding specification_of
  specification_of-AgreeBeyond k k' i common codex false = record {
    command = refl;
    args = refl;
    cwd = refl;
    env = λ name e. refl;
  }
  specification_of-AgreeBeyond k k' i common codex true = record {
    command = refl;
    args = refl;
    cwd = refl;
    env = λ name e. variable-append name common _ _ (
        variable-append name ((lit "CODEX_HOME", p.join_path root (lit ".codex")) ∷ []) _ _ (
          variable-other name (lit "OPENAI_API_KEY") (key_of p (with_key r k))
            (key_of p (with_key r k'))
            ((lit "OPENAI_BASE_URL", r.configuration.model.base_url) ∷ []) e));
  }
  specification_of-AgreeBeyond k k' i common claude_code false = record {
    command = refl;
    args = refl;
    cwd = refl;
    env = λ name e. refl;
  }
  specification_of-AgreeBeyond k k' i common claude_code true = record {
    command = refl;
    args = refl;
    cwd = refl;
    env = λ name e. variable-append name common _ _ (
        variable-append name claude_ephemeral_environment _ _ (
          variable-other name (lit "ANTHROPIC_API_KEY") (key_of p (with_key r k))
            (key_of p (with_key r k'))
            ((lit "ANTHROPIC_BASE_URL", r.configuration.model.base_url) ∷ []) e));
  }

  specification_of-default :
      (k k' : Option Text) (i : RuntimeInvocation) (common : Variables) (runtime : AgentRuntimeKind)
      → specification_of p (with_key r k) root i common runtime false
        ≡ specification_of p (with_key r k') root i common runtime false
  unfolding specification_of
  specification_of-default k k' i common codex = refl
  specification_of-default k k' i common claude_code = refl

  one_variable-AreAllowed :
      (name : Text) (value : Option Text)
      → member name allowed_names ≡ true
      → AreAllowed (one_variable p name value)
  one_variable-AreAllowed name none e = tt
  one_variable-AreAllowed name (some v) e = (e, tt)

  allowlisted_environment-AreAllowed :
      (names : List Text)
      → All (λ n. member n allowed_names ≡ true) names
      → AreAllowed (allowlisted_environment p names)
  unfolding allowlisted_environment
  allowlisted_environment-AreAllowed [] a = tt
  allowlisted_environment-AreAllowed (n ∷ names) (e, a) =
      All-append (λ v. member v.0 allowed_names ≡ true) (one_variable p n (truthy (p.env n)))
        (allowlisted_environment p names) (one_variable-AreAllowed n (truthy (p.env n)) e)
        (allowlisted_environment-AreAllowed names a)

  common_environment-AreAllowed : (path : Text) → AreAllowed (common_environment p path root)
  unfolding common_environment allowed_names member network_names every
  common_environment-AreAllowed path =
      (refl, (refl, (refl, (refl, (refl, allowlisted_environment-AreAllowed network_names named)))))
    where
      named : All (λ n. member n allowed_names ≡ true) network_names
      named = All-of_every (λ n. member n allowed_names) network_names refl

  claude_ephemeral_environment-AreAllowed : AreAllowed claude_ephemeral_environment
  unfolding allowed_names member claude_ephemeral_environment every
  claude_ephemeral_environment-AreAllowed =
      All-of_every (λ v. member v.0 allowed_names) claude_ephemeral_environment refl

  specification_of-AreAllowed :
      (k : Option Text) (i : RuntimeInvocation) (common : Variables) (runtime : AgentRuntimeKind)
      (custom : Bool)
      → AreAllowed common
      → AreAllowed (specification_of p (with_key r k) root i common runtime custom).env
  unfolding specification_of allowed_names member codex_default_configuration_environment
  specification_of-AreAllowed k i common codex false a =
      All-append (λ v. member v.0 allowed_names ≡ true) common _ a
        (one_variable-AreAllowed (lit "CODEX_HOME") _ refl)
  specification_of-AreAllowed k i common codex true a =
      All-append (λ v. member v.0 allowed_names ≡ true) common _ a (refl, (refl, (refl, tt)))
  specification_of-AreAllowed k i common claude_code false a =
      All-append (λ v. member v.0 allowed_names ≡ true) common _ a
        claude_ephemeral_environment-AreAllowed
  specification_of-AreAllowed k i common claude_code true a =
      All-append (λ v. member v.0 allowed_names ≡ true) common _ a
        (All-append (λ v. member v.0 allowed_names ≡ true) claude_ephemeral_environment
          ((lit "ANTHROPIC_API_KEY", key_of p (with_key r k))
            ∷ (lit "ANTHROPIC_BASE_URL", r.configuration.model.base_url)
            ∷ [])
          claude_ephemeral_environment-AreAllowed (refl, (refl, tt)))

  -- The parts of a specification that was made.
  execution_specification-eq-ok :
      (k : Option Text) {s : ExecutionSpecification}
      → execution_specification p (with_key r k) root ≡ ok s
      → (i : RuntimeInvocation) × (path : Text) × (p.runtime_invocation r.configuration.runtime
          ≡ ok i)
        × (path_of p r.configuration.runtime ≡ ok path)
        × (checked p (with_key r k) (is_custom r.configuration.mode) ≡ ok tt)
        × (specification_of p
              (with_key r k)
              root
              i
              (common_environment p path root)
              r.configuration.runtime
              (is_custom r.configuration.mode)
            ≡ s)
  unfolding execution_specification
  execution_specification-eq-ok k e =
      let runtime = r.configuration.runtime in
      let custom : Bool = is_custom r.configuration.mode in
      let made : RuntimeInvocation → Text → ExecutionSpecification = λ i path.
        specification_of p (with_key r k) root i (common_environment p path root) runtime custom in
      let (i, invoked, went) =
        and_then-eq-ok (p.runtime_invocation runtime)
          (λ i.
            and_then (path_of p runtime)
              λ path. and_then (checked p (with_key r k) custom) λ _. ok (made i path))
          e in
      let (path, found, left) =
        and_then-eq-ok (path_of p runtime)
          (λ path. and_then (checked p (with_key r k) custom) λ _. ok (made i path)) went in
      let (u, passed, built) =
        and_then-eq-ok (checked p (with_key r k) custom) (λ _. ok (made i path)) left in
      (i, path, invoked, found, passed, cc built)

  file_of-with_key :
      (k k' : Option Text) (runtime : AgentRuntimeKind) (custom : Bool)
      → checked p (with_key r k) custom ≡ ok tt
      → checked p (with_key r k') custom ≡ ok tt
      → file_of p (with_key r k) root runtime custom ≡ file_of p (with_key r k') root runtime custom
  file_of-with_key k k' codex true a b = rw (a, b) refl
  file_of-with_key k k' codex false a b = refl
  file_of-with_key k k' claude_code true a b = refl
  file_of-with_key k k' claude_code false a b = refl

  -- The key of a request reaches its process in one environment variable only, and only with a model of one's
  -- own: two requests that differ in the key, both of which are accepted, run the same command with the same
  -- arguments in the same directory with the same variables but that one, and the same file is written for
  -- both. Without a model of one's own they run alike. The process sees no variable but the allowed ones.
  pub execution_specification-IsIsolated :
      (k k' : Option Text) {s t : ExecutionSpecification}
      → execution_specification p (with_key r k) root ≡ ok s
      → execution_specification p (with_key r k') root ≡ ok t
      → AgreeBeyond r.configuration.runtime s t
        × (is_custom r.configuration.mode ≡ false → s ≡ t)
        × (prepare_runtime_configuration p (with_key r k) root
            ≡ prepare_runtime_configuration p (with_key r k') root)
        × AreAllowed s.env
  unfolding prepare_runtime_configuration
  execution_specification-IsIsolated k k' {s} {t} e f =
      let runtime = r.configuration.runtime in
      let custom : Bool = is_custom r.configuration.mode in
      let (i, path, invoked, found, passed, made) = execution_specification-eq-ok k e in
      let (j, path', invoked', found', passed', made') = execution_specification-eq-ok k' f in
      let same : (j ≡ i) × (path' ≡ path) = (cc (invoked, invoked'), cc (found, found')) in
      let other : specification_of p (with_key r k') root i (common_environment p path root) runtime
            custom
          ≡ t =
        (λ n.
          specification_of p (with_key r k') root (sym same.0 n)
            (common_environment p (sym same.1 n) root) runtime custom)
        ∙ made' in
      (
        subst (λ x. AgreeBeyond runtime x t) made
            (subst
              (λ x.
                AgreeBeyond runtime
                  (specification_of p (with_key r k) root i (common_environment p path root) runtime
                    custom)
                  x)
              other
              (specification_of-AgreeBeyond k k' i (common_environment p path root) runtime
                custom)),
        λ default. sym made ∙ alike default i (common_environment p path root) ∙ other,
        file_of-with_key k k' runtime custom passed passed',
        subst (λ x. AreAllowed x.env) made
            (specification_of-AreAllowed k i (common_environment p path root) runtime custom
              (common_environment-AreAllowed path)),
      )
    where
      alike :
          is_custom r.configuration.mode ≡ false
          → (i : RuntimeInvocation) (common : Variables)
          → specification_of p
              (with_key r k)
              root
              i
              common
              r.configuration.runtime
              (is_custom r.configuration.mode)
            ≡ specification_of p
                (with_key r k')
                root
                i
                common
                r.configuration.runtime
                (is_custom r.configuration.mode)
      alike default i common =
          subst
            (λ c.
              specification_of p (with_key r k) root i common r.configuration.runtime c
              ≡ specification_of p (with_key r k') root i common r.configuration.runtime c)
            (sym default) (specification_of-default k k' i common r.configuration.runtime)
