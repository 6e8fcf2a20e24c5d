-- ===== src/Agent/Trust.antt =====
-- daemon/agent-runtime.ts: which program of Claude Code is trusted: `validateTrustedClaudeCli` and
-- `resolveTrustedClaudeCli`. What the file system, SHA-256 and `JSON.parse` give is given, and is the same for
-- the calls of one validation.
mod Checks
pub mod Resolved
mod Suffix
pub mod Trusted
use Prim.Native.Nat.{bit_and}
use lucky_tag.Common.{
  ℕ, ◌-◌, ◌*◌, ◌++◌, Bool, true, false, not, ◌&&◌, ◌||◌, ◌==◌, Option, none, some, List, [], ◌∷◌,
  ltb, leb, if◌then◌else◌, length, drop,
}
use lucky_tag.Act.{and_then}
use lucky_tag.Config.Value.{Value, get, is_record}
use lucky_tag.Text.{Text, lit, text_eq, distinct, distinct_from}
use lucky_tag.Worker.Effects.{Result, ok, err}

pub record Metadata : Type 0 where
  pub is_file : Bool
  pub is_directory : Bool
  pub uid : ℕ
  pub mode : ℕ
  pub size : ℕ

pub record Files : Type 0 where
  pub realpath : Text → Result Text
  pub dirname : Text → Text
  pub join_path : Text → Text → Text
  pub sep : Text
  pub is_symbolic_link : Text → Result Bool
  pub stat : Text → Result Metadata
  -- The bytes of a file, their digest, and `JSON.parse` of them as UTF-8
  pub read_file : Text → Result Text
  pub sha256_hex : Text → Text
  pub parse_json : Text → Result Value
  -- `accessSync(path, R_OK | X_OK)`
  pub access : Text → Result (Unit {0})

-- `ClaudeCliTrustPolicy`
pub record ClaudeCliTrustPolicy : Type 0 where
  pub package_name : Text
  pub version : Text
  pub sha256 : Text
  pub package_sha256 : Text
  pub uid : ℕ

abbrev pub max_trusted_claude_cli_bytes : ℕ
max_trusted_claude_cli_bytes = 32 * 1024 * 1024

unfoldable pub untrusted_claude_runtime_error : Text
unfolding lit
untrusted_claude_runtime_error = lit "Claude Code 必须是受信任的 @anthropic-ai/claude-code 2.1.112"

-- `throw untrustedClaudeRuntimeError()`, unless the test holds
abbrev pub require : Bool → Result (Unit {0})
require true = ok tt
require false = err untrusted_claude_runtime_error

-- `text.endsWith(suffix)`
unfoldable pub ends_with : Text → Text → Bool
unfolding text_eq
ends_with text suffix =
    leb (length suffix) (length text) && text_eq (drop (length text - length suffix) text) suffix

-- `value[key] === text`
abbrev pub is_string : Value → Text → Bool
is_string (Value.string s) t = text_eq s t
is_string _ t = false

unfoldable pub is_pinned_claude_package : Value → ClaudeCliTrustPolicy → Bool
unfolding is_record get text_eq
is_pinned_claude_package value policy =
    is_record value
    && is_string (get "name" value) policy.package_name
    && is_string (get "version" value) policy.version

-- `metadata.uid === policy.uid && (metadata.mode & 0o022) === 0`
unfoldable pub is_guarded : ClaudeCliTrustPolicy → Metadata → Bool
is_guarded policy m = m.uid == policy.uid && bit_and m.mode 18 == 0

module _ (f : Files) (policy : ClaudeCliTrustPolicy) where
  unfoldable pub package_path : Text → Text
  unfolding lit
  package_path cli_path = f.join_path (f.dirname cli_path) (lit "package.json")

  abbrev pub cli_suffix : Text
  cli_suffix =
      f.sep ++ (lit "@anthropic-ai" ++ (f.sep ++ (lit "claude-code" ++ (f.sep ++ lit "cli.js"))))

  -- The tests of the three kinds of metadata
  unfoldable pub are_guarded : Metadata → Metadata → Metadata → Bool
  unfolding is_guarded
  are_guarded cli manifest directory =
      cli.is_file
      && manifest.is_file
      && directory.is_directory
      && is_guarded policy cli
      && is_guarded policy manifest
      && is_guarded policy directory
      && ltb 0 cli.size
      && leb cli.size max_trusted_claude_cli_bytes

  unfoldable pub check_metadata : Text → Result (Unit {0})
  unfolding package_path are_guarded
  check_metadata cli_path = and_then (f.stat cli_path) λ cli.
      and_then (f.stat (package_path cli_path)) λ manifest.
        and_then (f.stat (f.dirname cli_path))
          λ directory. require (are_guarded cli manifest directory)

  unfoldable pub check_package : Text → Result (Unit {0})
  unfolding package_path is_pinned_claude_package text_eq
  check_package cli_path = and_then (f.read_file (package_path cli_path)) λ bytes.
      and_then (require (text_eq (f.sha256_hex bytes) policy.package_sha256))
        λ _. and_then (f.parse_json bytes) λ value. require (is_pinned_claude_package value policy)

  unfoldable pub check_cli : Text → Result (Unit {0})
  unfolding text_eq
  check_cli cli_path = and_then (f.read_file cli_path) λ bytes.
      and_then (require (text_eq (f.sha256_hex bytes) policy.sha256)) λ _. f.access cli_path

  unfoldable pub check_place : Text → Result (Unit {0})
  unfolding package_path ends_with lit
  check_place cli_path =
      and_then (require (ends_with cli_path cli_suffix))
        λ _. and_then (f.is_symbolic_link (package_path cli_path)) λ link. require (not link)

  unfoldable pub check_all : Text → Result Text
  unfolding check_place check_metadata check_package check_cli
  check_all cli_path = and_then (check_place cli_path) λ _.
      and_then (check_metadata cli_path)
        λ _. and_then (check_package cli_path) λ _. and_then (check_cli cli_path) λ _. ok cli_path

  abbrev pub or_untrusted : Result Text → Result Text
  or_untrusted (ok path) = ok path
  or_untrusted (err e) = err untrusted_claude_runtime_error

  unfoldable pub validate_trusted_claude_cli : Text → Result Text
  unfolding check_all
  validate_trusted_claude_cli candidate = or_untrusted (and_then (f.realpath candidate) check_all)

  abbrev pub or_next : Result Text → Result Text → Result Text
  or_next (ok path) rest = ok path
  or_next (err e) rest = rest

  unfoldable pub first_trusted : List Text → Result Text
  unfolding validate_trusted_claude_cli untrusted_claude_runtime_error
  first_trusted [] = err untrusted_claude_runtime_error
  first_trusted (candidate ∷ candidates) =
      let rest = first_trusted candidates in or_next (validate_trusted_claude_cli candidate) rest

  unfoldable pub resolve_trusted_claude_cli : List Text → Result Text
  unfolding first_trusted distinct_from
  resolve_trusted_claude_cli candidates = first_trusted (distinct candidates)
