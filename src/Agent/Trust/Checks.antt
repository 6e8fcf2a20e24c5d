-- ===== src/Agent/Trust/Checks.antt =====
-- What each group of checks asks.
use lucky_tag.Common.{◌<◌, ◌≤◌, ◌*◌, ◌≡◌, ◌↔◌, refl, ap, ◌∙◌, Bool, true, false, not, arith}
use Prim.Native.Nat.{bit_and}
use Prim.Native.String.{String}
use lucky_tag.Act.{and_then, and_then-eq-ok}
use lucky_tag.Agent.Trust.{
  Metadata, Files, ClaudeCliTrustPolicy, require, ends_with, cli_suffix, package_path,
  is_pinned_claude_package, are_guarded, is_guarded, is_string, check_place, check_metadata,
  check_package, check_cli,
}
use lucky_tag.Config.Value.{Value, get, is_record}
use lucky_tag.Text.{Text, text_eq, text_eq_iff}
use lucky_tag.Worker.Effects.{ok}

require-eq-ok : (b : Bool) → require b ≡ ok tt → b ≡ true
require-eq-ok true e = refl
require-eq-ok false e = cc

module _ (f : Files) (policy : ClaudeCliTrustPolicy) (path : Text) where
  pub check_place_iff : (check_place f policy path ≡ ok tt) ↔ (
      (ends_with path (cli_suffix f policy) ≡ true)
      × (f.is_symbolic_link (package_path f policy path) ≡ ok false))
  unfolding check_place
  check_place_iff = (
    λ e.
        let (a, placed, rest) =
          and_then-eq-ok (require (ends_with path (cli_suffix f policy)))
            (λ _.
              and_then (f.is_symbolic_link (package_path f policy path)) λ link. require (not link))
            e in
        let (link, read, last) =
          and_then-eq-ok (f.is_symbolic_link (package_path f policy path))
            (λ link. require (not link)) rest in
        let none_there : link ≡ false = ground (arith, require-eq-ok (not link) last) in
        (
          require-eq-ok (ends_with path (cli_suffix f policy)) (placed ∙ refl),
          read ∙ ap ok none_there,
        ),
    λ h. rw (h.0, h.1) refl,
  )

  pub check_metadata-eq-ok :
      check_metadata f policy path ≡ ok tt
      → (cli : Metadata) × (manifest : Metadata) × (directory : Metadata) × (f.stat path ≡ ok cli)
        × (f.stat (package_path f policy path) ≡ ok manifest)
        × (f.stat (f.dirname path) ≡ ok directory)
        × (are_guarded f policy cli manifest directory ≡ true)
  unfolding check_metadata
  check_metadata-eq-ok e =
      let (c, cli_stat, e') =
        and_then-eq-ok (f.stat path)
          (λ c.
            and_then (f.stat (package_path f policy path))
              λ m. and_then (f.stat (f.dirname path)) λ d. require (are_guarded f policy c m d))
          e in
      let (m, manifest_stat, e'') =
        and_then-eq-ok (f.stat (package_path f policy path))
          (λ m. and_then (f.stat (f.dirname path)) λ d. require (are_guarded f policy c m d)) e' in
      let (d, directory_stat, last) =
        and_then-eq-ok (f.stat (f.dirname path)) (λ d. require (are_guarded f policy c m d)) e'' in
      (
        c,
        m,
        d,
        cli_stat,
        manifest_stat,
        directory_stat,
        require-eq-ok (are_guarded f policy c m d) last,
      )

  pub check_package-eq-ok :
      check_package f policy path ≡ ok tt
      → (bytes : Text) × (value : Value) × (f.read_file (package_path f policy path) ≡ ok bytes)
        × (f.sha256_hex bytes ≡ policy.package_sha256)
        × (f.parse_json bytes ≡ ok value)
        × (is_pinned_claude_package value policy ≡ true)
  unfolding check_package
  check_package-eq-ok e =
      let (b, read, e') =
        and_then-eq-ok (f.read_file (package_path f policy path))
          (λ b.
            and_then (require (text_eq (f.sha256_hex b) policy.package_sha256))
              λ _. and_then (f.parse_json b) λ v. require (is_pinned_claude_package v policy))
          e in
      let (u, hashed, e'') =
        and_then-eq-ok (require (text_eq (f.sha256_hex b) policy.package_sha256))
          (λ _. and_then (f.parse_json b) λ v. require (is_pinned_claude_package v policy)) e' in
      let (v, parsed, last) =
        and_then-eq-ok (f.parse_json b) (λ v. require (is_pinned_claude_package v policy)) e'' in
      (
        b,
        v,
        read,
        (text_eq_iff (f.sha256_hex b) policy.package_sha256).0
            (require-eq-ok (text_eq (f.sha256_hex b) policy.package_sha256) hashed),
        parsed,
        require-eq-ok (is_pinned_claude_package v policy) last,
      )

  pub check_cli-eq-ok :
      check_cli f policy path ≡ ok tt
      → (bytes : Text) × (f.read_file path ≡ ok bytes)
        × (f.sha256_hex bytes ≡ policy.sha256)
        × (f.access path ≡ ok tt)
  unfolding check_cli
  check_cli-eq-ok e =
      let (b, read, e') =
        and_then-eq-ok (f.read_file path)
          (λ b. and_then (require (text_eq (f.sha256_hex b) policy.sha256)) λ _. f.access path) e in
      let (u, hashed, last) =
        and_then-eq-ok (require (text_eq (f.sha256_hex b) policy.sha256)) (λ _. f.access path) e' in
      (
        b,
        read,
        (text_eq_iff (f.sha256_hex b) policy.sha256).0
            (require-eq-ok (text_eq (f.sha256_hex b) policy.sha256) hashed),
        last,
      )

-- Owned by the user of the policy, and not to be written by its group or by others (`& 0o022`).
pub record IsOwned (policy : ClaudeCliTrustPolicy) (m : Metadata) : Type 0 where
  pub owner : m.uid ≡ policy.uid
  pub private_to_owner : bit_and m.mode 18 ≡ 0

pub record AreGuarded (policy : ClaudeCliTrustPolicy) (cli manifest directory : Metadata)
    : Type 0 where
  pub cli_file : cli.is_file ≡ true
  pub manifest_file : manifest.is_file ≡ true
  pub is_directory : directory.is_directory ≡ true
  pub cli_owned : IsOwned policy cli
  pub manifest_owned : IsOwned policy manifest
  pub directory_owned : IsOwned policy directory
  pub not_empty : 0 < cli.size
  pub bounded : cli.size ≤ 32 * 1024 * 1024

is_guarded_iff :
    (policy : ClaudeCliTrustPolicy) (m : Metadata) → (is_guarded policy m ≡ true) ↔ IsOwned policy m
unfolding is_guarded
is_guarded_iff policy m = (
  λ e. record { owner = ground arith; private_to_owner = ground arith },
  λ o. let same = o.owner in let none_else = o.private_to_owner in ground arith,
)

pub are_guarded_iff :
    (f : Files) (policy : ClaudeCliTrustPolicy) (cli manifest directory : Metadata)
    → (are_guarded f policy cli manifest directory ≡ true)
      ↔ AreGuarded policy cli manifest directory
unfolding are_guarded
are_guarded_iff f policy cli manifest directory = (
  λ e. record {
    cli_file = ground arith;
    manifest_file = ground arith;
    is_directory = ground arith;
    cli_owned = (is_guarded_iff policy cli).0 (ground arith);
    manifest_owned = (is_guarded_iff policy manifest).0 (ground arith);
    directory_owned = (is_guarded_iff policy directory).0 (ground arith);
    not_empty = ground arith;
    bounded = ground arith;
  },
  λ g.
      let c = (is_guarded_iff policy cli).1 g.cli_owned in
      let m = (is_guarded_iff policy manifest).1 g.manifest_owned in
      let d = (is_guarded_iff policy directory).1 g.directory_owned in
      rw (g.cli_file, g.manifest_file, g.is_directory, c, m, d)
        (ground (arith, g.not_empty, g.bounded)),
)

is_string_iff : (v : Value) (t : Text) → (is_string v t ≡ true) ↔ (v ≡ Value.string t)
is_string_iff (Value.string s) t =
    (λ e. ap Value.string ((text_eq_iff s t).0 e), λ e. (text_eq_iff s t).1 (cc e))
is_string_iff Value.undefined t = (λ e. absurd (cc e), λ e. absurd (cc e))
is_string_iff Value.null t = (λ e. absurd (cc e), λ e. absurd (cc e))
is_string_iff (Value.boolean b) t = (λ e. absurd (cc e), λ e. absurd (cc e))
is_string_iff (Value.number n) t = (λ e. absurd (cc e), λ e. absurd (cc e))
is_string_iff (Value.array vs) t = (λ e. absurd (cc e), λ e. absurd (cc e))
is_string_iff (Value.object fs) t = (λ e. absurd (cc e), λ e. absurd (cc e))

is_record_of_get :
    (key : String) (v : Value) {t : Text} → get key v ≡ Value.string t → is_record v ≡ true
unfolding get is_record
is_record_of_get key (Value.object fs) e = refl
is_record_of_get key (Value.string s) e = absurd (cc e)
is_record_of_get key Value.undefined e = absurd (cc e)
is_record_of_get key Value.null e = absurd (cc e)
is_record_of_get key (Value.boolean b) e = absurd (cc e)
is_record_of_get key (Value.number n) e = absurd (cc e)
is_record_of_get key (Value.array vs) e = absurd (cc e)

pub is_pinned_claude_package_iff :
    (policy : ClaudeCliTrustPolicy) (v : Value)
    → (is_pinned_claude_package v policy ≡ true) ↔ (
        (get "name" v ≡ Value.string policy.package_name)
        × (get "version" v ≡ Value.string policy.version))
unfolding is_pinned_claude_package
is_pinned_claude_package_iff policy v = (
  λ e. (
    (is_string_iff (get "name" v) policy.package_name).0 (ground arith),
    (is_string_iff (get "version" v) policy.version).0 (ground arith),
  ),
  λ (name, version).
      rw
        (
          is_record_of_get "name" v name,
          (is_string_iff (get "name" v) policy.package_name).1 name,
          (is_string_iff (get "version" v) policy.version).1 version,
        )
        refl,
)
