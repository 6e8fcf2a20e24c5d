-- ===== src/Agent/Trust/Trusted.antt =====
-- Exactly the trusted programs are accepted.
use lucky_tag.Common.{◌++◌, ◌≡◌, ◌↔◌, refl, sym, subst, false}
use lucky_tag.Act.{and_then, and_then-eq-ok}
use lucky_tag.Agent.Trust.{
  Metadata, Files, ClaudeCliTrustPolicy, cli_suffix, package_path, check_place, check_metadata,
  check_package, check_cli, check_all, or_untrusted, validate_trusted_claude_cli,
}
use lucky_tag.Config.Value.{Value, get}
use lucky_tag.Text.{Text, text_eq_iff}
use lucky_tag.Worker.Effects.{Result, ok, err}
use lucky_tag.Agent.Trust.Suffix.{ends_with_iff}
use lucky_tag.Agent.Trust.Checks.{
  AreGuarded, are_guarded_iff, is_pinned_claude_package_iff, check_place_iff, check_metadata-eq-ok,
  check_package-eq-ok, check_cli-eq-ok,
}

-- Why the program at a path, to which a candidate leads, is trusted.
pub record IsTrusted (f : Files) (policy : ClaudeCliTrustPolicy) (candidate path : Text)
    : Type 0 where
  pub real : f.realpath candidate ≡ ok path
  pub before : Text
  pub place : path ≡ before ++ cli_suffix f policy
  pub no_link : f.is_symbolic_link (package_path f policy path) ≡ ok false
  pub cli : Metadata
  pub manifest : Metadata
  pub directory : Metadata
  pub cli_stat : f.stat path ≡ ok cli
  pub manifest_stat : f.stat (package_path f policy path) ≡ ok manifest
  pub directory_stat : f.stat (f.dirname path) ≡ ok directory
  pub guarded : AreGuarded policy cli manifest directory
  pub manifest_bytes : Text
  pub manifest_read : f.read_file (package_path f policy path) ≡ ok manifest_bytes
  pub manifest_digest : f.sha256_hex manifest_bytes ≡ policy.package_sha256
  pub value : Value
  pub parsed : f.parse_json manifest_bytes ≡ ok value
  pub name : get "name" value ≡ Value.string policy.package_name
  pub version : get "version" value ≡ Value.string policy.version
  pub cli_bytes : Text
  pub cli_read : f.read_file path ≡ ok cli_bytes
  pub cli_digest : f.sha256_hex cli_bytes ≡ policy.sha256
  pub accessible : f.access path ≡ ok tt

module _ (f : Files) (policy : ClaudeCliTrustPolicy) (path : Text) where
  check_all-IsTrusted :
      (candidate : Text) {found : Text}
      → f.realpath candidate ≡ ok path
      → check_all f policy path ≡ ok found
      → (found ≡ path) × IsTrusted f policy candidate path
  unfolding check_all
  check_all-IsTrusted candidate real e =
      let (a, placed, e1) =
        and_then-eq-ok (check_place f policy path)
          (λ _. and_then (check_metadata f policy path) λ _.
            and_then (check_package f policy path)
              λ _. and_then (check_cli f policy path) λ _. ok path)
          e in
      let (b, guarded, e2) =
        and_then-eq-ok (check_metadata f policy path)
          (λ _.
            and_then (check_package f policy path)
              λ _. and_then (check_cli f policy path) λ _. ok path)
          e1 in
      let (c, packed, e3) =
        and_then-eq-ok (check_package f policy path)
          (λ _. and_then (check_cli f policy path) λ _. ok path) e2 in
      let (d, hashed, last) = and_then-eq-ok (check_cli f policy path) (λ _. ok path) e3 in
      let (place, no_link) = (check_place_iff f policy path).0 placed in
      let (cli, manifest, directory, cs, ms, ds, g) = check_metadata-eq-ok f policy path guarded in
      let (bytes, value, read, digest, parsed, pinned) = check_package-eq-ok f policy path packed in
      let (before, under) = (ends_with_iff path (cli_suffix f policy)).0 place in
      let names = (is_pinned_claude_package_iff policy value).0 pinned in
      let (cli_bytes, cli_read, cli_digest, accessible) = check_cli-eq-ok f policy path hashed in
      (
        cc last,
        record {
          real = real;
          before = before;
          place = under;
          no_link = no_link;
          cli = cli;
          manifest = manifest;
          directory = directory;
          cli_stat = cs;
          manifest_stat = ms;
          directory_stat = ds;
          guarded = (are_guarded_iff f policy cli manifest directory).0 g;
          manifest_bytes = bytes;
          manifest_read = read;
          manifest_digest = digest;
          value = value;
          parsed = parsed;
          name = names.0;
          version = names.1;
          cli_bytes = cli_bytes;
          cli_read = cli_read;
          cli_digest = cli_digest;
          accessible = accessible;
        },
      )

  check_metadata-ok :
      {candidate : Text} → IsTrusted f policy candidate path → check_metadata f policy path ≡ ok tt
  unfolding check_metadata
  check_metadata-ok t =
      let safe = (are_guarded_iff f policy t.cli t.manifest t.directory).1 t.guarded in
      rw (t.cli_stat, t.manifest_stat, t.directory_stat, safe) refl

  check_package-ok :
      {candidate : Text} → IsTrusted f policy candidate path → check_package f policy path ≡ ok tt
  unfolding check_package
  check_package-ok t =
      let same =
        (text_eq_iff (f.sha256_hex t.manifest_bytes) policy.package_sha256).1 t.manifest_digest in
      let pinned = (is_pinned_claude_package_iff policy t.value).1 (t.name, t.version) in
      rw (t.manifest_read, same, t.parsed, pinned) refl

  check_cli-ok :
      {candidate : Text} → IsTrusted f policy candidate path → check_cli f policy path ≡ ok tt
  unfolding check_cli
  check_cli-ok t =
      let same = (text_eq_iff (f.sha256_hex t.cli_bytes) policy.sha256).1 t.cli_digest in
      rw (t.cli_read, same, t.accessible) refl

  check_all-ok :
      {candidate : Text} → IsTrusted f policy candidate path → check_all f policy path ≡ ok path
  unfolding check_all
  check_all-ok t =
      let placed =
        (check_place_iff f policy path).1
          ((ends_with_iff path (cli_suffix f policy)).1 (t.before, t.place), t.no_link) in
      rw (placed, check_metadata-ok t, check_package-ok t, check_cli-ok t) refl

or_untrusted-eq-ok :
    (f : Files) (policy : ClaudeCliTrustPolicy) (r : Result Text) {path : Text}
    → or_untrusted f policy r ≡ ok path
    → r ≡ ok path
or_untrusted-eq-ok f policy (ok p) e = e
or_untrusted-eq-ok f policy (err g) e = cc

module _ (f : Files) (policy : ClaudeCliTrustPolicy) where
  pub validate_trusted_claude_cli_iff :
      (candidate path : Text)
      → (validate_trusted_claude_cli f policy candidate ≡ ok path)
        ↔ IsTrusted f policy candidate path
  unfolding validate_trusted_claude_cli
  validate_trusted_claude_cli_iff candidate path = (
    λ e.
        let (real, there, e') =
          and_then-eq-ok (f.realpath candidate) (check_all f policy) (
            or_untrusted-eq-ok f policy (and_then (f.realpath candidate) (check_all f policy)) e) in
        let (same, trusted) = check_all-IsTrusted f policy real candidate there e' in
        subst (IsTrusted f policy candidate) (sym same) trusted,
    λ t. rw t.real (rw (check_all-ok f policy path t) refl),
  )
