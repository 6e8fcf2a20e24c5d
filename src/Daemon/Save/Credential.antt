-- ===== src/Daemon/Save/Credential.antt =====
-- Which key the writes of a change leave.
use lucky_tag.Common.{
  ◌≡◌, ◌↔◌, refl, ap, Bool, true, false, Option, none, some, arith, Bool-cases, Option-cases, inl,
  inr, ◌⊎◌,
}
use lucky_tag.Config.Input.{AgentConfigurationInput, is_custom, is_open}
use lucky_tag.Contracts.{AppConfig}
use lucky_tag.Daemon.{Options, same_runtime, normalize_endpoint}
use lucky_tag.Daemon.Save.{is_some, has_key, requires_api_key, writes_of, same_credential_scope}
use lucky_tag.Daemon.Save.Keychain.{same_runtime_iff}
use lucky_tag.Text.{Text, truthy, text_eq_iff}
use lucky_tag.Daemon.Save.Stored.{last_or, same_runtime_self}

module _ (o : Options) (input : AgentConfigurationInput) where
  -- The key under the agent's address is in use there already.
  pub record IsInUse (current : AppConfig) : Type 0 where
    pub custom : is_custom current.agent.mode ≡ true
    pub authenticated : is_open current.agent.model.authentication ≡ false
    pub still_custom : is_custom input.mode ≡ true
    pub still_authenticated : is_open input.authentication ≡ false
    pub runtime : current.agent.runtime ≡ input.runtime
    pub address :
        normalize_endpoint o current.agent.model.base_url ≡ normalize_endpoint o input.base_url

  pub same_credential_scope_iff :
      (current : AppConfig) → (same_credential_scope o current input ≡ true) ↔ IsInUse current
  unfolding same_credential_scope requires_api_key
  same_credential_scope_iff current = (
    λ e. record {
      custom = ground arith;
      authenticated = ground arith;
      still_custom = ground arith;
      still_authenticated = ground arith;
      runtime = same_runtime_iff current.agent.runtime input.runtime (ground arith);
      address = (text_eq_iff _ _).0 (ground arith);
    },
    λ u.
        let alike : same_runtime current.agent.runtime input.runtime ≡ true =
          rw u.runtime (same_runtime_self o input input.runtime) in
        let there = (text_eq_iff _ _).1 u.address in
        rw (u.custom, u.authenticated, u.still_custom, u.still_authenticated, alike, there) refl,
  )

  keyless_none : has_key input ≡ false → truthy input.api_key ≡ none
  keyless_none keyless = elim (Option-cases (truthy input.api_key)) [
    | inr (k, e) ↦ absurd (cc (keyless, ap is_some e))
    | inl e ↦ e
  ]

  -- What the writes leave, without a key that is given
  module _ (keyless : has_key input ≡ false) where
    pub last-custom :
        (credential : Option Text) (same : Bool)
        → is_custom input.mode ≡ true
        → (same ≡ false) ⊎ (input.clear_api_key ≡ true)
        → truthy (last_or credential (writes_of input same (truthy credential))) ≡ none
    unfolding writes_of requires_api_key
    last-custom credential same custom why = elim (Bool-cases input.clear_api_key) [
      | inl clears ↦ elim (Bool-cases (is_open input.authentication)) [
        | inl opened ↦ elim (Option-cases (truthy credential)) [
          | inl absent ↦ simp (keyless_none keyless, clears, custom, opened, absent)
          | inr (k, present) ↦ simp (keyless_none keyless, clears, custom, opened, present)
        ]
        | inr closed ↦ simp (keyless_none keyless, clears, custom, closed)
      ]
      | inr keeps ↦ elim why [
        | inr clears ↦ absurd (cc (keeps, clears))
        | inl apart ↦ elim (Bool-cases (is_open input.authentication)) [
          | inl opened ↦ elim (Option-cases (truthy credential)) [
            | inl absent ↦ simp (keyless_none keyless, keeps, custom, opened, absent)
            | inr (k, present) ↦ simp (keyless_none keyless, keeps, custom, opened, present)
          ]
          | inr closed ↦ elim (Option-cases (truthy credential)) [
            | inl absent ↦ simp (keyless_none keyless, keeps, custom, closed, apart, absent)
            | inr (k, present) ↦ simp (keyless_none keyless, keeps, custom, closed, apart, present)
          ]
        ]
      ]
    ]

    pub last-kept :
        (credential previous : Option Text) (same : Bool)
        → input.clear_api_key ≡ false
        → (is_custom input.mode ≡ false) ⊎ ((is_open input.authentication ≡ false) × (same ≡ true))
        → last_or credential (writes_of input same previous) ≡ credential
    unfolding writes_of requires_api_key
    last-kept credential previous same keeps why = elim why [
      | inl default ↦ simp (keyless_none keyless, keeps, default)
      | inr (closed, there) ↦ elim (Bool-cases (is_custom input.mode)) [
        | inl custom ↦ simp (keyless_none keyless, keeps, custom, closed, there)
        | inr default ↦ simp (keyless_none keyless, keeps, default)
      ]
    ]

  pub last-given :
      (credential previous : Option Text) (same : Bool) {k : Text}
      → truthy input.api_key ≡ some k
      → input.clear_api_key ≡ false
      → is_open input.authentication ≡ false
      → last_or credential (writes_of input same previous) ≡ some k
  unfolding writes_of requires_api_key
  last-given credential previous same given_key keeps closed =
      elim (Bool-cases (is_custom input.mode)) [
        | inl custom ↦ simp (given_key, keeps, closed, custom)
        | inr default ↦ simp (given_key, keeps, closed, default)
      ]
