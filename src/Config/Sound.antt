-- ===== src/Config/Sound.antt =====
-- What an accepted input for the agent is.
use lucky_tag.Common.{
  ◌≡◌, refl, subst, Bool, true, false, not, ◌&&◌, ◌||◌, Option, none, some, arith,
}
use Prim.Native.String.{String}
use lucky_tag.Config.Agent.{
  protocol_for_runtime, same_protocol, default_provider_for_runtime, provider_supports_protocol,
  provider_allows_no_authentication, is_agent_base_url, is_loopback_model_url,
}
use lucky_tag.Config.App.{is_true}
use lucky_tag.Config.Input.{
  AgentConfigurationInput, reject_if, is_custom, is_open, is_given_key, accepted, known_kinds,
  check_input, assert_agent_configuration_input,
}
use lucky_tag.Config.Value.{Value, Url}
use lucky_tag.Contracts.{
  AgentRuntimeKind, codex, claude_code, AgentConfigurationMode, custom_model, runtime_default,
  AgentProviderId, AgentModelProtocol, AgentAuthenticationKind, api_key, unauthenticated,
}
use lucky_tag.Text.{Text}
use lucky_tag.Worker.Effects.{Result, ok}

-- The protocol is the runtime's and the provider speaks it; a custom model has an address that is
-- allowed; an unauthenticated one is on this machine, and no key goes to it; a key is never both set
-- and cleared.
pub record IsSound (parse_url : Text → Option Url) (a : AgentConfigurationInput) : Type 0 where
  pub protocol : a.protocol ≡ protocol_for_runtime a.runtime
  pub supported : provider_supports_protocol a.provider a.protocol ≡ true
  pub address : is_custom a.mode ≡ true → is_agent_base_url parse_url a.base_url ≡ true
  pub default_authentication : is_custom a.mode ≡ false → a.authentication ≡ api_key
  pub local_only :
      a.authentication ≡ unauthenticated
      → (is_loopback_model_url parse_url a.base_url ≡ true)
        × (provider_allows_no_authentication a.provider ≡ true)
        × (a.api_key ≡ none)
        × (a.clear_api_key ≡ false)
  pub one_change : a.clear_api_key ≡ true → a.api_key ≡ none

reject_if-eq-ok :
    (b : Bool) (message : String) (rest : Result AgentConfigurationInput)
    {a : AgentConfigurationInput}
    → reject_if b message rest ≡ ok a
    → (b ≡ false) × (rest ≡ ok a)
unfolding reject_if
reject_if-eq-ok true message rest e = absurd (cc)
reject_if-eq-ok false message rest e = (refl, e)

default_supported :
    (runtime : AgentRuntimeKind)
    → provider_supports_protocol
        (default_provider_for_runtime runtime)
        (protocol_for_runtime runtime)
      ≡ true
unfolding provider_supports_protocol default_provider_for_runtime protocol_for_runtime
default_supported codex = refl
default_supported claude_code = refl

same_protocol-eq : (p q : AgentModelProtocol) → same_protocol p q ≡ true → p ≡ q
unfolding same_protocol
same_protocol-eq p q h = ground arith

module _ (parse_url : Text → Option Url) (enabled : Bool) (runtime : AgentRuntimeKind)
    (provider : AgentProviderId) (protocol : AgentModelProtocol) (model_name base_url : Text)
    (key clear : Value) where
  abbrev accepted_as : AgentConfigurationMode → AgentAuthenticationKind → AgentConfigurationInput
  accepted_as mode authentication =
      accepted parse_url enabled runtime mode provider authentication model_name base_url key clear

  custom-IsSound :
      (authentication : AgentAuthenticationKind)
      → same_protocol protocol (protocol_for_runtime runtime) ≡ true
      → provider_supports_protocol provider protocol ≡ true
      → is_agent_base_url parse_url base_url ≡ true
      → (is_given_key key && is_true clear) ≡ false
      → (is_open authentication
          && not (
              provider_allows_no_authentication provider
              && is_loopback_model_url parse_url base_url))
        ≡ false
      → (is_open authentication && (is_given_key key || is_true clear)) ≡ false
      → IsSound parse_url (accepted_as custom_model authentication)
  custom-IsSound authentication same speaks address one reach bare = record {
    protocol = refl;
    supported = rw (← same_protocol-eq _ _ same) speaks;
    address = λ c. address;
    default_authentication = λ c. absurd (cc);
    local_only = λ e. (
      ground (arith, reach, e),
      ground (arith, reach, e),
      ground (arith, bare, e),
      ground (arith, bare, e),
    );
    one_change = λ e. ground (arith, one, e);
  }

  default-IsSound :
      (authentication : AgentAuthenticationKind)
      → (is_given_key key && is_true clear) ≡ false
      → IsSound parse_url (accepted_as runtime_default authentication)
  default-IsSound authentication one = record {
    protocol = refl;
    supported = default_supported runtime;
    address = λ c. absurd (cc);
    default_authentication = λ c. refl;
    local_only = λ e. absurd (ground arith);
    one_change = λ e. ground (arith, one, e);
  }

  check_input-IsSound :
      (mode : AgentConfigurationMode) (authentication : AgentAuthenticationKind)
      (a : AgentConfigurationInput)
      → check_input parse_url enabled runtime mode provider protocol authentication model_name
          base_url key clear
        ≡ ok a
      → IsSound parse_url a
  unfolding check_input
  check_input-IsSound mode authentication a e =
      let (same, e1) = reject_if-eq-ok _ _ _ e in
      let (speaks, e2) = reject_if-eq-ok _ _ _ e1 in
      let (name, e3) = reject_if-eq-ok _ _ _ e2 in
      let (address, e4) = reject_if-eq-ok _ _ _ e3 in
      let (default_address, e5) = reject_if-eq-ok _ _ _ e4 in
      let (good_key, e6) = reject_if-eq-ok _ _ _ e5 in
      let (good_flag, e7) = reject_if-eq-ok _ _ _ e6 in
      let (one, e8) = reject_if-eq-ok _ _ _ e7 in
      let (plain, e9) = reject_if-eq-ok _ _ _ e8 in
      let (reach, e10) = reject_if-eq-ok _ _ _ e9 in
      let (bare, e11) = reject_if-eq-ok _ _ _ e10 in
      subst (IsSound parse_url) (ok_injective e11)
        (by_mode mode (not_false same) (not_false speaks) address one reach bare)
    where
      not_false : {b : Bool} → not b ≡ false → b ≡ true
      not_false {b} h = ground arith

      ok_injective : {x y : AgentConfigurationInput} → Result.ok x ≡ Result.ok y → x ≡ y
      ok_injective h = cc

      by_mode :
          (mode : AgentConfigurationMode)
          → same_protocol protocol (protocol_for_runtime runtime) ≡ true
          → provider_supports_protocol provider protocol ≡ true
          → (is_custom mode && not (is_agent_base_url parse_url base_url)) ≡ false
          → (is_given_key key && is_true clear) ≡ false
          → (is_custom mode
              && is_open authentication
              && not (
                  provider_allows_no_authentication provider
                  && is_loopback_model_url parse_url base_url))
            ≡ false
          → (is_custom mode && is_open authentication && (is_given_key key || is_true clear))
            ≡ false
          → IsSound parse_url (accepted_as mode authentication)
      by_mode custom_model same speaks address one reach bare =
          custom-IsSound authentication same speaks (not_false address) one reach bare
      by_mode runtime_default same speaks address one reach bare =
          default-IsSound authentication one

known_kinds-IsSound :
    (parse_url : Text → Option Url) (v : Value) (runtime : Option AgentRuntimeKind)
    (mode : Option AgentConfigurationMode) (provider : Option AgentProviderId)
    (protocol : Option AgentModelProtocol) (authentication : Option AgentAuthenticationKind)
    (a : AgentConfigurationInput)
    → known_kinds parse_url v runtime mode provider protocol authentication ≡ ok a
    → IsSound parse_url a
known_kinds-IsSound u v none _ _ _ _ a e = absurd (cc)
known_kinds-IsSound u v (some r) none _ _ _ a e = absurd (cc)
known_kinds-IsSound u v (some r) (some m) none _ _ a e = absurd (cc)
known_kinds-IsSound u v (some r) (some m) (some p) none _ a e = absurd (cc)
known_kinds-IsSound u v (some r) (some m) (some p) (some q) none a e = absurd (cc)
known_kinds-IsSound u v (some r) (some m) (some p) (some q) (some k) a e =
    check_input-IsSound u _ r p q _ _ _ _ m k a e

-- An input that `assertAgentConfigurationInput` accepts is sound: its protocol is that of the runtime
-- and the provider supports it; a custom model has an allowed address; an unauthenticated model is at a
-- loopback address of a provider that allows it, with no key set or cleared; no key is set and cleared.
pub assert_agent_configuration_input-IsSound :
    (parse_url : Text → Option Url) (v : Value) (a : AgentConfigurationInput)
    → assert_agent_configuration_input parse_url v ≡ ok a
    → IsSound parse_url a
unfolding assert_agent_configuration_input
assert_agent_configuration_input-IsSound parse_url v a e =
    known_kinds-IsSound parse_url v _ _ _ _ _ a (reject_if-eq-ok _ _ _ e).1
