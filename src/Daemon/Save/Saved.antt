-- ===== src/Daemon/Save/Saved.antt =====
-- What a change of the agent's configuration that succeeds leaves stored.
use lucky_tag.Common.{◌≡◌, true, false, ◌&&◌, none, some, ◌⊎◌}
use lucky_tag.Config.Input.{AgentConfigurationInput, is_custom, is_open}
use lucky_tag.Daemon.{Scope, Options, World, same_scope, credential_scope}
use lucky_tag.Daemon.Save.{is_some, has_key, requires_api_key, with_agent}
use lucky_tag.Text.{Text, truthy}
use lucky_tag.Daemon.Save.Credential.{IsInUse}

module _ (o : Options) (input : AgentConfigurationInput) where
  -- The configuration has the input's agent; it says that a key is there exactly if one is asked for and
  -- the keychain gives one, which an enabled agent that asks for one has; other scopes are as they were. Under
  -- the agent's scope there is the key that was given; without one, no key is there for a custom model if the
  -- old one was not in use there or is to be cleared, and else it is as it was.
  pub record IsSaved (w x : World) : Type 0 where
    pub config :
        x.config
        ≡ with_agent input
            (requires_api_key input
              && is_some (truthy (x.credential (credential_scope o input.runtime input.base_url))))
            w.config
    pub enough :
        input.enabled ≡ true
        → requires_api_key input ≡ true
        → is_some (truthy (x.credential (credential_scope o input.runtime input.base_url))) ≡ true
    pub others :
        (s : Scope)
        → same_scope s (credential_scope o input.runtime input.base_url) ≡ false
        → x.credential s ≡ w.credential s
    pub stored :
        {k : Text}
        → truthy input.api_key ≡ some k
        → input.clear_api_key ≡ false
        → is_open input.authentication ≡ false
        → x.credential (credential_scope o input.runtime input.base_url) ≡ some k
    pub unused :
        is_custom input.mode ≡ true
        → has_key input ≡ false
        → ((IsInUse o input w.config → ⊥) ⊎ (input.clear_api_key ≡ true))
        → truthy (x.credential (credential_scope o input.runtime input.base_url)) ≡ none
    pub kept :
        has_key input ≡ false
        → input.clear_api_key ≡ false
        → ((is_custom input.mode ≡ false) ⊎ IsInUse o input w.config)
        → x.credential (credential_scope o input.runtime input.base_url)
          ≡ w.credential (credential_scope o input.runtime input.base_url)
