-- ===== src/Daemon/Save/Live.antt =====
-- How a stored configuration can come to send for real.
use lucky_tag.Common.{
  ◌≡◌, ◌≢◌, refl, ap, Bool, false, not, ◌&&◌, ◌||◌, Option, none, some, List, [], ◌∷◌, All,
  Bool-cases, inl, inr, arith,
}
use lucky_tag.Act.{Act}
use lucky_tag.Config.Input.{AgentConfigurationInput, is_custom}
use lucky_tag.Contracts.{AppConfig}
use lucky_tag.Daemon.{Scope, Options, World}
use lucky_tag.Daemon.Save.{
  has_key, requires_api_key, same_credential_scope, store_with, store_configuration, store_or_undo,
  previous_credential, change_credential, change_agent, checked_change, save_agent_configuration,
  with_agent, allows_live_sending, save_application_configuration, approves,
}
use lucky_tag.Security.Live.{IsOff}
use lucky_tag.Text.{Text, lit, text_eq, text_eq_iff}
use lucky_tag.Worker.Effects.{ok, err}
use lucky_tag.Daemon.Save.StaysOff.{
  StaysOff, bind-StaysOff, decorate-StaysOff, get_credential-StaysOff, has_credential-StaysOff,
  if-StaysOff, or_else-StaysOff, pure-StaysOff, save_config-StaysOff, snapshot-StaysOff,
  undo-StaysOff, update_credential-StaysOff,
}

-- A change of the configuration, as the daemon is asked for it: the agent's, or that of the application with
-- what its header of native approval says.
pub data Change : Type 0 where
  agent : AgentConfigurationInput → Change
  application : AppConfig → (native_approval : Option Text) → Change

abbrev pub change : Options → Change → Act World (Unit {0})
change o (Change.agent input) = save_agent_configuration o input
change o (Change.application proposed native_approval) =
    save_application_configuration o proposed native_approval

-- The queue: one change after the other, whether the ones before succeeded or not.
unfoldable pub changes : Options → List Change → World → World
changes o [] w = w
changes o (c ∷ cs) w = changes o cs (change o c w).1

abbrev pub IsUnapproved : Change → Type 0
IsUnapproved (Change.agent input) = Unit {0}
IsUnapproved (Change.application proposed native_approval) =
    native_approval ≢ some (lit "enable-live-sending")

module _ (o : Options) (input : AgentConfigurationInput) where
  store_with-StaysOff :
      (current : AppConfig) (configured : Bool)
      → IsOff current
      → StaysOff (store_with o input current configured)
  unfolding store_with with_agent
  store_with-StaysOff current configured off =
      if-StaysOff (input.enabled && requires_api_key input && not configured)
        (λ missing. pure-StaysOff (err _))
        (λ there. bind-StaysOff (save_config-StaysOff o _ off) (λ _. decorate-StaysOff o))

  store_or_undo-StaysOff :
      (scope : Scope) (current : AppConfig) (previous : Option Text) (changed : Bool)
      → IsOff current
      → StaysOff (store_or_undo o input scope current previous changed)
  unfolding store_or_undo store_configuration
  store_or_undo-StaysOff scope current previous changed off =
      or_else-StaysOff
        (bind-StaysOff (has_credential-StaysOff o (requires_api_key input) scope)
          (λ b. store_with-StaysOff current b off))
        (λ e. undo-StaysOff o scope current previous changed e off)

  previous-StaysOff : (scope : Scope) → StaysOff (previous_credential o input scope)
  unfolding previous_credential
  previous-StaysOff scope =
      if-StaysOff (is_custom input.mode) (λ custom. get_credential-StaysOff o scope)
        (λ default. pure-StaysOff (ok none))

  checked_change-StaysOff :
      (current : AppConfig) → IsOff current → StaysOff (checked_change o input current)
  unfolding checked_change change_agent change_credential
  checked_change-StaysOff current off =
      if-StaysOff (not (is_custom input.mode) && (has_key input || input.clear_api_key))
        (λ refused. pure-StaysOff (err _))
        (λ fine.
          if-StaysOff
            (input.enabled
              && requires_api_key input
              && not (has_key input)
              && not (same_credential_scope o current input))
            (λ missing. pure-StaysOff (err _))
            (λ known. bind-StaysOff (previous-StaysOff _) (λ previous.
              bind-StaysOff (update_credential-StaysOff o _ _ previous)
                (λ changed. store_or_undo-StaysOff _ current previous changed off))))

allows_live_sending-IsOff : (c : AppConfig) → allows_live_sending c ≡ false → IsOff c
unfolding allows_live_sending
allows_live_sending-IsOff c e = elim (Bool-cases c.reply_policy.enabled) [
  | inl on ↦ elim (Bool-cases c.reply_policy.dry_run) [
    | inl dry ↦ inr dry
    | inr live ↦ absurd (ground arith)
  ]
  | inr off ↦ inl off
]

allows_live_sending_off : (c : AppConfig) → IsOff c → allows_live_sending c ≡ false
unfolding allows_live_sending
allows_live_sending_off c off = elim off [ inl a ↦ ground arith | inr a ↦ ground arith ]

unapproved :
    (native_approval : Option Text)
    → native_approval ≢ some (lit "enable-live-sending")
    → approves native_approval ≡ false
unapproved none other = refl
unapproved (some t) other = elim (Bool-cases (text_eq t (lit "enable-live-sending"))) [
  | inl same ↦ absurd (other (ap some ((text_eq_iff t (lit "enable-live-sending")).0 same)))
  | inr apart ↦ apart
]

module _ (o : Options) where
  application-StaysOff :
      (proposed : AppConfig) (native_approval : Option Text)
      → native_approval ≢ some (lit "enable-live-sending")
      → StaysOff (save_application_configuration o proposed native_approval)
  unfolding save_application_configuration
  application-StaysOff proposed native_approval other = snapshot-StaysOff o λ current off.
      if-StaysOff
        (not (allows_live_sending current)
          && allows_live_sending proposed
          && not (approves native_approval))
        (λ refused. pure-StaysOff (err _))
        (λ passed.
          bind-StaysOff
            (save_config-StaysOff o (record proposed { agent = current.agent })
              (allows_live_sending-IsOff proposed (
                ground (
                  arith,
                  passed,
                  allows_live_sending_off current off,
                  unapproved native_approval other,
                ))))
            (λ _. decorate-StaysOff o))

  change-StaysOff : (c : Change) → IsUnapproved c → StaysOff (change o c)
  unfolding save_agent_configuration
  change-StaysOff (Change.agent input) _ =
      snapshot-StaysOff o (λ current off. checked_change-StaysOff o input current off)
  change-StaysOff (Change.application proposed native_approval) other =
      application-StaysOff proposed native_approval other

  -- If real sending is off in the stored configuration, it is off after any sequence of changes of the agent and
  -- of the application, each of which may succeed or fail at any of its calls, in which no change of the
  -- application comes with the approval of real sending.
  pub changes-IsOff :
      (cs : List Change) (w : World)
      → All IsUnapproved cs
      → IsOff w.config
      → IsOff (changes o cs w).config
  unfolding changes
  changes-IsOff [] w a off = off
  changes-IsOff (c ∷ cs) w (first, rest) off =
      changes-IsOff cs (change o c w).1 rest ((change-StaysOff c first).run w off)
