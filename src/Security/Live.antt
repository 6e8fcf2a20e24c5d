-- ===== src/Security/Live.antt =====
-- When a configuration needs the user's approval.
use lucky_tag.Common.{◌≡◌, ◌⊎◌, ◌↔◌, true, false, inl, inr, arith, Bool-cases}
use lucky_tag.Contracts.{AppConfig}
use lucky_tag.Security.{is_live_sending_enabled, requires_live_sending_approval}

-- Real messages are not sent: replies are off, or a dry run.
abbrev pub IsOff : AppConfig → Type 0
IsOff config = (config.reply_policy.enabled ≡ false) ⊎ (config.reply_policy.dry_run ≡ true)

-- An approval is asked for exactly if real sending is off and would be switched on.
requires_live_sending_approval_iff :
    (current proposed : AppConfig)
    → (requires_live_sending_approval current proposed ≡ true) ↔ (
        IsOff current
        × (proposed.reply_policy.enabled ≡ true)
        × (proposed.reply_policy.dry_run ≡ false))
unfolding requires_live_sending_approval is_live_sending_enabled
requires_live_sending_approval_iff current proposed = (
  λ e. (
    elim (Bool-cases current.reply_policy.enabled) [
      | inl on ↦ inr (ground arith)
      | inr off ↦ inl off
    ],
    ground arith,
    ground arith,
  ),
  λ (off, on, live). elim off [ inl a ↦ ground arith | inr a ↦ ground arith ],
)
