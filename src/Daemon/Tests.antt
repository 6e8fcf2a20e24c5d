-- ===== src/Daemon/Tests.antt =====
-- A key for a new model, stored once, and once taken back because the configuration cannot be stored.
use lucky_tag.Common.{◌≡◌, refl, true, false, ◌==◌, none, some, [], ◌∷◌, inr, if◌then◌else◌}
use lucky_tag.Config.Input.{AgentConfigurationInput}
use lucky_tag.Contracts.{AppConfig, codex, custom_model, openai, openai_responses, api_key}
use lucky_tag.Daemon.{Scope, done, failed, Options, World}
use lucky_tag.Daemon.Save.{save_agent_configuration}
use lucky_tag.Daemon.Save.Atomic.{save_agent_configuration-IsUndone}
use lucky_tag.Daemon.Save.Live.{Change, changes, changes-IsOff}
use lucky_tag.Security.Live.{IsOff}
use lucky_tag.Text.{truthy}
use lucky_tag.Worker.Effects.{err}
use lucky_tag.Worker.Sample.{config}

abbrev input : AgentConfigurationInput
input = record {
  enabled = true;
  runtime = codex;
  mode = custom_model;
  provider = openai;
  protocol = openai_responses;
  authentication = api_key;
  model_name = 109 ∷ [];
  base_url = 104 ∷ [];
  api_key = some (75 ∷ []);
  clear_api_key = false;
}

abbrev options : Options
options = record {
  to_url = λ text. some text;
  read_fault = λ n. none;
  write_outcome = λ n. done;
  snapshot_fault = λ n. none;
  save_outcome = λ n. done;
  decorate_fault = λ n. none;
}

-- The fifth call fails after it stored the configuration.
abbrev failing : Options
failing = record options { save_outcome = λ n. if n == 4 then failed true (101 ∷ []) else done }

abbrev world : World
world = record { credential = λ s. none; config = config; ignored = 0; tick = 0 }

fails : (save_agent_configuration failing input world).0 ≡ err (101 ∷ [])
unfolding save_agent_configuration
fails = refl

drops_nothing : (save_agent_configuration failing input world).1.ignored ≡ 0
unfolding save_agent_configuration
drops_nothing = refl

save_agent_configuration-IsUndone_example :
    ((s : Scope) → truthy ((save_agent_configuration failing input world).1.credential s) ≡ none)
    × ((save_agent_configuration failing input world).1.config ≡ config)
save_agent_configuration-IsUndone_example =
    save_agent_configuration-IsUndone failing input world (101 ∷ []) fails drops_nothing

abbrev quiet : AppConfig
quiet = record config { reply_policy = record config.reply_policy { dry_run = true } }

-- A change of the agent, and an attempt to send for real without an approval
changes-IsOff_example :
    IsOff
      (changes options
        (Change.agent input ∷ Change.application config none ∷ [])
        (record world { config = quiet })).config
changes-IsOff_example =
    changes-IsOff options (Change.agent input ∷ Change.application config none ∷ [])
      (record world { config = quiet }) (tt, ((λ e. cc e), tt)) (inr refl)
