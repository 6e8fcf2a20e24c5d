-- ===== src/Security/Tests.antt =====
-- Configurations at concrete paths.
use lucky_tag.Common.{◌≡◌, ◌↔◌, true, [], ◌∷◌, All}
use lucky_tag.Contracts.{AppConfig, local_directory}
use lucky_tag.Security.{assert_config_transition}
use lucky_tag.Security.Grants.{IsGranted, assert_config_transition_iff}
use lucky_tag.Text.{Text}
use lucky_tag.Worker.Effects.{ok}
use lucky_tag.Worker.Sample.{config}

abbrev resolve : Text → Text
resolve path = 47 ∷ path

abbrev with_directory : AppConfig
with_directory = record config {
  knowledge_sources = local_directory (97 ∷ []) (98 ∷ []) (99 ∷ []) true ∷ [];
}

assert_config_transition_iff_example :
    (assert_config_transition resolve ((47 ∷ 99 ∷ []) ∷ []) config with_directory ≡ ok tt)
    ↔ All (IsGranted resolve ((47 ∷ 99 ∷ []) ∷ []) config) with_directory.knowledge_sources
assert_config_transition_iff_example =
    assert_config_transition_iff resolve ((47 ∷ 99 ∷ []) ∷ []) config with_directory
