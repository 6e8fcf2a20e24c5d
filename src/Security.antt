-- ===== src/Security.antt =====
-- main/security-policy.ts: which local directories and which policies a proposed configuration may use.
pub mod Grants
pub mod Live
mod Tests
use lucky_tag.Common.{
  Bool, true, false, not, ◌&&◌, ◌||◌, List, [], ◌∷◌, ◌++◌, filter, if◌then◌else◌,
}
use lucky_tag.Contracts.{
  AppConfig, KnowledgeSource, local_directory, sample_library_doc, sample_library_book,
}
use lucky_tag.Text.{Text, lit, member}
use lucky_tag.Worker.Effects.{Result, ok, err}

-- `resolve` of node:path turns a path into an absolute one; it is given.
module _ (resolve : Text → Text) where
  -- The canonical paths of the local directories.
  unfoldable pub local_paths : List KnowledgeSource → List Text
  local_paths [] = []
  local_paths (local_directory id label path enabled ∷ sources) = resolve path ∷ local_paths sources
  local_paths (sample_library_doc id label route_or_url enabled ∷ sources) = local_paths sources
  local_paths (sample_library_book id label namespace enabled ∷ sources) = local_paths sources

  -- `this.selectedPaths.add(…)`; the state is the set `selectedPaths`.
  unfoldable pub authorize_selected_path : Text → List Text → List Text
  authorize_selected_path path selected =
      if member (resolve path) selected then selected else selected ++ resolve path ∷ []

  unfoldable pub unauthorized : Text
  unauthorized = lit "本地知识目录必须通过系统文件夹选择器授权"

  abbrev pub is_granted : List Text → List Text → Text → Bool
  is_granted existing selected path = member path existing || member path selected

  -- The loop over the proposed local directories.
  unfoldable pub check_paths : List Text → List Text → List Text → Result (Unit {0})
  check_paths existing selected [] = ok tt
  check_paths existing selected (path ∷ paths) =
      let rest = check_paths existing selected paths in
      if is_granted existing selected path then rest else err unauthorized

  unfoldable pub assert_config_transition : List Text → AppConfig → AppConfig → Result (Unit {0})
  assert_config_transition selected current proposed =
      check_paths (local_paths current.knowledge_sources) selected
        (local_paths proposed.knowledge_sources)

  unfoldable pub commit_config : AppConfig → List Text → List Text
  commit_config proposed selected =
      filter (λ path. not (member path (local_paths proposed.knowledge_sources))) selected

unfoldable pub is_live_sending_enabled : AppConfig → Bool
is_live_sending_enabled config = config.reply_policy.enabled && not config.reply_policy.dry_run

unfoldable pub requires_live_sending_approval : AppConfig → AppConfig → Bool
requires_live_sending_approval current proposed =
    not (is_live_sending_enabled current) && is_live_sending_enabled proposed
