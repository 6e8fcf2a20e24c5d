-- ===== src/Security/Grants.antt =====
-- Which local directories a configuration can bring in.
use lucky_tag.Common.{
  ◌≡◌, refl, sym, subst, ◌⊎◌, ◌↔◌, Bool, inl, inr, Bool, true, not, ◌&&◌, List, [], ◌∷◌, All,
  Bool-cases, arith, filter,
}
use lucky_tag.Contracts.{
  AppConfig, KnowledgeSource, local_directory, sample_library_doc, sample_library_book,
}
use lucky_tag.Security.{
  local_paths, check_paths, is_granted, assert_config_transition, commit_config,
}
use lucky_tag.Text.{Text, text_eq, text_eq_iff, member}
use lucky_tag.Text.Member.{mem_of_member, member_of_mem}
use lucky_tag.Worker.Effects.{ok}
use mathlib.Core.List.{Memᴰ}

module _ (resolve : Text → Text) where
  -- A list of sources has a local directory whose resolved path this is.
  abbrev pub HasDirectory : Text → List KnowledgeSource → Type 0
  HasDirectory p sources =
      (id label path : Text) × (enabled : Bool) × Memᴰ (local_directory id label path enabled)
        sources
      × (resolve path ≡ p)

  abbrev pub Grants : List Text → AppConfig → Text → Type 0
  Grants selected current path =
      HasDirectory (resolve path) current.knowledge_sources ⊎ Memᴰ (resolve path) selected

  -- A source may come in: it is no local directory, or one that is known or was selected.
  unfoldable pub IsGranted : List Text → AppConfig → KnowledgeSource → Type 0
  IsGranted selected current (local_directory id label path enabled) = Grants selected current path
  IsGranted selected current (sample_library_doc id label route_or_url enabled) = Unit {0}
  IsGranted selected current (sample_library_book id label namespace enabled) = Unit {0}

  later :
      {p : Text} {s : KnowledgeSource} {sources : List KnowledgeSource}
      → HasDirectory p sources
      → HasDirectory p (s ∷ sources)
  later (id, label, path, enabled, m, e) = (id, label, path, enabled, Memᴰ.tail m, e)

  check_paths_iff :
      (existing selected paths : List Text)
      → (check_paths resolve existing selected paths ≡ ok tt)
        ↔ All (λ path. is_granted resolve existing selected path ≡ true) paths
  unfolding check_paths
  check_paths_iff existing selected [] = (λ e. tt, λ a. refl)
  check_paths_iff existing selected (path ∷ paths) =
      elim (Bool-cases (is_granted resolve existing selected path)) [
        | inl granted ↦
            let (there, back) = check_paths_iff existing selected paths in
            (λ e. (granted, there (rw granted at e)), λ (g, rest). rw granted (back rest))
        | inr missing ↦ (λ e. absurd (ground arith), λ (g, rest). absurd (ground arith))
      ]

  member-filter :
      (keep : Text → Bool) (path : Text) (paths : List Text)
      → member path (filter keep paths) ≡ (member path paths && keep path)
  unfolding member filter
  member-filter keep path [] = refl
  member-filter keep path (p ∷ paths) = elim (Bool-cases (text_eq path p)) [
    | inl same ↦
        let e = (text_eq_iff path p).0 same in
        elim (Bool-cases (keep p)) [
          | inl k ↦ ground (arith, member-filter keep path paths, e)
          | inr k ↦ ground (arith, member-filter keep path paths, e)
        ]
    | inr other ↦ ground (arith, member-filter keep path paths)
  ]

  local_path_of :
      (sources : List KnowledgeSource) {p : Text}
      → Memᴰ p (local_paths resolve sources)
      → HasDirectory p sources
  unfolding local_paths
  local_path_of [] m = elim m [ ]
  local_path_of (local_directory id label path enabled ∷ sources) (Memᴰ.head e) =
      (id, label, path, enabled, Memᴰ.head refl, sym e)
  local_path_of (local_directory id label path enabled ∷ sources) (Memᴰ.tail m) =
      later (local_path_of sources m)
  local_path_of (sample_library_doc id label route_or_url enabled ∷ sources) m =
      later (local_path_of sources m)
  local_path_of (sample_library_book id label namespace enabled ∷ sources) m =
      later (local_path_of sources m)

  local_paths-mem :
      (sources : List KnowledgeSource) {p : Text}
      → HasDirectory p sources
      → Memᴰ p (local_paths resolve sources)
  unfolding local_paths
  local_paths-mem [] (id, label, path, enabled, m, e) = elim m [ ]
  local_paths-mem (s ∷ sources) {p} (id, label, path, enabled, Memᴰ.head f, e) =
      subst (λ x. Memᴰ p (local_paths resolve (x ∷ sources))) f (Memᴰ.head (sym e))
  local_paths-mem (local_directory id' label' path' enabled' ∷ sources)
        (id, label, path, enabled, Memᴰ.tail m, e) =
      Memᴰ.tail (local_paths-mem sources (id, label, path, enabled, m, e))
  local_paths-mem (sample_library_doc id' label' route_or_url enabled' ∷ sources)
        (id, label, path, enabled, Memᴰ.tail m, e) =
      local_paths-mem sources (id, label, path, enabled, m, e)
  local_paths-mem (sample_library_book id' label' namespace enabled' ∷ sources)
        (id, label, path, enabled, Memᴰ.tail m, e) =
      local_paths-mem sources (id, label, path, enabled, m, e)

  is_granted_iff :
      (selected : List Text) (current : AppConfig) (path : Text)
      → (is_granted resolve (local_paths resolve current.knowledge_sources) selected (resolve path)
          ≡ true)
        ↔ Grants selected current path
  is_granted_iff selected current path = (
    λ e. elim (Bool-cases (member (resolve path) (local_paths resolve current.knowledge_sources))) [
      | inl there ↦ inl (local_path_of current.knowledge_sources (mem_of_member _ _ there))
      | inr absent ↦ inr (mem_of_member _ selected (rw absent at e))
    ],
    λ g. elim g [
      | inl there ↦ rw (member_of_mem _ _ (local_paths-mem current.knowledge_sources there)) refl
      | inr chosen ↦ ground (arith, member_of_mem (resolve path) selected chosen)
    ],
  )

  local_paths_iff :
      (selected : List Text) (current : AppConfig) (sources : List KnowledgeSource)
      → All
          (λ path.
            is_granted resolve (local_paths resolve current.knowledge_sources) selected path ≡ true)
          (local_paths resolve sources)
        ↔ All (IsGranted selected current) sources
  unfolding local_paths IsGranted
  local_paths_iff selected current [] = (λ a. tt, λ a. tt)
  local_paths_iff selected current (local_directory id label path enabled ∷ sources) =
      let (there, back) = local_paths_iff selected current sources in
      let (one, none_else) = is_granted_iff selected current path in
      (λ (g, rest). (one g, there rest), λ (g, rest). (none_else g, back rest))
  local_paths_iff selected current (sample_library_doc id label route_or_url enabled ∷ sources) =
      let (there, back) = local_paths_iff selected current sources in
      (λ rest. (tt, there rest), λ (g, rest). back rest)
  local_paths_iff selected current (sample_library_book id label namespace enabled ∷ sources) =
      let (there, back) = local_paths_iff selected current sources in
      (λ rest. (tt, there rest), λ (g, rest). back rest)

  -- A proposed configuration passes exactly if the path of each of its local directories, as resolved, is that of
  -- a local directory of the current configuration, or was selected by the user and not used up since.
  pub assert_config_transition_iff :
      (selected : List Text) (current proposed : AppConfig)
      → (assert_config_transition resolve selected current proposed ≡ ok tt)
        ↔ All (IsGranted selected current) proposed.knowledge_sources
  unfolding assert_config_transition
  assert_config_transition_iff selected current proposed =
      let (passed, passes) =
        check_paths_iff (local_paths resolve current.knowledge_sources) selected
          (local_paths resolve proposed.knowledge_sources) in
      let (there, back) = local_paths_iff selected current proposed.knowledge_sources in
      (λ e. there (passed e), λ a. passes (back a))

  -- A selection is good for one configuration: after `commitConfig`, a path is still selected exactly if
  -- it was selected and the committed configuration has no local directory there.
  member-commit_config :
      (proposed : AppConfig) (selected : List Text) (path : Text)
      → member path (commit_config resolve proposed selected) ≡ (
          member path selected
          && not (member path (local_paths resolve proposed.knowledge_sources)))
  unfolding commit_config
  member-commit_config proposed selected path = member-filter _ path selected
