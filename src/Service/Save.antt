-- ===== src/Service/Save.antt =====
-- main/core/service.ts: `saveConfig` and `syncKnowledge`, with what the engine can see while a call of a store or of the
-- engine is under way.
pub mod Synced
pub mod Views
use lucky_tag.Act.{Act, pure, of_result, ◌>>=◌, ◌>>◌, or_restore}
use lucky_tag.Common.{
  ℕ, suc, Bool, true, false, not, ◌&&◌, ◌||◌, ◌==◌, Option, none, some, List, [], ◌∷◌, length,
  if◌then◌else◌,
}
use lucky_tag.Contracts.{AppConfig, KnowledgeSource, CoreStateFile}
use lucky_tag.Knowledge.{KnowledgeSnapshotFile, empty_knowledge_snapshot}
use lucky_tag.Knowledge.Sync.{SyncClient, next_snapshot}
use lucky_tag.Service.Reset.{
  enabled_group_ids, allowlisted_group_ids, newly_enabled_groups, reset_groups,
}
use lucky_tag.Service.Selection.{
  select_knowledge_sources, configured_source_ids, filter_knowledge_snapshot, is_pruned,
}
use lucky_tag.Text.{Text, text_eq}
use lucky_tag.Worker.Effects.{Result, ok, err}

-- What the engine reads at once: `currentConfig`, and the snapshot from which the index was built.
pub record View : Type 0 where
  pub current_config : AppConfig
  pub index : KnowledgeSnapshotFile

-- The stores and the fields of the service; `views` has what was visible at each wait, newest first.
pub record World : Type 0 where
  pub config : AppConfig
  pub state : CoreStateFile
  pub knowledge : KnowledgeSnapshotFile
  pub view : View
  pub allowlist : List Text
  pub stops : ℕ
  pub reschedules : ℕ
  pub views : List View
  pub tick : ℕ

-- `others` is what happens during a wait, `fault` a call that rejects, `time_at` the clock during a
-- wait, and `stringify_sources` is `JSON.stringify`.
pub record SaveOptions : Type 0 where
  pub others : ℕ → World → World
  pub fault : ℕ → Option Text
  pub time_at : ℕ → ℕ → Text
  pub stringify_sources : List KnowledgeSource → Text

abbrev pub when : Bool → Act World (Unit {0}) → Act World (Unit {0})
when true m = m
when false m = pure tt

abbrev pub settled : Option Text → World → Result (Unit {0}) × World
settled none w = (ok tt, w)
settled (some e) w = (err e, w)

abbrev pub is_empty_list : List Text → Bool
is_empty_list [] = true
is_empty_list (t ∷ ts) = false

unfoldable pub modify : (World → World) → Act World (Unit {0})
modify f w = (ok tt, f w)

unfoldable pub gets {ℓ} : {A : Type ℓ} → (World → A) → Act World A
gets f w = (ok (f w), w)

unfoldable pub set_view : AppConfig → KnowledgeSnapshotFile → Act World (Unit {0})
set_view config index w =
    (ok tt, record w { view = record { current_config = config; index = index } })

module _ (o : SaveOptions) where
  -- A wait for a call
  unfoldable pub wait : Act World (Unit {0})
  wait w =
      settled (o.fault w.tick)
        (o.others w.tick (record w { views = w.view ∷ w.views; tick = suc w.tick }))

  -- `JSON.stringify(previous.knowledgeSources) !== JSON.stringify(config.knowledgeSources)`
  unfoldable pub sources_changed : AppConfig → AppConfig → Bool
  sources_changed previous config = not (
      text_eq (o.stringify_sources previous.knowledge_sources)
        (o.stringify_sources config.knowledge_sources))

  unfoldable pub reset_state : List Text → Act World (Unit {0})
  unfolding modify
  reset_state groups = do
    wait
    modify (λ w. record w { state = reset_groups groups (o.time_at w.tick) w.state })

  -- From `priorCurrentConfig` to the end of the `try`
  unfoldable pub switch_config : AppConfig → AppConfig → Act World (Unit {0})
  unfolding modify gets set_view wait sources_changed
  switch_config previous config = do
    prior ← gets (λ w. w.view)
    set_view config
        (if sources_changed previous config then empty_knowledge_snapshot else prior.index)
    or_restore (wait >> modify (λ w. record w { config = config })) (λ w. record w {
      view = record {
        current_config = prior.current_config;
        index = if sources_changed previous config then prior.index else w.view.index;
      };
    })

  -- The knowledge of sources that are gone is removed, and the index is built again.
  unfoldable pub rebuild_index : AppConfig → Act World (Unit {0})
  unfolding modify gets set_view wait
  rebuild_index config = do
    wait
    stored ← gets (λ w. w.knowledge)
    let pruned = select_knowledge_sources stored (configured_source_ids config)
    when (is_pruned stored pruned) (wait >> modify (λ w. record w { knowledge = pruned }))
    modify
        (λ w. record w { view = record w.view { index = filter_knowledge_snapshot pruned config } })

  -- `worker.stop()` or `worker.reschedule()`
  unfoldable pub adjust_worker : AppConfig → AppConfig → Act World (Unit {0})
  unfolding modify
  adjust_worker previous config =
      if previous.reply_policy.enabled
        && (not config.reply_policy.enabled || length (enabled_group_ids config) == 0)
      then wait >> modify (λ w. record w { stops = suc w.stops })
      else when
          (not (
            previous.reply_policy.poll_interval_seconds
            == config.reply_policy.poll_interval_seconds))
          (wait >> modify (λ w. record w { reschedules = suc w.reschedules }))

  -- What follows once the previous configuration is read
  unfoldable pub save_over : AppConfig → AppConfig → Act World (Unit {0})
  unfolding modify
  save_over previous config = do
    when (not (is_empty_list (newly_enabled_groups previous config)))
        (reset_state (newly_enabled_groups previous config))
    switch_config previous config
    modify (λ w. record w { allowlist = allowlisted_group_ids config })
    rebuild_index config
    adjust_worker previous config

  -- `saveConfig`, up to the update that it emits; `asserted` is what `assertAppConfig` returns.
  unfoldable pub save_config : Result AppConfig → Act World (Unit {0})
  unfolding gets
  save_config asserted = do
    config ← of_result asserted
    wait
    previous ← gets (λ w. w.config)
    save_over previous config

  -- `performSync`, over the stored snapshot; `finished_at` gives the time.
  unfoldable pub synchronize : SyncClient → (ℕ → Text) → List KnowledgeSource → Act World (Unit {0})
  unfolding modify gets
  synchronize client finished_at sources = do
    wait
    previous ← gets (λ w. w.knowledge)
    wait
    modify
        (λ w. record w { knowledge = next_snapshot client (finished_at w.tick) previous sources })

  -- `syncKnowledge`, up to the update that it emits
  unfoldable pub sync_knowledge : SyncClient → (ℕ → Text) → Act World (Unit {0})
  unfolding modify gets
  sync_knowledge client finished_at = do
    wait
    config ← gets (λ w. w.config)
    synchronize client finished_at config.knowledge_sources
    wait
    latest ← gets (λ w. w.config)
    modify (λ w. record w { view = record w.view { current_config = latest } })
    rebuild_index latest
