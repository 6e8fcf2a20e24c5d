-- ===== src/Service/Save/Synced.antt =====
-- A synchronisation shows no knowledge that the configuration does not allow.
use lucky_tag.Act.{Act, continue}
use lucky_tag.Common.{ℕ, ◌≡◌, refl, sym, ◌∙◌, subst, List}
use lucky_tag.Contracts.{AppConfig, KnowledgeSource}
use lucky_tag.Knowledge.Sync.{SyncClient}
use lucky_tag.Service.Save.{
  World, SaveOptions, modify, gets, wait, rebuild_index, synchronize, sync_knowledge,
}
use lucky_tag.Service.Save.Views.{
  IsSafe, IsQuiet, Inv, Inv-IsSafe, wait-Keeps, config-wait, rebuild_index-Keeps,
}
use lucky_tag.Service.Selection.{enabled_source_ids}
use lucky_tag.Service.Selection.Allowed.{IsAllowed}
use lucky_tag.Text.{Text}
use lucky_tag.Worker.Effects.{Result, ok, err}

-- Safe under the stored configuration.
record Stays (c : AppConfig) (w : World) : Type 0 where
  inv : Inv c w
  config : w.config ≡ c

abbrev Stay {ℓ} : {A : Type ℓ} → AppConfig → Act World A → Type 0
Stay c m = (w : World) → Stays c w → Stays c (m w).1

continue-Stays {ℓ κ} :
    {A : Type ℓ} {B : Type κ} (c : AppConfig) (r : Result A) (f : A → Act World B) (w : World)
    → ((a : A) → Stay c (f a))
    → Stays c w
    → Stays c (continue r f w).1
continue-Stays c (ok a) f w h i = h a w i
continue-Stays c (err e) f w h i = i

continue-IsSafe {ℓ} :
    {A : Type ℓ} (c : AppConfig) (r : Result A) (f : A → Act World (Unit {0})) (w : World)
    → ((a : A) (v : World) → Stays c v → IsSafe (f a v).1)
    → Stays c w
    → IsSafe (continue r f w).1
continue-IsSafe c (ok a) f w h i = h a w i
continue-IsSafe c (err e) f w h i = Inv-IsSafe i.inv

module _ (o : SaveOptions) (quiet : IsQuiet o) (client : SyncClient) (finished_at : ℕ → Text) where
  wait-Stay : (c : AppConfig) → Stay c (wait o)
  wait-Stay c w i = record {
    inv = wait-Keeps o quiet c w i.inv;
    config = config-wait o quiet w ∙ i.config;
  }

  synchronize-Stay :
      (c : AppConfig) (sources : List KnowledgeSource)
      → Stay c (synchronize o client finished_at sources)
  unfolding synchronize gets modify
  synchronize-Stay c sources w i =
      continue-Stays c (wait o w).0 _ (wait o w).1
        (λ _ v k.
          continue-Stays c (wait o v).0 _ (wait o v).1
            (λ _ u l. record {
              inv = record { seen = l.inv.seen; fit = l.inv.fit; current = l.inv.current };
              config = l.config;
            })
            (wait-Stay c v k))
        (wait-Stay c w i)

  last-IsSafe :
      (c : AppConfig) (v : World) (latest : AppConfig)
      → latest ≡ c
      → Stays c v
      → IsSafe
          (rebuild_index o latest (record v { view = record v.view { current_config = latest } })).1
  last-IsSafe c v latest e i =
      let kept : Inv latest (record v { view = record v.view { current_config = latest } }) =
        record {
          seen = i.inv.seen;
          fit =
              subst (λ d. IsAllowed (enabled_source_ids d) v.view.index) (i.inv.current ∙ sym e)
                i.inv.fit;
          current = refl;
        } in
      Inv-IsSafe (rebuild_index-Keeps o quiet latest _ kept)

  -- Every configuration that the engine can see while syncKnowledge runs, at each wait and at its end,
  -- whether it succeeds or fails, comes with an index of its enabled sources only, if this held before,
  -- the visible configuration was the stored one, and no other call saves a configuration or
  -- synchronises knowledge meanwhile.
  pub sync_knowledge-IsSafe :
      (w : World)
      → IsSafe w
      → w.view.current_config ≡ w.config
      → IsSafe (sync_knowledge o client finished_at w).1
  unfolding sync_knowledge gets modify
  sync_knowledge-IsSafe w safe same =
      let start : Stays w.config w = record {
        inv = record { seen = safe.0; fit = safe.1; current = same };
        config = refl;
      } in
      continue-IsSafe w.config (wait o w).0 _ (wait o w).1
        (λ _ v k.
          continue-IsSafe w.config (synchronize o client finished_at v.config.knowledge_sources v).0
            _ (synchronize o client finished_at v.config.knowledge_sources v).1
            (λ _ u l.
              continue-IsSafe w.config (wait o u).0 _ (wait o u).1
                (λ _ t m. last-IsSafe w.config t t.config m.config m) (wait-Stay w.config u l))
            (synchronize-Stay w.config v.config.knowledge_sources v k))
        (wait-Stay w.config w start)
