-- ===== src/Service/Save/Views.antt =====
-- No view pairs a configuration with knowledge that it does not allow.
use lucky_tag.Act.{Act, continue, ◌>>=◌, ◌>>◌, or_restore}
use lucky_tag.Common.{
  ℕ, suc, ◌≡◌, refl, sym, ap, ◌∙◌, subst, Bool, true, false, not, Option, none, some, List, ◌∷◌,
  All, arith, Bool-cases, inl, inr, if◌then◌else◌, map, filter,
}
use lucky_tag.Contracts.{AppConfig, KnowledgeSource}
use lucky_tag.Knowledge.{KnowledgeSnapshotFile, empty_knowledge_snapshot}
use lucky_tag.Service.Reset.{newly_enabled_groups, allowlisted_group_ids}
use lucky_tag.Service.Save.{
  View, World, SaveOptions, when, settled, modify, gets, set_view, wait, sources_changed,
  reset_state, switch_config, rebuild_index, adjust_worker, save_over, save_config, is_empty_list,
}
use lucky_tag.Service.Selection.{
  select_knowledge_sources, configured_source_ids, enabled_source_ids, filter_knowledge_snapshot,
  is_pruned,
}
use lucky_tag.Service.Selection.Allowed.{IsAllowed, select_knowledge_sources-IsAllowed}
use lucky_tag.Knowledge.Sync.{source_id, source_enabled}
use lucky_tag.Text.{Text, text_eq_iff}
use lucky_tag.Worker.Effects.{Result, ok, err}

-- The index holds knowledge of the enabled sources only.
abbrev pub IsFit : View → Type 0
IsFit v = IsAllowed (enabled_source_ids v.current_config) v.index

enabled_same :
    (c d : AppConfig)
    → c.knowledge_sources ≡ d.knowledge_sources
    → enabled_source_ids c ≡ enabled_source_ids d
unfolding enabled_source_ids
enabled_same c d e = ap (λ t. map (λ s. source_id s) (filter (λ s. source_enabled s) t)) e

-- What was visible at each wait, and what is now.
abbrev pub IsSafe : World → Type 0
IsSafe w = All IsFit w.views × IsFit w.view

-- During a wait no other call saves a configuration or synchronises knowledge.
abbrev pub IsQuiet : SaveOptions → Type 0
IsQuiet o =
    (n : ℕ) (w : World)
    → ((o.others n w).view ≡ w.view)
      × ((o.others n w).views ≡ w.views)
      × ((o.others n w).config ≡ w.config)

-- The engine is safe under this configuration.
pub record Inv (c : AppConfig) (w : World) : Type 0 where
  pub seen : All IsFit w.views
  pub fit : IsFit w.view
  pub current : w.view.current_config ≡ c

abbrev pub Keeps {ℓ} : {A : Type ℓ} → AppConfig → Act World A → Type 0
Keeps c m = (w : World) → Inv c w → Inv c (m w).1

module _ {ℓ κ} {A : Type ℓ} {B : Type κ} (c : AppConfig) where
  continue-Keeps :
      (r : Result A) (f : A → Act World B) (w : World)
      → ((a : A) → Keeps c (f a))
      → Inv c w
      → Inv c (continue r f w).1
  continue-Keeps (ok a) f w h i = h a w i
  continue-Keeps (err e) f w h i = i

  bind-Keeps :
      (m : Act World A) (f : A → Act World B)
      → Keeps c m
      → ((a : A) → Keeps c (f a))
      → Keeps c (m >>= f)
  bind-Keeps m f h k w i = continue-Keeps (m w).0 f (m w).1 k (h w i)

pub Inv-IsSafe : {c : AppConfig} {w : World} → Inv c w → IsSafe w
Inv-IsSafe i = (i.seen, i.fit)

-- Under the configuration, or safe where the call failed.
abbrev After : AppConfig → Result (Unit {0}) × World → Type 0
After c (ok a, w) = Inv c w
After c (err e, w) = IsSafe w

Inv-After : (c : AppConfig) (r : Result (Unit {0})) (w : World) → Inv c w → After c (r, w)
Inv-After c (ok a) w i = i
Inv-After c (err e) w i = (i.seen, i.fit)

continue-After :
    (c : AppConfig) (r : Result (Unit {0})) (f : Unit {0} → Act World (Unit {0})) (w : World)
    → After c (r, w)
    → ((v : World) → Inv c v → IsSafe (f tt v).1)
    → IsSafe (continue r f w).1
continue-After c (ok a) f w h k = k w h
continue-After c (err e) f w h k = h

when-Keeps : (c : AppConfig) (b : Bool) (m : Act World (Unit {0})) → Keeps c m → Keeps c (when b m)
when-Keeps c true m h w i = h w i
when-Keeps c false m h w i = i

if-Keeps :
    (c : AppConfig) (b : Bool) (m k : Act World (Unit {0}))
    → Keeps c m
    → Keeps c k
    → Keeps c (if b then m else k)
if-Keeps c true m k h g w i = h w i
if-Keeps c false m k h g w i = g w i

settled-world : (fault : Option Text) (w : World) → (settled fault w).1 ≡ w
settled-world none w = refl
settled-world (some e) w = refl

module _ (o : SaveOptions) (quiet : IsQuiet o) where
  pub wait-Keeps : (c : AppConfig) → Keeps c (wait o)
  unfolding wait
  wait-Keeps c w i =
      let begun : World = record w { views = w.view ∷ w.views; tick = suc w.tick } in
      let (view, views, config) = quiet w.tick begun in
      subst (Inv c) (sym (settled-world (o.fault w.tick) (o.others w.tick begun))) (record {
        seen = subst (All IsFit) (sym views) (i.fit, i.seen);
        fit = subst IsFit (sym view) i.fit;
        current = ap (λ v. v.current_config) view ∙ i.current;
      })

  pub config-wait : (w : World) → (wait o w).1.config ≡ w.config
  unfolding wait
  config-wait w =
      let begun : World = record w { views = w.view ∷ w.views; tick = suc w.tick } in
      ap (λ v. v.config) (settled-world (o.fault w.tick) (o.others w.tick begun))
      ∙ (quiet w.tick begun).2

  reset_state-Keeps : (c : AppConfig) (groups : List Text) → Keeps c (reset_state o groups)
  unfolding reset_state modify
  reset_state-Keeps c groups =
      bind-Keeps c (wait o) _ (wait-Keeps c)
        (λ _ w i. record { seen = i.seen; fit = i.fit; current = i.current })

  adjust_worker-Keeps : (c previous config : AppConfig) → Keeps c (adjust_worker o previous config)
  unfolding adjust_worker modify
  adjust_worker-Keeps c previous config =
      if-Keeps c _ _ _
        (bind-Keeps c (wait o) _ (wait-Keeps c)
          (λ _. same_view (λ w. record w { stops = suc w.stops }) (λ w. refl)))
        (when-Keeps c _ _ (
          bind-Keeps c (wait o) _ (wait-Keeps c)
            (λ _. same_view (λ w. record w { reschedules = suc w.reschedules }) (λ w. refl))))
    where
      same_view :
          (f : World → World)
          → ((w : World)
              → record w { stops = 0; reschedules = 0 }
                ≡ record (f w) { stops = 0; reschedules = 0 })
          → (w : World) → Inv c w
          → Inv c (f w)
      same_view f same w i =
          let e = same w in
          record {
            seen = subst (All IsFit) (ap (λ v. v.views) e) i.seen;
            fit = subst IsFit (ap (λ v. v.view) e) i.fit;
            current = ap (λ v. v.view.current_config) (sym e) ∙ i.current;
          }

  pub rebuild_index-Keeps : (config : AppConfig) → Keeps config (rebuild_index o config)
  unfolding rebuild_index modify gets
  rebuild_index-Keeps config = bind-Keeps config (wait o) _ (wait-Keeps config) (λ _ w i.
      bind-Keeps config
        (when
          (is_pruned w.knowledge
            (select_knowledge_sources w.knowledge (configured_source_ids config)))
          _)
        _
        (when-Keeps config _ _ (
          bind-Keeps config (wait o) _ (wait-Keeps config)
            (λ _ v k. record { seen = k.seen; fit = k.fit; current = k.current })))
        (λ _ v k. record {
          seen = k.seen;
          fit =
              fits w v (select_knowledge_sources w.knowledge (configured_source_ids config))
                k.current;
          current = k.current;
        })
        w i)
    where
      fits :
          (w v : World) (pruned : KnowledgeSnapshotFile)
          → v.view.current_config ≡ config
          → IsAllowed
              (enabled_source_ids v.view.current_config)
              (filter_knowledge_snapshot pruned config)
      fits w v pruned e =
          subst (λ c. IsAllowed (enabled_source_ids c) (filter_knowledge_snapshot pruned config))
            (sym e)
            (unfold filter_knowledge_snapshot in
              select_knowledge_sources-IsAllowed pruned (enabled_source_ids config))

  view-wait : (w : World) → (wait o w).1.view ≡ w.view
  unfolding wait
  view-wait w =
      let begun : World = record w { views = w.view ∷ w.views; tick = suc w.tick } in
      ap (λ v. v.view) (settled-world (o.fault w.tick) (o.others w.tick begun))
      ∙ (quiet w.tick begun).0

  module _
      (injective : (xs ys : List KnowledgeSource)
        → o.stringify_sources xs ≡ o.stringify_sources ys
        → xs ≡ ys) where
    unchanged_sources :
        (previous config : AppConfig)
        → sources_changed o previous config ≡ false
        → previous.knowledge_sources ≡ config.knowledge_sources
    unfolding sources_changed
    unchanged_sources previous config h =
        injective previous.knowledge_sources config.knowledge_sources (
          (text_eq_iff (o.stringify_sources previous.knowledge_sources)
              (o.stringify_sources config.knowledge_sources)).0
            (ground (arith, h)))

    empty_fit :
        (c : AppConfig) → IsFit (record { current_config = c; index = empty_knowledge_snapshot })
    empty_fit c = record {
      documents = λ d m. elim m [ ];
      chunks = λ d m. elim m [ ];
      source_errors = λ e m. elim m [ ];
    }

    -- The index while the new configuration is written
    switched_fit :
        (previous config : AppConfig) (v : View)
        → IsFit v
        → v.current_config ≡ previous
        → IsFit (record {
          current_config = config;
          index = if sources_changed o previous config then empty_knowledge_snapshot else v.index;
        })
    switched_fit previous config v fit same =
        elim (Bool-cases (sources_changed o previous config)) [
          | inl changed ↦ rw changed (empty_fit config)
          | inr unchanged ↦ rw unchanged (
              subst (λ ids. IsAllowed ids v.index)
                (enabled_same v.current_config config (
                  ap (λ c. c.knowledge_sources) same ∙ unchanged_sources previous config unchanged))
                fit)
        ]

    -- What the `catch` puts back
    restored_fit :
        (previous config : AppConfig) (v after : View)
        → IsFit v
        → (sources_changed o previous config ≡ false → after.index ≡ v.index)
        → IsFit (record {
          current_config = v.current_config;
          index = if sources_changed o previous config then v.index else after.index;
        })
    restored_fit previous config v after fit same =
        elim (Bool-cases (sources_changed o previous config)) [
          | inl changed ↦ rw changed fit
          | inr unchanged ↦ rw unchanged (rw (same unchanged) fit)
        ]

    switch_config-After :
        (previous config : AppConfig) (w : World)
        → Inv previous w
        → After config (switch_config o previous config w)
    unfolding switch_config set_view gets modify
    switch_config-After previous config w i =
        let v : View = record {
          current_config = config;
          index =
              if sources_changed o previous config then empty_knowledge_snapshot else w.view.index;
        } in
        let shown : World = record w { view = v } in
        let begun : Inv config shown = record {
          seen = i.seen;
          fit = switched_fit previous config w.view i.fit i.current;
          current = refl;
        } in
        written (wait o shown).0 (wait o shown).1 (wait-Keeps config shown begun) (view-wait shown)
      where
        written :
            (r : Result (Unit {0})) (after : World)
            → Inv config after
            → after.view ≡ record {
              current_config = config;
              index =
                  if sources_changed o previous config
                  then empty_knowledge_snapshot
                  else w.view.index;
            }
            → After config (
                or_restore
                  (λ (_ : World). continue r (λ _ u. (ok tt, record u { config = config })) after)
                  (λ u. record u {
                    view = record {
                      current_config = w.view.current_config;
                      index =
                          if sources_changed o previous config then w.view.index else u.view.index;
                    };
                  })
                  w)
        written (ok a) after k e = record { seen = k.seen; fit = k.fit; current = k.current }
        written (err f) after k e = (
          k.seen,
          restored_fit previous config w.view after.view i.fit
              (λ unchanged. ap (λ t. t.index) e ∙ rw unchanged refl),
        )

    rest-IsSafe :
        (previous config : AppConfig) (w : World)
        → Inv config w
        → IsSafe
            ((modify (λ t. record t { allowlist = allowlisted_group_ids config })
                >> (rebuild_index o config >> adjust_worker o previous config))
              w).1
    unfolding modify
    rest-IsSafe previous config w i = Inv-IsSafe (
        bind-Keeps config (rebuild_index o config) _ (rebuild_index-Keeps config)
          (λ _. adjust_worker-Keeps config previous config)
          (record w { allowlist = allowlisted_group_ids config })
          (record { seen = i.seen; fit = i.fit; current = i.current }))

    save_over-IsSafe :
        (previous config : AppConfig) (w : World)
        → Inv previous w
        → IsSafe (save_over o previous config w).1
    unfolding save_over
    save_over-IsSafe previous config w i =
        let groups = newly_enabled_groups previous config in
        let reset = when (not (is_empty_list groups)) (reset_state o groups) in
        continue-After previous (reset w).0 _ (reset w).1
          (Inv-After previous (reset w).0 (reset w).1 (
            when-Keeps previous (not (is_empty_list groups)) (reset_state o groups)
              (reset_state-Keeps previous groups) w i))
          (λ v k.
            continue-After config (switch_config o previous config v).0 _
              (switch_config o previous config v).1 (switch_config-After previous config v k)
              (λ u l. rest-IsSafe previous config u l))

    -- Every configuration that the engine can see while saveConfig runs, at each wait and at its end,
    -- whether it succeeds or fails, comes with an index of its enabled sources only, if this held
    -- before, the visible configuration was the stored one, equal JSON texts mean equal sources, and no
    -- other call saves a configuration or synchronises knowledge meanwhile.
    pub save_config-IsSafe :
        (asserted : Result AppConfig) (w : World)
        → IsSafe w
        → w.view.current_config ≡ w.config
        → IsSafe (save_config o asserted w).1
    unfolding save_config gets
    save_config-IsSafe (err e) w safe same = safe
    save_config-IsSafe (ok config) w safe same =
        let start : Inv w.config w = record { seen = safe.0; fit = safe.1; current = same } in
        waited (wait o w).0 (wait o w).1
          (subst (λ c. Inv c (wait o w).1) (sym (config-wait w)) (wait-Keeps w.config w start))
      where
        waited :
            (r : Result (Unit {0})) (v : World)
            → Inv v.config v
            → IsSafe (continue r (λ _ u. save_over o u.config config u) v).1
        waited (err e) v k = Inv-IsSafe k
        waited (ok a) v k = save_over-IsSafe v.config config v k
