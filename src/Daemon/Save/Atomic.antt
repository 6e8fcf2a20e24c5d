-- ===== src/Daemon/Save/Atomic.antt =====
-- A failed change of the agent's configuration leaves credentials and configuration as they were.
use lucky_tag.Common.{
  ◌≡◌, refl, sym, ap, ◌∙◌, subst, Bool, true, false, not, ◌&&◌, ◌||◌, Option, none, some, List, [],
  ◌∷◌, arith, Bool-cases, inl, inr, ◌⊎◌, Option-cases, ◌≢◌,
}
use lucky_tag.Act.{continue, throw, ◌>>◌}
use lucky_tag.Config.Input.{AgentConfigurationInput, is_custom}
use lucky_tag.Contracts.{AppConfig}
use lucky_tag.Daemon.{
  Scope, Options, World, next, unless_fault, get_credential, write_credential, get_snapshot,
  credential_scope, caught,
}
use lucky_tag.Daemon.Save.{
  has_key, requires_api_key, writes_of, same_credential_scope, run_writes, restore_credential,
  update_credential, is_some, change_credential, checked_change, store_or_undo, previous_credential,
  change_agent, save_agent_configuration,
}
use lucky_tag.Text.{Text, lit, truthy}
use lucky_tag.Worker.Effects.{Result, ok, err}
use lucky_tag.Daemon.Save.Keychain.{
  Frame, IsUndone, Fails, dropped-ok, run_writes-Frame, run_writes-kept,
  restore_credential-IsRestored, restore-IsBack,
}
use lucky_tag.Daemon.Save.Undo.{store_or_undo-IsUndone}

module _ (o : Options) (scope : Scope) where
  -- What the first `try` leaves to the second, and that its failure is undone.
  abbrev Meets : Option Text → World → Result Bool × World → Type 0
  Meets previous u t =
      ((b : Bool)
        → t.0 ≡ ok b
        → Frame scope u t.1
          × (b ≡ true → previous ≡ truthy (u.credential scope))
          × (b ≡ false → t.1 ≡ u))
      × Fails u t

  restore_credential-ok :
      (previous : Option Text) (w : World) → (restore_credential o scope previous w).0 ≡ ok tt
  unfolding restore_credential
  restore_credential-ok previous w = dropped-ok (write_credential o scope previous w)

  undone_write-Meets :
      (previous : Option Text) (message : Text) {u : World} (x : World)
      → Frame scope u x
      → previous ≡ truthy (u.credential scope)
      → Meets previous u ((restore_credential o scope previous >> throw message) x)
  undone_write-Meets previous message {u} x f was =
      let back = restore-IsBack o scope previous u x was f.others f.ignored in
      let restored = restore_credential-IsRestored o scope previous x in
      subst
        (λ r.
          Meets previous u
            (continue r (λ _. throw message) (restore_credential o scope previous x).1))
        (sym (restore_credential-ok previous x))
        (
          λ b e. absurd (cc),
          λ e q. record {
            grows = back.grows;
            undone = λ k. (back.back k, restored.config ∙ f.config);
          },
        )

  update_credential-Meets :
      (values : List (Option Text)) (previous : Option Text) {u : World}
      → (values ≢ [] → previous ≡ truthy (u.credential scope))
      → Meets previous u (update_credential o scope values previous u)
  unfolding update_credential
  update_credential-Meets [] previous {u} was = (
    λ b e. (
      record { others = λ s q. refl; config = refl; ignored = refl },
      λ t. absurd (cc),
      λ f. refl,
    ),
    λ e q. absurd (cc),
  )
  update_credential-Meets (v ∷ vs) previous {u} was =
      go (run_writes o scope (v ∷ vs) false u) (run_writes-Frame o scope (v ∷ vs) false u)
        (run_writes-kept o scope (v ∷ vs) u)
    where
      go :
          (t : Result Bool × World)
          → Frame scope u t.1
          → (t.0 ≡ ok false → t.1 ≡ u)
          → Meets previous u (
              caught t
                (λ e. restore_credential o scope previous >> throw (lit "无法安全更新 Agent 模型凭据")))
      go (ok c, x) f k = (λ b e. (f, λ q. was (λ q. cc), λ q. k (e ∙ ap ok q)), λ e q. absurd (cc))
      go (err g, x) f k = undone_write-Meets previous (lit "无法安全更新 Agent 模型凭据") x f (was (λ q. cc))

IsUndone-next : {w x : World} → IsUndone (next w) x → IsUndone w x
IsUndone-next i = record { grows = i.grows; undone = i.undone }

nothing-IsUndone : (w : World) → IsUndone w (next w)
nothing-IsUndone w = record { grows = omega arith; undone = λ k. (λ s. refl, refl) }

module _ (o : Options) (input : AgentConfigurationInput) where
  -- Without a model of one's own there is nothing to write.
  writes_of-default :
      (same : Bool)
      → is_custom input.mode ≡ false
      → has_key input ≡ false
      → input.clear_api_key ≡ false
      → writes_of input same none ≡ []
  unfolding writes_of requires_api_key
  writes_of-default same default keyless keeps = elim (Option-cases (truthy input.api_key)) [
    | inl e ↦ simp (e, default, keeps)
    | inr (k, e) ↦ absurd (cc (keyless, ap is_some e))
  ]

  change_credential-Fails :
      (current : AppConfig) (scope : Scope) (previous : Option Text) {u : World}
      → current ≡ u.config
      → (writes_of input (same_credential_scope o current input) previous ≢ []
          → previous ≡ truthy (u.credential scope))
      → Fails u (change_credential o input current scope previous u)
  unfolding change_credential
  change_credential-Fails current scope previous {u} same was =
      let values = writes_of input (same_credential_scope o current input) previous in
      go (update_credential o scope values previous u)
        (update_credential-Meets o scope values previous was)
    where
      go :
          (t : Result Bool × World)
          → Meets o scope previous u t
          → Fails u (continue t.0 (store_or_undo o input scope current previous) t.1)
      go (ok b, v) m =
          let (f, known, kept) = m.0 b refl in
          store_or_undo-IsUndone o scope input current previous b same f known kept
      go (err e, v) m = λ f q. m.1 e refl

  pub previous_credential-custom :
      (scope : Scope) (u : World)
      → is_custom input.mode ≡ true
      → ((previous_credential o input scope u).1 ≡ next u)
        × ((p : Option Text)
            → (previous_credential o input scope u).0 ≡ ok p
            → p ≡ truthy (u.credential scope))
  unfolding previous_credential get_credential
  previous_credential-custom scope u custom = rw custom (refl, go (o.read_fault u.tick))
    where
      go :
          (r : Option Text) (p : Option Text)
          → unless_fault r (truthy (u.credential scope)) ≡ ok p
          → p ≡ truthy (u.credential scope)
      go none p e = cc
      go (some f) p e = cc

  pub previous_credential-default :
      (scope : Scope) (u : World)
      → is_custom input.mode ≡ false
      → previous_credential o input scope u ≡ (ok none, u)
  unfolding previous_credential
  previous_credential-default scope u default = rw default refl

  change_agent-Fails :
      (current : AppConfig) {u : World}
      → current ≡ u.config
      → (is_custom input.mode ≡ false → (has_key input ≡ false) × (input.clear_api_key ≡ false))
      → Fails u (change_agent o input current u)
  unfolding change_agent
  change_agent-Fails current {u} same default = elim (Bool-cases (is_custom input.mode)) [
    | inl custom ↦
        let (ticked, known) = previous_credential-custom scope u custom in
        go (previous_credential o input scope u) (inr ticked) (λ p q _. known p q)
    | inr not_custom ↦
        let (keyless, keeps) = default not_custom in
        let none_written =
          writes_of-default (same_credential_scope o current input) not_custom keyless keeps in
        subst (λ t. Fails u (continue t.0 (change_credential o input current scope) t.1))
          (sym (previous_credential-default scope u not_custom))
          (change_credential-Fails current scope none same
            (λ some_written. absurd (some_written none_written)))
  ]
    where
      scope : Scope
      scope = credential_scope o input.runtime input.base_url

      go :
          (t : Result (Option Text) × World)
          → (t.1 ≡ u) ⊎ (t.1 ≡ next u)
          → ((p : Option Text)
              → t.0 ≡ ok p
              → writes_of input (same_credential_scope o current input) p ≢ []
              → p ≡ truthy (u.credential scope))
          → Fails u (continue t.0 (change_credential o input current scope) t.1)
      go (ok p, v) (inl e) c =
          subst (λ x. Fails u (change_credential o input current scope p x)) (sym e)
            (change_credential-Fails current scope p same (c p refl))
      go (ok p, v) (inr e) c =
          subst (λ x. Fails u (change_credential o input current scope p x)) (sym e)
            (λ f q.
              IsUndone-next
                (change_credential-Fails current scope p {u = next u} same (c p refl) f q))
      go (err e, v) (inl q) c = λ f r.
          subst (IsUndone u) (sym q)
            (record { grows = omega arith; undone = λ k. (λ s. refl, refl) })
      go (err e, v) (inr q) c = λ f r. subst (IsUndone u) (sym q) (nothing-IsUndone u)

  checked_change-Fails : (w : World) → Fails w (checked_change o input w.config (next w))
  unfolding checked_change
  checked_change-Fails w =
      elim (Bool-cases (not (is_custom input.mode) && (has_key input || input.clear_api_key))) [
        | inl refused ↦ rw refused (λ e q. nothing-IsUndone w)
        | inr fine ↦
            rw fine
              (elim (Bool-cases (
                input.enabled
                && requires_api_key input
                && not (has_key input)
                && not (same_credential_scope o w.config input))) [
                  | inl missing ↦ rw missing (λ e q. nothing-IsUndone w)
                  | inr known ↦ rw known (λ e q. IsUndone-next (
                      change_agent-Fails w.config {u = next w} refl
                        (λ d. (ground (arith, fine, d), ground (arith, fine, d))) e q))
                ])
      ]

  save_agent_configuration-Fails : (w : World) → Fails w (save_agent_configuration o input w)
  unfolding save_agent_configuration get_snapshot
  save_agent_configuration-Fails w = go (o.snapshot_fault w.tick)
    where
      go :
          (r : Option Text)
          → Fails w (continue (unless_fault r w.config) (checked_change o input) (next w))
      go none = checked_change-Fails w
      go (some e) = λ f q. nothing-IsUndone w

  -- If saving the agent's configuration fails, the keychain gives for every scope what it gave before and the
  -- stored configuration is the one before, unless a call that restores one of them failed as well, which
  -- the code ignores.
  pub save_agent_configuration-IsUndone :
      (w : World) (e : Text)
      → (save_agent_configuration o input w).0 ≡ err e
      → (save_agent_configuration o input w).1.ignored ≡ w.ignored
      → ((s : Scope)
          → truthy ((save_agent_configuration o input w).1.credential s) ≡ truthy (w.credential s))
        × ((save_agent_configuration o input w).1.config ≡ w.config)
  save_agent_configuration-IsUndone w e failing quiet =
      (save_agent_configuration-Fails w e failing).undone quiet
