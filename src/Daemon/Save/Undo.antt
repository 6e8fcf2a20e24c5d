-- ===== src/Daemon/Save/Undo.antt =====
-- What the second `try` leaves, and that its failure is undone.
use lucky_tag.Common.{
  ◌≡◌, refl, ap, ◌∙◌, Bool, true, false, not, ◌&&◌, Option, none, some, arith, Bool-cases, inl, inr,
}
use lucky_tag.Act.{continue, pure}
use lucky_tag.Config.Input.{AgentConfigurationInput}
use lucky_tag.Contracts.{AppConfig}
use lucky_tag.Daemon.{
  Scope, Outcome, done, failed, Options, World, dropped, next, unless_fault, written,
  get_credential, write_credential, save_config, decorate_snapshot, ignoring, caught,
}
use lucky_tag.Daemon.Save.{
  requires_api_key, restore_credential, is_some, has_credential, store_with, undo,
  store_configuration, restore_if, store_or_undo, with_agent,
}
use lucky_tag.Text.{Text, truthy}
use lucky_tag.Worker.Effects.{Result, ok, err}
use lucky_tag.Daemon.Save.Keychain.{
  Frame, IsUndone, IsBack, Fails, Kept, continue-Kept, dropped-ok, restore-IsBack,
}

module _ (o : Options) (scope : Scope) where
  -- The second `try` leaves the keychain as it finds it.
  pub store_with-Kept :
      (input : AgentConfigurationInput) (current : AppConfig) (configured : Bool) (w : World)
      → Kept w (store_with o input current configured w).1
  unfolding store_with save_config decorate_snapshot
  store_with-Kept input current configured w =
      elim (Bool-cases (input.enabled && requires_api_key input && not configured)) [
        | inl missing ↦ rw missing (record { credential = refl; ignored = refl })
        | inr fine ↦ rw fine (go (o.save_outcome w.tick))
      ]
    where
      go :
          (r : Outcome)
          → let t =
              written r
                (next w)
                (record (next w) { config = with_agent input configured current }) in
            Kept w (continue t.0 (λ _. decorate_snapshot o) t.1).1
      go done = record { credential = refl; ignored = refl }
      go (failed true e) = record { credential = refl; ignored = refl }
      go (failed false e) = record { credential = refl; ignored = refl }

  pub has_credential-Kept : (asks : Bool) (w : World) → Kept w (has_credential o asks scope w).1
  unfolding has_credential get_credential
  has_credential-Kept true w = go (o.read_fault w.tick)
    where
      go :
          (r : Option Text)
          → Kept w
              (continue
                (unless_fault r (truthy (w.credential scope)))
                (λ c. pure (is_some c))
                (next w)).1
      go none = record { credential = refl; ignored = refl }
      go (some e) = record { credential = refl; ignored = refl }
  has_credential-Kept false w = record { credential = refl; ignored = refl }

  pub store_configuration-Kept :
      (input : AgentConfigurationInput) (current : AppConfig) (w : World)
      → Kept w (store_configuration o input scope current w).1
  unfolding store_configuration
  store_configuration-Kept input current w =
      let asks = requires_api_key input in
      continue-Kept (has_credential o asks scope w).0 (store_with o input current)
        (λ c. store_with-Kept input current c (has_credential o asks scope w).1)
        (has_credential-Kept asks w)

  pub ignoring_save-IsUndone :
      (u v : World) (current : AppConfig)
      → current ≡ u.config
      → IsBack u v
      → IsUndone u (ignoring (save_config o current) v).1
  unfolding save_config
  ignoring_save-IsUndone u v current e i = go (o.save_outcome v.tick)
    where
      go :
          (r : Outcome)
          → IsUndone u (dropped (written r (next v) (record (next v) { config = current }))).1
      go done = record { grows = i.grows; undone = λ k. (i.back k, e) }
      go (failed true f) = record {
        grows = omega (arith, i.grows);
        undone = λ k. absurd (omega (arith, k, i.grows));
      }
      go (failed false f) = record {
        grows = omega (arith, i.grows);
        undone = λ k. absurd (omega (arith, k, i.grows));
      }

  -- What is restored, if anything was written.
  pub restore_if-IsBack :
      (changed : Bool) (previous : Option Text) {u v w : World}
      → Frame scope u v
      → (changed ≡ true → previous ≡ truthy (u.credential scope))
      → (changed ≡ false → v ≡ u)
      → Kept v w
      → IsBack u (restore_if o changed scope previous w).1
  unfolding restore_if
  restore_if-IsBack true previous {u} {v} {w} f was kept k =
      restore-IsBack o scope previous u w (was refl)
        (λ s e. ap (λ (c : Scope → Option Text). c s) k.credential ∙ f.others s e)
        (k.ignored ∙ f.ignored)
  restore_if-IsBack false previous {u} {v} {w} f was kept k = record {
    grows = omega (arith, k.ignored, f.ignored);
    back = λ q s.
        ap (λ (c : Scope → Option Text). truthy (c s)) k.credential
        ∙ ap (λ (x : World). truthy (x.credential s)) (kept refl);
  }

  pub restore_if-ok :
      (changed : Bool) (previous : Option Text) (w : World)
      → (restore_if o changed scope previous w).0 ≡ ok tt
  unfolding restore_if restore_credential
  restore_if-ok true previous w = dropped-ok (write_credential o scope previous w)
  restore_if-ok false previous w = refl

  pub undo-IsUndone :
      (current : AppConfig) (previous : Option Text) (changed : Bool) (e : Text) {u : World}
      (w : World)
      → current ≡ u.config
      → IsBack u (restore_if o changed scope previous w).1
      → IsUndone u (undo o scope current previous changed e w).1
  unfolding undo
  undo-IsUndone current previous changed e {u} w same back =
      let w' = (restore_if o changed scope previous w).1 in
      rw (restore_if-ok changed previous w)
        (rw (dropped-ok (save_config o current w')) (ignoring_save-IsUndone u w' current same back))

  -- A failure of the second `try` is undone, after writes that are known to the flag.
  pub store_or_undo-IsUndone :
      (input : AgentConfigurationInput) (current : AppConfig) (previous : Option Text)
      (changed : Bool) {u v : World}
      → current ≡ u.config
      → Frame scope u v
      → (changed ≡ true → previous ≡ truthy (u.credential scope))
      → (changed ≡ false → v ≡ u)
      → Fails u (store_or_undo o input scope current previous changed v)
  unfolding store_or_undo
  store_or_undo-IsUndone input current previous changed {u} {v} same f was kept =
      go (store_configuration o input scope current v) (store_configuration-Kept input current v)
    where
      go :
          (t : Result (Unit {0}) × World)
          → Kept v t.1
          → Fails u (caught t (undo o scope current previous changed))
      go (ok a, w) k e failing = absurd (cc)
      go (err g, w) k e failing =
          undo-IsUndone current previous changed g w same
            (restore_if-IsBack changed previous f was kept k)
