-- ===== src/Daemon/Save/Stored.antt =====
-- What the parts of a change leave, where they succeed.
use lucky_tag.Common.{
  ◌≡◌, ◌≢◌, refl, sym, ap, ◌∙◌, subst, Bool, true, false, not, ◌&&◌, Option, none, some, List, [],
  ◌∷◌, arith, Bool-cases, inl, inr,
}
use lucky_tag.Act.{Act, continue, continue-eq-ok, throw, pure, ◌>>◌}
use lucky_tag.Config.Input.{AgentConfigurationInput}
use lucky_tag.Contracts.{AppConfig, AgentRuntimeKind, codex, claude_code}
use lucky_tag.Daemon.{
  Scope, Outcome, done, failed, Options, World, same_runtime, same_scope, put, next, unless_fault,
  written, caught, get_credential, write_credential, save_config, decorate_snapshot, ignoring,
}
use lucky_tag.Daemon.Save.{
  is_some, requires_api_key, run_writes, has_credential, store_with, store_configuration, undo,
  restore_if, store_or_undo, with_agent,
}
use lucky_tag.Text.{Text, truthy, text_eq_iff}
use lucky_tag.Worker.Effects.{Result, ok, err}

-- The credential after the writes
abbrev pub last_or : Option Text → List (Option Text) → Option Text
last_or value [] = value
last_or value (v ∷ vs) = last_or v vs

pub unless_fault-eq-ok {ℓ} :
    {A : Type ℓ} (fault : Option Text) (a : A) {b : A} → unless_fault fault a ≡ ok b → b ≡ a
unless_fault-eq-ok none a e = cc
unless_fault-eq-ok (some f) a e = cc

written-eq-ok :
    (r : Outcome) (before after : World)
    → (written r before after).0 ≡ ok tt
    → (written r before after).1 ≡ after
written-eq-ok done before after e = refl
written-eq-ok (failed true f) before after e = refl
written-eq-ok (failed false f) before after e = cc

-- A `catch` that throws does not succeed.
pub caught-eq-ok {ℓ} :
    {A : Type ℓ} (t : Result A × World) (handler : Text → Act World A) {a : A}
    → ((e : Text) (w : World) → (handler e w).0 ≢ ok a)
    → (caught t handler).0 ≡ ok a
    → (t.0 ≡ ok a) × (caught t handler ≡ t)
caught-eq-ok (ok b, w) handler throws e = (e, refl)
caught-eq-ok (err f, w) handler throws e = absurd (throws f w e)

pub rethrows {ℓ κ} :
    {A : Type ℓ} {B : Type κ} (r : Result A) (w : World) (f : A → Act World B) {b : B}
    → ((a : A) (v : World) → (f a v).0 ≢ ok b)
    → (continue r f w).0 ≢ ok b
rethrows (ok a) w f h = h a w
rethrows (err e) w f h = λ q. cc

module _ (o : Options) (input : AgentConfigurationInput) where
  -- What the second `try` stores, if it succeeds.
  pub record IsStored (scope : Scope) (current : AppConfig) (v w : World) : Type 0 where
    pub configured : Bool
    pub known : configured ≡ (requires_api_key input && is_some (truthy (v.credential scope)))
    pub enough : (input.enabled && requires_api_key input && not configured) ≡ false
    pub config : w.config ≡ with_agent input configured current
    pub credential : w.credential ≡ v.credential

  has_credential-eq-ok :
      (asks : Bool) (scope : Scope) (w : World) {b : Bool}
      → (has_credential o asks scope w).0 ≡ ok b
      → (b ≡ (asks && is_some (truthy (w.credential scope))))
        × ((has_credential o asks scope w).1.credential ≡ w.credential)
  unfolding has_credential get_credential
  has_credential-eq-ok true scope w {b} e =
      let (c, read, is, reached) =
        continue-eq-ok (unless_fault (o.read_fault w.tick) (truthy (w.credential scope))) (next w)
          (λ c. pure (is_some c)) e in
      let known : c ≡ truthy (w.credential scope) =
        unless_fault-eq-ok (o.read_fault w.tick) (truthy (w.credential scope)) read in
      let told : b ≡ is_some c = cc is in
      (told ∙ ap is_some known, ap (λ (t : Result Bool × World). t.1.credential) reached)
  has_credential-eq-ok false scope w e = (cc, refl)

  store_with-eq-ok :
      (current : AppConfig) (configured : Bool) (w : World)
      → (store_with o input current configured w).0 ≡ ok tt
      → ((input.enabled && requires_api_key input && not configured) ≡ false)
        × ((store_with o input current configured w).1.config ≡ with_agent input configured current)
        × ((store_with o input current configured w).1.credential ≡ w.credential)
  unfolding store_with save_config decorate_snapshot
  store_with-eq-ok current configured w e =
      elim (Bool-cases (input.enabled && requires_api_key input && not configured)) [
        | inl missing ↦ absurd (never (rw missing at e))
        | inr fine ↦ rw fine (
            let saving : Result (Unit {0}) × World =
              save_config o (with_agent input configured current) w in
            let (a, saved, shown, reached) =
              continue-eq-ok saving.0 saving.1 (λ _. decorate_snapshot o) (rw fine at e) in
            let stored : saving.1
                ≡ record (next w) { config = with_agent input configured current } =
              written-eq-ok (o.save_outcome w.tick) (next w)
                (record (next w) { config = with_agent input configured current }) saved in
            (
              refl,
              ap (λ (t : Result (Unit {0}) × World). t.1.config) reached
                  ∙ ap (λ (x : World). x.config) stored,
              ap (λ (t : Result (Unit {0}) × World). t.1.credential) reached
                  ∙ ap (λ (x : World). x.credential) stored,
            ))
      ]
    where
      never : {m : Text} {A : Type 0} {a : A} → err m ≢ ok a
      never e = cc

  store_configuration-IsStored :
      (scope : Scope) (current : AppConfig) (w : World)
      → (store_configuration o input scope current w).0 ≡ ok tt
      → IsStored scope current w (store_configuration o input scope current w).1
  unfolding store_configuration
  store_configuration-IsStored scope current w e =
      let asking : Result Bool × World = has_credential o (requires_api_key input) scope w in
      let (b, read, went, reached) =
        continue-eq-ok asking.0 asking.1 (store_with o input current) e in
      let (known, same) = has_credential-eq-ok (requires_api_key input) scope w read in
      let (enough, config, kept) = store_with-eq-ok current b asking.1 went in
      record {
        configured = b;
        known = known;
        enough = enough;
        config = ap (λ (t : Result (Unit {0}) × World). t.1.config) reached ∙ config;
        credential = ap (λ (t : Result (Unit {0}) × World). t.1.credential) reached ∙ kept ∙ same;
      }

  undo-ne-ok :
      (scope : Scope) (current : AppConfig) (previous : Option Text) (changed : Bool) (e : Text)
      (w : World)
      → (undo o scope current previous changed e w).0 ≢ ok tt
  unfolding undo
  undo-ne-ok scope current previous changed e w =
      rethrows (restore_if o changed scope previous w).0 (restore_if o changed scope previous w).1
        (λ _. ignoring (save_config o current) >> throw e)
        (λ a v.
          rethrows (ignoring (save_config o current) v).0 (ignoring (save_config o current) v).1
            (λ _. throw e) (λ b u. λ q. cc))

  pub store_or_undo-IsStored :
      (scope : Scope) (current : AppConfig) (previous : Option Text) (changed : Bool) (w : World)
      → (store_or_undo o input scope current previous changed w).0 ≡ ok tt
      → IsStored scope current w (store_or_undo o input scope current previous changed w).1
  unfolding store_or_undo
  store_or_undo-IsStored scope current previous changed w e =
      let trying : Result (Unit {0}) × World = store_configuration o input scope current w in
      let (went, same) =
        caught-eq-ok trying (undo o scope current previous changed)
          (undo-ne-ok scope current previous changed) e in
      subst (λ (t : Result (Unit {0}) × World). IsStored scope current w t.1) (sym same)
        (store_configuration-IsStored scope current w went)

  pub same_runtime_self : (r : AgentRuntimeKind) → same_runtime r r ≡ true
  same_runtime_self codex = refl
  same_runtime_self claude_code = refl

  same_scope_self : (scope : Scope) → same_scope scope scope ≡ true
  unfolding same_scope
  same_scope_self scope =
      ground
        (arith, same_runtime_self scope.runtime, (text_eq_iff scope.base_url scope.base_url).1 refl)

  write_credential-eq-ok :
      (scope : Scope) (value : Option Text) (w : World)
      → (write_credential o scope value w).0 ≡ ok tt
      → (write_credential o scope value w).1.credential scope ≡ value
  unfolding write_credential put
  write_credential-eq-ok scope value w e =
      ap (λ (x : World). x.credential scope)
        (written-eq-ok (o.write_outcome w.tick) (next w) (put scope value (next w)) e)
      ∙ rw (same_scope_self scope) refl

  -- The writes all took effect.
  pub run_writes-eq-ok :
      (scope : Scope) (values : List (Option Text)) (changed : Bool) (w : World) {b : Bool}
      → (run_writes o scope values changed w).0 ≡ ok b
      → (run_writes o scope values changed w).1.credential scope
        ≡ last_or (w.credential scope) values
  unfolding run_writes
  run_writes-eq-ok scope [] changed w e = refl
  run_writes-eq-ok scope (v ∷ vs) changed w e =
      let writing : Result (Unit {0}) × World = write_credential o scope v w in
      let (a, wrote, went, reached) =
        continue-eq-ok writing.0 writing.1 (λ _. run_writes o scope vs true) e in
      let here : writing.1.credential scope ≡ v = write_credential-eq-ok scope v w wrote in
      ap (λ (t : Result Bool × World). t.1.credential scope) reached
      ∙ run_writes-eq-ok scope vs true writing.1 went
      ∙ ap (λ x. last_or x vs) here
