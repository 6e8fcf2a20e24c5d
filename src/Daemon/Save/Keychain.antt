-- ===== src/Daemon/Save/Keychain.antt =====
-- What writing to and restoring the keychain leaves.
use lucky_tag.Common.{
  ◌≤◌, ◌≡◌, refl, sym, ap, ◌∙◌, Bool, true, false, Option, none, some, List, [], ◌∷◌, arith,
  Bool-cases, inl, inr, ◌≢◌, and→both,
}
use lucky_tag.Act.{Act, continue}
use lucky_tag.Contracts.{AgentRuntimeKind, codex, claude_code}
use lucky_tag.Daemon.{
  Scope, Outcome, done, failed, Options, World, same_scope, same_runtime, dropped, put, next,
  written, write_credential,
}
use lucky_tag.Daemon.Save.{run_writes, restore_credential}
use lucky_tag.Text.{Text, truthy, text_eq, text_eq_iff}
use lucky_tag.Worker.Effects.{Result, ok, err}

-- Nothing but the credential of one scope has changed, and no failure was dropped.
pub record Frame (scope : Scope) (v w : World) : Type 0 where
  pub others : (s : Scope) → same_scope s scope ≡ false → w.credential s ≡ v.credential s
  pub config : w.config ≡ v.config
  pub ignored : w.ignored ≡ v.ignored

pub Frame-trans :
    {scope : Scope} {u v w : World} → Frame scope u v → Frame scope v w → Frame scope u w
Frame-trans f g = record {
  others = λ s e. g.others s e ∙ f.others s e;
  config = g.config ∙ f.config;
  ignored = g.ignored ∙ f.ignored;
}

pub truthy_twice : (t : Option Text) → truthy (truthy t) ≡ truthy t
truthy_twice none = refl
truthy_twice (some []) = refl
truthy_twice (some (c ∷ s)) = refl

pub same_runtime_iff : (a b : AgentRuntimeKind) → same_runtime a b ≡ true → a ≡ b
same_runtime_iff codex codex e = refl
same_runtime_iff codex claude_code e = cc
same_runtime_iff claude_code codex e = cc
same_runtime_iff claude_code claude_code e = refl

pub same_scope-eq : (s t : Scope) → same_scope s t ≡ true → s ≡ t
unfolding same_scope
same_scope-eq s t e =
    let (a, b) = and→both (same_runtime s.runtime t.runtime) (text_eq s.base_url t.base_url) e in
    let p = same_runtime_iff s.runtime t.runtime a in
    let q = (text_eq_iff s.base_url t.base_url).0 b in λ i. record { runtime = p i; base_url = q i }

-- The keychain gives what it gave before, and the configuration is the one before, unless a failure was
-- dropped.
pub record IsUndone (v w : World) : Type 0 where
  pub grows : v.ignored ≤ w.ignored
  pub undone :
      w.ignored ≡ v.ignored
      → ((s : Scope) → truthy (w.credential s) ≡ truthy (v.credential s)) × (w.config ≡ v.config)

-- The same of the keychain alone.
pub record IsBack (v w : World) : Type 0 where
  pub grows : v.ignored ≤ w.ignored
  pub back : w.ignored ≡ v.ignored → (s : Scope) → truthy (w.credential s) ≡ truthy (v.credential s)

-- If the call fails, what it did is undone.
abbrev pub Fails {ℓ} : {A : Type ℓ} → World → Result A × World → Type ℓ
Fails v t = (e : Text) → t.0 ≡ err e → IsUndone v t.1

-- The keychain is as it was.
pub record Kept (v w : World) : Type 0 where
  pub credential : w.credential ≡ v.credential
  pub ignored : w.ignored ≡ v.ignored

pub continue-Kept {ℓ κ} :
    {A : Type ℓ} {B : Type κ} (r : Result A) (f : A → Act World B) {v w : World}
    → ((a : A) → Kept w (f a w).1)
    → Kept v w
    → Kept v (continue r f w).1
continue-Kept (ok a) f h k = record {
  credential = (h a).credential ∙ k.credential;
  ignored = (h a).ignored ∙ k.ignored;
}
continue-Kept (err e) f h k = k

pub dropped-ok : (t : Result (Unit {0}) × World) → (dropped t).0 ≡ ok tt
dropped-ok (ok tt, w) = refl
dropped-ok (err e, w) = refl

pub continue-Frame {ℓ κ} :
    {A : Type ℓ} {B : Type κ} (scope : Scope) (r : Result A) (f : A → Act World B) {v w : World}
    → ((a : A) → Frame scope w (f a w).1)
    → Frame scope v w
    → Frame scope v (continue r f w).1
continue-Frame scope (ok a) f h i = Frame-trans i (h a)
continue-Frame scope (err e) f h i = i

pub continue-ne-ok :
    (r : Result (Unit {0})) (f : Unit {0} → Act World Bool) (w : World) {b : Bool}
    → (f tt w).0 ≢ ok b
    → (continue r f w).0 ≢ ok b
continue-ne-ok (ok tt) f w h = h
continue-ne-ok (err e) f w h = λ q. cc

module _ (o : Options) (scope : Scope) where
  pub put-Frame : (value : Option Text) (w : World) → Frame scope w (put scope value (next w))
  unfolding put
  put-Frame value w = record { others = λ s e. rw e refl; config = refl; ignored = refl }

  pub write_credential-Frame :
      (value : Option Text) (w : World) → Frame scope w (write_credential o scope value w).1
  unfolding write_credential
  write_credential-Frame value w = go (o.write_outcome w.tick)
    where
      go : (r : Outcome) → Frame scope w (written r (next w) (put scope value (next w))).1
      go done = put-Frame value w
      go (failed true e) = put-Frame value w
      go (failed false e) = record { others = λ s e. refl; config = refl; ignored = refl }

  pub run_writes-Frame :
      (values : List (Option Text)) (changed : Bool) (w : World)
      → Frame scope w (run_writes o scope values changed w).1
  unfolding run_writes
  run_writes-Frame [] changed w = record { others = λ s e. refl; config = refl; ignored = refl }
  run_writes-Frame (v ∷ vs) changed w =
      continue-Frame scope (write_credential o scope v w).0 (λ _. run_writes o scope vs true)
        (λ _. run_writes-Frame vs true (write_credential o scope v w).1)
        (write_credential-Frame v w)

  pub run_writes-true :
      (values : List (Option Text)) (w : World) → (run_writes o scope values true w).0 ≢ ok false
  unfolding run_writes
  run_writes-true [] w e = cc
  run_writes-true (v ∷ vs) w e =
      continue-ne-ok (write_credential o scope v w).0 (λ _. run_writes o scope vs true)
        (write_credential o scope v w).1 (run_writes-true vs (write_credential o scope v w).1) e

  -- Without a write nothing changes.
  pub run_writes-kept :
      (values : List (Option Text)) (w : World)
      → (run_writes o scope values false w).0 ≡ ok false
      → (run_writes o scope values false w).1 ≡ w
  unfolding run_writes
  run_writes-kept [] w e = refl
  run_writes-kept (v ∷ vs) w e = absurd (
      continue-ne-ok (write_credential o scope v w).0 (λ _. run_writes o scope vs true)
        (write_credential o scope v w).1 (run_writes-true vs (write_credential o scope v w).1) e)

  -- What restoring does, unless its failure is dropped.
  pub record IsRestored (previous : Option Text) (v w : World) : Type 0 where
    pub others : (s : Scope) → same_scope s scope ≡ false → w.credential s ≡ v.credential s
    pub config : w.config ≡ v.config
    pub grows : v.ignored ≤ w.ignored
    pub back :
        (s : Scope) → same_scope s scope ≡ true → w.ignored ≡ v.ignored → w.credential s ≡ previous

  pub restore_credential-IsRestored :
      (previous : Option Text) (w : World)
      → IsRestored previous w (restore_credential o scope previous w).1
  unfolding restore_credential write_credential put
  restore_credential-IsRestored previous w = go (o.write_outcome w.tick)
    where
      go :
          (r : Outcome)
          → IsRestored previous w (dropped (written r (next w) (put scope previous (next w)))).1
      go done = record {
        others = λ s e. rw e refl;
        config = refl;
        grows = omega arith;
        back = λ s e k. rw e refl;
      }
      go (failed true e) = record {
        others = λ s f. rw f refl;
        config = refl;
        grows = omega arith;
        back = λ s f k. absurd (omega (arith, k));
      }
      go (failed false e) = record {
        others = λ s f. refl;
        config = refl;
        grows = omega arith;
        back = λ s f k. absurd (omega (arith, k));
      }

  -- After writes of this scope, to restore the credential that was there brings the keychain back.
  pub restore-IsBack :
      (previous : Option Text) (u v : World)
      → previous ≡ truthy (u.credential scope)
      → ((s : Scope) → same_scope s scope ≡ false → v.credential s ≡ u.credential s)
      → v.ignored ≡ u.ignored
      → IsBack u (restore_credential o scope previous v).1
  restore-IsBack previous u v was others ignored =
      let r = restore_credential-IsRestored previous v in
      record {
        grows = omega (arith, r.grows, ignored);
        back = λ k s. elim (Bool-cases (same_scope s scope)) [
          | inl same ↦
              let here = same_scope-eq s scope same in
              ap truthy (r.back s same (omega (arith, k, ignored)))
              ∙ ap truthy was
              ∙ truthy_twice (u.credential scope)
              ∙ ap (λ t. truthy (u.credential t)) (sym here)
          | inr other ↦ ap truthy (r.others s other ∙ others s other)
        ];
      }
