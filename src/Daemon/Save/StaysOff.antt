-- ===== src/Daemon/Save/StaysOff.antt =====
-- What the calls of a change do to the switch of real sending.
use lucky_tag.Common.{
  ◌≡◌, refl, Bool, true, false, if◌then◌else◌, Option, none, some, List, [], ◌∷◌,
}
use lucky_tag.Act.{Act, continue, ◌>>=◌}
use lucky_tag.Contracts.{AppConfig}
use lucky_tag.Daemon.{
  Scope, Outcome, done, failed, Options, World, put, next, unless_fault, written, caught, dropped,
  get_credential, write_credential, get_snapshot, save_config, decorate_snapshot, ignoring, or_else,
}
use lucky_tag.Daemon.Save.{
  run_writes, restore_credential, update_credential, has_credential, undo, restore_if,
}
use lucky_tag.Security.Live.{IsOff}
use lucky_tag.Text.{Text}
use lucky_tag.Worker.Effects.{Result, ok, err}

-- A run that leaves real sending off where it is off.
pub record StaysOff {ℓ} {A : Type ℓ} (m : Act World A) : Type 0 where
  pub run : (w : World) → IsOff w.config → IsOff (m w).1.config

continue-IsOff {ℓ κ} :
    {A : Type ℓ} {B : Type κ} (r : Result A) (f : A → Act World B) (w : World)
    → ((a : A) → StaysOff (f a))
    → IsOff w.config
    → IsOff (continue r f w).1.config
continue-IsOff (ok a) f w k off = (k a).run w off
continue-IsOff (err e) f w k off = off

pub bind-StaysOff {ℓ κ} :
    {A : Type ℓ} {B : Type κ} {m : Act World A} {f : A → Act World B}
    → StaysOff m
    → ((a : A) → StaysOff (f a))
    → StaysOff (m >>= f)
bind-StaysOff {m} {f} s k = record {
  run = λ w off. continue-IsOff (m w).0 f (m w).1 k (s.run w off);
}

caught-IsOff {ℓ} :
    {A : Type ℓ} (t : Result A × World) (handler : Text → Act World A)
    → ((e : Text) → StaysOff (handler e))
    → IsOff t.1.config
    → IsOff (caught t handler).1.config
caught-IsOff (ok a, w) handler k off = off
caught-IsOff (err e, w) handler k off = (k e).run w off

pub or_else-StaysOff {ℓ} :
    {A : Type ℓ} {m : Act World A} {handler : Text → Act World A}
    → StaysOff m
    → ((e : Text) → StaysOff (handler e))
    → StaysOff (or_else m handler)
or_else-StaysOff {m} {handler} s k = record {
  run = λ w off. caught-IsOff (m w) handler k (s.run w off);
}

dropped-IsOff : (t : Result (Unit {0}) × World) → IsOff t.1.config → IsOff (dropped t).1.config
dropped-IsOff (ok tt, w) off = off
dropped-IsOff (err e, w) off = off

pub ignoring-StaysOff : {m : Act World (Unit {0})} → StaysOff m → StaysOff (ignoring m)
ignoring-StaysOff {m} s = record { run = λ w off. dropped-IsOff (m w) (s.run w off) }

pub pure-StaysOff {ℓ} : {A : Type ℓ} (r : Result A) → StaysOff (λ w. (r, w))
pure-StaysOff r = record { run = λ w off. off }

pub if-StaysOff {ℓ} :
    {A : Type ℓ} (b : Bool) {m k : Act World A}
    → (b ≡ true → StaysOff m)
    → (b ≡ false → StaysOff k)
    → StaysOff (if b then m else k)
if-StaysOff true s t = s refl
if-StaysOff false s t = t refl

written-IsOff :
    (r : Outcome) (before after : World)
    → IsOff before.config
    → IsOff after.config
    → IsOff (written r before after).1.config
written-IsOff done before after off off' = off'
written-IsOff (failed true e) before after off off' = off'
written-IsOff (failed false e) before after off off' = off

module _ (o : Options) where
  pub write_credential-StaysOff :
      (scope : Scope) (value : Option Text) → StaysOff (write_credential o scope value)
  unfolding write_credential put
  write_credential-StaysOff scope value = record {
    run =
        λ w off. written-IsOff (o.write_outcome w.tick) (next w) (put scope value (next w)) off off;
  }

  pub get_credential-StaysOff : (scope : Scope) → StaysOff (get_credential o scope)
  unfolding get_credential
  get_credential-StaysOff scope = record { run = λ w off. off }

  -- Saving what is off, and then showing it
  pub save_config-StaysOff : (c : AppConfig) → IsOff c → StaysOff (save_config o c)
  unfolding save_config
  save_config-StaysOff c off = record {
    run = λ w before.
        written-IsOff (o.save_outcome w.tick) (next w) (record (next w) { config = c }) before off;
  }

  pub decorate-StaysOff : StaysOff (decorate_snapshot o)
  unfolding decorate_snapshot
  decorate-StaysOff = record { run = λ w off. off }

  -- What a snapshot gives is off as well.
  pub snapshot-StaysOff {ℓ} :
      {A : Type ℓ} {f : AppConfig → Act World A}
      → ((c : AppConfig) → IsOff c → StaysOff (f c))
      → StaysOff (get_snapshot o >>= f)
  unfolding get_snapshot
  snapshot-StaysOff {f} k = record { run = λ w off. by_fault (o.snapshot_fault w.tick) w off }
    where
      by_fault :
          (fault : Option Text) (w : World)
          → IsOff w.config
          → IsOff (continue (unless_fault fault w.config) f (next w)).1.config
      by_fault none w off = (k w.config off).run (next w) off
      by_fault (some e) w off = off

  pub run_writes-StaysOff :
      (scope : Scope) (values : List (Option Text)) (changed : Bool)
      → StaysOff (run_writes o scope values changed)
  unfolding run_writes
  run_writes-StaysOff scope [] changed = pure-StaysOff (ok changed)
  run_writes-StaysOff scope (v ∷ vs) changed =
      bind-StaysOff (write_credential-StaysOff scope v) (λ _. run_writes-StaysOff scope vs true)

  pub restore-StaysOff :
      (scope : Scope) (previous : Option Text) → StaysOff (restore_credential o scope previous)
  unfolding restore_credential
  restore-StaysOff scope previous = ignoring-StaysOff (write_credential-StaysOff scope previous)

  pub update_credential-StaysOff :
      (scope : Scope) (values : List (Option Text)) (previous : Option Text)
      → StaysOff (update_credential o scope values previous)
  unfolding update_credential
  update_credential-StaysOff scope values previous =
      or_else-StaysOff (run_writes-StaysOff scope values false)
        (λ e. bind-StaysOff (restore-StaysOff scope previous) (λ _. pure-StaysOff (err _)))

  pub restore_if-StaysOff :
      (changed : Bool) (scope : Scope) (previous : Option Text)
      → StaysOff (restore_if o changed scope previous)
  unfolding restore_if
  restore_if-StaysOff true scope previous = restore-StaysOff scope previous
  restore_if-StaysOff false scope previous = pure-StaysOff (ok tt)

  pub undo-StaysOff :
      (scope : Scope) (current : AppConfig) (previous : Option Text) (changed : Bool) (e : Text)
      → IsOff current
      → StaysOff (undo o scope current previous changed e)
  unfolding undo
  undo-StaysOff scope current previous changed e off =
      bind-StaysOff (restore_if-StaysOff changed scope previous) (λ _.
        bind-StaysOff (ignoring-StaysOff (save_config-StaysOff current off))
          (λ _. pure-StaysOff (err e)))

  pub has_credential-StaysOff :
      (asks : Bool) (scope : Scope) → StaysOff (has_credential o asks scope)
  unfolding has_credential
  has_credential-StaysOff true scope =
      bind-StaysOff (get_credential-StaysOff scope) (λ c. pure-StaysOff (ok _))
  has_credential-StaysOff false scope = pure-StaysOff (ok false)
