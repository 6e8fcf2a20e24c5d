-- ===== src/Worker/Effects/Rules.antt =====
-- A relation between the world before and the world after that every step of a program keeps.
use lucky_tag.Common.{ℕ, suc, Bool, true, false, Option, none, some, if◌then◌else◌}
use lucky_tag.Contracts.{CoreStateFile}
use lucky_tag.Text.{Text}
use lucky_tag.Worker.Effects.{
  Result, ok, err, World, M, pure, throw, continue, handle, ◌>>=◌, catch, ask, observe, of_result,
  notify, when, Options, update_state, read_state, reached, read_reached, update_reached, commit,
}

-- A preorder that allows for all that touches neither the stored state nor the sends.
pub record IsOrder (R : World → World → Type 0) : Type 0 where
  pub same : (w : World) → R w w
  pub chain : {u v w : World} → R u v → R v w → R u w
  pub ticks : (w : World) (k : ℕ) → R w (record w { tick = k })
  pub updates : (w : World) (k : ℕ) → R w (record w { updates = k })

-- Running `m` relates the two worlds, however it ends.
pub record Keeps {ℓ} (R : World → World → Type 0) {A : Type ℓ} (m : M A) : Type 0 where
  pub run : (w : World) → R w (m w).1

module _ {R : World → World → Type 0} (order : IsOrder R) where
  pub pure-Keeps {ℓ} : {A : Type ℓ} (a : A) → Keeps R (pure a)
  pure-Keeps a = record { run = λ w. order.same w }

  pub throw-Keeps {ℓ} : {A : Type ℓ} (e : Text) → Keeps R (throw {A = A} e)
  throw-Keeps e = record { run = λ w. order.same w }

  pub of_result-Keeps {ℓ} : {A : Type ℓ} (r : Result A) → Keeps R (of_result r)
  of_result-Keeps r = record { run = λ w. order.same w }

  continue_keeps {ℓ κ} :
      {A : Type ℓ} {B : Type κ} (r : Result A) (f : A → M B) (u w : World)
      → ((a : A) → Keeps R (f a))
      → R u w
      → R u (continue r f w).1
  continue_keeps (ok a) f u w k h = order.chain h ((k a).run w)
  continue_keeps (err e) f u w k h = h

  pub bind-Keeps {ℓ κ} :
      {A : Type ℓ} {B : Type κ} {m : M A} {f : A → M B}
      → Keeps R m
      → ((a : A) → Keeps R (f a))
      → Keeps R (m >>= f)
  unfolding ◌>>=◌
  bind-Keeps {m} {f} h k = record { run = λ w. continue_keeps (m w).0 f w (m w).1 k (h.run w) }

  handle_keeps {ℓ} :
      {A : Type ℓ} (r : Result A) (f : Text → M A) (u w : World)
      → ((e : Text) → Keeps R (f e))
      → R u w
      → R u (handle r f w).1
  handle_keeps (ok a) f u w k h = h
  handle_keeps (err e) f u w k h = order.chain h ((k e).run w)

  pub catch-Keeps {ℓ} :
      {A : Type ℓ} {m : M A} {f : Text → M A}
      → Keeps R m
      → ((e : Text) → Keeps R (f e))
      → Keeps R (catch m f)
  unfolding catch
  catch-Keeps {m} {f} h k = record { run = λ w. handle_keeps (m w).0 f w (m w).1 k (h.run w) }

  pub if-Keeps {ℓ} :
      {A : Type ℓ} (b : Bool) {m k : M A} → Keeps R m → Keeps R k → Keeps R (if b then m else k)
  if-Keeps true h k = h
  if-Keeps false h k = k

  pub when-Keeps : (b : Bool) {m : M (Unit {0})} → Keeps R m → Keeps R (when b m)
  when-Keeps true h = h
  when-Keeps false h = pure-Keeps tt

  pub ask-Keeps {ℓ} : {A : Type ℓ} (f : ℕ → Result A) → Keeps R (ask f)
  unfolding ask
  ask-Keeps f = record { run = λ w. order.ticks w (suc w.tick) }

  pub observe-Keeps {ℓ} : {A : Type ℓ} (f : ℕ → A) → Keeps R (observe f)
  unfolding observe
  observe-Keeps f = record { run = λ w. order.ticks w (suc w.tick) }

  pub notify-Keeps : Keeps R notify
  unfolding notify
  notify-Keeps = record { run = λ w. order.updates w (suc w.updates) }

module _ {R : World → World → Type 0} (order : IsOrder R) (o : Options)
    (reaches : (w : World) → R w (reached o w)) where
  pub read_state-Keeps : Keeps R (read_state o)
  unfolding read_state
  read_state-Keeps = record {
    run = λ w. read_keeps w (reached o w) (o.store_fault w.tick) (reaches w);
  }
    where
      read_keeps : (u w : World) (fault : Option Text) → R u w → R u (read_reached o fault w).1
      read_keeps u w none h = h
      read_keeps u w (some e) h = h

  -- An update of the store keeps the relation if the mutator and the write that follows do.
  pub update_state-Keeps {ℓ} :
      {A : Type ℓ} (f : CoreStateFile → M (CoreStateFile × A))
      → ((w : World) → R w (commit o (f w.state w).0 (f w.state w).1).1)
      → Keeps R (update_state o f)
  unfolding update_state
  update_state-Keeps {A} f h = record {
    run = λ w. update_keeps w (reached o w) (o.store_fault w.tick) (reaches w);
  }
    where
      update_keeps :
          (u w : World) (fault : Option Text) → R u w → R u (update_reached o fault f w).1
      update_keeps u w none r = order.chain r (h w)
      update_keeps u w (some e) r = r
