-- ===== src/Worker/Sends/Gate.antt =====
-- At most one send, and what it must satisfy: the rules for composed programs.
use lucky_tag.Common.{◌≡◌, ◌⊎◌, inl, inr, refl, ap, ◌∙◌, Bool, true, false, ◌∷◌, if◌then◌else◌}
use lucky_tag.Text.{Text}
use lucky_tag.Worker.Effects.{Result, ok, err, World, M, SendEvent, continue, handle, ◌>>=◌, catch}
use lucky_tag.Worker.Effects.Rules.{Keeps}
use lucky_tag.Worker.Sends.Quiet.{Quiet}

module _ (P : SendEvent → Type 0) where
  -- The calls of `sendMessage` between two worlds: none, or one that satisfies `P`.
  abbrev pub OneSend : World → World → Type 0
  OneSend u v = (v.sends ≡ u.sends) ⊎ ((e : SendEvent) × (v.sends ≡ e ∷ u.sends) × P e)

  pub one_after_none : (u v w : World) → v.sends ≡ u.sends → OneSend v w → OneSend u w
  one_after_none u v w q (inl p) = inl (p ∙ q)
  one_after_none u v w q (inr (e, p, good)) = inr (e, p ∙ ap (λ t. e ∷ t) q, good)

  pub none_after_one : (u v w : World) → OneSend u v → w.sends ≡ v.sends → OneSend u w
  none_after_one u v w (inl p) q = inl (q ∙ p)
  none_after_one u v w (inr (e, p, good)) q = inr (e, q ∙ p, good)

  -- A run of `m` from `w` sends at most once, and only what `P` allows.
  pub record Sends {ℓ} {A : Type ℓ} (m : M A) (w : World) : Type 0 where
    pub run : OneSend w (m w).1

  pub Quiet-Sends {ℓ} : {A : Type ℓ} {m : M A} (w : World) → Keeps Quiet m → Sends m w
  Quiet-Sends w k = record { run = inl (k.run w) }

  continue-Sends {ℓ κ} :
      {A : Type ℓ} {B : Type κ} (r : Result A) (f : A → M B) (u v : World)
      → v.sends ≡ u.sends
      → ((a : A) → r ≡ ok a → Sends (f a) v)
      → OneSend u (continue r f v).1
  continue-Sends (ok a) f u v q h = one_after_none u v (f a v).1 q ((h a refl).run)
  continue-Sends (err e) f u v q h = inl q

  -- A quiet part, then the rest, which may use what the part returned.
  pub bind-Sends {ℓ κ} :
      {A : Type ℓ} {B : Type κ} {m : M A} {f : A → M B} (w : World)
      → Keeps Quiet m
      → ((a : A) (v : World) → m w ≡ (ok a, v) → Sends (f a) v)
      → Sends (m >>= f) w
  unfolding ◌>>=◌
  bind-Sends {m} {f} w k h = record {
    run = continue-Sends (m w).0 f w (m w).1 (k.run w) (λ a e. h a (m w).1 (λ i. (e i, (m w).1)));
  }

  last-Quiet {ℓ κ} :
      {A : Type ℓ} {B : Type κ} (r : Result A) (f : A → M B) (u v : World)
      → OneSend u v
      → ((a : A) → Keeps Quiet (f a))
      → OneSend u (continue r f v).1
  last-Quiet (ok a) f u v s k = none_after_one u v (f a v).1 s ((k a).run v)
  last-Quiet (err e) f u v s k = s

  -- The sending part first, then a quiet rest.
  pub then-Sends {ℓ κ} :
      {A : Type ℓ} {B : Type κ} {m : M A} {f : A → M B} (w : World)
      → Sends m w
      → ((a : A) → Keeps Quiet (f a))
      → Sends (m >>= f) w
  unfolding ◌>>=◌
  then-Sends {m} {f} w s k = record { run = last-Quiet (m w).0 f w (m w).1 s.run k }

  handle-Quiet {ℓ} :
      {A : Type ℓ} (r : Result A) (f : Text → M A) (u v : World)
      → OneSend u v
      → ((e : Text) → Keeps Quiet (f e))
      → OneSend u (handle r f v).1
  handle-Quiet (ok a) f u v s k = s
  handle-Quiet (err e) f u v s k = none_after_one u v (f e v).1 s ((k e).run v)

  pub catch-Sends {ℓ} :
      {A : Type ℓ} {m : M A} {f : Text → M A} (w : World)
      → Sends m w
      → ((e : Text) → Keeps Quiet (f e))
      → Sends (catch m f) w
  unfolding catch
  catch-Sends {m} {f} w s k = record { run = handle-Quiet (m w).0 f w (m w).1 s.run k }

  -- A test: each branch is run only where the test has its value.
  pub if-Sends {ℓ} :
      {A : Type ℓ} (b : Bool) {m k : M A} (w : World)
      → (b ≡ true → Sends m w)
      → (b ≡ false → Sends k w)
      → Sends (if b then m else k) w
  if-Sends true w s t = s refl
  if-Sends false w s t = t refl
