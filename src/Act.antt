-- ===== src/Act.antt =====
-- Errors as values, and state passing with errors, for the storage and the service.
use lucky_tag.Common.{◌≡◌, refl}
use lucky_tag.Text.{Text}
use lucky_tag.Worker.Effects.{Result, ok, err}

-- An error stops the calls that follow.
abbrev pub and_then {ℓ κ} : {A : Type ℓ} {B : Type κ} → Result A → (A → Result B) → Result B
and_then (ok a) go = go a
and_then (err e) go = err e

-- Inversion of a success.
pub and_then-eq-ok {ℓ κ} :
    {A : Type ℓ} {B : Type κ} (r : Result A) (go : A → Result B) {b : B}
    → and_then r go ≡ ok b
    → (a : A) × (r ≡ ok a) × (go a ≡ ok b)
and_then-eq-ok (ok a) go e = (a, refl, e)
and_then-eq-ok (err e) go h = cc

abbrev pub Act {ℓ} : Type 0 → Type ℓ → Type ℓ
Act S A = S → Result A × S

abbrev pub pure {ℓ} : {S : Type 0} {A : Type ℓ} → A → Act S A
pure a s = (ok a, s)

abbrev pub throw {ℓ} : {S : Type 0} {A : Type ℓ} → Text → Act S A
throw e s = (err e, s)

abbrev pub of_result {ℓ} : {S : Type 0} {A : Type ℓ} → Result A → Act S A
of_result r s = (r, s)

abbrev pub continue {ℓ κ} :
    {S : Type 0} {A : Type ℓ} {B : Type κ} → Result A → (A → Act S B) → Act S B
continue (ok a) f s = f a s
continue (err e) f s = (err e, s)

-- Inversion of a success, with the state that it leaves.
pub continue-eq-ok {ℓ κ} :
    {S : Type 0} {A : Type ℓ} {B : Type κ} (r : Result A) (s : S) (f : A → Act S B) {b : B}
    → (continue r f s).0 ≡ ok b
    → (a : A) × (r ≡ ok a) × ((f a s).0 ≡ ok b) × (continue r f s ≡ f a s)
continue-eq-ok (ok a) s f e = (a, refl, e, refl)
continue-eq-ok (err g) s f e = cc

infixl 5 ◌>>=◌ ◌>>◌
abbrev pub ◌>>=◌ {ℓ κ} : {S : Type 0} {A : Type ℓ} {B : Type κ} → Act S A → (A → Act S B) → Act S B
◌>>=◌ m f s = continue (m s).0 f (m s).1

abbrev pub ◌>>◌ {ℓ κ} : {S : Type 0} {A : Type ℓ} {B : Type κ} → Act S A → Act S B → Act S B
m >> k = m >>= λ _. k

abbrev rethrown {ℓ} : {S : Type 0} {A : Type ℓ} → Result A → (S → S) → S → Result A × S
rethrown (ok a) restore s = (ok a, s)
rethrown (err e) restore s = (err e, restore s)

-- `try { m } catch (error) { restore; throw error }`
abbrev pub or_restore {ℓ} : {S : Type 0} {A : Type ℓ} → Act S A → (S → S) → Act S A
or_restore m restore s = rethrown (m s).0 restore (m s).1
