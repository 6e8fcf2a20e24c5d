-- ===== src/Worker/Effects/Inversion.antt =====
-- What a successful run of a composed program says of its parts.
use lucky_tag.Common.{◌≡◌, refl, Option, none, some}
use lucky_tag.Contracts.{CoreStateFile}
use lucky_tag.Text.{Text}
use lucky_tag.Worker.Effects.{
  Result, ok, err, World, M, continue, ◌>>=◌, Options, update_state, reached, update_reached,
  commit,
}

pub continue-eq-ok {ℓ κ} :
    {A : Type ℓ} {B : Type κ} (r : Result A) (f : A → M B) (w : World) {b : B} {v : World}
    → continue r f w ≡ (ok b, v)
    → (a : A) × (r ≡ ok a) × (f a w ≡ (ok b, v))
continue-eq-ok (ok a) f w e = (a, refl, e)
continue-eq-ok (err m) f w e = absurd (cc)

pub >>=-eq-ok {ℓ κ} :
    {A : Type ℓ} {B : Type κ} (m : M A) (f : A → M B) (w : World) {b : B} {v : World}
    → (m >>= f) w ≡ (ok b, v)
    → (a : A) × (u : World) × (m w ≡ (ok a, u)) × (f a u ≡ (ok b, v))
unfolding ◌>>=◌
>>=-eq-ok m f w e =
    let (a, first, rest) = continue-eq-ok (m w).0 f (m w).1 e in
    (a, (m w).1, λ i. (first i, (m w).1), rest)

commit-eq-ok {ℓ} :
    {A : Type ℓ} (o : Options) (r : Result (CoreStateFile × A)) (w : World) {a : A} {v : World}
    → commit o r w ≡ (ok a, v)
    → (next : CoreStateFile) × (r ≡ ok (next, a)) × (v ≡ record w { state = next })
commit-eq-ok o (ok (next, b)) w e = (next, cc, cc)
commit-eq-ok o (err m) w e = absurd (cc)

update_reached-eq-ok {ℓ} :
    {A : Type ℓ} (o : Options) (fault : Option Text) (f : CoreStateFile → M (CoreStateFile × A))
    (w : World) {a : A} {v : World}
    → update_reached o fault f w ≡ (ok a, v)
    → (next : CoreStateFile) × (u : World) × (f w.state w ≡ (ok (next, a), u))
      × (v ≡ record u { state = next })
update_reached-eq-ok o none f w e =
    let (next, returned, after) = commit-eq-ok o (f w.state w).0 (f w.state w).1 e in
    (next, (f w.state w).1, λ i. (returned i, (f w.state w).1), after)
update_reached-eq-ok o (some m) f w e = absurd (cc)

pub update_state-eq-ok {ℓ} :
    {A : Type ℓ} (o : Options) (f : CoreStateFile → M (CoreStateFile × A)) (w : World) {a : A}
    {v : World}
    → update_state o f w ≡ (ok a, v)
    → (next : CoreStateFile) × (u : World) × (f (reached o w).state (reached o w)
        ≡ (ok (next, a), u))
      × (v ≡ record u { state = next })
unfolding update_state
update_state-eq-ok o f w e = update_reached-eq-ok o (o.store_fault w.tick) f (reached o w) e
