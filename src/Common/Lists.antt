-- ===== src/Common/Lists.antt =====
-- Lists over the native numbers, Boolean filters, and predicates by recursion.
use Prim.Native.Nat.{ℕ, zero, suc, ◌+◌, ◌≤◌, min}
use mathlib.Core.Path.{◌≡◌, refl, sym, ap, ◌∙◌, subst}
use mathlib.Core.Logic.{◌⊎◌, inl, inr}
use mathlib.Core.Bool.{Bool, true, false, not, ◌&&◌, ◌||◌}
use mathlib.Core.Option.{Option, none, some}
use mathlib.Core.List.{List, [], ◌∷◌, ◌++◌, map}
use native.Mathlib.Omega.{arith}
use mathlib.Core.List.{Memᴰ}
use lucky_tag.Common.Tests.{if◌then◌else◌, Bool-cases}

module _ {ℓ} {A : Type ℓ} where
  abbrev pub length : List A → ℕ
  length [] = 0
  length (x ∷ xs) = suc (length xs)

  abbrev pub take : ℕ → List A → List A
  take zero xs = []
  take (suc n) [] = []
  take (suc n) (x ∷ xs) = x ∷ take n xs

  abbrev pub drop : ℕ → List A → List A
  drop zero xs = xs
  drop (suc n) [] = []
  drop (suc n) (x ∷ xs) = drop n xs

  abbrev pub get_or : List A → ℕ → A → A
  get_or [] i d = d
  get_or (x ∷ xs) zero d = x
  get_or (x ∷ xs) (suc i) d = get_or xs i d

  -- A write out of bounds changes nothing.
  abbrev pub set : List A → ℕ → A → List A
  set [] i v = []
  set (x ∷ xs) zero v = v ∷ xs
  set (x ∷ xs) (suc i) v = x ∷ set xs i v

  abbrev pub head? : List A → Option A
  head? [] = none
  head? (x ∷ xs) = some x

  -- `Array.prototype.filter`
  unfoldable pub filter : (A → Bool) → List A → List A
  filter p [] = []
  filter p (x ∷ xs) = if p x then x ∷ filter p xs else filter p xs

  -- `Array.prototype.find`
  unfoldable pub find : (A → Bool) → List A → Option A
  find p [] = none
  find p (x ∷ xs) = if p x then some x else find p xs

  -- `Array.prototype.some`
  unfoldable pub any : (A → Bool) → List A → Bool
  any p [] = false
  any p (x ∷ xs) = p x || any p xs

  -- `Array.prototype.every`
  unfoldable pub every : (A → Bool) → List A → Bool
  every p [] = true
  every p (x ∷ xs) = p x && every p xs

  -- How many entries pass the test.
  unfoldable pub count : (A → Bool) → List A → ℕ
  count p [] = 0
  count p (x ∷ xs) = if p x then suc (count p xs) else count p xs

  pub length-append : (xs ys : List A) → length (xs ++ ys) ≡ length xs + length ys
  length-append [] ys = omega arith
  length-append (x ∷ xs) ys = omega (arith, length-append xs ys)

  pub length-take : (n : ℕ) (xs : List A) → length (take n xs) ≡ min n (length xs)
  length-take zero xs = omega arith
  length-take (suc n) [] = omega arith
  length-take (suc n) (x ∷ xs) = omega (arith, length-take n xs)

  pub length-filter-le : (p : A → Bool) (xs : List A) → length (filter p xs) ≤ length xs
  unfolding filter
  length-filter-le p [] = omega arith
  length-filter-le p (x ∷ xs) = ground (arith, length-filter-le p xs)

  pub length-filter : (p : A → Bool) (xs : List A) → length (filter p xs) ≡ count p xs
  unfolding filter count
  length-filter p [] = refl
  length-filter p (x ∷ xs) = ground (arith, length-filter p xs)

  pub count-append : (p : A → Bool) (xs ys : List A) → count p (xs ++ ys) ≡ count p xs + count p ys
  unfolding count
  count-append p [] ys = omega arith
  count-append p (x ∷ xs) ys = ground (arith, count-append p xs ys)

-- Membership, as a family that can be matched.
module _ {ℓ} {A : Type ℓ} where
  pub mem-append_left : {x : A} {xs : List A} (ys : List A) → Memᴰ x xs → Memᴰ x (xs ++ ys)
  mem-append_left ys (Memᴰ.head e) = Memᴰ.head e
  mem-append_left ys (Memᴰ.tail m) = Memᴰ.tail (mem-append_left ys m)

  pub mem-append_right : {x : A} (xs : List A) {ys : List A} → Memᴰ x ys → Memᴰ x (xs ++ ys)
  mem-append_right [] m = m
  mem-append_right (y ∷ xs) m = Memᴰ.tail (mem-append_right xs m)

  pub mem_of_mem-append : {x : A} (xs ys : List A) → Memᴰ x (xs ++ ys) → Memᴰ x xs ⊎ Memᴰ x ys
  mem_of_mem-append [] ys m = inr m
  mem_of_mem-append (y ∷ xs) ys (Memᴰ.head e) = inl (Memᴰ.head e)
  mem_of_mem-append (y ∷ xs) ys (Memᴰ.tail m) = elim (mem_of_mem-append xs ys m) [
    | inl l ↦ inl (Memᴰ.tail l)
    | inr r ↦ inr r
  ]

  pub mem-filter :
      (p : A → Bool) {x : A} (xs : List A) → Memᴰ x xs → p x ≡ true → Memᴰ x (filter p xs)
  unfolding filter
  mem-filter p [] m h = elim m [ ]
  mem-filter p (y ∷ xs) (Memᴰ.head e) h = rw (ap p (sym e) ∙ h) (Memᴰ.head e)
  mem-filter p (y ∷ xs) (Memᴰ.tail m) h = elim (Bool-cases (p y)) [
    | inl keep ↦ rw keep (Memᴰ.tail (mem-filter p xs m h))
    | inr drop ↦ rw drop (mem-filter p xs m h)
  ]

  pub mem-cons-cases : {x y : A} {xs : List A} → Memᴰ x (y ∷ xs) → (x ≡ y) ⊎ Memᴰ x xs
  mem-cons-cases (Memᴰ.head e) = inl e
  mem-cons-cases (Memᴰ.tail m) = inr m

  pub mem_of_mem-filter :
      (p : A → Bool) {x : A} (xs : List A) → Memᴰ x (filter p xs) → Memᴰ x xs × (p x ≡ true)
  unfolding filter
  mem_of_mem-filter p [] m = elim m [ ]
  mem_of_mem-filter p (y ∷ xs) m = elim (Bool-cases (p y)) [
    | inl keep ↦ elim (mem-cons-cases (rw keep at m)) [
      | inl e ↦ (Memᴰ.head e, ap p e ∙ keep)
      | inr m' ↦ let (m'', h) = mem_of_mem-filter p xs m' in (Memᴰ.tail m'', h)
    ]
    | inr drop ↦ let (m', h) = mem_of_mem-filter p xs (rw drop at m) in (Memᴰ.tail m', h)
  ]

  pub mem_of_mem-take : (n : ℕ) {x : A} (xs : List A) → Memᴰ x (take n xs) → Memᴰ x xs
  mem_of_mem-take zero xs m = elim m [ ]
  mem_of_mem-take (suc n) [] m = m
  mem_of_mem-take (suc n) (y ∷ xs) (Memᴰ.head e) = Memᴰ.head e
  mem_of_mem-take (suc n) (y ∷ xs) (Memᴰ.tail m) = Memᴰ.tail (mem_of_mem-take n xs m)

module _ {ℓ κ} {A : Type ℓ} (P : A → Type κ) where
  abbrev pub All : List A → Type κ
  All [] = Unit
  All (x ∷ xs) = P x × All xs

  pub All-mem : {x : A} (xs : List A) → All xs → Memᴰ x xs → P x
  All-mem [] h m = elim m [ ]
  All-mem (y ∷ xs) h (Memᴰ.head e) = subst P (sym e) h.0
  All-mem (y ∷ xs) h (Memᴰ.tail m) = All-mem xs h.1 m

  pub All-of_mem : (xs : List A) → ((x : A) → Memᴰ x xs → P x) → All xs
  All-of_mem [] h = tt
  All-of_mem (x ∷ xs) h = (h x (Memᴰ.head refl), All-of_mem xs (λ y m. h y (Memᴰ.tail m)))

module _ {ℓ} {A : Type ℓ} (p : A → Bool) where
  pub count-le-length : (xs : List A) → count p xs ≤ length xs
  unfolding count
  count-le-length [] = omega arith
  count-le-length (x ∷ xs) = ground (arith, count-le-length xs)

  -- Nothing is counted where no entry passes.
  pub count-eq-zero : (xs : List A) → ((x : A) → Memᴰ x xs → p x ≡ false) → count p xs ≡ 0
  unfolding count
  count-eq-zero [] h = refl
  count-eq-zero (x ∷ xs) h =
      ground (arith, h x (Memᴰ.head refl), count-eq-zero xs (λ y m. h y (Memᴰ.tail m)))

  pub count-eq-length : (xs : List A) → ((x : A) → Memᴰ x xs → p x ≡ true) → count p xs ≡ length xs
  unfolding count
  count-eq-length [] h = refl
  count-eq-length (x ∷ xs) h =
      ground (arith, h x (Memᴰ.head refl), count-eq-length xs (λ y m. h y (Memᴰ.tail m)))

  -- The entries counted by `t` that pass `p`, and those that do not.
  pub count-split :
      (t : A → Bool) (xs : List A)
      → count t (filter p xs) + count t (filter (λ x. not (p x)) xs) ≡ count t xs
  unfolding count filter
  count-split t [] = refl
  count-split t (x ∷ xs) = ground (arith, count-split t xs)

  pub count-pos_of_mem : {x : A} (xs : List A) → Memᴰ x xs → p x ≡ true → 1 ≤ count p xs
  unfolding count
  count-pos_of_mem [] m h = elim m [ ]
  count-pos_of_mem (y ∷ xs) (Memᴰ.head e) h = ground (arith, ap p e)
  count-pos_of_mem (y ∷ xs) (Memᴰ.tail m) h = ground (arith, count-pos_of_mem xs m h)

-- Where the entries of a mapped list come from.
pub mem_of_mem-map {ℓ κ} :
    {A : Type ℓ} {B : Type κ} (f : A → B) {y : B} (xs : List A)
    → Memᴰ y (map f xs)
    → (x : A) × Memᴰ x xs × (y ≡ f x)
mem_of_mem-map f [] m = elim m [ ]
mem_of_mem-map f (x ∷ xs) (Memᴰ.head e) = (x, Memᴰ.head refl, e)
mem_of_mem-map f (x ∷ xs) (Memᴰ.tail m) =
    let (y, n, e) = mem_of_mem-map f xs m in (y, Memᴰ.tail n, e)

pub length-map {ℓ κ} :
    {A : Type ℓ} {B : Type κ} (f : A → B) (xs : List A) → length (map f xs) ≡ length xs
length-map f [] = refl
length-map f (x ∷ xs) = ap suc (length-map f xs)

-- A change after which no entry passes that did not pass before counts no more entries.
pub count-map-le {ℓ} :
    {A : Type ℓ} (p q : A → Bool) (f : A → A)
    → ((x : A) → p (f x) ≡ true → q x ≡ true)
    → (xs : List A) → count p (map f xs) ≤ count q xs
unfolding count
count-map-le p q f h [] = omega arith
count-map-le p q f h (x ∷ xs) = elim (Bool-cases (p (f x))) [
  | inl e ↦ rw (e, h x e) (omega (arith, count-map-le p q f h xs))
  | inr e ↦ rw e (ground (arith, count-map-le p q f h xs))
]
