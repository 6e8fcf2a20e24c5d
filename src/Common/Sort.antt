-- ===== src/Common/Sort.antt =====
-- A stable sort, as `Array.prototype.sort` is specified for a comparator that is a total preorder.
use Prim.Native.Nat.{ℕ, zero, suc}
use mathlib.Core.Path.{◌≡◌, refl, ◌∙◌, ap}
use mathlib.Core.Logic.{◌⊎◌, inl, inr}
use mathlib.Core.Bool.{Bool, true, false}
use mathlib.Core.List.{List, [], ◌∷◌, Memᴰ, Permᴰ}
use mathlib.Core.List.Permᴰ
use native.Mathlib.Omega.{arith}
use lucky_tag.Common.Tests.{if◌then◌else◌, Bool-cases}
use lucky_tag.Common.Lists.{All, All-of_mem, All-mem, mem-cons-cases, count, length, take}

module _ {ℓ} {A : Type ℓ} where
  pub Perm-mem : {x : A} {xs ys : List A} → Permᴰ xs ys → Memᴰ x xs → Memᴰ x ys
  Perm-mem Permᴰ.nil m = m
  Perm-mem (Permᴰ.cons e p) (Memᴰ.head h) = Memᴰ.head (h ∙ e)
  Perm-mem (Permᴰ.cons e p) (Memᴰ.tail m) = Memᴰ.tail (Perm-mem p m)
  Perm-mem (Permᴰ.swap e f) (Memᴰ.head h) = Memᴰ.tail (Memᴰ.head (h ∙ e))
  Perm-mem (Permᴰ.swap e f) (Memᴰ.tail (Memᴰ.head h)) = Memᴰ.head (h ∙ f)
  Perm-mem (Permᴰ.swap e f) (Memᴰ.tail (Memᴰ.tail m)) = Memᴰ.tail (Memᴰ.tail m)
  Perm-mem (Permᴰ.trans p q) m = Perm-mem q (Perm-mem p m)

  pub Perm-length : {xs ys : List A} → Permᴰ xs ys → length xs ≡ length ys
  Perm-length Permᴰ.nil = refl
  Perm-length (Permᴰ.cons e p) = ap suc (Perm-length p)
  Perm-length (Permᴰ.swap e f) = refl
  Perm-length (Permᴰ.trans p q) = Perm-length p ∙ Perm-length q

  pub Perm-count : (t : A → Bool) {xs ys : List A} → Permᴰ xs ys → count t xs ≡ count t ys
  unfolding count
  Perm-count t Permᴰ.nil = refl
  Perm-count t (Permᴰ.cons {a = x} {b = y} e p) = ground (arith, Perm-count t p, ap t e)
  Perm-count t (Permᴰ.swap {a = x} {b = y} e f) = ground (arith, ap t e, ap t f)
  Perm-count t (Permᴰ.trans p q) = Perm-count t p ∙ Perm-count t q

module _ {ℓ} {A : Type ℓ} (le : A → A → Bool) where
  unfoldable pub insert : A → List A → List A
  insert x [] = x ∷ []
  insert x (y ∷ ys) = if le x y then x ∷ y ∷ ys else y ∷ insert x ys

  unfoldable pub sort : List A → List A
  sort [] = []
  sort (x ∷ xs) = insert x (sort xs)

  insert-perm : (x : A) (xs : List A) → Permᴰ (insert x xs) (x ∷ xs)
  unfolding insert
  insert-perm x [] = Permᴰ.refl _
  insert-perm x (y ∷ ys) = elim (Bool-cases (le x y)) [
    | inl e ↦ rw e (Permᴰ.refl _)
    | inr e ↦ rw e (Permᴰ.trans (Permᴰ.cons refl (insert-perm x ys)) (Permᴰ.swap refl refl))
  ]

  pub sort-perm : (xs : List A) → Permᴰ (sort xs) xs
  unfolding sort
  sort-perm [] = Permᴰ.refl _
  sort-perm (x ∷ xs) = Permᴰ.trans (insert-perm x (sort xs)) (Permᴰ.cons refl (sort-perm xs))

  -- Each entry may stand before all that follow it.
  abbrev pub IsSorted : List A → Type ℓ
  IsSorted [] = Unit
  IsSorted (x ∷ xs) = All (λ y. le x y ≡ true) xs × IsSorted xs

  -- Of a sorted list, what a prefix leaves out stands behind all that it takes.
  pub take-IsSorted_or :
      {x : A} (n : ℕ) (xs : List A)
      → IsSorted xs
      → Memᴰ x xs
      → Memᴰ x (take n xs) ⊎ (All (λ y. le y x ≡ true) (take n xs) × (length (take n xs) ≡ n))
  take-IsSorted_or zero xs s m = inr (tt, refl)
  take-IsSorted_or (suc n) [] s m = elim m [ ]
  take-IsSorted_or (suc n) (y ∷ xs) s (Memᴰ.head e) = inl (Memᴰ.head e)
  take-IsSorted_or (suc n) (y ∷ xs) s (Memᴰ.tail m) = elim (take-IsSorted_or n xs s.1 m) [
    | inl kept ↦ inl (Memᴰ.tail kept)
    | inr (behind, full) ↦ inr ((All-mem _ xs s.0 m, behind), ap suc full)
  ]

  module _ (total : (x y : A) → (le x y ≡ true) ⊎ (le y x ≡ true))
      (trans : (x y z : A) → le x y ≡ true → le y z ≡ true → le x z ≡ true) where
    insert-IsSorted : (x : A) (xs : List A) → IsSorted xs → IsSorted (insert x xs)
    unfolding insert
    insert-IsSorted x [] h = (tt, tt)
    insert-IsSorted x (y ∷ ys) h = elim (Bool-cases (le x y)) [
      | inl e ↦ rw e ((e, All-of_mem _ ys (λ z m. trans x y z e (All-mem _ ys h.0 m))), h)
      | inr e ↦ rw e (
        All-of_mem _ _ (λ z m. elim (mem-cons-cases (Perm-mem (insert-perm x ys) m)) [
          | inl same ↦ rw same (below e)
          | inr later ↦ All-mem _ ys h.0 later
        ]),
        insert-IsSorted x ys h.1,
      )
    ]
      where
        below : le x y ≡ false → le y x ≡ true
        below e = elim (total x y) [ inl l ↦ cc | inr r ↦ r ]

    -- The result stands in order.
    pub sort-IsSorted : (xs : List A) → IsSorted (sort xs)
    unfolding sort
    sort-IsSorted [] = tt
    sort-IsSorted (x ∷ xs) = insert-IsSorted x (sort xs) (sort-IsSorted xs)
