-- ===== src/Text/Keyed.antt =====
-- Lists of entries with a text as their key, as tables and maps keep them.
use lucky_tag.Common.{
  ℕ, suc, ◌≤◌, ◌≡◌, refl, sym, ap, ◌∙◌, ◌⊎◌, inl, inr, mem-cons-cases, Option, none, some, List, [],
  ◌∷◌, arith, max, Bool-cases, if◌then◌else◌,
}
use lucky_tag.Text.{Text, text_eq, text_eq_iff}
use mathlib.Core.List.{Memᴰ, Permᴰ}

module _ {A : Type 0} (key : A → Text) where
  -- The first entry with a key
  unfoldable pub find_key : Text → List A → Option A
  find_key id [] = none
  find_key id (r ∷ rows) = if text_eq (key r) id then some r else find_key id rows

  unfoldable pub delete_key : Text → List A → List A
  delete_key id [] = []
  delete_key id (r ∷ rows) =
      if text_eq (key r) id then delete_key id rows else r ∷ delete_key id rows

  -- In the place of the entry with the key, or at the end
  unfoldable pub put_entry : A → List A → List A
  put_entry row [] = row ∷ []
  put_entry row (r ∷ rows) =
      if text_eq (key r) (key row) then row ∷ rows else r ∷ put_entry row rows

  abbrev pub count_key : Text → List A → ℕ
  count_key id [] = 0
  count_key id (r ∷ rows) =
      if text_eq (key r) id then suc (count_key id rows) else count_key id rows

  pub find_key-put_entry :
      (id : Text) (row : A) (rows : List A)
      → find_key id (put_entry row rows)
        ≡ (if text_eq (key row) id then some row else find_key id rows)
  unfolding find_key put_entry
  find_key-put_entry id row [] = refl
  find_key-put_entry id row (r ∷ rows) = elim (Bool-cases (text_eq (key r) (key row))) [
    | inl e ↦ let same = (text_eq_iff (key r) (key row)).0 e in ground (arith, e, same)
    | inr e ↦ elim (Bool-cases (text_eq (key r) id)) [
      | inl f ↦
          let same = (text_eq_iff (key r) id).0 f in
          ground (
            arith,
            e,
            f,
            same,
            text_eq_iff (key row) id,
            text_eq_iff (key r) (key row),
            find_key-put_entry id row rows,
          )
      | inr f ↦ ground (arith, e, f, find_key-put_entry id row rows)
    ]
  ]

  pub find_key-delete_key :
      (id j : Text) (rows : List A)
      → find_key id (delete_key j rows) ≡ (if text_eq j id then none else find_key id rows)
  unfolding find_key delete_key
  find_key-delete_key id j [] = elim (Bool-cases (text_eq j id)) [
    | inl e ↦ rw e refl
    | inr e ↦ rw e refl
  ]
  find_key-delete_key id j (r ∷ rows) = elim (Bool-cases (text_eq (key r) j)) [
    | inl e ↦
        let same = (text_eq_iff (key r) j).0 e in
        ground (arith, e, same, find_key-delete_key id j rows)
    | inr e ↦ elim (Bool-cases (text_eq (key r) id)) [
      | inl f ↦
          let same = (text_eq_iff (key r) id).0 f in
          ground (
            arith,
            e,
            f,
            same,
            text_eq_iff j id,
            text_eq_iff (key r) j,
            find_key-delete_key id j rows,
          )
      | inr f ↦ ground (arith, e, f, find_key-delete_key id j rows)
    ]
  ]

  pub count_key-put_entry :
      (id : Text) (row : A) (rows : List A)
      → count_key id (put_entry row rows)
        ≡ (if text_eq (key row) id then max 1 (count_key id rows) else count_key id rows)
  unfolding put_entry
  count_key-put_entry id row [] = ground arith
  count_key-put_entry id row (r ∷ rows) = elim (Bool-cases (text_eq (key r) (key row))) [
    | inl e ↦ let same = (text_eq_iff (key r) (key row)).0 e in ground (arith, e, same)
    | inr e ↦ elim (Bool-cases (text_eq (key r) id)) [
      | inl f ↦
          let same = (text_eq_iff (key r) id).0 f in
          ground (
            arith,
            e,
            f,
            same,
            text_eq_iff (key row) id,
            text_eq_iff (key r) (key row),
            count_key-put_entry id row rows,
          )
      | inr f ↦ ground (arith, e, f, count_key-put_entry id row rows)
    ]
  ]

  pub count_key-delete_key :
      (id j : Text) (rows : List A) → count_key id (delete_key j rows) ≤ count_key id rows
  unfolding delete_key
  count_key-delete_key id j [] = omega arith
  count_key-delete_key id j (r ∷ rows) = ground (arith, count_key-delete_key id j rows)

  -- What is found is an entry with the key; where the key is unique it is the only one.
  pub mem_of_find_key :
      (id : Text) (rows : List A) {row : A}
      → find_key id rows ≡ some row
      → Memᴰ row rows × (key row ≡ id)
  unfolding find_key
  mem_of_find_key id [] e = absurd (cc)
  mem_of_find_key id (r ∷ rows) {row} e = elim (Bool-cases (text_eq (key r) id)) [
    | inl f ↦
        let same : r ≡ row = ground (arith, e, f) in
        (Memᴰ.head (sym same), ap key (sym same) ∙ (text_eq_iff (key r) id).0 f)
    | inr f ↦ let (m, named) = mem_of_find_key id rows (rw f at e) in (Memᴰ.tail m, named)
  ]

  pub count_key-pos : (rows : List A) {row : A} → Memᴰ row rows → 1 ≤ count_key (key row) rows
  count_key-pos [] {row} m = elim m [ ]
  count_key-pos (r ∷ rows) {row} (Memᴰ.head e) =
      let same = (text_eq_iff (key r) (key row)).1 (ap key (sym e)) in ground (arith, same)
  count_key-pos (r ∷ rows) (Memᴰ.tail m) = ground (arith, count_key-pos rows m)

  pub find_key-mem :
      (rows : List A) {row : A}
      → Memᴰ row rows
      → count_key (key row) rows ≤ 1
      → find_key (key row) rows ≡ some row
  unfolding find_key
  find_key-mem [] {row} m h = elim m [ ]
  find_key-mem (r ∷ rows) {row} (Memᴰ.head e) h =
      let same = (text_eq_iff (key r) (key row)).1 (ap key (sym e)) in rw same (ap some (sym e))
  find_key-mem (r ∷ rows) {row} (Memᴰ.tail m) h = elim (Bool-cases (text_eq (key r) (key row))) [
    | inl same ↦ absurd (ground (arith, same, h, count_key-pos rows m))
    | inr other ↦ ground (arith, other, h, find_key-mem rows m)
  ]

  pub mem_of_mem-put_entry :
      (row : A) (rows : List A) {x : A} → Memᴰ x (put_entry row rows) → (x ≡ row) ⊎ Memᴰ x rows
  unfolding put_entry
  mem_of_mem-put_entry row [] m = mem-cons-cases m
  mem_of_mem-put_entry row (r ∷ rows) {x} m = elim (Bool-cases (text_eq (key r) (key row))) [
    | inl same ↦ elim (mem-cons-cases (rw same at m)) [
      | inl e ↦ inl e
      | inr old ↦ inr (Memᴰ.tail old)
    ]
    | inr other ↦ elim (mem-cons-cases (rw other at m)) [
      | inl e ↦ inr (Memᴰ.head e)
      | inr later ↦ elim (mem_of_mem-put_entry row rows later) [
        | inl e ↦ inl e
        | inr old ↦ inr (Memᴰ.tail old)
      ]
    ]
  ]

  pub count_key-perm :
      (id : Text) {xs ys : List A} → Permᴰ xs ys → count_key id xs ≡ count_key id ys
  count_key-perm id Permᴰ.nil = refl
  count_key-perm id (Permᴰ.cons {a = x} {b = y} e p) =
      ground (arith, count_key-perm id p, ap (λ w. text_eq (key w) id) e)
  count_key-perm id (Permᴰ.swap {a = x} {b = y} e f) =
      ground (arith, ap (λ w. text_eq (key w) id) e, ap (λ w. text_eq (key w) id) f)
  count_key-perm id (Permᴰ.trans p q) = count_key-perm id p ∙ count_key-perm id q
