-- ===== src/Storage/Outbox/Read.antt =====
-- Reading the table back in the order of the positions.
use lucky_tag.Common.{
  ℕ, suc, ◌≤◌, ◌<◌, ◌≡◌, refl, sym, ap, ◌∙◌, subst, ◌⊎◌, inl, inr, true, some, List, [], ◌∷◌, arith,
  leb, Bool-cases, mem-cons-cases, All, All-mem, All-of_mem,
}
use lucky_tag.Common.Sort.{IsSorted, Perm-mem}
use lucky_tag.Contracts.{ReplyRecord}
use lucky_tag.Storage.Outbox.{
  Json, IsJson, parse_rows, read_outbox, row_among, Represents, HasDistinctIds, has_id,
}
use lucky_tag.Storage.Outbox.Sync.{text_eq_self}
use lucky_tag.Storage.Table.{Row, Table, row_of, by_position, IsOrdering, count_rows}
use lucky_tag.Text.Keyed.{mem_of_find_key, find_key-mem, count_key-pos, count_key-perm}
use lucky_tag.Text.{Text, text_eq, text_eq_iff}
use lucky_tag.Worker.Effects.{ok}
use mathlib.Core.List.{Memᴰ}
use mathlib.Core.List.Permᴰ

-- Each row stands before all that follow it.
abbrev IsStrict : Table → Type 0
IsStrict [] = Unit
IsStrict (x ∷ xs) = All (λ y. x.position < y.position) xs × IsStrict xs

IsStrict-unique :
    (xs ys : Table)
    → IsStrict xs
    → IsStrict ys
    → ((x : Row) → Memᴰ x xs → Memᴰ x ys)
    → ((x : Row) → Memᴰ x ys → Memᴰ x xs)
    → xs ≡ ys
IsStrict-unique [] [] s t to from = refl
IsStrict-unique [] (y ∷ ys) s t to from = elim (from y (Memᴰ.head refl)) [ ]
IsStrict-unique (x ∷ xs) [] s t to from = elim (to x (Memᴰ.head refl)) [ ]
IsStrict-unique (x ∷ xs) (y ∷ ys) s t to from =
    let same = heads (to x (Memᴰ.head refl)) (from y (Memᴰ.head refl)) in
    let rest =
      IsStrict-unique xs ys s.1 t.1 (λ z m. tails z xs ys x y same s.0 m (to z (Memᴰ.tail m)))
        (λ z m. tails z ys xs y x (sym same) t.0 m (from z (Memᴰ.tail m))) in
    cc (same, rest)
  where
    heads : Memᴰ x (y ∷ ys) → Memᴰ y (x ∷ xs) → x ≡ y
    heads a b = elim (mem-cons-cases a) [
      | inl e ↦ e
      | inr m ↦ elim (mem-cons-cases b) [
        | inl e ↦ sym e
        | inr k ↦ absurd (omega (arith, All-mem _ ys t.0 m, All-mem _ xs s.0 k))
      ]
    ]

    tails :
        (z : Row) (xs ys : Table) (x y : Row)
        → x ≡ y
        → All (λ w. x.position < w.position) xs
        → Memᴰ z xs
        → Memᴰ z (y ∷ ys)
        → Memᴰ z ys
    tails z xs ys x y same below m k = elim (mem-cons-cases k) [
      | inr later ↦ later
      | inl e ↦
          absurd
            (omega (arith, ap (λ w. w.position) same, ap (λ w. w.position) e, All-mem _ xs below m))
    ]

lt_or_eq : (m n : ℕ) → leb m n ≡ true → (m < n) ⊎ (m ≡ n)
lt_or_eq m n h = ground arith

module _ (j : Json) where
  -- The rows of the records, from a position on.
  abbrev rows_from : ℕ → List ReplyRecord → Table
  rows_from p [] = []
  rows_from p (r ∷ rs) = row_of r p (j.stringify_record r) ∷ rows_from (suc p) rs

  rows_from-le :
      (p : ℕ) (rs : List ReplyRecord) {row : Row} → Memᴰ row (rows_from p rs) → p ≤ row.position
  rows_from-le p [] m = elim m [ ]
  rows_from-le p (r ∷ rs) (Memᴰ.head e) = unfold row_of in omega (arith, ap (λ w. w.position) e)
  rows_from-le p (r ∷ rs) {row} (Memᴰ.tail m) = omega (arith, rows_from-le (suc p) rs m)

  rows_from-IsStrict : (p : ℕ) (rs : List ReplyRecord) → IsStrict (rows_from p rs)
  unfolding row_of
  rows_from-IsStrict p [] = tt
  rows_from-IsStrict p (r ∷ rs) = (
    All-of_mem _ (rows_from (suc p) rs) (λ row m. later row (rows_from-le (suc p) rs m)),
    rows_from-IsStrict (suc p) rs,
  )
    where
      later : (row : Row) → suc p ≤ row.position → p < row.position
      later row h = h

  -- In an order without ties a position determines the row.
  IsStrict-position :
      (xs : Table) {a b : Row}
      → IsStrict xs
      → Memᴰ a xs
      → Memᴰ b xs
      → a.position ≡ b.position
      → a ≡ b
  IsStrict-position [] s m k e = elim m [ ]
  IsStrict-position (x ∷ xs) {a} {b} s m k e = elim (mem-cons-cases m) [
    | inl f ↦ elim (mem-cons-cases k) [
      | inl g ↦ f ∙ sym g
      | inr k' ↦ absurd (omega (arith, e, ap (λ w. w.position) f, All-mem _ xs s.0 k'))
    ]
    | inr m' ↦ elim (mem-cons-cases k) [
      | inl g ↦ absurd (omega (arith, e, ap (λ w. w.position) g, All-mem _ xs s.0 m'))
      | inr k' ↦ IsStrict-position xs s.1 m' k' e
    ]
  ]

  row_among-mem :
      (id : Text) (p : ℕ) (rs : List ReplyRecord) {row : Row}
      → row_among j id p rs ≡ some row
      → Memᴰ row (rows_from p rs)
  unfolding row_among
  row_among-mem id p [] e = absurd (cc)
  row_among-mem id p (r ∷ rs) {row} e = elim (Bool-cases (text_eq r.id id)) [
    | inl same ↦ Memᴰ.head (ground (arith, same, e))
    | inr other ↦ Memᴰ.tail (row_among-mem id (suc p) rs (rw other at e))
  ]

  mem_rows-has_id :
      (p : ℕ) (rs : List ReplyRecord) {row : Row}
      → Memᴰ row (rows_from p rs)
      → has_id row.id rs ≡ true
  unfolding has_id row_of
  mem_rows-has_id p [] m = elim m [ ]
  mem_rows-has_id p (r ∷ rs) {row} (Memᴰ.head e) =
      rw ((text_eq_iff r.id row.id).1 (ap (λ w. w.id) (sym e))) refl
  mem_rows-has_id p (r ∷ rs) {row} (Memᴰ.tail m) = ground (arith, mem_rows-has_id (suc p) rs m)

  mem-row_among :
      (p : ℕ) (rs : List ReplyRecord) {row : Row}
      → HasDistinctIds rs
      → Memᴰ row (rows_from p rs)
      → row_among j row.id p rs ≡ some row
  unfolding row_among row_of
  mem-row_among p [] d m = elim m [ ]
  mem-row_among p (r ∷ rs) {row} d (Memᴰ.head e) =
      subst (λ w. row_among j w.id p (r ∷ rs) ≡ some w) (sym e) (rw (text_eq_self r.id) refl)
  mem-row_among p (r ∷ rs) {row} d (Memᴰ.tail m) = elim (Bool-cases (text_eq r.id row.id)) [
    | inl same ↦
        let known = mem_rows-has_id (suc p) rs m in
        absurd (cc (known, d.0, ap (λ t. has_id t rs) ((text_eq_iff r.id row.id).0 same)))
    | inr other ↦ rw other (mem-row_among (suc p) rs d.1 m)
  ]

  sorted-IsStrict :
      (xs ys : Table)
      → IsSorted by_position xs
      → IsStrict ys
      → ((x : Row) → Memᴰ x xs → Memᴰ x ys)
      → ((id : Text) → count_rows id xs ≤ 1)
      → IsStrict xs
  sorted-IsStrict [] ys s t to single = tt
  sorted-IsStrict (x ∷ xs) ys s t to single = (
    All-of_mem _ xs (λ y m.
        before y m (λ e. IsStrict-position ys t (to x (Memᴰ.head refl)) (to y (Memᴰ.tail m)) e)),
    sorted-IsStrict xs ys s.1 t (λ y m. to y (Memᴰ.tail m)) (λ id. ground (arith, single id)),
  )
    where
      twice : (y : Row) → Memᴰ y xs → x ≡ y → ⊥
      twice y m same = ground (
        arith,
        single y.id,
        count_key-pos (λ r. r.id) xs m,
        (text_eq_iff x.id y.id).1 (ap (λ w. w.id) same),
      )

      before : (y : Row) → Memᴰ y xs → (x.position ≡ y.position → x ≡ y) → x.position < y.position
      before y m tie = elim (lt_or_eq x.position y.position (All-mem _ xs s.0 m)) [
        | inl l ↦ l
        | inr e ↦ absurd (twice y m (tie e))
      ]

  parse-rows_from :
      IsJson j → (p : ℕ) (rs : List ReplyRecord) → parse_rows j (rows_from p rs) ≡ ok rs
  unfolding parse_rows row_of
  parse-rows_from laws p [] = refl
  parse-rows_from laws p (r ∷ rs) =
      rw (laws.record_lem r) (rw (parse-rows_from laws (suc p) rs) refl)

  -- A table that holds exactly the records, each at its position, reads back as the records, in their
  -- order, if ids are distinct, JSON texts parse back and the rows come in the order of the positions.
  pub read_outbox-Represents :
      {order : Table → Table} {rows : Table} (rs : List ReplyRecord)
      → IsJson j
      → IsOrdering order
      → HasDistinctIds rs
      → Represents j rows rs
      → read_outbox j order rows ≡ ok rs
  unfolding read_outbox
  read_outbox-Represents {order} {rows} rs laws ordering d holds =
      let perm = ordering.perm rows in
      let to : (x : Row) → Memᴰ x (order rows) → Memᴰ x (rows_from 0 rs) = λ x m.
        row_among-mem x.id 0 rs (
          sym (holds.exact x.id)
          ∙ find_key-mem (λ r. r.id) rows (Perm-mem perm m) (holds.single x.id)) in
      let from : (x : Row) → Memᴰ x (rows_from 0 rs) → Memᴰ x (order rows) = λ x m.
        Perm-mem (Permᴰ.symm perm)
          (mem_of_find_key (λ r. r.id) x.id rows (holds.exact x.id ∙ mem-row_among 0 rs d m)).0 in
      let strict =
        sorted-IsStrict (order rows) (rows_from 0 rs) (ordering.sorted rows)
          (rows_from-IsStrict 0 rs) to
          (λ id. subst (λ n. n ≤ 1) (sym (count_key-perm (λ r. r.id) id perm)) (holds.single id)) in
      ap (parse_rows j)
        (IsStrict-unique (order rows) (rows_from 0 rs) strict (rows_from-IsStrict 0 rs) to from)
      ∙ parse-rows_from laws 0 rs
