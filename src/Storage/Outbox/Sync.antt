-- ===== src/Storage/Outbox/Sync.antt =====
-- What the two loops of `syncOutboxUnlocked` leave in the table.
use lucky_tag.Common.{
  ℕ, suc, ◌+◌, ◌≤◌, ◌≡◌, refl, sym, ap, ◌∙◌, subst, ◌⊎◌, inl, inr, true, false, Option, none, some,
  List, [], ◌∷◌, arith, any, Bool-cases, if◌then◌else◌,
}
use lucky_tag.Contracts.{ReplyRecord}
use lucky_tag.Storage.Outbox.{
  Json, IsJson, Parsed, has_id, prior, is_unchanged, removed_ids, delete_all, upsert_all, row_among,
  sync_outbox, Represents, Changes, HasDistinctIds, IdentifiesMessages,
}
use lucky_tag.Storage.Table.{
  Row, Table, row_of, row_at, delete_row, put_row, clashes, upsert_row, count_rows,
}
use lucky_tag.Text.Keyed.{
  find_key-put_entry, find_key-delete_key, count_key-put_entry, count_key-delete_key, find_key-mem,
  mem_of_mem-put_entry,
}
use lucky_tag.Text.{Text, text_eq, text_eq_iff, member}
use lucky_tag.Worker.Effects.{ok}
use mathlib.Core.List.{Memᴰ}

pub text_eq_self : (t : Text) → text_eq t t ≡ true
text_eq_self t = (text_eq_iff t t).1 refl

abbrev pub or_row : Option Row → Option Row → Option Row
or_row (some r) other = some r
or_row none other = other

pub has_id-mem : (rs : List ReplyRecord) {r : ReplyRecord} → Memᴰ r rs → has_id r.id rs ≡ true
unfolding has_id
has_id-mem [] {r} m = elim m [ ]
has_id-mem (x ∷ rs) {r} (Memᴰ.head e) = rw ((text_eq_iff x.id r.id).1 (ap (λ t. t.id) (sym e))) refl
has_id-mem (x ∷ rs) {r} (Memᴰ.tail m) = ground (arith, has_id-mem rs m)

none_clash :
    (row : Row) (rows : Table)
    → ((x : Row) → Memᴰ x rows → clashes row x ≡ false)
    → any (clashes row) rows ≡ false
unfolding any
none_clash row [] h = refl
none_clash row (x ∷ xs) h = rw (h x (Memᴰ.head refl)) (none_clash row xs (λ y m. h y (Memᴰ.tail m)))

pub upsert_row-ok :
    (row : Row) (rows : Table)
    → ((x : Row) → Memᴰ x rows → clashes row x ≡ false)
    → upsert_row row rows ≡ ok (put_row row rows)
unfolding upsert_row
upsert_row-ok row rows h = rw (none_clash row rows h) refl

apart_record :
    (r r' : ReplyRecord) (k p : ℕ) (s t : Text)
    → (r.group_id ≡ r'.group_id → r.message_id ≡ r'.message_id → r.id ≡ r'.id)
    → clashes (row_of r' p t) (row_of r k s) ≡ false
unfolding clashes row_of
apart_record r r' k p s t idents = elim (Bool-cases (text_eq r.group_id r'.group_id)) [
  | inr other ↦ ground (arith, other)
  | inl group ↦ elim (Bool-cases (text_eq r.message_id r'.message_id)) [
    | inr other ↦ ground (arith, other)
    | inl message ↦
        let same =
          idents ((text_eq_iff r.group_id r'.group_id).0 group)
            ((text_eq_iff r.message_id r'.message_id).0 message) in
        rw ((text_eq_iff r.id r'.id).1 same) refl
  ]
]

module _ (j : Json) where
  row_among-present :
      (id : Text) (p : ℕ) (rs : List ReplyRecord)
      → has_id id rs ≡ true
      → (row : Row) × (row_among j id p rs ≡ some row)
  unfolding row_among has_id
  row_among-present id p [] h = absurd (cc)
  row_among-present id p (r ∷ rs) h = elim (Bool-cases (text_eq r.id id)) [
    | inl same ↦ (row_of r p (j.stringify_record r), rw same refl)
    | inr other ↦ rw other (row_among-present id (suc p) rs (rw other at h))
  ]

  pub row_among-absent :
      (id : Text) (p : ℕ) (rs : List ReplyRecord)
      → has_id id rs ≡ false
      → row_among j id p rs ≡ none
  unfolding row_among has_id
  row_among-absent id p [] h = refl
  row_among-absent id p (r ∷ rs) h = ground (arith, row_among-absent id (suc p) rs, h)

  -- A row among the records is the row of one of them, and has the id.
  pub row_among-source :
      (id : Text) (p : ℕ) (rs : List ReplyRecord) {row : Row}
      → row_among j id p rs ≡ some row
      → (r : ReplyRecord) × (k : ℕ) × Memᴰ r rs
        × (row ≡ row_of r k (j.stringify_record r))
        × (r.id ≡ id)
  unfolding row_among
  row_among-source id p [] e = absurd (cc)
  row_among-source id p (r ∷ rs) {row} e = elim (Bool-cases (text_eq r.id id)) [
    | inl same ↦
        let found : row_of r p (j.stringify_record r) ≡ row = ground (arith, e, same) in
        (r, p, Memᴰ.head refl, sym found, (text_eq_iff r.id id).0 same)
    | inr other ↦
        let (s, k, m, found, named) = row_among-source id (suc p) rs (rw other at e) in
        (s, k, Memᴰ.tail m, found, named)
  ]

  prior-absent :
      (p : ℕ) (id : Text) (rs : List ReplyRecord) → has_id id rs ≡ false → prior p id rs ≡ none
  unfolding prior has_id
  prior-absent p id [] h = refl
  prior-absent p id (r ∷ rs) h = ground (arith, prior-absent (suc p) id rs, h)

  prior-cases :
      (p : ℕ) (id : Text) (x : ReplyRecord) (rs : List ReplyRecord) {k : ℕ} {r : ReplyRecord}
      → prior p id (x ∷ rs) ≡ some (k, r)
      → (prior (suc p) id rs ≡ some (k, r))
        ⊎ ((text_eq x.id id ≡ true) × (◌≡◌ {A = ℕ × ReplyRecord} (p, x) (k, r)))
  unfolding prior
  prior-cases p id x rs e = ground (arith, e)

  -- With distinct ids the last entry with an id is the first.
  prior-row_among :
      (p : ℕ) (id : Text) (rs : List ReplyRecord) {k : ℕ} {r : ReplyRecord}
      → HasDistinctIds rs
      → prior p id rs ≡ some (k, r)
      → row_among j id p rs ≡ some (row_of r k (j.stringify_record r))
  unfolding row_among
  prior-row_among p id [] d e = absurd (unfold prior in cc)
  prior-row_among p id (x ∷ rs) {k} {r} d e = elim (prior-cases p id x rs e) [
    | inr (same, found) ↦
        rw same (ap (λ (t : ℕ × ReplyRecord). some (row_of t.1 t.0 (j.stringify_record t.1))) found)
    | inl later ↦ elim (Bool-cases (text_eq x.id id)) [
      | inl same ↦
          let gone = prior-absent (suc p) id rs (rw (← (text_eq_iff x.id id).0 same) d.0) in
          absurd (cc (later, gone))
      | inr other ↦ rw other (prior-row_among (suc p) id rs d.1 later)
    ]
  ]

  unchanged-cases :
      (entry : Option (ℕ × ReplyRecord)) (position : ℕ) (serialized : Text)
      → is_unchanged j entry position serialized ≡ true
      → (s : ReplyRecord) × (entry ≡ some (position, s)) × (j.stringify_record s ≡ serialized)
  unfolding is_unchanged
  unchanged-cases none position serialized e = absurd (cc)
  unchanged-cases (some (k, s)) position serialized e =
      let same : text_eq (j.stringify_record s) serialized ≡ true = ground (arith, e) in
      let here : k ≡ position = ground (arith, e) in
      (s, rw here refl, (text_eq_iff (j.stringify_record s) serialized).0 same)

  stringify_injective :
      IsJson j → (s r : ReplyRecord) → j.stringify_record s ≡ j.stringify_record r → s ≡ r
  stringify_injective laws s r e =
      let read : Parsed.valid s ≡ Parsed.valid r =
        sym (laws.record_lem s) ∙ ap j.parse_record e ∙ laws.record_lem r in
      cc

  -- What is skipped stands in the table already.
  unchanged-row_among :
      (IsJson j)
      → (previous : List ReplyRecord) (position : ℕ) (r : ReplyRecord) → HasDistinctIds previous
      → is_unchanged j (prior 0 r.id previous) position (j.stringify_record r) ≡ true
      → row_among j r.id 0 previous ≡ some (row_of r position (j.stringify_record r))
  unchanged-row_among laws previous position r d e =
      let (s, found, text) =
        unchanged-cases (prior 0 r.id previous) position (j.stringify_record r) e in
      let same = stringify_injective laws s r text in
      prior-row_among 0 r.id previous d found
      ∙ ap (λ t. some (row_of t position (j.stringify_record t))) same

  delete_all-rows :
      (id : Text) (ids : List Text) (rows : Table) (n : ℕ)
      → (row_at id (delete_all j ids rows n).0 ≡ (if member id ids then none else row_at id rows))
        × (count_rows id (delete_all j ids rows n).0 ≤ count_rows id rows)
  unfolding delete_all member
  delete_all-rows id [] rows n = (refl, omega arith)
  delete_all-rows id (i ∷ ids) rows n =
      let (found, kept) = delete_all-rows id ids (delete_row i rows) (n + count_rows i rows) in
      ground (
        arith,
        found,
        kept,
        find_key-delete_key (λ r. r.id) id i rows,
        count_key-delete_key (λ r. r.id) id i rows,
        text_eq_iff i id,
        text_eq_iff id i,
      )

  member-removed_ids :
      (id : Text) (rs next : List ReplyRecord)
      → has_id id next ≡ false
      → member id (removed_ids j rs next) ≡ has_id id rs
  unfolding member removed_ids has_id
  member-removed_ids id [] next h = refl
  member-removed_ids id (r ∷ rs) next h = elim (Bool-cases (text_eq r.id id)) [
    | inl same ↦
        let named = (text_eq_iff r.id id).0 same in
        ground (arith, same, named, text_eq_iff id r.id, ap (λ t. has_id t next) named, h)
    | inr other ↦
        ground
          (arith, other, h, member-removed_ids id rs next, text_eq_iff r.id id, text_eq_iff id r.id)
  ]

  not_member-removed_ids :
      (id : Text) (rs next : List ReplyRecord)
      → has_id id next ≡ true
      → member id (removed_ids j rs next) ≡ false
  unfolding member removed_ids
  not_member-removed_ids id [] next h = refl
  not_member-removed_ids id (r ∷ rs) next h = elim (Bool-cases (text_eq id r.id)) [
    | inl same ↦
        let named = (text_eq_iff id r.id).0 same in
        let known = subst (λ t. has_id t next ≡ true) named h in
        rw known (not_member-removed_ids id rs next h)
    | inr other ↦ ground (arith, other, h, not_member-removed_ids id rs next)
  ]

  upsert_all-skip :
      (previous : List ReplyRecord) (position : ℕ) (r : ReplyRecord) (rs : List ReplyRecord)
      (rows : Table) (n : ℕ)
      → is_unchanged j (prior 0 r.id previous) position (j.stringify_record r) ≡ true
      → upsert_all j previous position (r ∷ rs) rows n
        ≡ upsert_all j previous (suc position) rs rows n
  unfolding upsert_all
  upsert_all-skip previous position r rs rows n skip = rw (skip, upsert_all) refl

  upsert_all-put :
      (previous : List ReplyRecord) (position : ℕ) (r : ReplyRecord) (rs : List ReplyRecord)
      (rows : Table) (n : ℕ) {rows' : Table}
      → is_unchanged j (prior 0 r.id previous) position (j.stringify_record r) ≡ false
      → upsert_row (row_of r position (j.stringify_record r)) rows ≡ ok rows'
      → upsert_all j previous position (r ∷ rs) rows n
        ≡ upsert_all j previous (suc position) rs rows' (n + 1)
  unfolding upsert_all
  upsert_all-put previous position r rs rows n change fits = rw (change, upsert_all, fits) refl

  module _ (laws : IsJson j) (previous : List ReplyRecord)
      (distinct : HasDistinctIds previous) where
    -- Before the loop each record still to come has the row that it had among the previous records.
    abbrev Pending : List ReplyRecord → Table → Type 0
    Pending rs rows = (r : ReplyRecord) → Memᴰ r rs → row_at r.id rows ≡ row_among j r.id 0 previous

    -- No record still to come has the message of a row with another id.
    abbrev Apart : List ReplyRecord → Table → Type 0
    Apart rs rows =
        (r : ReplyRecord) (row : Row) (p : ℕ) (t : Text)
        → Memᴰ r rs
        → Memᴰ row rows
        → clashes (row_of r p t) row ≡ false

    record Synced (rs : List ReplyRecord) (position : ℕ) (before after : Table) : Type 0 where
      rows : (id : Text) → row_at id after ≡ or_row (row_among j id position rs) (row_at id before)
      single : (id : Text) → count_rows id after ≤ 1

    abbrev Steps : ReplyRecord → ℕ → Table → Table → Type 0
    Steps r position rows rows' =
        (id : Text)
        → row_at id rows' ≡ (
            if text_eq r.id id
            then some (row_of r position (j.stringify_record r))
            else row_at id rows)

    kept-Steps :
        (r : ReplyRecord) (position : ℕ) (rows : Table)
        → row_at r.id rows ≡ some (row_of r position (j.stringify_record r))
        → Steps r position rows rows
    kept-Steps r position rows here id = elim (Bool-cases (text_eq r.id id)) [
      | inl same ↦ rw same (
          subst (λ t. row_at t rows ≡ some (row_of r position (j.stringify_record r)))
            ((text_eq_iff r.id id).0 same) here)
      | inr other ↦ rw other refl
    ]

    put-Steps :
        (r : ReplyRecord) (position : ℕ) (rows : Table)
        → Steps r position rows (put_row (row_of r position (j.stringify_record r)) rows)
    unfolding row_of
    put-Steps r position rows id =
        find_key-put_entry (λ r. r.id) id (row_of r position (j.stringify_record r)) rows

    Synced-cons :
        (r : ReplyRecord) (rs : List ReplyRecord) (position : ℕ) (rows rows' after : Table)
        → has_id r.id rs ≡ false
        → Steps r position rows rows'
        → Synced rs (suc position) rows' after
        → Synced (r ∷ rs) position rows after
    Synced-cons r rs position rows rows' after fresh steps synced = record {
      rows = λ id. elim (Bool-cases (text_eq r.id id)) [
        | inl same ↦
            let named = (text_eq_iff r.id id).0 same in
            let gone =
              row_among-absent id (suc position) rs
                (subst (λ t. has_id t rs ≡ false) named fresh) in
            unfold row_among in ground (arith, same, gone, steps id, synced.rows id)
        | inr other ↦ unfold row_among in ground (arith, other, steps id, synced.rows id)
      ];
      single = synced.single;
    }

    Pending-step :
        (r : ReplyRecord) (rs : List ReplyRecord) (position : ℕ) (rows rows' : Table)
        → has_id r.id rs ≡ false
        → Steps r position rows rows'
        → Pending (r ∷ rs) rows
        → Pending rs rows'
    Pending-step r rs position rows rows' fresh steps pend r' m =
        elim (Bool-cases (text_eq r.id r'.id)) [
          | inl same ↦
              let known =
                subst (λ t. has_id t rs ≡ true) (sym ((text_eq_iff r.id r'.id).0 same))
                  (has_id-mem rs m) in
              absurd (cc (known, fresh))
          | inr other ↦ ground (arith, other, steps r'.id, pend r' (Memᴰ.tail m))
        ]

    Apart-put_row :
        (r : ReplyRecord) (rs : List ReplyRecord) (position : ℕ) (rows : Table) (text : Text)
        → IdentifiesMessages (r ∷ rs) (r ∷ rs)
        → Apart (r ∷ rs) rows
        → Apart rs (put_row (row_of r position text) rows)
    Apart-put_row r rs position rows text idents apart r' row p t m here =
        elim (mem_of_mem-put_entry (λ r. r.id) (row_of r position text) rows here) [
          | inr old ↦ apart r' row p t (Memᴰ.tail m) old
          | inl new ↦
              rw new
                (apart_record r r' position p text t (idents r r' (Memᴰ.head refl) (Memᴰ.tail m)))
        ]

    upsert_all-Synced :
        (rs : List ReplyRecord) (position : ℕ) (rows : Table) (n : ℕ)
        → HasDistinctIds rs
        → Pending rs rows
        → Apart rs rows
        → IdentifiesMessages rs rs
        → ((id : Text) → count_rows id rows ≤ 1)
        → (after : Table) × (m : ℕ) × (upsert_all j previous position rs rows n ≡ ok (after, m))
          × Synced rs position rows after
    upsert_all-Synced [] position rows n d pend apart idents single = (
      rows,
      n,
      unfold upsert_all in refl,
      record { rows = λ id. unfold row_among in refl; single = single },
    )
    upsert_all-Synced (r ∷ rs) position rows n d pend apart idents single =
        elim (Bool-cases (is_unchanged j (prior 0 r.id previous) position (j.stringify_record r))) [
          | inl skip ↦
              let here =
                pend r (Memᴰ.head refl)
                ∙ unchanged-row_among laws previous position r distinct skip in
              let steps = kept-Steps r position rows here in
              let (after, m, done, synced) =
                upsert_all-Synced rs (suc position) rows n d.1
                  (Pending-step r rs position rows rows d.0 steps pend)
                  (λ a b p t i. apart a b p t (Memᴰ.tail i))
                  (λ a b i k. idents a b (Memᴰ.tail i) (Memᴰ.tail k)) single in
              (
                after,
                m,
                upsert_all-skip previous position r rs rows n skip ∙ done,
                Synced-cons r rs position rows rows after d.0 steps synced,
              )
          | inr change ↦
              let row = row_of r position (j.stringify_record r) in
              let steps = put-Steps r position rows in
              let (after, m, done, synced) =
                upsert_all-Synced rs (suc position) (put_row row rows) (n + 1) d.1
                  (Pending-step r rs position rows (put_row row rows) d.0 steps pend)
                  (Apart-put_row r rs position rows (j.stringify_record r) idents apart)
                  (λ a b i k. idents a b (Memᴰ.tail i) (Memᴰ.tail k))
                  (λ id. ground (arith, count_key-put_entry (λ r. r.id) id row rows, single id)) in
              let fits =
                upsert_row-ok row rows
                  (λ x i. apart r x position (j.stringify_record r) (Memᴰ.head refl) i) in
              (
                after,
                m,
                upsert_all-put previous position r rs rows n change fits ∙ done,
                Synced-cons r rs position rows (put_row row rows) after d.0 steps synced,
              )
        ]

  module _ (laws : IsJson j) (previous next : List ReplyRecord) (rows : Table)
      (distinct : HasDistinctIds previous) (holds : Represents j rows previous) where
    abbrev kept : Table
    kept = (delete_all j (removed_ids j previous next) rows 0).0

    kept-row :
        (id : Text)
        → row_at id kept
          ≡ (if member id (removed_ids j previous next) then none else row_among j id 0 previous)
    kept-row id =
        ground (arith, (delete_all-rows id (removed_ids j previous next) rows 0).0, holds.exact id)

    kept-single : (id : Text) → count_rows id kept ≤ 1
    kept-single id =
        omega (arith, (delete_all-rows id (removed_ids j previous next) rows 0).1, holds.single id)

    kept-Pending : Pending laws previous distinct next kept
    kept-Pending r m =
        kept-row r.id ∙ rw (not_member-removed_ids r.id previous next (has_id-mem next m)) refl

    kept-source : {row : Row} → Memᴰ row kept → row_among j row.id 0 previous ≡ some row
    kept-source {row} m =
        ground (arith, find_key-mem (λ r. r.id) kept m (kept-single row.id), kept-row row.id)

    kept-Apart : IdentifiesMessages previous next → Apart laws previous distinct next kept
    kept-Apart idents r row p t m here =
        let (s, k, source, found, named) = row_among-source row.id 0 previous (kept-source here) in
        rw found (apart_record s r k p (j.stringify_record s) t (idents s r source m))

    exact-next :
        {after : Table}
        → Synced laws previous distinct next 0 kept after
        → (id : Text) → row_at id after ≡ row_among j id 0 next
    exact-next synced id = elim (Bool-cases (has_id id next)) [
      | inl here ↦
          let (row, found) = row_among-present id 0 next here in
          ground (arith, found, synced.rows id)
      | inr gone ↦
          let absent = row_among-absent id 0 next gone in
          let removed = member-removed_ids id previous next gone in
          elim (Bool-cases (has_id id previous)) [
            | inl old ↦ ground (arith, absent, removed, old, synced.rows id, kept-row id)
            | inr new ↦ ground (
              arith,
              absent,
              removed,
              new,
              synced.rows id,
              kept-row id,
              row_among-absent id 0 previous new,
            )
          ]
    ]

    -- Where JSON texts parse back, a table that holds exactly the previous records, each at its position,
    -- holds exactly the next records afterwards, each at its position, and no statement fails, if the
    -- ids on each side are distinct and one message has one id, within the next records and across the
    -- previous and the next.
    pub sync_outbox-Represents :
        HasDistinctIds next
        → IdentifiesMessages previous next
        → IdentifiesMessages next next
        → (rows' : Table) × (changes : Changes) × (sync_outbox j previous next rows
            ≡ ok (rows', changes))
          × Represents j rows' next
    sync_outbox-Represents d idents within =
        let (after, m, done, synced) =
          upsert_all-Synced laws previous distinct next 0 kept 0 d kept-Pending (kept-Apart idents)
            within kept-single in
        (
          after,
          record {
            outbox_upserts = m;
            outbox_removals = (delete_all j (removed_ids j previous next) rows 0).1;
          },
          unfold sync_outbox in rw done refl,
          record { single = synced.single; exact = exact-next synced },
        )
