-- ===== src/Storage/Outbox.antt =====
-- main/core/sqlite-storage.ts: `syncOutboxUnlocked` and `readOutboxUnlocked`, which write a list of
-- records to the table `outbox` and read it back.
pub mod Read
pub mod Sync
use lucky_tag.Act.{and_then}
use lucky_tag.Common.{
  ℕ, suc, ◌+◌, ◌≡◌, Bool, true, false, not, ◌&&◌, ◌||◌, Option, none, some, List, [], ◌∷◌, map,
  filter, any, ◌==◌, ◌≤◌, if◌then◌else◌,
}
use lucky_tag.Contracts.{ReplyRecord, CoreStateFile}
use lucky_tag.Storage.Table.{
  Row, Table, row_of, row_at, delete_row, put_row, upsert_row, count_rows,
}
use lucky_tag.Text.{Text, lit, text_eq, member}
use lucky_tag.Worker.Effects.{Result, ok, err}
use mathlib.Core.List.{Memᴰ}

-- What `JSON.parse` and a validation make of a text.
pub data Parsed {ℓ} (A : Type ℓ) : Type ℓ where
  corrupt : Parsed A
  invalid : Parsed A
  valid : A → Parsed A

-- The state document as it is read: its entries of `replies` that are records, and whether
-- `replies` had any entry.
pub record StateDocument : Type 0 where
  pub state : CoreStateFile
  pub contains_replies : Bool

abbrev pub has_entries : List ReplyRecord → Bool
has_entries [] = false
has_entries (r ∷ rs) = true

-- `JSON.stringify` and `JSON.parse`, at the two types that are stored; a parsed value passes the
-- type's validation.
pub record Json : Type 0 where
  pub stringify_record : ReplyRecord → Text
  pub parse_record : Text → Parsed ReplyRecord
  pub stringify_state : CoreStateFile → Text
  pub parse_state : Text → Parsed StateDocument

-- Documented behaviour: a text that `JSON.stringify` wrote parses to an equal value.
pub record IsJson (j : Json) : Type 0 where
  pub record_lem : (r : ReplyRecord) → j.parse_record (j.stringify_record r) ≡ valid r
  pub state_lem :
      (s : CoreStateFile)
      → j.parse_state (j.stringify_state s)
        ≡ valid (record { state = s; contains_replies = has_entries s.replies })

unfoldable pub invalid_outbox_record : Text
invalid_outbox_record = lit "INVALID_OUTBOX_RECORD"

unfoldable pub corrupt_sqlite_store : Text
corrupt_sqlite_store = lit "CORRUPT_SQLITE_STORE"

unfoldable pub has_id : Text → List ReplyRecord → Bool
has_id id [] = false
has_id id (r ∷ rs) = text_eq r.id id || has_id id rs

abbrev or_entry : Option (ℕ × ReplyRecord) → Option (ℕ × ReplyRecord) → Option (ℕ × ReplyRecord)
or_entry (some e) other = some e
or_entry none other = other

-- `previousById.get(id)`: position and record of the last entry with the id.
unfoldable pub prior : ℕ → Text → List ReplyRecord → Option (ℕ × ReplyRecord)
prior position id [] = none
prior position id (r ∷ rs) =
    or_entry (prior (suc position) id rs) (if text_eq r.id id then some (position, r) else none)

pub record Changes : Type 0 where
  pub outbox_upserts : ℕ
  pub outbox_removals : ℕ

abbrev pub of_parsed : Parsed ReplyRecord → Result ReplyRecord
of_parsed Parsed.corrupt = err corrupt_sqlite_store
of_parsed Parsed.invalid = err invalid_outbox_record
of_parsed (Parsed.valid r) = ok r

module _ (j : Json) where
  -- `parseOutboxRecord`
  abbrev pub parse_outbox_record : Text → Result ReplyRecord
  parse_outbox_record raw = of_parsed (j.parse_record raw)

  unfoldable pub parse_rows : Table → Result (List ReplyRecord)
  parse_rows [] = ok []
  parse_rows (row ∷ rows) =
      and_then (parse_outbox_record row.payload_json)
        (λ r. and_then (parse_rows rows) (λ rs. ok (r ∷ rs)))

  -- `order` is what `ORDER BY position ASC` does.
  unfoldable pub read_outbox : (Table → Table) → Table → Result (List ReplyRecord)
  read_outbox order rows = parse_rows (order rows)

  -- `prior && prior.position === position && prior.serialized === serialized`
  unfoldable pub is_unchanged : Option (ℕ × ReplyRecord) → ℕ → Text → Bool
  is_unchanged none position serialized = false
  is_unchanged (some (at, r)) position serialized =
      at == position && text_eq (j.stringify_record r) serialized

  -- `nextIds.has(id)` fails
  unfoldable pub removed_ids : List ReplyRecord → List ReplyRecord → List Text
  removed_ids [] next = []
  removed_ids (r ∷ rs) next =
      if has_id r.id next then removed_ids rs next else r.id ∷ removed_ids rs next

  -- The first loop; `changes` counts the rows that a statement deleted.
  unfoldable pub delete_all : List Text → Table → ℕ → Table × ℕ
  delete_all [] rows removals = (rows, removals)
  delete_all (id ∷ ids) rows removals =
      delete_all ids (delete_row id rows) (removals + count_rows id rows)

  -- The second loop, from a position on.
  unfoldable pub upsert_all :
      List ReplyRecord → ℕ → List ReplyRecord → Table → ℕ → Result (Table × ℕ)
  upsert_all previous position [] rows upserts = ok (rows, upserts)
  upsert_all previous position (r ∷ rs) rows upserts =
      elim (is_unchanged (prior 0 r.id previous) position (j.stringify_record r)) [
        | true ↦ upsert_all previous (suc position) rs rows upserts
        | false ↦
            and_then (upsert_row (row_of r position (j.stringify_record r)) rows)
              (λ rows'. upsert_all previous (suc position) rs rows' (upserts + 1))
      ]

  unfoldable pub sync_outbox :
      List ReplyRecord → List ReplyRecord → Table → Result (Table × Changes)
  sync_outbox previous next rows =
      let (kept, removals) = delete_all (removed_ids previous next) rows 0 in
      and_then (upsert_all previous 0 next kept 0)
        (λ done. ok (done.0, record { outbox_upserts = done.1; outbox_removals = removals }))

  -- The row that holds an id when the records stand at their positions.
  unfoldable pub row_among : Text → ℕ → List ReplyRecord → Option Row
  row_among id position [] = none
  row_among id position (r ∷ rs) =
      if text_eq r.id id
      then some (row_of r position (j.stringify_record r))
      else row_among id (suc position) rs

  -- The table holds the records, each at its position, and nothing else.
  pub record Represents (rows : Table) (records : List ReplyRecord) : Type 0 where
    pub single : (id : Text) → count_rows id rows ≤ 1
    pub exact : (id : Text) → row_at id rows ≡ row_among id 0 records

-- No two records have one id.
abbrev pub HasDistinctIds : List ReplyRecord → Type 0
HasDistinctIds [] = Unit
HasDistinctIds (r ∷ rs) = (has_id r.id rs ≡ false) × HasDistinctIds rs

-- `UNIQUE(group_id, message_id)`: records of one message have one id.
abbrev pub IdentifiesMessages : List ReplyRecord → List ReplyRecord → Type 0
IdentifiesMessages xs ys =
    (a b : ReplyRecord)
    → Memᴰ a xs
    → Memᴰ b ys
    → a.group_id ≡ b.group_id
    → a.message_id ≡ b.message_id
    → a.id ≡ b.id
