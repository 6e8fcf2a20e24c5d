-- ===== src/Storage/Table.antt =====
-- main/core/sqlite-storage.ts: the table `outbox`, and the statements that the program runs on it.
use lucky_tag.Common.{ℕ, ◌+◌, Bool, not, ◌&&◌, Option, List, [], ◌∷◌, max, leb, any, if◌then◌else◌}
use lucky_tag.Common.Sort.{IsSorted}
use lucky_tag.Contracts.{ReplyRecord, ReplyStatus}
use lucky_tag.Text.{Text, lit, text_eq}
use lucky_tag.Text.Keyed.{find_key, delete_key, put_entry, count_key}
use lucky_tag.Worker.Effects.{Result, ok, err}
use mathlib.Core.List.{Permᴰ}

-- A row, column by column.
pub record Row : Type 0 where
  pub id : Text
  pub message_id : Text
  pub group_id : Text
  pub status : ReplyStatus
  pub attempt_count : ℕ
  pub idempotency_uuid : Text
  pub lease_expires_at : Option Text
  pub position : ℕ
  pub payload_json : Text
  pub created_at : Text
  pub updated_at : Text

-- The rows in the order in which they were inserted.
abbrev pub Table : Type 0
Table = List Row

unfoldable pub row_of : ReplyRecord → ℕ → Text → Row
row_of r position serialized = record {
  id = r.id;
  message_id = r.message_id;
  group_id = r.group_id;
  status = r.status;
  attempt_count = r.attempt_count;
  idempotency_uuid = r.idempotency_uuid;
  lease_expires_at = r.lease_expires_at;
  position = position;
  payload_json = serialized;
  created_at = r.created_at;
  updated_at = r.updated_at;
}

-- `SELECT … WHERE id = ?`
abbrev pub row_at : Text → Table → Option Row
row_at = find_key (λ r. r.id)

-- `DELETE FROM outbox WHERE id = ?`
abbrev pub delete_row : Text → Table → Table
delete_row = delete_key (λ r. r.id)

-- `UNIQUE(group_id, message_id)`
unfoldable pub clashes : Row → Row → Bool
clashes row r =
    not (text_eq r.id row.id)
    && (text_eq r.group_id row.group_id && text_eq r.message_id row.message_id)

abbrev pub put_row : Row → Table → Table
put_row = put_entry (λ r. r.id)

unfoldable pub unique_failed : Text
unique_failed = lit "UNIQUE constraint failed: outbox.group_id, outbox.message_id"

-- `INSERT … ON CONFLICT(id) DO UPDATE SET …`
unfoldable pub upsert_row : Row → Table → Result Table
upsert_row row rows = if any (clashes row) rows then err unique_failed else ok (put_row row rows)

-- `SELECT COALESCE(MAX(position), -1) + 1`
unfoldable pub next_position : Table → ℕ
next_position [] = 0
next_position (r ∷ rows) = max (r.position + 1) (next_position rows)

abbrev pub by_position : Row → Row → Bool
by_position r s = leb r.position s.position

-- What `ORDER BY position ASC` returns: the rows, sorted; rows with the same position come in an order
-- that SQL leaves open.
pub record IsOrdering (order : Table → Table) : Type 0 where
  pub perm : (rows : Table) → Permᴰ (order rows) rows
  pub sorted : (rows : Table) → IsSorted by_position (order rows)

-- At most one row with an id: the primary key.
abbrev pub count_rows : Text → Table → ℕ
count_rows = count_key (λ r. r.id)
