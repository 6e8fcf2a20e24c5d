-- ===== src/Storage/Database.antt =====
-- main/core/sqlite-storage.ts: `SqliteDatabase` with its transactions, and the statements on documents,
-- events and imports. The queue of `exclusive` makes each operation one step of a session.
pub mod Atomic
use lucky_tag.Act.{Act}
use lucky_tag.Common.{
  ℕ, suc, ◌+◌, ◌≡◌, Bool, true, false, Option, none, some, List, [], ◌∷◌, find, any, if◌then◌else◌,
}
use lucky_tag.Contracts.{ReplyStatus}
use lucky_tag.Host.{Host}
use lucky_tag.Storage.Outbox.{Json, Changes}
use lucky_tag.Storage.Table.{Table}
use lucky_tag.Text.{Text, lit, text_eq}
use lucky_tag.Worker.Effects.{Result, ok, err}

-- A row of `json_documents`.
pub record Document : Type 0 where
  pub document_key : Text
  pub value_version : ℕ
  pub revision : ℕ
  pub value_json : Text
  pub updated_at : Text

-- The payloads of the events, as values.
pub data Payload : Type 0 where
  stored : (revision : ℕ) → Changes → Payload
  outbox_migrated : (reply_count document_reply_count existing_outbox_count : ℕ) → Payload
  initialized : (reply_count : ℕ) (legacy_sha256 : Option Text) → Payload
  record_status : (record_id : Text) (status : ReplyStatus) → Payload
  record_removed : (record_id : Text) → Payload

pub record Event : Type 0 where
  pub id : ℕ
  pub stream : Text
  pub event_type : Text
  pub payload : Payload
  pub created_at : Text

-- A row of `legacy_imports`.
pub record LegacyImport : Type 0 where
  pub store_key : Text
  pub source_path : Text
  pub source_sha256 : Text
  pub imported_at : Text

-- `event_log` has its newest row first; `event_sequence` is the last id that AUTOINCREMENT gave.
pub record Database : Type 0 where
  pub documents : List Document
  pub outbox : Table
  pub event_log : List Event
  pub event_sequence : ℕ
  pub legacy_imports : List LegacyImport

-- The connection; `tick` counts the calls that leave it.
pub record Session : Type 0 where
  pub database : Database
  pub closed : Bool
  pub tick : ℕ

-- What the store is given: `this.now().toISOString()` at a tick, the order that SQLite returns, and
-- where `BEGIN IMMEDIATE` or `COMMIT` fails.
pub record Platform : Type 0 where
  pub host : Host
  pub json : Json
  pub timestamp_at : ℕ → Text
  pub order : Table → Table
  pub begin_fault : ℕ → Option Text
  pub commit_fault : ℕ → Option Text

abbrev pub Db {ℓ} : Type ℓ → Type ℓ
Db A = Act Session A

abbrev pub database_closed : Text
unfolding lit
database_closed = lit "SQLITE_DATABASE_CLOSED"

abbrev pub ticked : Session → Session
ticked s = record s { tick = suc s.tick }

-- `ROLLBACK`
abbrev pub rolled_back : Session → Session → Session
rolled_back before after = record after { database = before.database }

module _ (p : Platform) where
  abbrev pub committed {ℓ} : {A : Type ℓ} → Option Text → Session → A → Session → Result A × Session
  committed none before a after = (ok a, after)
  committed (some e) before a after = (err e, rolled_back before after)

  abbrev pub ended {ℓ} : {A : Type ℓ} → Session → Result A → Session → Result A × Session
  ended before (ok a) after = committed (p.commit_fault after.tick) before a (ticked after)
  ended before (err e) after = (err e, rolled_back before after)

  abbrev pub begun {ℓ} : {A : Type ℓ} → Option Text → Db A → Db A
  begun none operation s = ended s (operation s).0 (operation s).1
  begun (some e) operation s = (err e, s)

  abbrev pub opened {ℓ} : {A : Type ℓ} → Bool → Db A → Db A
  opened true operation s = (err database_closed, s)
  opened false operation s = begun (p.begin_fault s.tick) operation (ticked s)

  unfoldable pub transaction {ℓ} : {A : Type ℓ} → Db A → Db A
  transaction operation s = opened s.closed operation s

  unfoldable pub timestamp : Db Text
  timestamp s = (ok (p.timestamp_at s.tick), ticked s)

-- `close()`
unfoldable pub close : Session → Session
close s = record s { closed = true }

-- `readDocumentRow`
unfoldable pub read_document_row : Text → Db (Option Document)
read_document_row key s = (ok (find (λ d. text_eq d.document_key key) s.database.documents), s)

-- `INSERT … ON CONFLICT(document_key) DO UPDATE`, and the revision that it returns.
unfoldable pub put_document : Text → ℕ → Text → Text → List Document → List Document × ℕ
put_document key value_version json at [] = (
  record {
    document_key = key;
    value_version = value_version;
    revision = 1;
    value_json = json;
    updated_at = at;
  }
      ∷ [],
  1,
)
put_document key value_version json at (d ∷ ds) =
    let (rest, revision) = put_document key value_version json at ds in
    if text_eq d.document_key key
    then (
      record d {
        value_version = value_version;
        revision = d.revision + 1;
        value_json = json;
        updated_at = at;
      }
          ∷ ds,
      d.revision + 1,
    )
    else (d ∷ rest, revision)

-- `writeDocumentUnlocked`, with the serialized value
unfoldable pub write_document : Text → ℕ → Text → Text → Db ℕ
unfolding put_document
write_document key value_version json at s =
    let (documents, revision) = put_document key value_version json at s.database.documents in
    (ok revision, record s { database = record s.database { documents = documents } })

-- `appendEventUnlocked`
unfoldable pub append_event : Text → Text → Payload → Text → Db ℕ
append_event stream event_type payload created_at s =
    let id = suc s.database.event_sequence in
    (
      ok id,
      record s {
        database = record s.database {
          event_log =
              record {
                id = id;
                stream = stream;
                event_type = event_type;
                payload = payload;
                created_at = created_at;
              }
              ∷ s.database.event_log;
          event_sequence = id;
        };
      },
    )

-- `recordLegacyImportUnlocked`: `ON CONFLICT(store_key) DO NOTHING`
unfoldable pub record_legacy_import : Text → Text → Text → Text → Db (Unit {0})
record_legacy_import key path hash at s = (
  ok tt,
  record s {
    database = record s.database {
      legacy_imports =
          if any (λ i. text_eq i.store_key key) s.database.legacy_imports
          then s.database.legacy_imports
          else record {
            store_key = key;
            source_path = path;
            source_sha256 = hash;
            imported_at = at;
          }
            ∷ s.database.legacy_imports;
    };
  },
)

abbrev with_outbox {ℓ} : {A : Type ℓ} → Result (Table × A) → Db A
with_outbox (ok (rows, a)) s = (ok a, record s { database = record s.database { outbox = rows } })
with_outbox (err e) s = (err e, s)

-- The table `outbox` becomes what a statement or loop makes of it.
unfoldable pub on_outbox {ℓ} : {A : Type ℓ} → (Table → Result (Table × A)) → Db A
on_outbox change s = with_outbox (change s.database.outbox) s
