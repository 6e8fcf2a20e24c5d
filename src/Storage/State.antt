-- ===== src/Storage/State.antt =====
-- main/core/sqlite-storage.ts: `SqliteCoreStateStore`, as the service sets it up: it gives no
-- `migrate`. What `validate` and the legacy file say is given.
pub mod Cell
pub mod Combine
pub mod Refines
use lucky_tag.Act.{pure, throw, of_result, ◌>>=◌, ◌>>◌}
use lucky_tag.Common.{
  ℕ, ◌+◌, ◌≡◌, Bool, true, false, Option, none, some, List, [], ◌∷◌, length, if◌then◌else◌,
}
use lucky_tag.Contracts.{CoreStateFile, ReplyRecord}
use lucky_tag.Storage.{merge_reply_records}
use lucky_tag.Storage.Database
use lucky_tag.Storage.Database.{
  Platform, Session, Document, Payload, Db, transaction, timestamp, read_document_row,
  write_document, append_event, record_legacy_import, on_outbox,
}
use lucky_tag.Storage.Outbox.{
  Parsed, StateDocument, Changes, read_outbox, sync_outbox, corrupt_sqlite_store,
}
use lucky_tag.Text.{Text, lit}
use lucky_tag.Worker.Effects.{Result, ok, err}
use lucky_tag.Worker.Records.{hex}

pub record StoreOptions : Type 0 where
  pub platform : Platform
  pub create_default : CoreStateFile
  pub validate : CoreStateFile → Bool
  -- `legacyFilePath` with the file's text, if it is given and the file exists
  pub legacy_file : Option (Text × Text)

unfoldable pub invalid_sqlite_store : Text
invalid_sqlite_store = lit "INVALID_SQLITE_STORE"

unfoldable pub invalid_legacy_json_store : Text
invalid_legacy_json_store = lit "INVALID_LEGACY_JSON_STORE"

unfoldable pub state_key : Text
unfolding lit
state_key = lit "state"

unfoldable pub state_stream : Text
state_stream = lit "store.state"

-- `stateMetadata`
abbrev pub state_metadata : CoreStateFile → CoreStateFile
state_metadata state = record state { replies = [] }

abbrev pub with_replies : CoreStateFile → List ReplyRecord → CoreStateFile
with_replies state replies = record state { replies = replies }

module _ (o : StoreOptions) where
  open o use {platform, validate}

  abbrev pub checked : Bool → Text → Db (Unit {0})
  checked true code = pure tt
  checked false code = throw code

  -- `assertValid`
  abbrev pub assert_valid : CoreStateFile → Text → Db (Unit {0})
  assert_valid value code = checked (validate value) code

  unfoldable pub read_outbox_records : Db (List ReplyRecord)
  read_outbox_records s = (read_outbox platform.json platform.order s.database.outbox, s)

  unfoldable pub sync_records : List ReplyRecord → List ReplyRecord → Db Changes
  unfolding on_outbox
  sync_records previous next = on_outbox (sync_outbox platform.json previous next)

  unfoldable pub write_state_document : CoreStateFile → Db ℕ
  write_state_document state = do
    at ← timestamp platform
    write_document state_key 1 (platform.json.stringify_state (state_metadata state)) at

  unfoldable pub append_state_event : Text → Payload → Db ℕ
  append_state_event event_type payload = do
    at ← timestamp platform
    append_event state_stream event_type payload at

  abbrev parsed_legacy :
      Text → Text → Parsed StateDocument → Db (Option (CoreStateFile × Text × Text))
  parsed_legacy path raw Parsed.corrupt = throw corrupt_sqlite_store
  parsed_legacy path raw Parsed.invalid = throw invalid_legacy_json_store
  parsed_legacy path raw (Parsed.valid d) = do
    assert_valid d.state invalid_legacy_json_store
    pure (some (d.state, path, hex (platform.host.sha256 raw)))

  abbrev legacy_of : Option (Text × Text) → Db (Option (CoreStateFile × Text × Text))
  legacy_of none = pure none
  legacy_of (some (path, raw)) = parsed_legacy path raw (platform.json.parse_state raw)

  -- `readLegacy`: the state, the path and the hash of the text
  unfoldable pub read_legacy : Db (Option (CoreStateFile × Text × Text))
  read_legacy = legacy_of o.legacy_file

  abbrev record_import : Option (CoreStateFile × Text × Text) → Db (Unit {0})
  record_import none = pure tt
  record_import (some (state, path, hash)) = do
    at ← timestamp platform
    record_legacy_import state_key path hash at

  abbrev initial_value : Option (CoreStateFile × Text × Text) → CoreStateFile
  initial_value none = o.create_default
  initial_value (some (state, path, hash)) = state

  abbrev initial_event : Option (CoreStateFile × Text × Text) → Text
  initial_event none = lit "store.initialized"
  initial_event (some _) = lit "store.legacy_json_imported"

  abbrev legacy_hash : Option (CoreStateFile × Text × Text) → Option Text
  legacy_hash none = none
  legacy_hash (some (state, path, hash)) = some hash

  -- `initializeUnlocked`
  unfoldable pub initialize : Db CoreStateFile
  unfolding read_legacy write_state_document sync_records append_state_event
  initialize = do
    legacy ← read_legacy
    let value = initial_value legacy
    assert_valid value invalid_sqlite_store
    write_state_document value
    sync_records [] value.replies
    record_import legacy
    append_state_event (initial_event legacy)
        (Payload.initialized (length value.replies) (legacy_hash legacy))
    pure value

  -- Replies that an early build kept in the document move to the table.
  unfoldable pub migrate_replies : CoreStateFile → List ReplyRecord → Db CoreStateFile
  unfolding write_state_document sync_records append_state_event
  migrate_replies base outbox = do
    let merged = merge_reply_records platform.host base.replies outbox
    sync_records outbox merged
    write_state_document (with_replies base merged)
    append_state_event (lit "store.outbox_migrated")
        (Payload.outbox_migrated (length merged) (length base.replies) (length outbox))
    pure (with_replies base merged)

  abbrev settle_replies : Bool → CoreStateFile → List ReplyRecord → CoreStateFile → Db CoreStateFile
  settle_replies true base outbox combined = migrate_replies base outbox
  settle_replies false base outbox combined = pure combined

  -- `combineState`
  unfoldable pub combine_state : CoreStateFile → List ReplyRecord → CoreStateFile
  combine_state base outbox =
      with_replies base (merge_reply_records platform.host base.replies outbox)

  abbrev load : Parsed StateDocument → Db CoreStateFile
  load Parsed.corrupt = throw corrupt_sqlite_store
  load Parsed.invalid = read_outbox_records >> throw invalid_sqlite_store
  load (Parsed.valid document) = do
    outbox ← read_outbox_records
    let combined = combine_state document.state outbox
    assert_valid combined invalid_sqlite_store
    settle_replies document.contains_replies document.state outbox combined

  abbrev found : Option Document → Db CoreStateFile
  found none = initialize
  found (some row) = load (platform.json.parse_state row.value_json)

  -- `readOrInitializeUnlocked`
  unfoldable pub read_or_initialize : Db CoreStateFile
  unfolding read_document_row read_outbox_records
  read_or_initialize = read_document_row state_key >>= found

  -- `writeUnlocked`
  unfoldable pub write_unlocked : CoreStateFile → CoreStateFile → Text → Db ℕ
  unfolding write_state_document sync_records append_state_event
  write_unlocked previous next event_type = do
    revision ← write_state_document next
    changes ← sync_records previous.replies next.replies
    append_state_event event_type (Payload.stored revision changes)

  unfoldable pub read : Db CoreStateFile
  read = transaction platform read_or_initialize

  -- The transaction of `write`
  unfoldable pub write_in : CoreStateFile → Db CoreStateFile
  write_in next = do
    previous ← read_or_initialize
    write_unlocked previous next (lit "store.written")
    pure next

  -- `write(value)`: the value is checked before the transaction.
  unfoldable pub write : CoreStateFile → Db CoreStateFile
  write next = do assert_valid next invalid_sqlite_store; transaction platform (write_in next)

  -- The transaction of `update`; what the mutator throws ends it.
  unfoldable pub update_in : (CoreStateFile → Result CoreStateFile) → Db CoreStateFile
  update_in mutator = do
    current ← read_or_initialize
    next ← of_result (mutator current)
    assert_valid next invalid_sqlite_store
    write_unlocked current next (lit "store.updated")
    pure next

  unfoldable pub update : (CoreStateFile → Result CoreStateFile) → Db CoreStateFile
  update mutator = transaction platform (update_in mutator)
