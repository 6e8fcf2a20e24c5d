-- ===== src/Storage/State/Refines.antt =====
-- The store behaves as one cell that holds a state.
use lucky_tag.Common.{
  ℕ, suc, ◌+◌, ◌≡◌, refl, sym, ap, ◌∙◌, subst, inl, inr, true, false, Option, some, List, [], ◌∷◌,
  find, Bool-cases,
}
use lucky_tag.Contracts.{CoreStateFile}
use lucky_tag.Storage.Database.{
  Session, Document, timestamp, read_document_row, put_document, write_document, append_event,
}
use lucky_tag.Storage.Outbox.{
  IsJson, Represents, HasDistinctIds, IdentifiesMessages, sync_outbox, Changes,
}
use lucky_tag.Storage.Outbox.Read.{read_outbox-Represents}
use lucky_tag.Storage.Outbox.Sync.{sync_outbox-Represents}
use lucky_tag.Storage.State.{
  StoreOptions, state_key, state_metadata, read_outbox_records, combine_state, read_or_initialize,
  write_unlocked, write_in, update_in,
}
use lucky_tag.Storage.State.Combine.{merge_reply_records-nil}
use lucky_tag.Storage.Table.{Table, IsOrdering}
use lucky_tag.Text.{Text, lit, text_eq, text_eq_iff}
use lucky_tag.Worker.Effects.{Result, ok}

abbrev document_at : Text → List Document → Option Document
document_at key = find (λ d. text_eq d.document_key key)

find-put_document :
    (key : Text) (version : ℕ) (json at : Text) (ds : List Document)
    → (d : Document) × (document_at key (put_document key version json at ds).0 ≡ some d)
      × (d.value_json ≡ json)
unfolding find put_document
find-put_document key version json at [] =
    let d : Document = record {
      document_key = key;
      value_version = version;
      revision = 1;
      value_json = json;
      updated_at = at;
    } in
    (d, rw ((text_eq_iff key key).1 refl) refl, refl)
find-put_document key version json at (d ∷ ds) = elim (Bool-cases (text_eq d.document_key key)) [
  | inl same ↦
      let d' : Document = record d {
        value_version = version;
        revision = d.revision + 1;
        value_json = json;
        updated_at = at;
      } in
      (d', rw same (rw same refl), refl)
  | inr other ↦
      let (d', found, text) = find-put_document key version json at ds in
      (d', rw other (rw other found), text)
]

module _ (o : StoreOptions) where
  open o use {platform, validate}

  -- The open session's database holds a state: its metadata in the document, its replies in the table.
  pub record Holds (s : Session) (state : CoreStateFile) : Type 0 where
    pub usable : s.closed ≡ false
    pub document :
        (d : Document) × (document_at state_key s.database.documents ≡ some d)
        × (d.value_json ≡ platform.json.stringify_state (state_metadata state))
    pub outbox : Represents platform.json s.database.outbox state.replies
    pub distinct : HasDistinctIds state.replies
    pub accepted : validate state ≡ true

  -- The state may follow the stored one: it passes the check, and ids are distinct and tell messages apart.
  pub record MayFollow (state next : CoreStateFile) : Type 0 where
    pub accepted : validate next ≡ true
    pub distinct : HasDistinctIds next.replies
    pub across : IdentifiesMessages state.replies next.replies
    pub within : IdentifiesMessages next.replies next.replies

  module _ (laws : IsJson platform.json) (ordering : IsOrdering platform.order) where
    pub read_or_initialize-Holds :
        {s : Session} {state : CoreStateFile}
        → Holds s state
        → read_or_initialize o s ≡ (ok state, s)
    unfolding read_or_initialize combine_state read_document_row read_outbox_records
    read_or_initialize-Holds {s} {state} holds =
        let (d, found, text) = holds.document in
        let rows =
          read_outbox-Represents platform.json state.replies laws ordering holds.distinct
            holds.outbox in
        let merged = merge_reply_records-nil platform.host state.replies holds.distinct in
        rw found (
          rw text (
            rw (laws.state_lem (state_metadata state))
              (rw rows (rw merged (rw holds.accepted refl)))))

    -- What `writeUnlocked` leaves, when the records can be synchronised.
    record Wrote (s : Session) (next : CoreStateFile) (rows : Table) (s' : Session) : Type 0 where
      at : Text
      documents :
          s'.database.documents
          ≡ (put_document state_key 1
              (platform.json.stringify_state (state_metadata next))
              at
              s.database.documents).0
      outbox : s'.database.outbox ≡ rows
      closed : s'.closed ≡ s.closed

    write_unlocked-ok :
        (previous next : CoreStateFile) (event_type : Text) (s : Session) {rows : Table}
        {changes : Changes}
        → sync_outbox platform.json previous.replies next.replies s.database.outbox
          ≡ ok (rows, changes)
        → ((write_unlocked o previous next event_type s).0 ≡ ok (suc s.database.event_sequence))
          × Wrote s next rows (write_unlocked o previous next event_type s).1
    unfolding write_unlocked timestamp write_document append_event
    write_unlocked-ok previous next event_type s {rows} {changes} synced = (
      rw synced refl,
      record {
        at = platform.timestamp_at s.tick;
        documents = rw synced refl;
        outbox = rw synced refl;
        closed = rw synced refl;
      },
    )

    write_unlocked-Holds :
        {s : Session} {state next : CoreStateFile} (event_type : Text)
        → Holds s state
        → MayFollow state next
        → ((write_unlocked o state next event_type s).0 ≡ ok (suc s.database.event_sequence))
          × Holds (write_unlocked o state next event_type s).1 next
    write_unlocked-Holds {s} {state} {next} event_type holds may =
        let (rows, changes, synced, represents) =
          sync_outbox-Represents platform.json laws state.replies next.replies s.database.outbox
            holds.distinct holds.outbox may.distinct may.across may.within in
        let (done, wrote) = write_unlocked-ok state next event_type s synced in
        let (d, found, text) =
          find-put_document state_key 1 (platform.json.stringify_state (state_metadata next))
            wrote.at s.database.documents in
        (
          done,
          record {
            usable = wrote.closed ∙ holds.usable;
            document = (d, ap (document_at state_key) wrote.documents ∙ found, text);
            outbox =
                subst (λ t. Represents platform.json t next.replies) (sym wrote.outbox) represents;
            distinct = may.distinct;
            accepted = may.accepted;
          },
        )

    pub update_in-Holds :
        {s : Session} {state next : CoreStateFile} (mutator : CoreStateFile → Result CoreStateFile)
        → Holds s state
        → mutator state ≡ ok next
        → MayFollow state next
        → ((update_in o mutator s).0 ≡ ok next) × Holds (update_in o mutator s).1 next
    unfolding update_in
    update_in-Holds {s} {state} {next} mutator holds gives may =
        let loaded = read_or_initialize-Holds holds in
        let (done, after) = write_unlocked-Holds (lit "store.updated") holds may in
        rw loaded (rw gives (rw may.accepted (rw done (refl, after))))

    pub write_in-Holds :
        {s : Session} {state next : CoreStateFile}
        → Holds s state
        → MayFollow state next
        → ((write_in o next s).0 ≡ ok next) × Holds (write_in o next s).1 next
    unfolding write_in
    write_in-Holds {s} {state} {next} holds may =
        let loaded = read_or_initialize-Holds holds in
        let (done, after) = write_unlocked-Holds (lit "store.written") holds may in
        rw loaded (rw done (refl, after))
