-- ===== src/Storage/Tests.antt =====
-- A record that was sent according to the outbox only.
use lucky_tag.Common.{
  ◌≤◌, ◌≡◌, refl, ◌↔◌, none, true, false, List, [], ◌∷◌, max, arith, sym, ◌∙◌, All, All-mem, find,
  if◌then◌else◌, mem-cons-cases, inl, inr, some,
}
use lucky_tag.Common.Sort.{sort}
use lucky_tag.Contracts.{ReplyRecord, CoreStateFile, sending, sent}
use lucky_tag.Storage.{merge_reply_conflict, merge_reply_records}
use lucky_tag.Storage.Conflict.{IsSafeMerge, merge_reply_conflict-IsSafeMerge}
use lucky_tag.Storage.Merge.{count_id, best_safety, merge_reply_records_safest}
use lucky_tag.Storage.Database.{Session, transaction, write_document, put_document}
use lucky_tag.Storage.Database.Atomic.{database-transaction}
use lucky_tag.Storage.Deliveries.{OutboxAcknowledgement, acknowledge_rows, already_acknowledged}
use lucky_tag.Storage.Deliveries.Acknowledged.{IsUnique, IsAcknowledged, acknowledge_rows-cases}
use lucky_tag.Storage.Outbox.{
  has_id, HasDistinctIds, IdentifiesMessages, Represents, row_among, sync_outbox, read_outbox,
  Changes,
}
use lucky_tag.Storage.Outbox.Read.{read_outbox-Represents}
use lucky_tag.Storage.Outbox.Sync.{sync_outbox-Represents}
use lucky_tag.Storage.Sample.{json, json-IsJson, order, order-IsOrdering, platform}
use lucky_tag.Storage.Sample.Encoding.{encode_all}
use lucky_tag.Storage.State.{StoreOptions, state_key, state_metadata, read, update}
use lucky_tag.Storage.State.Cell.{Settles, update-Settles, read-Settles}
use lucky_tag.Storage.State.Refines.{Holds, MayFollow}
use lucky_tag.Storage.Table.{Table, row_of, row_at, clashes}
use lucky_tag.Text.{Text, text_eq, text_eq_iff}
use lucky_tag.Text.Keyed.{find_key}
use lucky_tag.Worker.Effects.{ok, err}
use lucky_tag.Worker.Status.{is_terminal, status_eq}
use lucky_tag.Worker.Sample.{host, pending_record}

abbrev delivered : ReplyRecord
delivered = record pending_record { status = sent }

merge_reply_conflict-IsSafeMerge_example :
    IsSafeMerge pending_record delivered (merge_reply_conflict host pending_record delivered)
merge_reply_conflict-IsSafeMerge_example =
    merge_reply_conflict-IsSafeMerge host pending_record delivered

merge_reply_records_safest_example :
    (count_id pending_record.id (merge_reply_records host (pending_record ∷ []) (delivered ∷ []))
      ≤ 1)
    × ((count_id pending_record.id (merge_reply_records host (pending_record ∷ []) (delivered ∷ []))
          ≡ 0)
        ↔ ((count_id pending_record.id (pending_record ∷ []) ≡ 0)
            × (count_id pending_record.id (delivered ∷ []) ≡ 0)))
    × (best_safety pending_record.id
          (merge_reply_records host (pending_record ∷ []) (delivered ∷ []))
        ≡ max
            (best_safety pending_record.id (pending_record ∷ []))
            (best_safety pending_record.id (delivered ∷ [])))
merge_reply_records_safest_example =
    merge_reply_records_safest host pending_record.id (pending_record ∷ []) (delivered ∷ [])

-- Two records, of which the first is removed, the second moves up and a third is new.
abbrev first_record : ReplyRecord
first_record = record {
  id = 1 ∷ [];
  message_id = 1 ∷ [];
  group_id = 3 ∷ [];
  group_label = [];
  sender_label = none;
  question = 4 ∷ [];
  reply = none;
  status = sending;
  reason = none;
  created_at = [];
  updated_at = [];
  evidence = [];
  lease_expires_at = none;
  platform_task_id = none;
  attempt_count = 0;
  idempotency_uuid = 5 ∷ [];
  sender_id = none;
  follow_up_closed_at = none;
  follow_up_close_reason = none;
}

abbrev second_record : ReplyRecord
second_record = record first_record { id = 6 ∷ []; message_id = 6 ∷ [] }

abbrev third_record : ReplyRecord
third_record = record first_record { id = 8 ∷ []; message_id = 8 ∷ [] }

abbrev before_replies : List ReplyRecord
before_replies = first_record ∷ second_record ∷ []

abbrev after_replies : List ReplyRecord
after_replies = record second_record { status = sent } ∷ third_record ∷ []

abbrev stored_rows : Table
unfolding row_of encode_all
stored_rows =
    row_of first_record 0 (json.stringify_record first_record)
    ∷ row_of second_record 1 (json.stringify_record second_record)
    ∷ []

before-HasDistinctIds : HasDistinctIds before_replies
unfolding has_id text_eq
before-HasDistinctIds = (refl, (refl, tt))

after-HasDistinctIds : HasDistinctIds after_replies
unfolding has_id text_eq
after-HasDistinctIds = (refl, (refl, tt))

stored_rows-Represents : Represents json stored_rows before_replies
unfolding row_among row_of find_key encode_all
stored_rows-Represents = record {
  single = λ id. ground (arith, text_eq_iff (1 ∷ []) id, text_eq_iff (6 ∷ []) id);
  exact = λ id. refl;
}

-- The ids are the messages' ids, so a message tells the id.
tells_id :
    (xs ys : List ReplyRecord)
    → All (λ r. r.id ≡ r.message_id) xs
    → All (λ r. r.id ≡ r.message_id) ys
    → IdentifiesMessages xs ys
tells_id xs ys h k a b m n group message = All-mem _ xs h m ∙ message ∙ sym (All-mem _ ys k n)

across-IdentifiesMessages : IdentifiesMessages before_replies after_replies
across-IdentifiesMessages =
    tells_id before_replies after_replies (refl, (refl, tt)) (refl, (refl, tt))

within-IdentifiesMessages : IdentifiesMessages after_replies after_replies
within-IdentifiesMessages =
    tells_id after_replies after_replies (refl, (refl, tt)) (refl, (refl, tt))

sync_outbox-Represents_example :
    (rows' : Table) × (changes : Changes) × (sync_outbox json before_replies after_replies
        stored_rows
      ≡ ok (rows', changes))
    × Represents json rows' after_replies
sync_outbox-Represents_example =
    sync_outbox-Represents json json-IsJson before_replies after_replies stored_rows
      before-HasDistinctIds stored_rows-Represents after-HasDistinctIds across-IdentifiesMessages
      within-IdentifiesMessages

read_outbox-Represents_example : read_outbox json order stored_rows ≡ ok before_replies
read_outbox-Represents_example =
    read_outbox-Represents json before_replies json-IsJson order-IsOrdering before-HasDistinctIds
      stored_rows-Represents

abbrev stored_state : CoreStateFile
stored_state = record {
  initialized_groups = [];
  replies = before_replies;
  runtime = record {
    running = true;
    processing = false;
    last_run_at = none;
    next_run_at = none;
    last_error = none;
    instance_id = 73 ∷ [];
  };
}

abbrev next_state : CoreStateFile
next_state = record stored_state { replies = after_replies }

abbrev options : StoreOptions
options = record {
  platform = platform;
  create_default = stored_state;
  validate = λ state. true;
  legacy_file = none;
}

abbrev session : Session
unfolding encode_all row_of state_key
session = record {
  database = record {
    documents =
        record {
          document_key = state_key;
          value_version = 1;
          revision = 1;
          value_json = json.stringify_state (state_metadata stored_state);
          updated_at = [];
        }
        ∷ [];
    outbox = stored_rows;
    event_log = [];
    event_sequence = 0;
    legacy_imports = [];
  };
  closed = false;
  tick = 0;
}

session-Holds : Holds options session stored_state
unfolding state_key encode_all row_of sort find text_eq
session-Holds = record {
  usable = refl;
  document = (_, refl, refl);
  outbox = stored_rows-Represents;
  distinct = before-HasDistinctIds;
  accepted = refl;
}

next_state-MayFollow : MayFollow options stored_state next_state
next_state-MayFollow = record {
  accepted = refl;
  distinct = after-HasDistinctIds;
  across = across-IdentifiesMessages;
  within = within-IdentifiesMessages;
}

update-Settles_example :
    Settles options stored_state next_state (update options (λ state. ok next_state) session)
update-Settles_example =
    update-Settles options json-IsJson order-IsOrdering session-Holds (λ state. ok next_state) refl
      next_state-MayFollow

read-Settles_example : Settles options stored_state stored_state (read options session)
read-Settles_example = read-Settles options json-IsJson order-IsOrdering session-Holds

-- COMMIT fails at the tick after this one, when the document is written.
abbrev late : Session
unfolding encode_all row_of state_key
late = record session { tick = 20 }

late_fails :
    (transaction platform (write_document (1 ∷ []) 1 (2 ∷ []) (3 ∷ [])) late).0 ≡ err (99 ∷ [])
unfolding transaction sort late write_document put_document
late_fails = refl

database-transaction_example :
    (transaction platform (write_document (1 ∷ []) 1 (2 ∷ []) (3 ∷ [])) late).1.database
    ≡ late.database
database-transaction_example =
    database-transaction platform (write_document (1 ∷ []) 1 (2 ∷ []) (3 ∷ [])) late late_fails

abbrev input : OutboxAcknowledgement
input = record {
  id = 1 ∷ [];
  status = sent;
  updated_at = 84 ∷ [];
  reason = none;
  platform_task_id = none;
}

stored_rows-IsUnique : IsUnique stored_rows
unfolding clashes row_of encode_all text_eq
stored_rows-IsUnique a b m k = elim (mem-cons-cases m) [
  | inl e ↦ elim (mem-cons-cases k) [
    | inl f ↦ rw (e, f) refl
    | inr k' ↦ elim (mem-cons-cases k') [ inl f ↦ rw (e, f) refl | inr none' ↦ elim none' [ ] ]
  ]
  | inr m' ↦ elim (mem-cons-cases m') [
    | inl e ↦ elim (mem-cons-cases k) [
      | inl f ↦ rw (e, f) refl
      | inr k' ↦ elim (mem-cons-cases k') [ inl f ↦ rw (e, f) refl | inr none' ↦ elim none' [ ] ]
    ]
    | inr none' ↦ elim none' [ ]
  ]
]

first_found :
    row_at input.id stored_rows ≡ some (row_of first_record 0 (json.stringify_record first_record))
unfolding find_key text_eq row_of encode_all
first_found = refl

acknowledge_rows-cases_example :
    (is_terminal first_record.status ≡ true
      → acknowledge_rows json input stored_rows ≡ (
          if status_eq first_record.status input.status
          then ok (stored_rows, some (first_record, false))
          else err already_acknowledged))
    × (is_terminal first_record.status ≡ false
        → (rows' : Table) × (next : ReplyRecord) × (acknowledge_rows json input stored_rows
            ≡ ok (rows', some (next, true)))
          × IsAcknowledged input first_record next
          × ((id : Text)
              → row_at id rows' ≡ (
                  if text_eq first_record.id id
                  then some (row_of next 0 (json.stringify_record next))
                  else row_at id stored_rows)))
acknowledge_rows-cases_example =
    acknowledge_rows-cases json json-IsJson input stored_rows stored_rows-IsUnique first_record 0
      first_found
