-- ===== src/Storage/Sample.antt =====
-- A concrete platform for the tests: values are written as numbers, texts with their length in front.
pub mod Encoding
use lucky_tag.Common.{
  ℕ, zero, suc, ◌≡◌, ◌⊎◌, refl, ap, ◌∙◌, Bool, true, false, Option, none, some, List, [], ◌∷◌, ltb,
  leb, ◌==◌, if◌then◌else◌, inl, inr, arith,
}
use lucky_tag.Common.Sort.{sort, sort-perm, sort-IsSorted}
use lucky_tag.Contracts.{
  ReplyRecord, ReplyEvidence, ReplyStatus, CoreStateFile, RuntimeStatus, pending, sending, sent,
  ignored, needs_manual, recalled, dry_run, failed,
}
use lucky_tag.Storage.Database.{Platform}
use lucky_tag.Storage.Outbox.{Json, IsJson, Parsed, StateDocument, has_entries}
use lucky_tag.Storage.Sample.Encoding.{Codec, number, text, list, option, via, ◌⊗◌}
use lucky_tag.Storage.Table.{Row, IsOrdering, by_position}
use lucky_tag.Text.{Text}
use lucky_tag.Worker.Sample.{host}

abbrev status_number : ReplyStatus → ℕ
status_number pending = 0
status_number sending = 1
status_number sent = 2
status_number ignored = 3
status_number needs_manual = 4
status_number recalled = 5
status_number dry_run = 6
status_number failed = 7

abbrev number_status : ℕ → ReplyStatus
number_status zero = pending
number_status (suc zero) = sending
number_status (suc (suc zero)) = sent
number_status (suc (suc (suc zero))) = ignored
number_status (suc (suc (suc (suc zero)))) = needs_manual
number_status (suc (suc (suc (suc (suc zero))))) = recalled
number_status (suc (suc (suc (suc (suc (suc zero)))))) = dry_run
number_status _ = failed

pub status_back : (s : ReplyStatus) → number_status (status_number s) ≡ s
status_back pending = refl
status_back sending = refl
status_back sent = refl
status_back ignored = refl
status_back needs_manual = refl
status_back recalled = refl
status_back dry_run = refl
status_back failed = refl

abbrev status : Codec ReplyStatus
status = via status_number number_status status_back number

abbrev pub flag_number : Bool → ℕ
flag_number false = 0
flag_number true = 1

pub flag_back : (b : Bool) → (flag_number b == 1) ≡ b
flag_back false = refl
flag_back true = refl

abbrev pub flag : Codec Bool
flag = via flag_number (λ n. n == 1) flag_back number

abbrev ReplyEvidenceParts : Type 0
ReplyEvidenceParts = (Text × (Text × (Text × (Text × ℕ))))

abbrev evidence_to : ReplyEvidence → ReplyEvidenceParts
evidence_to r = (r.document_id, (r.title, (r.source_label, (r.excerpt, r.score))))

abbrev evidence_from : ReplyEvidenceParts → ReplyEvidence
evidence_from t = record {
  document_id = t.0;
  title = t.1.0;
  source_label = t.1.1.0;
  excerpt = t.1.1.1.0;
  score = t.1.1.1.1;
}

pub evidence_back : (r : ReplyEvidence) → evidence_from (evidence_to r) ≡ r
evidence_back r = refl

abbrev evidence : Codec ReplyEvidence
evidence = via evidence_to evidence_from evidence_back (text ⊗ (text ⊗ (text ⊗ (text ⊗ number))))

abbrev ReplyRecordParts : Type 0
ReplyRecordParts =
    (Text
      × (Text
          × (Text
              × (Text
                  × (Option Text
                      × (Text
                          × (Option Text
                              × (ReplyStatus
                                  × (Option Text
                                      × (Text
                                          × (Text
                                              × (List ReplyEvidence
                                                  × (Option Text
                                                      × (Option Text
                                                          × (ℕ
                                                            × (Text
                                                            × (Option Text
                                                            × (Option Text
                                                            × Option Text))))))))))))))))))

abbrev reply_record_to : ReplyRecord → ReplyRecordParts
reply_record_to r = (
  r.id,
  (
    r.message_id,
    (
      r.group_id,
      (
        r.group_label,
        (
          r.sender_label,
          (
            r.question,
            (
              r.reply,
              (
                r.status,
                (
                  r.reason,
                  (
                    r.created_at,
                    (
                      r.updated_at,
                      (
                        r.evidence,
                        (
                          r.lease_expires_at,
                          (
                            r.platform_task_id,
                            (
                              r.attempt_count,
                              (
                                r.idempotency_uuid,
                                (r.sender_id, (r.follow_up_closed_at, r.follow_up_close_reason)),
                              ),
                            ),
                          ),
                        ),
                      ),
                    ),
                  ),
                ),
              ),
            ),
          ),
        ),
      ),
    ),
  ),
)

abbrev reply_record_from : ReplyRecordParts → ReplyRecord
reply_record_from t = record {
  id = t.0;
  message_id = t.1.0;
  group_id = t.1.1.0;
  group_label = t.1.1.1.0;
  sender_label = t.1.1.1.1.0;
  question = t.1.1.1.1.1.0;
  reply = t.1.1.1.1.1.1.0;
  status = t.1.1.1.1.1.1.1.0;
  reason = t.1.1.1.1.1.1.1.1.0;
  created_at = t.1.1.1.1.1.1.1.1.1.0;
  updated_at = t.1.1.1.1.1.1.1.1.1.1.0;
  evidence = t.1.1.1.1.1.1.1.1.1.1.1.0;
  lease_expires_at = t.1.1.1.1.1.1.1.1.1.1.1.1.0;
  platform_task_id = t.1.1.1.1.1.1.1.1.1.1.1.1.1.0;
  attempt_count = t.1.1.1.1.1.1.1.1.1.1.1.1.1.1.0;
  idempotency_uuid = t.1.1.1.1.1.1.1.1.1.1.1.1.1.1.1.0;
  sender_id = t.1.1.1.1.1.1.1.1.1.1.1.1.1.1.1.1.0;
  follow_up_closed_at = t.1.1.1.1.1.1.1.1.1.1.1.1.1.1.1.1.1.0;
  follow_up_close_reason = t.1.1.1.1.1.1.1.1.1.1.1.1.1.1.1.1.1.1;
}

pub reply_record_back : (r : ReplyRecord) → reply_record_from (reply_record_to r) ≡ r
reply_record_back r = refl

abbrev reply_record : Codec ReplyRecord
reply_record = via reply_record_to reply_record_from reply_record_back (
    text
    ⊗ (text
        ⊗ (text
            ⊗ (text
                ⊗ ((option text)
                    ⊗ (text
                        ⊗ ((option text)
                            ⊗ (status
                                ⊗ ((option text)
                                    ⊗ (text
                                        ⊗ (text
                                            ⊗ ((list evidence)
                                                ⊗ ((option text)
                                                    ⊗ ((option text)
                                                        ⊗ (number
                                                            ⊗ (text
                                                            ⊗ ((option text)
                                                            ⊗ ((option text)
                                                            ⊗ (option text)))))))))))))))))))

abbrev RuntimeStatusParts : Type 0
RuntimeStatusParts = (Bool × (Bool × (Option Text × (Option Text × (Option Text × Text)))))

abbrev runtime_status_to : RuntimeStatus → RuntimeStatusParts
runtime_status_to r =
    (r.running, (r.processing, (r.last_run_at, (r.next_run_at, (r.last_error, r.instance_id)))))

abbrev runtime_status_from : RuntimeStatusParts → RuntimeStatus
runtime_status_from t = record {
  running = t.0;
  processing = t.1.0;
  last_run_at = t.1.1.0;
  next_run_at = t.1.1.1.0;
  last_error = t.1.1.1.1.0;
  instance_id = t.1.1.1.1.1;
}

pub runtime_status_back : (r : RuntimeStatus) → runtime_status_from (runtime_status_to r) ≡ r
runtime_status_back r = refl

abbrev runtime_status : Codec RuntimeStatus
runtime_status =
    via runtime_status_to runtime_status_from runtime_status_back
      (flag ⊗ (flag ⊗ ((option text) ⊗ ((option text) ⊗ ((option text) ⊗ text)))))

abbrev CoreStateFileParts : Type 0
CoreStateFileParts = (List Text × (List ReplyRecord × RuntimeStatus))

abbrev core_state_to : CoreStateFile → CoreStateFileParts
core_state_to r = (r.initialized_groups, (r.replies, r.runtime))

abbrev core_state_from : CoreStateFileParts → CoreStateFile
core_state_from t = record { initialized_groups = t.0; replies = t.1.0; runtime = t.1.1 }

pub core_state_back : (r : CoreStateFile) → core_state_from (core_state_to r) ≡ r
core_state_back r = refl

abbrev core_state : Codec CoreStateFile
core_state =
    via core_state_to core_state_from core_state_back
      ((list text) ⊗ ((list reply_record) ⊗ runtime_status))

abbrev valid_first {ℓ} : {A : Type ℓ} → Option (A × Text) → Parsed A
valid_first none = Parsed.corrupt
valid_first (some (a, rest)) = Parsed.valid a

abbrev document_first : Option (CoreStateFile × Text) → Parsed StateDocument
document_first none = Parsed.corrupt
document_first (some (s, rest)) =
    Parsed.valid (record { state = s; contains_replies = has_entries s.replies })

abbrev pub json : Json
json = record {
  stringify_record = λ r. reply_record.encode r [];
  parse_record = λ t. valid_first (reply_record.decode t);
  stringify_state = λ s. core_state.encode s [];
  parse_state = λ t. document_first (core_state.decode t);
}

pub json-IsJson : IsJson json
json-IsJson = record {
  record_lem = λ r. ap valid_first (reply_record.decode-encode r []);
  state_lem = λ s. ap document_first (core_state.decode-encode s []);
}

abbrev pub order : List Row → List Row
order = sort by_position

pub order-IsOrdering : IsOrdering order
order-IsOrdering = record {
  perm = λ rows. sort-perm by_position rows;
  sorted = λ rows. sort-IsSorted by_position total trans rows;
}
  where
    total : (x y : Row) → (by_position x y ≡ true) ⊎ (by_position y x ≡ true)
    total x y = ground arith

    trans : (x y z : Row) → by_position x y ≡ true → by_position y z ≡ true → by_position x z ≡ true
    trans x y z a b = ground (arith, a, b)

abbrev pub platform : Platform
platform = record {
  host = host;
  json = json;
  timestamp_at = λ tick. tick ∷ [];
  order = order;
  begin_fault = λ tick. none;
  commit_fault = λ tick. if tick == 21 then some (99 ∷ []) else none;
}
