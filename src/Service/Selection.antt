-- ===== src/Service/Selection.antt =====
-- main/core/service.ts: `selectKnowledgeSources`, `filterKnowledgeSnapshot`, `stripInternalReplyFields`.
pub mod Allowed
use lucky_tag.Common.{
  ℕ, Bool, true, false, not, ◌&&◌, ◌||◌, ◌==◌, Option, List, [], ◌∷◌, map, filter, length,
}
use lucky_tag.Contracts.{AppConfig, KnowledgeSource, ReplyRecord, ReplyStatus, ReplyEvidence}
use lucky_tag.Knowledge.{KnowledgeSnapshotFile}
use lucky_tag.Knowledge.Sync.{source_id, source_enabled}
use lucky_tag.Text.{Text, member}

unfoldable pub select_knowledge_sources : KnowledgeSnapshotFile → List Text → KnowledgeSnapshotFile
select_knowledge_sources snapshot source_ids =
    let documents = filter (λ d. member d.source_id source_ids) snapshot.documents in
    let document_ids = map (λ d. d.id) documents in
    record snapshot {
      documents = documents;
      chunks =
          filter (λ c. member c.source_id source_ids && member c.document_id document_ids)
            snapshot.chunks;
      source_errors = filter (λ e. member e.source_id source_ids) snapshot.source_errors;
    }

unfoldable pub configured_source_ids : AppConfig → List Text
configured_source_ids config = map (λ s. source_id s) config.knowledge_sources

unfoldable pub enabled_source_ids : AppConfig → List Text
enabled_source_ids config =
    map (λ s. source_id s) (filter (λ s. source_enabled s) config.knowledge_sources)

unfoldable pub filter_knowledge_snapshot : KnowledgeSnapshotFile → AppConfig → KnowledgeSnapshotFile
unfolding enabled_source_ids select_knowledge_sources
filter_knowledge_snapshot snapshot config =
    select_knowledge_sources snapshot (enabled_source_ids config)

-- `prunedKnowledge.documents.length !== storedKnowledge.documents.length || …`
unfoldable pub is_pruned : KnowledgeSnapshotFile → KnowledgeSnapshotFile → Bool
is_pruned stored pruned =
    not (length pruned.documents == length stored.documents)
    || not (length pruned.chunks == length stored.chunks)
    || not (length pruned.source_errors == length stored.source_errors)

-- The `ReplyRecord` of the contract.
pub record PublicReply : Type 0 where
  pub id : Text
  pub message_id : Text
  pub group_id : Text
  pub group_label : Text
  pub sender_label : Option Text
  pub question : Text
  pub reply : Option Text
  pub status : ReplyStatus
  pub reason : Option Text
  pub created_at : Text
  pub updated_at : Text
  pub evidence : List ReplyEvidence
  pub lease_expires_at : Option Text
  pub platform_task_id : Option Text

unfoldable pub strip_internal_reply_fields : ReplyRecord → PublicReply
strip_internal_reply_fields r = record {
  id = r.id;
  message_id = r.message_id;
  group_id = r.group_id;
  group_label = r.group_label;
  sender_label = r.sender_label;
  question = r.question;
  reply = r.reply;
  status = r.status;
  reason = r.reason;
  created_at = r.created_at;
  updated_at = r.updated_at;
  evidence = r.evidence;
  lease_expires_at = r.lease_expires_at;
  platform_task_id = r.platform_task_id;
}
