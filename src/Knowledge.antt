-- ===== src/Knowledge.antt =====
-- main/core/types.ts: documents, chunks and the snapshot of the knowledge base.
pub mod Chunks
pub mod Clean
pub mod Documents
pub mod Sync
mod Tests
use lucky_tag.Common.{ℕ, Option, none, List, []}
use lucky_tag.Text.{Text}

pub record KnowledgeDocument : Type 0 where
  pub id : Text
  pub source_id : Text
  pub source_label : Text
  pub title : Text
  pub origin : Text
  pub body : Text
  pub hash : Text
  pub updated_at : Option Text

pub record KnowledgeChunk : Type 0 where
  pub id : Text
  pub document_id : Text
  pub source_id : Text
  pub source_label : Text
  pub title : Text
  pub text : Text
  pub position : ℕ

pub record SourceError : Type 0 where
  pub source_id : Text
  pub message : Text

pub record KnowledgeSnapshotFile : Type 0 where
  pub generated_at : Option Text
  pub documents : List KnowledgeDocument
  pub chunks : List KnowledgeChunk
  pub source_errors : List SourceError

pub record SyncSummary : Type 0 where
  pub started_at : Text
  pub finished_at : Text
  pub document_count : ℕ
  pub chunk_count : ℕ
  pub changed_documents : ℕ
  pub source_errors : List SourceError

abbrev pub empty_knowledge_snapshot : KnowledgeSnapshotFile
empty_knowledge_snapshot = record {
  generated_at = none;
  documents = [];
  chunks = [];
  source_errors = [];
}
