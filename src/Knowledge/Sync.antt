-- ===== src/Knowledge/Sync.antt =====
-- main/core/knowledge-sync.ts: `KnowledgeSynchronizer`. The files of a local directory and the library's
-- client are given; their answers may depend on the source's place and on how many calls went before.
pub mod Kept
use lucky_tag.Act.{and_then}
use lucky_tag.Common.{
  ℕ, zero, suc, ◌+◌, Bool, true, false, ◌&&◌, ◌||◌, ◌==◌, Option, none, some, List, [], ◌∷◌, ◌++◌,
  map, filter, take, length, if◌then◌else◌,
}
use lucky_tag.Contracts.{KnowledgeSource}
use lucky_tag.Host.{Host}
use lucky_tag.Knowledge.{
  KnowledgeDocument, KnowledgeChunk, KnowledgeSnapshotFile, SourceError, SyncSummary,
}
use lucky_tag.Knowledge.Chunks.{chunk_document}
use lucky_tag.Knowledge.Documents.{
  to_knowledge_document, or_text, deduplicate_documents, count_changed_documents,
}
use lucky_tag.Text.{Text, text_eq}
use lucky_tag.Worker.Effects.{Result, ok, err}

pub record SampleLibraryDocument : Type 0 where
  pub route : Text
  pub title : Text
  pub body : Text
  pub updated_at : Option Text

-- `{ route, title? }` of `listDocuments`
pub record LibraryEntry : Type 0 where
  pub route : Text
  pub title : Option Text

-- The calls that leave the synchronizer, by the source's place.
pub record SyncClient : Type 0 where
  pub host : Host
  pub resolve : ℕ → Text → Result Text
  pub list_documents : ℕ → Text → Result (List LibraryEntry)
  -- by the number of calls for the source so far
  pub show_document : ℕ → ℕ → Text → Result SampleLibraryDocument
  -- `readLocalDirectory`
  pub read_local_directory : ℕ → (id label path : Text) → Result (List KnowledgeDocument)

abbrev pub source_id : KnowledgeSource → Text
source_id (KnowledgeSource.local_directory id label path enabled) = id
source_id (KnowledgeSource.sample_library_doc id label route enabled) = id
source_id (KnowledgeSource.sample_library_book id label namespace enabled) = id

abbrev pub source_enabled : KnowledgeSource → Bool
source_enabled (KnowledgeSource.local_directory id label path enabled) = enabled
source_enabled (KnowledgeSource.sample_library_doc id label route enabled) = enabled
source_enabled (KnowledgeSource.sample_library_book id label namespace enabled) = enabled

-- `s` under the flags `iu` takes U+017F too.
abbrev is_s : ℕ → Bool
is_s c = c == 115 || c == 83 || c == 0x17F

abbrev is_letter : ℕ → ℕ → Bool
is_letter lower c = c == lower || c + 32 == lower

abbrev starts_authority : Text → Bool
starts_authority (a ∷ b ∷ c ∷ s) = a == 58 && (b == 47 && c == 47)
starts_authority _ = false

abbrev after_http : Text → Bool
after_http [] = false
after_http (c ∷ s) = starts_authority (c ∷ s) || (is_s c && starts_authority s)

-- `/^https?:\/\//iu.test(text)`
unfoldable pub is_web_address : Text → Bool
is_web_address (a ∷ b ∷ c ∷ d ∷ s) =
    is_letter 104 a && (is_letter 116 b && (is_letter 116 c && (is_letter 112 d && after_http s)))
is_web_address _ = false

abbrev pub max_files_per_source : ℕ
max_files_per_source = 2000

-- `entry.title || document.route`, an absent title counting as empty
abbrev optional_text : Option Text → Text
optional_text none = []
optional_text (some t) = t

module _ (c : SyncClient) where
  -- The loop over the entries of a book
  unfoldable pub read_entries :
      ℕ → ℕ → Text → Text → List LibraryEntry → Result (List KnowledgeDocument)
  read_entries n calls id label [] = ok []
  read_entries n calls id label (entry ∷ entries) =
      and_then (c.show_document n calls entry.route) (λ document.
        and_then (read_entries n (suc calls) id label entries) (λ documents. ok (
          to_knowledge_document c.host id label document.route
            (or_text document.title (or_text (optional_text entry.title) document.route))
            document.body document.updated_at
          ∷ documents)))

  -- `readSource`
  unfoldable pub read_source : ℕ → KnowledgeSource → Result (List KnowledgeDocument)
  unfolding is_web_address read_entries
  read_source n (KnowledgeSource.local_directory id label path enabled) =
      c.read_local_directory n id label path
  read_source n (KnowledgeSource.sample_library_doc id label route_or_url enabled) =
      and_then (if is_web_address route_or_url then c.resolve n route_or_url else ok route_or_url)
        (λ route. and_then (c.show_document n 0 route) (λ document. ok (
          to_knowledge_document c.host id label document.route document.title document.body
            document.updated_at
          ∷ [])))
  read_source n (KnowledgeSource.sample_library_book id label namespace enabled) =
      and_then (c.list_documents n namespace)
        (λ entries. read_entries n 0 id label (take max_files_per_source entries))

  -- What reading each source gives, in order.
  unfoldable pub outcomes :
      ℕ → List KnowledgeSource → List (KnowledgeSource × Result (List KnowledgeDocument))
  outcomes n [] = []
  outcomes n (source ∷ sources) = (source, read_source n source) ∷ outcomes (suc n) sources

-- One round of the loop: a source that fails keeps its last documents.
unfoldable pub documents_of :
    List KnowledgeDocument
    → KnowledgeSource
    → Result (List KnowledgeDocument)
    → List KnowledgeDocument
documents_of previous source (ok documents) = documents
documents_of previous source (err e) = filter (λ d. text_eq d.source_id (source_id source)) previous

unfoldable pub next_documents :
    List KnowledgeDocument
    → List (KnowledgeSource × Result (List KnowledgeDocument))
    → List KnowledgeDocument
unfolding documents_of
next_documents previous [] = []
next_documents previous ((source, result) ∷ rest) =
    documents_of previous source result ++ next_documents previous rest

abbrev error_of :
    KnowledgeSource → Result (List KnowledgeDocument) → List SourceError → List SourceError
error_of source (ok documents) errors = errors
error_of source (err e) errors = record { source_id = source_id source; message = e } ∷ errors

unfoldable pub source_errors_of :
    List (KnowledgeSource × Result (List KnowledgeDocument)) → List SourceError
source_errors_of [] = []
source_errors_of ((source, result) ∷ rest) = error_of source result (source_errors_of rest)

unfoldable pub chunk_documents : Host → List KnowledgeDocument → List KnowledgeChunk
chunk_documents h [] = []
chunk_documents h (d ∷ ds) = chunk_document h d ++ chunk_documents h ds

-- `nextSnapshot`, from the sources that are configured
unfoldable pub next_snapshot :
    (c : SyncClient) → Text → KnowledgeSnapshotFile → List KnowledgeSource → KnowledgeSnapshotFile
unfolding next_documents source_errors_of outcomes chunk_documents
next_snapshot c finished_at previous sources =
    let results = outcomes c 0 (filter source_enabled sources) in
    let unique = deduplicate_documents c.host (next_documents previous.documents results) in
    record {
      generated_at = some finished_at;
      documents = unique;
      chunks = chunk_documents c.host unique;
      source_errors = source_errors_of results;
    }

-- `performSync`: what `store.read` and `store.write` say, and the snapshot that is written.
unfoldable pub perform_sync :
    (c : SyncClient)
    → (started_at finished_at : Text) → Result KnowledgeSnapshotFile
    → (KnowledgeSnapshotFile → Result (Unit {0}))
    → List KnowledgeSource
    → Result (KnowledgeSnapshotFile × SyncSummary)
unfolding next_snapshot
perform_sync c started_at finished_at read write sources = and_then read (λ previous.
    let next = next_snapshot c finished_at previous sources in
    and_then (write next) (λ _. ok (
      next,
      record {
        started_at = started_at;
        finished_at = finished_at;
        document_count = length next.documents;
        chunk_count = length next.chunks;
        changed_documents = count_changed_documents previous.documents next.documents;
        source_errors = next.source_errors;
      },
    )))
