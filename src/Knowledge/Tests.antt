-- ===== src/Knowledge/Tests.antt =====
-- A document of eleven units, and a synchronisation in which one of two sources fails.
use lucky_tag.Common.{
  ℕ, ◌<◌, ◌≤◌, ◌≡◌, refl, ap, ◌↔◌, true, none, some, List, [], ◌∷◌, map, length, arith,
}
use lucky_tag.Common.Sort.{IsSorted}
use lucky_tag.Contracts.{KnowledgeSource}
use lucky_tag.Knowledge.{KnowledgeDocument, KnowledgeSnapshotFile}
use lucky_tag.Knowledge.Chunks.{chunk_document}
use lucky_tag.Knowledge.Chunks.Tiling.{Tiling, IsNumbered, pieces, chunk_document-Tiling}
use lucky_tag.Knowledge.Clean.{normalize_text}
use lucky_tag.Knowledge.Documents.{deduplicate_documents, last_with, by_document_id}
use lucky_tag.Knowledge.Documents.Distinct.{deduplicate_documents-mem}
use lucky_tag.Knowledge.Sync.{SyncClient, next_snapshot, source_id}
use lucky_tag.Knowledge.Sync.Kept.{HasDocument, HasSource, results, failed_ids, next_snapshot_keeps}
use lucky_tag.Text.{Text, is_space, trim}
use lucky_tag.Text.Keyed.{count_key}
use lucky_tag.Worker.Effects.{Result, ok, err}
use lucky_tag.Worker.Sample.{host, host-IsHost}
use mathlib.Core.List.{Memᴰ}

abbrev document : KnowledgeDocument
document = record {
  id = 1 ∷ [];
  source_id = 2 ∷ [];
  source_label = [];
  title = [];
  origin = [];
  body = 97 ∷ 32 ∷ 32 ∷ 98 ∷ [];
  hash = [];
  updated_at = none;
}

-- Two spaces become one.
normalized : normalize_text document.body ≡ 97 ∷ 32 ∷ 98 ∷ []
unfolding normalize_text trim is_space
normalized = refl

normalized_line_ends :
    normalize_text (97 ∷ 9 ∷ 13 ∷ 10 ∷ 32 ∷ 10 ∷ 13 ∷ 98 ∷ []) ≡ 97 ∷ 10 ∷ 10 ∷ 98 ∷ []
unfolding normalize_text trim is_space
normalized_line_ends = refl

some_text : 0 < length (normalize_text document.body)
some_text = omega (arith, ap length normalized)

chunk_document-Tiling_example :
    IsNumbered 0 (chunk_document host document)
    × (spans : List (ℕ × ℕ)) × Tiling (length (normalize_text document.body)) 0 spans
    × (map (λ c. c.text) (chunk_document host document)
        ≡ pieces (normalize_text document.body) spans)
chunk_document-Tiling_example = chunk_document-Tiling host document some_text

abbrev newer : KnowledgeDocument
newer = record document { body = 99 ∷ [] }

deduplicate_documents-mem_example :
    IsSorted (by_document_id host) (deduplicate_documents host (document ∷ newer ∷ []))
    × ((id : Text)
        → count_key (λ d. d.id) id (deduplicate_documents host (document ∷ newer ∷ [])) ≤ 1)
    × ((d : KnowledgeDocument)
        → Memᴰ d (deduplicate_documents host (document ∷ newer ∷ []))
          ↔ (last_with d.id (document ∷ newer ∷ []) ≡ some d))
deduplicate_documents-mem_example =
    deduplicate_documents-mem host host-IsHost (document ∷ newer ∷ [])

abbrev client : SyncClient
client = record {
  host = host;
  resolve = λ n input. err (7 ∷ []);
  list_documents = λ n namespace. err (8 ∷ []);
  show_document = λ n calls route. err (9 ∷ []);
  read_local_directory = λ n id label path. ok (newer ∷ []);
}

abbrev failing : KnowledgeSource
failing = KnowledgeSource.sample_library_doc (2 ∷ []) [] (47 ∷ []) true

abbrev answering : KnowledgeSource
answering = KnowledgeSource.local_directory (3 ∷ []) [] (47 ∷ []) true

abbrev previous : KnowledgeSnapshotFile
previous = record {
  generated_at = none;
  documents = document ∷ [];
  chunks = [];
  source_errors = [];
}

next_snapshot_keeps_example :
    ((source : KnowledgeSource) (e : Text) (d : KnowledgeDocument)
      → Memᴰ
          (source, Result.err e)
          (results client host-IsHost [] previous (failing ∷ answering ∷ []))
      → Memᴰ d previous.documents
      → d.source_id ≡ source_id source
      → HasDocument client host-IsHost [] previous
          (failing ∷ answering ∷ [])
          d.id
          (next_snapshot client [] previous (failing ∷ answering ∷ [])).documents)
    × ((d : KnowledgeDocument)
        → Memᴰ d (next_snapshot client [] previous (failing ∷ answering ∷ [])).documents
        → HasSource client host-IsHost [] previous (failing ∷ answering ∷ []) d)
    × (map
          (λ e. e.source_id)
          (next_snapshot client [] previous (failing ∷ answering ∷ [])).source_errors
        ≡ failed_ids (results client host-IsHost [] previous (failing ∷ answering ∷ [])))
next_snapshot_keeps_example =
    next_snapshot_keeps client host-IsHost [] previous (failing ∷ answering ∷ [])
