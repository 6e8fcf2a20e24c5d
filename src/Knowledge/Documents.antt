-- ===== src/Knowledge/Documents.antt =====
-- main/core/knowledge-sync.ts: `toKnowledgeDocument`, `deduplicateDocuments`, `countChangedDocuments`.
pub mod Distinct
use lucky_tag.Common.{
  ℕ, zero, suc, ◌+◌, Bool, true, false, not, Option, none, some, List, [], ◌∷◌, ◌++◌, map, count,
  if◌then◌else◌,
}
use lucky_tag.Common.Sort.{sort}
use lucky_tag.Host.{Host, locale_le}
use lucky_tag.Knowledge.{KnowledgeDocument}
use lucky_tag.Knowledge.Chunks.{stable_hash}
use lucky_tag.Knowledge.Clean.{normalize_text, normalize_inline}
use lucky_tag.Text.{Text, text_eq, truthy, is_empty, distinct}
use lucky_tag.Text.Keyed.{put_entry}

-- `value || fallback`
abbrev pub or_text : Text → Text → Text
or_text [] fallback = fallback
or_text (c ∷ s) fallback = c ∷ s

-- A source's `id` and `label` come first.
unfoldable pub to_knowledge_document :
    Host → Text → Text → Text → Text → Text → Option Text → KnowledgeDocument
unfolding stable_hash
to_knowledge_document h source_id source_label origin title body updated_at = record {
  id = stable_hash h (source_id ++ (0 ∷ origin));
  source_id = source_id;
  source_label = source_label;
  title = or_text (normalize_inline title) origin;
  origin = origin;
  body = normalize_text body;
  hash = stable_hash h (title ++ (0 ∷ normalize_text body));
  updated_at = truthy updated_at;
}

-- `byId.set(document.id, document)` for each
unfoldable pub set_documents :
    List KnowledgeDocument → List KnowledgeDocument → List KnowledgeDocument
set_documents [] by_id = by_id
set_documents (d ∷ ds) by_id = set_documents ds (put_entry (λ t. t.id) d by_id)

abbrev pub by_document_id : Host → KnowledgeDocument → KnowledgeDocument → Bool
by_document_id h left right = locale_le h left.id right.id

unfoldable pub deduplicate_documents : Host → List KnowledgeDocument → List KnowledgeDocument
unfolding set_documents sort
deduplicate_documents h documents = sort (by_document_id h) (set_documents documents [])

abbrev or_document : Option KnowledgeDocument → Option KnowledgeDocument → Option KnowledgeDocument
or_document (some d) other = some d
or_document none other = other

-- The last document with an id: what a `Map` built from the list holds.
unfoldable pub last_with : Text → List KnowledgeDocument → Option KnowledgeDocument
last_with id [] = none
last_with id (d ∷ ds) = or_document (last_with id ds) (if text_eq d.id id then some d else none)

-- `previousHashes.get(id) !== nextHashes.get(id)`
unfoldable pub differs : Option KnowledgeDocument → Option KnowledgeDocument → Bool
differs none none = false
differs none (some d) = true
differs (some d) none = true
differs (some d) (some e) = not (text_eq d.hash e.hash)

unfoldable pub count_changed_documents : List KnowledgeDocument → List KnowledgeDocument → ℕ
unfolding last_with differs
count_changed_documents previous next =
    count (λ id. differs (last_with id previous) (last_with id next))
      (distinct (map (λ d. d.id) previous ++ map (λ d. d.id) next))
