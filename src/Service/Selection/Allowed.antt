-- ===== src/Service/Selection/Allowed.antt =====
-- What a selected snapshot holds, and when selecting changes it.
use lucky_tag.Common.{
  ◌≡◌, refl, sym, ap, subst, ◌↔◌, inl, inr, Bool, true, false, List, [], ◌∷◌, map, filter, length,
  arith, Bool-cases, length-filter-le, mem_of_mem-filter,
}
use lucky_tag.Knowledge.{KnowledgeDocument, KnowledgeChunk, SourceError, KnowledgeSnapshotFile}
use lucky_tag.Service.Selection.{select_knowledge_sources, is_pruned}
use lucky_tag.Text.{Text, member}
use mathlib.Core.List.{Memᴰ}

-- Every document, chunk and error is of an allowed source, and every chunk of a document that is there.
pub record IsAllowed (ids : List Text) (s : KnowledgeSnapshotFile) : Type 0 where
  pub documents : (d : KnowledgeDocument) → Memᴰ d s.documents → member d.source_id ids ≡ true
  pub chunks :
      (c : KnowledgeChunk)
      → Memᴰ c s.chunks
      → (member c.source_id ids ≡ true)
        × (member c.document_id (map (λ d. d.id) s.documents) ≡ true)
  pub source_errors : (e : SourceError) → Memᴰ e s.source_errors → member e.source_id ids ≡ true

pub select_knowledge_sources-IsAllowed :
    (s : KnowledgeSnapshotFile) (ids : List Text) → IsAllowed ids (select_knowledge_sources s ids)
unfolding select_knowledge_sources
select_knowledge_sources-IsAllowed s ids = record {
  documents = λ d m. (mem_of_mem-filter (λ d. member d.source_id ids) s.documents m).1;
  chunks = λ c m. let kept = (mem_of_mem-filter _ s.chunks m).1 in ground (arith, kept);
  source_errors = λ e m. (mem_of_mem-filter (λ e. member e.source_id ids) s.source_errors m).1;
}

filter-length {ℓ} :
    {A : Type ℓ} (p : A → Bool) (xs : List A) → length (filter p xs) ≡ length xs → filter p xs ≡ xs
unfolding filter
filter-length p [] h = refl
filter-length p (x ∷ xs) h = elim (Bool-cases (p x)) [
  | inl keep ↦ rw keep (ap (λ t. x ∷ t) (filter-length p xs (ground (arith, keep, h))))
  | inr gone ↦ absurd (ground (arith, gone, h, length-filter-le p xs))
]

with_parts :
    (s : KnowledgeSnapshotFile) {ds : List KnowledgeDocument} {cs : List KnowledgeChunk}
    {es : List SourceError}
    → ds ≡ s.documents
    → cs ≡ s.chunks
    → es ≡ s.source_errors
    → ◌≡◌ {A = KnowledgeSnapshotFile}
        (record s { documents = ds; chunks = cs; source_errors = es })
        s
with_parts s d c e = λ i. record s { documents = d i; chunks = c i; source_errors = e i }

is_pruned_self : (s : KnowledgeSnapshotFile) → is_pruned s s ≡ false
unfolding is_pruned
is_pruned_self s = ground arith

same_lengths :
    (s t : KnowledgeSnapshotFile)
    → is_pruned s t ≡ false
    → (length t.documents ≡ length s.documents)
      × (length t.chunks ≡ length s.chunks)
      × (length t.source_errors ≡ length s.source_errors)
unfolding is_pruned
same_lengths s t h = ground (arith, h)

-- The stored snapshot counts as pruned exactly if the selection of the sources takes something away; and
-- what is selected holds documents, chunks and errors of these sources only, and chunks of documents that
-- it holds.
pub is_pruned-select_knowledge_sources :
    (s : KnowledgeSnapshotFile) (ids : List Text)
    → ((is_pruned s (select_knowledge_sources s ids) ≡ false)
        ↔ (select_knowledge_sources s ids ≡ s))
      × IsAllowed ids (select_knowledge_sources s ids)
is_pruned-select_knowledge_sources s ids = (
  (
    λ h.
        let (d, c, e) = same_lengths s (select_knowledge_sources s ids) h in
        unfold select_knowledge_sources in
        with_parts s (filter-length _ s.documents d) (filter-length _ s.chunks c)
          (filter-length _ s.source_errors e),
    λ e. subst (λ t. is_pruned s t ≡ false) (sym e) (is_pruned_self s),
  ),
  select_knowledge_sources-IsAllowed s ids,
)
