-- ===== src/Knowledge/Documents/Distinct.antt =====
-- What `deduplicateDocuments` keeps.
use lucky_tag.Common.{
  ◌≤◌, ◌≡◌, refl, sym, ◌∙◌, subst, ◌↔◌, Option, none, some, List, [], ◌∷◌, arith,
}
use lucky_tag.Common.Sort.{sort-perm, sort-IsSorted, IsSorted, Perm-mem}
use lucky_tag.Host.{Host, IsHost}
use lucky_tag.Knowledge.{KnowledgeDocument}
use lucky_tag.Knowledge.Documents.{set_documents, by_document_id, deduplicate_documents, last_with}
use lucky_tag.Text.{Text}
use lucky_tag.Text.Keyed.{
  find_key, put_entry, count_key, find_key-put_entry, count_key-put_entry, mem_of_find_key,
  find_key-mem, count_key-perm,
}
use mathlib.Core.List.{Memᴰ}
use mathlib.Core.List.Permᴰ

abbrev doc_key : KnowledgeDocument → Text
doc_key d = d.id

abbrev or_else_at : Option KnowledgeDocument → Option KnowledgeDocument → Option KnowledgeDocument
or_else_at (some d) other = some d
or_else_at none other = other

find_key-set_documents :
    (id : Text) (ds acc : List KnowledgeDocument)
    → find_key doc_key id (set_documents ds acc)
      ≡ or_else_at (last_with id ds) (find_key doc_key id acc)
unfolding set_documents last_with
find_key-set_documents id [] acc = refl
find_key-set_documents id (d ∷ ds) acc = ground (
  arith,
  find_key-set_documents id ds (put_entry doc_key d acc),
  find_key-put_entry doc_key id d acc,
)

count_key-set_documents :
    (id : Text) (ds acc : List KnowledgeDocument)
    → count_key doc_key id acc ≤ 1
    → count_key doc_key id (set_documents ds acc) ≤ 1
unfolding set_documents
count_key-set_documents id [] acc h = h
count_key-set_documents id (d ∷ ds) acc h =
    count_key-set_documents id ds (put_entry doc_key d acc)
      (ground (arith, count_key-put_entry doc_key id d acc))

pub count-deduplicate_documents :
    (h : Host) (id : Text) (ds : List KnowledgeDocument)
    → count_key doc_key id (deduplicate_documents h ds) ≤ 1
unfolding deduplicate_documents
count-deduplicate_documents h id ds =
    subst (λ n. n ≤ 1)
      (sym (count_key-perm doc_key id (sort-perm (by_document_id h) (set_documents ds []))))
      (count_key-set_documents id ds [] (omega arith))

set_documents-find :
    (id : Text) (ds : List KnowledgeDocument)
    → find_key doc_key id (set_documents ds []) ≡ last_with id ds
unfolding find_key
set_documents-find id ds = find_key-set_documents id ds [] ∙ ground arith

-- The documents are sorted by id, no two have one id, and a document is among them exactly if it is the
-- last of the given ones with its id; this where collation is a total preorder.
pub deduplicate_documents-mem :
    (h : Host)
    → IsHost h
    → (ds : List KnowledgeDocument)
    → IsSorted (by_document_id h) (deduplicate_documents h ds)
      × ((id : Text) → count_key doc_key id (deduplicate_documents h ds) ≤ 1)
      × ((d : KnowledgeDocument)
          → Memᴰ d (deduplicate_documents h ds) ↔ (last_with d.id ds ≡ some d))
unfolding deduplicate_documents
deduplicate_documents-mem h laws ds =
    let perm = sort-perm (by_document_id h) (set_documents ds []) in
    (
      sort-IsSorted (by_document_id h) (λ x y. laws.locale_total x.id y.id)
          (λ x y z. laws.locale_trans x.id y.id z.id) (set_documents ds []),
      λ id. unfold deduplicate_documents in count-deduplicate_documents h id ds,
      λ d. (
        λ m.
            sym (set_documents-find d.id ds)
            ∙ find_key-mem doc_key (set_documents ds []) (Perm-mem perm m)
                (count_key-set_documents d.id ds [] (omega arith)),
        λ e.
            Perm-mem (Permᴰ.symm perm)
              (mem_of_find_key doc_key d.id (set_documents ds [])
                (set_documents-find d.id ds ∙ e)).0,
      ),
    )
