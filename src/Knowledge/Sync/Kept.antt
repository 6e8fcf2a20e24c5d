-- ===== src/Knowledge/Sync/Kept.antt =====
-- What a synchronisation keeps of the last snapshot.
use lucky_tag.Common.{
  ◌≡◌, refl, sym, ap, ◌∙◌, subst, ◌⊎◌, inl, inr, some, List, [], ◌∷◌, map, arith, filter,
  Bool-cases, Option-cases, mem-append_left, mem-append_right, mem_of_mem-append, mem-filter,
  mem_of_mem-filter, mem-cons-cases,
}
use lucky_tag.Contracts.{KnowledgeSource}
use lucky_tag.Host.{IsHost}
use lucky_tag.Knowledge.{KnowledgeDocument, KnowledgeSnapshotFile}
use lucky_tag.Knowledge.Documents.{deduplicate_documents, last_with}
use lucky_tag.Knowledge.Documents.Distinct.{deduplicate_documents-mem}
use lucky_tag.Knowledge.Sync.{
  SyncClient, source_id, source_enabled, outcomes, documents_of, next_documents, source_errors_of,
  next_snapshot,
}
use lucky_tag.Text.{Text, text_eq, text_eq_iff}
use lucky_tag.Worker.Effects.{Result, ok, err}
use mathlib.Core.List.{Memᴰ}

last_with-mem :
    (ds : List KnowledgeDocument) {d : KnowledgeDocument}
    → Memᴰ d ds
    → (e : KnowledgeDocument) × (last_with d.id ds ≡ some e)
unfolding last_with
last_with-mem [] m = elim m [ ]
last_with-mem (x ∷ ds) {d} m = elim (Option-cases (last_with d.id ds)) [
  | inr (e, later) ↦ (e, rw later refl)
  | inl nothing ↦ elim (mem-cons-cases m) [
    | inl here ↦ (x, rw nothing (rw ((text_eq_iff x.id d.id).1 (ap (λ t. t.id) (sym here))) refl))
    | inr there ↦ let (e, found) = last_with-mem ds there in absurd (cc (found, nothing))
  ]
]

mem_of_last_with :
    (id : Text) (ds : List KnowledgeDocument) {d : KnowledgeDocument}
    → last_with id ds ≡ some d
    → Memᴰ d ds × (d.id ≡ id)
unfolding last_with
mem_of_last_with id [] e = absurd (cc)
mem_of_last_with id (x ∷ ds) {d} e = elim (Option-cases (last_with id ds)) [
  | inr (y, later) ↦
      let same : y ≡ d = ground (arith, rw later at e) in
      let (m, named) = mem_of_last_with id ds (later ∙ ap some same) in (Memᴰ.tail m, named)
  | inl nothing ↦ elim (Bool-cases (text_eq x.id id)) [
    | inl here ↦
        let same : x ≡ d = ground (arith, rw (nothing, here) at e) in
        (Memᴰ.head (sym same), ap (λ t. t.id) (sym same) ∙ (text_eq_iff x.id id).0 here)
    | inr other ↦ absurd (ground (arith, rw (nothing, other) at e))
  ]
]

mem-documents_of :
    (previous : List KnowledgeDocument) (source : KnowledgeSource) (e : Text)
    {d : KnowledgeDocument}
    → Memᴰ d previous
    → d.source_id ≡ source_id source
    → Memᴰ d (documents_of previous source (err e))
unfolding documents_of
mem-documents_of previous source e {d} m named =
    mem-filter (λ d. text_eq d.source_id (source_id source)) previous m
      ((text_eq_iff d.source_id (source_id source)).1 named)

documents_of-ok :
    (previous : List KnowledgeDocument) (source : KnowledgeSource) (found : List KnowledgeDocument)
    {d : KnowledgeDocument}
    → Memᴰ d (documents_of previous source (ok found))
    → Memᴰ d found
unfolding documents_of
documents_of-ok previous source found m = m

documents_of-err :
    (previous : List KnowledgeDocument) (source : KnowledgeSource) (e : Text)
    {d : KnowledgeDocument}
    → Memᴰ d (documents_of previous source (err e))
    → Memᴰ d previous × (d.source_id ≡ source_id source)
unfolding documents_of
documents_of-err previous source e {d} of =
    let (m, named) = mem_of_mem-filter (λ d. text_eq d.source_id (source_id source)) previous of in
    (m, (text_eq_iff d.source_id (source_id source)).0 named)

-- Where a document of the next list comes from.
abbrev Comes :
    List KnowledgeDocument
    → List (KnowledgeSource × Result (List KnowledgeDocument))
    → KnowledgeDocument
    → Type 0
Comes previous results d =
    (source : KnowledgeSource) × (result : Result (List KnowledgeDocument)) × Memᴰ (source, result)
      results
    × Memᴰ d (documents_of previous source result)

next_documents-mem :
    (previous : List KnowledgeDocument)
    (results : List (KnowledgeSource × Result (List KnowledgeDocument))) {d : KnowledgeDocument}
    → Memᴰ d (next_documents previous results)
    → Comes previous results d
unfolding next_documents
next_documents-mem previous [] m = elim m [ ]
next_documents-mem previous ((source, result) ∷ rest) m =
    elim (mem_of_mem-append (documents_of previous source result) (next_documents previous rest)
      m) [
        | inl here ↦ (source, result, Memᴰ.head refl, here)
        | inr later ↦
            let (s, r, at, of) = next_documents-mem previous rest later in (s, r, Memᴰ.tail at, of)
      ]

mem-next_documents :
    (previous : List KnowledgeDocument)
    (results : List (KnowledgeSource × Result (List KnowledgeDocument))) {source : KnowledgeSource}
    {result : Result (List KnowledgeDocument)} {d : KnowledgeDocument}
    → Memᴰ (source, result) results
    → Memᴰ d (documents_of previous source result)
    → Memᴰ d (next_documents previous results)
unfolding next_documents
mem-next_documents previous [] m of = elim m [ ]
mem-next_documents previous ((s, r) ∷ rest) {source} {result} {d} m of = elim (mem-cons-cases m) [
  | inl same ↦ mem-append_left (next_documents previous rest) (
      subst
        (λ (t : KnowledgeSource × Result (List KnowledgeDocument)).
          Memᴰ d (documents_of previous t.0 t.1))
        same of)
  | inr later ↦
      mem-append_right (documents_of previous s r) (mem-next_documents previous rest later of)
]

-- The ids of the sources that failed, in order.
unfoldable pub failed_ids : List (KnowledgeSource × Result (List KnowledgeDocument)) → List Text
failed_ids [] = []
failed_ids ((source, ok documents) ∷ rest) = failed_ids rest
failed_ids ((source, err e) ∷ rest) = source_id source ∷ failed_ids rest

source_errors_of-ids :
    (results : List (KnowledgeSource × Result (List KnowledgeDocument)))
    → map (λ e. e.source_id) (source_errors_of results) ≡ failed_ids results
unfolding source_errors_of failed_ids
source_errors_of-ids [] = refl
source_errors_of-ids ((source, ok documents) ∷ rest) = source_errors_of-ids rest
source_errors_of-ids ((source, err e) ∷ rest) =
    ap (λ t. source_id source ∷ t) (source_errors_of-ids rest)

module _ (c : SyncClient) (laws : IsHost c.host) (finished_at : Text)
    (previous : KnowledgeSnapshotFile) (sources : List KnowledgeSource) where
  abbrev pub results : List (KnowledgeSource × Result (List KnowledgeDocument))
  results = outcomes c 0 (filter source_enabled sources)

  -- A document with this id is in the list.
  abbrev pub HasDocument : Text → List KnowledgeDocument → Type 0
  HasDocument id ds = (kept : KnowledgeDocument) × Memᴰ kept ds × (kept.id ≡ id)

  -- Read from an enabled source that answered, or left from the last snapshot by one that failed.
  abbrev pub HasSource : KnowledgeDocument → Type 0
  HasSource d =
      ((source : KnowledgeSource) × (found : List KnowledgeDocument) × Memᴰ
          (source, Result.ok found) results
        × Memᴰ d found)
      ⊎ ((source : KnowledgeSource) × (e : Text) × Memᴰ (source, Result.err e) results
          × Memᴰ d previous.documents
          × (d.source_id ≡ source_id source))

  abbrev nexts : List KnowledgeDocument
  nexts = next_documents previous.documents results

  kept_document :
      (source : KnowledgeSource) (e : Text) (d : KnowledgeDocument)
      → Memᴰ (source, Result.err e) results
      → Memᴰ d previous.documents
      → d.source_id ≡ source_id source
      → HasDocument d.id (deduplicate_documents c.host nexts)
  kept_document source e d failed m named =
      let listed =
        mem-next_documents previous.documents results failed
          (mem-documents_of previous.documents source e m named) in
      let (k, found) = last_with-mem nexts listed in
      let same = (mem_of_last_with d.id nexts found).1 in
      (
        k,
        ((deduplicate_documents-mem c.host laws nexts).2 k).1
            (subst (λ t. last_with t nexts ≡ some k) (sym same) found),
        same,
      )

  document_source :
      (d : KnowledgeDocument) → Memᴰ d (deduplicate_documents c.host nexts) → HasSource d
  document_source d m =
      let found = ((deduplicate_documents-mem c.host laws nexts).2 d).0 m in
      let (source, result, at, of) =
        next_documents-mem previous.documents results (mem_of_last_with d.id nexts found).0 in
      sourced source result at of
    where
      sourced :
          (source : KnowledgeSource) (result : Result (List KnowledgeDocument))
          → Memᴰ (source, result) results
          → Memᴰ d (documents_of previous.documents source result)
          → HasSource d
      sourced source (ok documents) at of =
          inl (source, documents, at, documents_of-ok previous.documents source documents of)
      sourced source (err e) at of =
          let (m, named) = documents_of-err previous.documents source e of in
          inr (source, e, at, m, named)

  -- Where collation is a total preorder: each document of the last snapshot whose source is enabled and
  -- fails has its id in the next one; each document of the next one was read from an enabled source that
  -- answered, or is a document of the last snapshot whose source failed; and the errors name the sources
  -- that failed, in order.
  pub next_snapshot_keeps :
      ((source : KnowledgeSource) (e : Text) (d : KnowledgeDocument)
        → Memᴰ (source, Result.err e) results
        → Memᴰ d previous.documents
        → d.source_id ≡ source_id source
        → HasDocument d.id (next_snapshot c finished_at previous sources).documents)
      × ((d : KnowledgeDocument)
          → Memᴰ d (next_snapshot c finished_at previous sources).documents
          → HasSource d)
      × (map (λ e. e.source_id) (next_snapshot c finished_at previous sources).source_errors
          ≡ failed_ids results)
  unfolding next_snapshot
  next_snapshot_keeps = (kept_document, document_source, source_errors_of-ids results)
