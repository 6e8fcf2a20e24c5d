-- ===== src/Storage/Merge.antt =====
-- What the merged list of replies holds.
use lucky_tag.Common.{
  ℕ, ◌≤◌, ◌≡◌, refl, ◌↔◌, inl, inr, List, [], ◌∷◌, max, count, arith, Bool-cases, if◌then◌else◌,
}
use lucky_tag.Contracts.{ReplyRecord}
use lucky_tag.Host.{Host}
use lucky_tag.Storage.{reply_status_safety, append_or_merge, merge_all, merge_reply_records}
use lucky_tag.Storage.Conflict.{merge_reply_conflict-IsSafeMerge, id-merge_reply_conflict}
use lucky_tag.Text.{Text, text_eq, text_eq_iff}

-- The safety of the safest record with an id, 0 if there is none.
unfoldable pub best_safety : Text → List ReplyRecord → ℕ
best_safety id [] = 0
best_safety id (r ∷ rs) =
    if text_eq r.id id
    then max (reply_status_safety r.status) (best_safety id rs)
    else best_safety id rs

abbrev pub count_id : Text → List ReplyRecord → ℕ
count_id id = count (λ r. text_eq r.id id)

module _ (h : Host) (id : Text) where
  best-append_or_merge :
      (r : ReplyRecord) (ms : List ReplyRecord)
      → best_safety id (append_or_merge h r ms) ≡ max (best_safety id ms) (best_safety id (r ∷ []))
  unfolding best_safety append_or_merge
  best-append_or_merge r [] = ground arith
  best-append_or_merge r (m ∷ ms) = elim (Bool-cases (text_eq m.id r.id)) [
    | inl e ↦
        let same = (text_eq_iff m.id r.id).0 e in
        ground (
          arith,
          e,
          same,
          id-merge_reply_conflict h m r same,
          (merge_reply_conflict-IsSafeMerge h m r).safest,
        )
    | inr e ↦ ground (arith, e, best-append_or_merge r ms)
  ]

  count-append_or_merge :
      (r : ReplyRecord) (ms : List ReplyRecord)
      → count_id id ms ≤ 1
      → count_id id (append_or_merge h r ms) ≡ max (count_id id ms) (count_id id (r ∷ []))
  unfolding count append_or_merge
  count-append_or_merge r [] c = ground arith
  count-append_or_merge r (m ∷ ms) c = elim (Bool-cases (text_eq m.id r.id)) [
    | inl e ↦
        let same = (text_eq_iff m.id r.id).0 e in
        ground (arith, e, same, id-merge_reply_conflict h m r same, c)
    | inr e ↦ ground (
      arith,
      e,
      count-append_or_merge r ms,
      c,
      text_eq_iff m.id id,
      text_eq_iff r.id id,
      text_eq_iff m.id r.id,
    )
  ]

  best-merge_all :
      (rs ms : List ReplyRecord)
      → best_safety id (merge_all h rs ms) ≡ max (best_safety id ms) (best_safety id rs)
  unfolding merge_all best_safety
  best-merge_all [] ms = ground arith
  best-merge_all (r ∷ rs) ms =
      ground (arith, best-merge_all rs (append_or_merge h r ms), best-append_or_merge r ms)

  count-merge_all :
      (rs ms : List ReplyRecord)
      → count_id id ms ≤ 1
      → (count_id id (merge_all h rs ms) ≤ 1)
        × ((count_id id (merge_all h rs ms) ≡ 0) ↔ ((count_id id ms ≡ 0) × (count_id id rs ≡ 0)))
  unfolding merge_all count
  count-merge_all [] ms c = (c, (λ e. (e, refl), λ (e, f). e))
  count-merge_all (r ∷ rs) ms c =
      let added = count-append_or_merge r ms c in
      let (one, empty) = count-merge_all rs (append_or_merge h r ms) (ground (arith, added, c)) in
      (one, (λ e. ground (arith, empty.0 e, added), λ (e, f). empty.1 (ground (arith, added))))

-- The merged list has at most one record with an id, it has one exactly if the document or the outbox
-- has, and its status is the safest of all the records with that id: whatever was sent on one side is
-- sent in the merge.
pub merge_reply_records_safest :
    (h : Host) (id : Text) (document_replies outbox_replies : List ReplyRecord)
    → (count_id id (merge_reply_records h document_replies outbox_replies) ≤ 1)
      × ((count_id id (merge_reply_records h document_replies outbox_replies) ≡ 0)
          ↔ ((count_id id document_replies ≡ 0) × (count_id id outbox_replies ≡ 0)))
      × (best_safety id (merge_reply_records h document_replies outbox_replies)
          ≡ max (best_safety id document_replies) (best_safety id outbox_replies))
unfolding merge_reply_records
merge_reply_records_safest h id ds os =
    let (one, empty) = count-merge_all h id ds [] (unfold count in omega arith) in
    let (one', empty') = count-merge_all h id os (merge_all h ds []) one in
    (
      one',
      (
        λ e. ((empty.0 (empty'.0 e).0).1, (empty'.0 e).1),
        λ (a, b). empty'.1 (empty.1 (refl_zero, a), b),
      ),
      unfold best_safety in
          ground (arith, best-merge_all h id os (merge_all h ds []), best-merge_all h id ds []),
    )
  where
    refl_zero : count_id id [] ≡ 0
    refl_zero = unfold count in refl
