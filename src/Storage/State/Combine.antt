-- ===== src/Storage/State/Combine.antt =====
-- A document without replies, combined with the table's records, gives these records.
use lucky_tag.Common.{◌≡◌, refl, sym, ap, ◌∙◌, false, List, [], ◌∷◌, ◌++◌, arith, ◌||◌}
use lucky_tag.Contracts.{ReplyRecord}
use lucky_tag.Host.{Host}
use lucky_tag.Storage.{append_or_merge, merge_all, merge_reply_records}
use lucky_tag.Storage.Outbox.{has_id, HasDistinctIds}
use lucky_tag.Text.{Text, text_eq, text_eq_iff}
use mathlib.Core.List.{append-nil, append_assoc}

module _ (h : Host) where
  append_or_merge-fresh :
      (r : ReplyRecord) (ms : List ReplyRecord)
      → has_id r.id ms ≡ false
      → append_or_merge h r ms ≡ ms ++ (r ∷ [])
  unfolding append_or_merge has_id
  append_or_merge-fresh r [] e = refl
  append_or_merge-fresh r (m ∷ ms) e = ground (arith, e, append_or_merge-fresh r ms)

  -- No record of the first list has the id of one of the second.
  abbrev Fresh : List ReplyRecord → List ReplyRecord → Type 0
  Fresh [] ms = Unit
  Fresh (r ∷ rs) ms = (has_id r.id ms ≡ false) × Fresh rs ms

  has_id-append :
      (id : Text) (ms : List ReplyRecord) (r : ReplyRecord)
      → has_id id (ms ++ (r ∷ [])) ≡ (has_id id ms || text_eq r.id id)
  unfolding has_id
  has_id-append id [] r = ground arith
  has_id-append id (m ∷ ms) r = ground (arith, has_id-append id ms r)

  Fresh-append :
      (r : ReplyRecord) (rs ms : List ReplyRecord)
      → has_id r.id rs ≡ false
      → Fresh rs ms
      → Fresh rs (ms ++ (r ∷ []))
  unfolding has_id
  Fresh-append r [] ms e f = tt
  Fresh-append r (x ∷ rs) ms e f = (
    ground (arith, has_id-append x.id ms r, e, f.0, text_eq_iff x.id r.id, text_eq_iff r.id x.id),
    Fresh-append r rs ms (ground (arith, e)) f.1,
  )

  merge_all-Fresh :
      (rs ms : List ReplyRecord) → HasDistinctIds rs → Fresh rs ms → merge_all h rs ms ≡ ms ++ rs
  unfolding merge_all
  merge_all-Fresh [] ms d f = sym (append-nil ms)
  merge_all-Fresh (r ∷ rs) ms d f =
      ap (merge_all h rs) (append_or_merge-fresh r ms f.0)
      ∙ merge_all-Fresh rs (ms ++ (r ∷ [])) d.1 (Fresh-append r rs ms d.0 f.1)
      ∙ append_assoc ms (r ∷ []) rs

  Fresh-nil : (rs : List ReplyRecord) → Fresh rs []
  unfolding has_id
  Fresh-nil [] = tt
  Fresh-nil (r ∷ rs) = (refl, Fresh-nil rs)

  pub merge_reply_records-nil :
      (rs : List ReplyRecord) → HasDistinctIds rs → merge_reply_records h [] rs ≡ rs
  unfolding merge_reply_records merge_all
  merge_reply_records-nil rs d = merge_all-Fresh rs [] d (Fresh-nil rs)
