-- ===== src/Storage/Conflict.antt =====
-- What the merge of two versions of a record keeps.
use lucky_tag.Common.{◌≡◌, refl, sym, ◌⊎◌, inl, inr, true, false, none, max, arith, Bool-cases}
use lucky_tag.Contracts.{sending, ReplyRecord}
use lucky_tag.Host.{Host}
use lucky_tag.Storage.{reply_status_safety, document_wins, merged_with, merge_reply_conflict}
use lucky_tag.Worker.Status.{status_eq}

-- What the merged record `m` has of `d` and `b`.
pub record IsSafeMerge (d b m : ReplyRecord) : Type 0 where
  pub chosen : (m.status ≡ d.status) ⊎ (m.status ≡ b.status)
  pub safest :
      reply_status_safety m.status
      ≡ max (reply_status_safety d.status) (reply_status_safety b.status)
  pub attempts : m.attempt_count ≡ max d.attempt_count b.attempt_count
  pub lease : status_eq m.status sending ≡ false → m.lease_expires_at ≡ none

merged_with-safe :
    (h : Host) (d b w l : ReplyRecord)
    → ((w.status ≡ d.status) ⊎ (w.status ≡ b.status))
    → reply_status_safety w.status
      ≡ max (reply_status_safety d.status) (reply_status_safety b.status)
    → IsSafeMerge d b (merged_with h d b w l)
unfolding merged_with
merged_with-safe h d b w l chosen safest = record {
  chosen = chosen;
  safest = safest;
  attempts = refl;
  lease = λ other. rw other refl;
}

document_safest :
    (h : Host) (d b : ReplyRecord)
    → document_wins h d b ≡ true
    → reply_status_safety d.status
      ≡ max (reply_status_safety d.status) (reply_status_safety b.status)
unfolding document_wins
document_safest h d b e = ground arith

outbox_safest :
    (h : Host) (d b : ReplyRecord)
    → document_wins h d b ≡ false
    → reply_status_safety b.status
      ≡ max (reply_status_safety d.status) (reply_status_safety b.status)
unfolding document_wins
outbox_safest h d b e = ground arith

-- The merge of two versions takes the status of one of them, the one that is least likely to send
-- again, and the larger number of attempts, and it keeps a lease only in status `sending`.
pub merge_reply_conflict-IsSafeMerge :
    (h : Host) (d b : ReplyRecord) → IsSafeMerge d b (merge_reply_conflict h d b)
unfolding merge_reply_conflict
merge_reply_conflict-IsSafeMerge h d b = elim (Bool-cases (document_wins h d b)) [
  | inl e ↦ rw e (merged_with-safe h d b d b (inl refl) (document_safest h d b e))
  | inr e ↦ rw e (merged_with-safe h d b b d (inr refl) (outbox_safest h d b e))
]

pub id-merge_reply_conflict :
    (h : Host) (d b : ReplyRecord) → d.id ≡ b.id → (merge_reply_conflict h d b).id ≡ d.id
unfolding merge_reply_conflict merged_with
id-merge_reply_conflict h d b same = elim (Bool-cases (document_wins h d b)) [
  | inl e ↦ rw e refl
  | inr e ↦ rw e (sym same)
]
