-- ===== src/Worker/Trim/Retention.antt =====
-- The promises of `trimReplies`: what it keeps, how much it keeps, and what it drops first.
use lucky_tag.Common.{
  ℕ, ◌+◌, ◌≤◌, ◌≡◌, refl, ◌⊎◌, inl, inr, Bool, true, false, List, [], ◌∷◌, ◌++◌, filter, length,
  count, max, arith, Bool-cases, length-take, length-filter, All-mem, mem-filter, mem_of_mem-filter,
  mem-append_right, count-eq-zero, count-le-length, count-eq-length,
}
use lucky_tag.Common.Sort.{sort, sort-perm, Perm-mem, IsSorted, sort-IsSorted, take-IsSorted_or}
use mathlib.Core.List.{Memᴰ}
use mathlib.Core.List.Permᴰ
use lucky_tag.Contracts.{ReplyRecord}
use lucky_tag.Host.{Host, IsHost}
use lucky_tag.Worker.Status.{is_terminal}
use lucky_tag.Worker.Trim.{
  terminal_reply_retention, newest_first, is_unfinished, is_protected, is_evictable,
  retained_terminal, trim_replies,
}
use lucky_tag.Worker.Trim.Laws.{
  IsKept, room, trim-mem, mem_of_retained, trim-cases, mem_of_trim, count-trim,
}

module _ (h : Host) (now : ℕ) where
  evictable_not_counted :
      (t : ReplyRecord → Bool)
      → ((r : ReplyRecord) → t r ≡ true → IsKept h now r)
      → (r : ReplyRecord) → is_evictable h now r ≡ true
      → t r ≡ false
  evictable_not_counted t keep r e = elim (Bool-cases (t r)) [
    | inl y ↦ elim (keep r y) [ inl a ↦ ground arith | inr b ↦ ground arith ]
    | inr n ↦ n
  ]

  unfinished_not_terminal :
      (r : ReplyRecord) → is_unfinished h r ≡ true → is_terminal r.status ≡ false
  unfinished_not_terminal r e = ground arith

  -- The three groups share out the records.
  three_groups :
      (t : ReplyRecord → Bool) (rs : List ReplyRecord)
      → count t (filter (is_unfinished h) rs)
          + count t (filter (is_protected h now) rs)
          + count t (filter (is_evictable h now) rs)
        ≡ count t rs
  unfolding count filter
  three_groups t [] = refl
  three_groups t (r ∷ rs) = ground (arith, three_groups t rs)

  -- A test that holds only of records that are unfinished or hold hourly capacity counts as many records
  -- after trimming as before.
  pub count-trim_kept :
      (t : ReplyRecord → Bool)
      → ((r : ReplyRecord) → t r ≡ true → IsKept h now r)
      → (rs : List ReplyRecord) → count t (trim_replies h rs now) ≡ count t rs
  count-trim_kept t keep rs = omega (
    arith,
    count-trim h now t rs,
    three_groups t rs,
    count-eq-zero t (filter (is_evictable h now) rs)
        (λ r m. evictable_not_counted t keep r (mem_of_mem-filter (is_evictable h now) rs m).1),
    count-eq-zero t (retained_terminal h now rs)
        (λ r m. evictable_not_counted t keep r (mem_of_retained h now rs r m).1),
  )

  -- A record that is unfinished or holds hourly capacity is still there after trimming, and every record
  -- that is there was there before.
  pub trim_keeps :
      (rs : List ReplyRecord) (r : ReplyRecord)
      → (Memᴰ r rs → IsKept h now r → Memᴰ r (trim_replies h rs now))
        × (Memᴰ r (trim_replies h rs now) → Memᴰ r rs)
  trim_keeps rs r = (trim-mem h now rs r, mem_of_trim h now rs r)

  -- After trimming there are at most as many finished records as the retention, or as those that hold
  -- hourly capacity if these are more.
  pub trim_bounds :
      (rs : List ReplyRecord)
      → count (λ r. is_terminal r.status) (trim_replies h rs now)
        ≤ max terminal_reply_retention (count (is_protected h now) rs)
  trim_bounds rs = omega (
    arith,
    count-trim h now (λ r. is_terminal r.status) rs,
    count-eq-zero (λ r. is_terminal r.status) (filter (is_unfinished h) rs)
        (λ r m. unfinished_not_terminal r (mem_of_mem-filter (is_unfinished h) rs m).1),
    count-le-length (λ (r : ReplyRecord). is_terminal r.status) (filter (is_protected h now) rs),
    count-le-length (λ (r : ReplyRecord). is_terminal r.status) (retained_terminal h now rs),
    length-filter (is_protected h now) rs,
    length-take (room h now rs) (sort (newest_first h) (filter (is_evictable h now) rs)),
  )

module _ (h : Host) (lawful : IsHost h) (now : ℕ) where
  newest_first_total :
      (a b : ReplyRecord) → (newest_first h a b ≡ true) ⊎ (newest_first h b a ≡ true)
  newest_first_total a b = elim (lawful.locale_total a.updated_at b.updated_at) [
    | inl e ↦ inr e
    | inr e ↦ inl e
  ]

  IsSorted-evictable :
      (rs : List ReplyRecord)
      → IsSorted (newest_first h) (sort (newest_first h) (filter (is_evictable h now) rs))
  IsSorted-evictable rs =
      sort-IsSorted (newest_first h) newest_first_total
        (λ a b c p q. lawful.locale_trans c.updated_at b.updated_at a.updated_at q p)
        (filter (is_evictable h now) rs)

  evictable_in_trim :
      (rs : List ReplyRecord) (r : ReplyRecord)
      → Memᴰ r (trim_replies h rs now)
      → is_evictable h now r ≡ true
      → Memᴰ r (retained_terminal h now rs)
  evictable_in_trim rs r m e = elim (trim-cases h now rs r m) [
    | inl a ↦ let (_, b) = mem_of_mem-filter (is_unfinished h) rs a in absurd (ground arith)
    | inr (inl a) ↦
        let (_, b) = mem_of_mem-filter (is_protected h now) rs a in absurd (ground arith)
    | inr (inr a) ↦ a
  ]

  -- A full tail means a full retention.
  full_retention :
      (rs : List ReplyRecord)
      → length (retained_terminal h now rs) ≡ room h now rs
      → terminal_reply_retention ≤ count (λ r. is_terminal r.status) (trim_replies h rs now)
  full_retention rs full = omega (
    arith,
    count-trim h now (λ r. is_terminal r.status) rs,
    count-eq-length (λ r. is_terminal r.status) (filter (is_protected h now) rs)
        (λ r m. ground (arith, (mem_of_mem-filter (is_protected h now) rs m).1)),
    count-eq-length (λ r. is_terminal r.status) (retained_terminal h now rs)
        (λ r m. ground (arith, (mem_of_retained h now rs r m).1)),
  )

  -- With a lawful host, a finished record outside the hourly window stays, or makes way for newer ones, and only
  -- where the finished records that stay fill the retention.
  pub trim_drops_oldest :
      (rs : List ReplyRecord) (r : ReplyRecord)
      → Memᴰ r rs
      → is_evictable h now r ≡ true
      → Memᴰ r (trim_replies h rs now)
        ⊎ (((r' : ReplyRecord)
              → Memᴰ r' (trim_replies h rs now)
              → is_evictable h now r' ≡ true
              → newest_first h r' r ≡ true)
            × (terminal_reply_retention
                ≤ count (λ q. is_terminal q.status) (trim_replies h rs now)))
  unfolding trim_replies
  trim_drops_oldest rs r m e =
      elim (take-IsSorted_or (newest_first h) (room h now rs) _ (IsSorted-evictable rs) there) [
        | inl kept ↦ inl (Perm-mem (Permᴰ.symm (sort-perm (newest_first h) _)) (tail_mem kept))
        | inr (behind, full) ↦
            inr (
              λ r' m' e'. All-mem _ _ behind (evictable_in_trim rs r' m' e'),
              full_retention rs full,
            )
      ]
    where
      there : Memᴰ r (sort (newest_first h) (filter (is_evictable h now) rs))
      there =
          Perm-mem (Permᴰ.symm (sort-perm (newest_first h) _))
            (mem-filter (is_evictable h now) rs m e)

      tail_mem :
          Memᴰ r (retained_terminal h now rs)
          → Memᴰ r (
              filter (is_unfinished h) rs
              ++ (filter (is_protected h now) rs ++ retained_terminal h now rs))
      tail_mem k =
          mem-append_right (filter (is_unfinished h) rs)
            (mem-append_right (filter (is_protected h now) rs) k)
