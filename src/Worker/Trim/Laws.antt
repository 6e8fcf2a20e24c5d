-- ===== src/Worker/Trim/Laws.antt =====
-- What trimming keeps, and what it may drop.
use lucky_tag.Common.{
  ℕ, ◌+◌, ◌-◌, ◌≡◌, ◌∙◌, ◌⊎◌, inl, inr, Bool, true, false, List, ◌++◌, filter, length, count, arith,
  Bool-cases, count-append, mem-append_left, mem-append_right, mem_of_mem-append, mem-filter,
  mem_of_mem-filter, mem_of_mem-take,
}
use lucky_tag.Common.Sort.{sort, sort-perm, Perm-mem, Perm-count}
use mathlib.Core.List.{Memᴰ}
use mathlib.Core.List.Permᴰ
use lucky_tag.Contracts.{ReplyRecord}
use lucky_tag.Host.{Host}
use lucky_tag.Worker.Status.{is_terminal}
use lucky_tag.Worker.Trim.{
  terminal_reply_retention, reserves_hourly_reply_capacity, newest_first, is_unfinished,
  is_protected, is_evictable, retained_terminal, trim_replies,
}

module _ (h : Host) (now : ℕ) where
  -- Which records the cap can never drop.
  abbrev pub IsKept : ReplyRecord → Type 0
  IsKept r = (is_terminal r.status ≡ false) ⊎ (reserves_hourly_reply_capacity h now r ≡ true)

  abbrev pub room : List ReplyRecord → ℕ
  room rs = terminal_reply_retention - length (filter (is_protected h now) rs)

  pub trim-mem :
      (rs : List ReplyRecord) (r : ReplyRecord)
      → Memᴰ r rs
      → IsKept r
      → Memᴰ r (trim_replies h rs now)
  unfolding trim_replies
  trim-mem rs r m k = Perm-mem (Permᴰ.symm (sort-perm (newest_first h) _)) (place (Bool-cases _))
    where
      place :
          (is_terminal r.status ≡ true) ⊎ (is_terminal r.status ≡ false)
          → Memᴰ r (
              filter (is_unfinished h) rs
              ++ (filter (is_protected h now) rs ++ retained_terminal h now rs))
      place (inr open_work) = mem-append_left _ (mem-filter (is_unfinished h) rs m (ground arith))
      place (inl done) =
          mem-append_right _
            (mem-append_left _ (mem-filter (is_protected h now) rs m (ground arith)))

  pub mem_of_retained :
      (rs : List ReplyRecord) (r : ReplyRecord)
      → Memᴰ r (retained_terminal h now rs)
      → Memᴰ r rs × (is_evictable h now r ≡ true)
  mem_of_retained rs r m = mem_of_mem-filter (is_evictable h now) rs (
      Perm-mem (sort-perm (newest_first h) _)
        (mem_of_mem-take (room rs) (sort (newest_first h) (filter (is_evictable h now) rs)) m))

  -- The three groups that a retained record may come from.
  pub trim-cases :
      (rs : List ReplyRecord) (r : ReplyRecord)
      → Memᴰ r (trim_replies h rs now)
      → Memᴰ r (filter (is_unfinished h) rs)
        ⊎ (Memᴰ r (filter (is_protected h now) rs) ⊎ Memᴰ r (retained_terminal h now rs))
  unfolding trim_replies
  trim-cases rs r m =
      elim (mem_of_mem-append (filter (is_unfinished h) rs)
        (filter (is_protected h now) rs ++ retained_terminal h now rs)
        (Perm-mem (sort-perm (newest_first h) _) m)) [
          | inl a ↦ inl a
          | inr b ↦
              inr
                (mem_of_mem-append (filter (is_protected h now) rs) (retained_terminal h now rs) b)
        ]

  -- Nothing is invented.
  pub mem_of_trim :
      (rs : List ReplyRecord) (r : ReplyRecord) → Memᴰ r (trim_replies h rs now) → Memᴰ r rs
  mem_of_trim rs r m = elim (trim-cases rs r m) [
    | inl a ↦ (mem_of_mem-filter (is_unfinished h) rs a).0
    | inr (inl b) ↦ (mem_of_mem-filter (is_protected h now) rs b).0
    | inr (inr c) ↦ (mem_of_retained rs r c).0
  ]

  -- Counts are taken group by group.
  pub count-trim :
      (t : ReplyRecord → Bool) (rs : List ReplyRecord)
      → count t (trim_replies h rs now)
        ≡ count t (filter (is_unfinished h) rs)
          + count t (filter (is_protected h now) rs)
          + count t (retained_terminal h now rs)
  unfolding trim_replies
  count-trim t rs =
      Perm-count t (sort-perm (newest_first h) _)
      ∙ omega (
        arith,
        count-append t (filter (is_unfinished h) rs)
            (filter (is_protected h now) rs ++ retained_terminal h now rs),
        count-append t (filter (is_protected h now) rs) (retained_terminal h now rs),
      )
