-- ===== src/Service/Reset/Safe.antt =====
-- The reset of groups leaves nothing to send in them.
use lucky_tag.Common.{
  ℕ, suc, ◌≡◌, refl, inl, inr, ◌↔◌, true, false, not, List, [], ◌∷◌, arith, Bool-cases, mem-filter,
  mem_of_mem-filter, All,
}
use lucky_tag.Contracts.{ReplyStatus, ReplyRecord, CoreStateFile, pending, sending, needs_manual}
use lucky_tag.Service.Reset.{is_reset, handed_over, reset_replies, reset_groups}
use lucky_tag.Text.{Text, member}
use lucky_tag.Worker.Records.Transitions.{IsVersion, IsVersion-refl, Versions}
use lucky_tag.Worker.Status.{is_terminal, may_become}
use mathlib.Core.List.{Memᴰ}

legal_reset : (s : ReplyStatus) → is_terminal s ≡ false → may_become s needs_manual ≡ true
unfolding is_terminal may_become
legal_reset pending h = refl
legal_reset sending h = refl
legal_reset _ h = absurd (cc)

unfinished :
    (groups : List Text) (r : ReplyRecord) → is_reset groups r ≡ true → is_terminal r.status ≡ false
unfolding is_reset is_terminal
unfinished groups r h = ground arith

finished :
    (groups : List Text) (r : ReplyRecord)
    → is_reset groups r ≡ false
    → member r.group_id groups ≡ true
    → is_terminal r.status ≡ true
unfolding is_reset is_terminal
finished groups r h m = ground arith

handed_over-IsVersion :
    (groups : List Text) (at : Text) (r : ReplyRecord)
    → is_reset groups r ≡ true
    → IsVersion r (handed_over at r)
unfolding handed_over
handed_over-IsVersion groups at r h = record {
  id = refl;
  message_id = refl;
  group_id = refl;
  idempotency_uuid = refl;
  created_at = refl;
  legal = inr (legal_reset r.status (unfinished groups r h));
}

-- In a group of the list a record is finished.
abbrev pub IsFinishedIn : List Text → ReplyRecord → Type 0
IsFinishedIn groups r = member r.group_id groups ≡ true → is_terminal r.status ≡ true

reset_replies-Versions :
    (groups : List Text) (now : ℕ → Text) (n : ℕ) (rs : List ReplyRecord)
    → Versions rs (reset_replies groups now n rs)
      × All (IsFinishedIn groups) (reset_replies groups now n rs)
unfolding reset_replies
reset_replies-Versions groups now n [] = (Versions.nil, tt)
reset_replies-Versions groups now n (r ∷ rs) =
    let (versions, finish) = reset_replies-Versions groups now (suc n) rs in
    elim (Bool-cases (is_reset groups r)) [
      | inl hit ↦ rw hit (
        Versions.cons (handed_over-IsVersion groups (now n) r hit) versions,
        ((unfold handed_over is_terminal in λ m. refl), finish),
      )
      | inr miss ↦
          rw miss (Versions.cons (IsVersion-refl r) versions, (finished groups r miss, finish))
    ]

-- After the reset every record of a newly enabled group is finished, every record is a version of the
-- one before, reached by a legal move, and a group counts as initialised exactly if it did and is not newly
-- enabled.
pub reset_groups-Versions :
    (groups : List Text) (now : ℕ → Text) (state : CoreStateFile)
    → Versions state.replies (reset_groups groups now state).replies
      × All (IsFinishedIn groups) (reset_groups groups now state).replies
      × ((id : Text)
          → Memᴰ id (reset_groups groups now state).initialized_groups
            ↔ (Memᴰ id state.initialized_groups × (member id groups ≡ false)))
unfolding reset_groups
reset_groups-Versions groups now state =
    let (versions, finish) = reset_replies-Versions groups now 0 state.replies in
    (
      versions,
      finish,
      λ id. (
        λ m.
            let (was, new) =
              mem_of_mem-filter (λ id. not (member id groups)) state.initialized_groups m in
            (was, ground (arith, new)),
        λ (was, old).
            mem-filter (λ id. not (member id groups)) state.initialized_groups was (rw old refl),
      ),
    )
