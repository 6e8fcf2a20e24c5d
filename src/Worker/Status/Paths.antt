-- ===== src/Worker/Status/Paths.antt =====
-- Chains of moves that `assertTransition` lets through.
use lucky_tag.Common.{◌≡◌, refl, sym, ◌∙◌, ◌⊎◌, inl, inr, true, Bool-cases, subst}
use lucky_tag.Contracts.{ReplyStatus, sending, sent}
use lucky_tag.Worker.Status.{is_terminal, may_become, may_become-terminal, may_become-sent}

-- Any number of moves, one after the other.
pub data Moves : ReplyStatus → ReplyStatus → Type 0 where
  stay : (s : ReplyStatus) → Moves s s
  move : {s t u : ReplyStatus} → may_become s t ≡ true → Moves t u → Moves s u

terminal_never_left : {s t : ReplyStatus} → Moves s t → is_terminal s ≡ true → s ≡ t
terminal_never_left (Moves.stay s) h = refl
terminal_never_left (Moves.move {s} {t} step rest) h =
    let same = may_become-terminal s t h step in
    same ∙ terminal_never_left rest (subst (λ r. is_terminal r ≡ true) same h)

before_sent : (s : ReplyStatus) → may_become s sent ≡ true → (s ≡ sent) ⊎ Moves s sending
before_sent s h = elim (Bool-cases (is_terminal s)) [
  | inl e ↦ inl (may_become-terminal s sent e h)
  | inr e ↦ inr (subst (λ r. Moves r sending) (sym (may_become-sent s h e)) (Moves.stay sending))
]

sent_after_sending :
    {s : ReplyStatus} (t : ReplyStatus) → Moves s t → t ≡ sent → (s ≡ sent) ⊎ Moves s sending
sent_after_sending t (Moves.stay _) e = inl e
sent_after_sending t (Moves.move {s} {t = next} step rest) e = elim (sent_after_sending t rest e) [
  | inl there ↦ before_sent s (subst (λ r. may_become s r ≡ true) there step)
  | inr path ↦ inr (Moves.move step path)
]

-- Over any chain of legal moves a terminal status is never left, and a record becomes sent only by way
-- of `sending`, or was sent from the start.
pub Moves-discipline :
    {s t : ReplyStatus}
    → Moves s t
    → (is_terminal s ≡ true → s ≡ t) × (t ≡ sent → (s ≡ sent) ⊎ Moves s sending)
Moves-discipline {t} m = (terminal_never_left m, sent_after_sending t m)
