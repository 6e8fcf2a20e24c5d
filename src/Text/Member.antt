-- ===== src/Text/Member.antt =====
-- `set.has(text)` as membership.
use lucky_tag.Common.{◌≡◌, true, List, [], ◌∷◌, Bool-cases, inl, inr, arith}
use lucky_tag.Text.{Text, text_eq, text_eq_iff, member}
use mathlib.Core.List.{Memᴰ}

pub mem_of_member : (t : Text) (seen : List Text) → member t seen ≡ true → Memᴰ t seen
unfolding member
mem_of_member t [] e = absurd (cc e)
mem_of_member t (u ∷ us) e = elim (Bool-cases (text_eq t u)) [
  | inl same ↦ Memᴰ.head ((text_eq_iff t u).0 same)
  | inr other ↦ Memᴰ.tail (mem_of_member t us (rw other at e))
]

pub member_of_mem : (t : Text) (seen : List Text) → Memᴰ t seen → member t seen ≡ true
unfolding member
member_of_mem t [] m = elim m [ ]
member_of_mem t (u ∷ us) (Memᴰ.head e) = ground (arith, (text_eq_iff t u).1 e)
member_of_mem t (u ∷ us) (Memᴰ.tail m) = ground (arith, member_of_mem t us m)
