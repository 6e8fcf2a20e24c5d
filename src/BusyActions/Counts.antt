-- ===== src/BusyActions/Counts.antt =====
-- Adding and removing actions, counted.
use lucky_tag.Common.{
  ℕ, ◌+◌, ◌-◌, ◌≡◌, refl, ◌∙◌, inl, inr, true, [], ◌∷◌, arith, Bool-cases, if◌then◌else◌,
}
use lucky_tag.BusyActions.{
  BusyActionCounts, count_of, with_count, without, add_busy_action, remove_busy_action,
  has_busy_action,
}
use lucky_tag.Text.{Text, text_eq, text_eq_iff}

same_text : (a : Text) → text_eq a a ≡ true
same_text a = (text_eq_iff a a).1 refl

count-with_count :
    (a b : Text) (n : ℕ) (c : BusyActionCounts)
    → count_of b (with_count a n c) ≡ (if text_eq a b then n else count_of b c)
unfolding count_of with_count
count-with_count a b n [] = refl
count-with_count a b n ((k, m) ∷ c) = elim (Bool-cases (text_eq k a)) [
  | inl e ↦
      let same = (text_eq_iff k a).0 e in
      rw (e, same) elim (Bool-cases (text_eq a b)) [ inl f ↦ ground arith | inr f ↦ ground arith ]
  | inr e ↦ elim (Bool-cases (text_eq a b)) [
    | inl f ↦ let same = (text_eq_iff a b).0 f in ground (arith, count-with_count a b n c, same)
    | inr f ↦ ground (arith, count-with_count a b n c)
  ]
]

count-without :
    (a b : Text) (c : BusyActionCounts)
    → count_of b (without a c) ≡ (if text_eq a b then 0 else count_of b c)
unfolding count_of without
count-without a b [] = elim (Bool-cases (text_eq a b)) [ inl f ↦ rw f refl | inr f ↦ rw f refl ]
count-without a b ((k, m) ∷ c) = elim (Bool-cases (text_eq k a)) [
  | inl e ↦
      let same = (text_eq_iff k a).0 e in
      rw (e, same)
        elim (Bool-cases (text_eq a b)) [
          | inl f ↦ ground (arith, count-without a b c)
          | inr f ↦ ground (arith, count-without a b c)
        ]
  | inr e ↦ elim (Bool-cases (text_eq a b)) [
    | inl f ↦ let same = (text_eq_iff a b).0 f in ground (arith, count-without a b c, same)
    | inr f ↦ ground (arith, count-without a b c)
  ]
]

-- Starting an action adds one to its count, finishing it takes one away but never goes below zero, and
-- neither touches the count of any other action.
count-add_remove :
    (c : BusyActionCounts) (a b : Text)
    → (count_of b (add_busy_action c a) ≡ (if text_eq a b then count_of b c + 1 else count_of b c))
      × (count_of b (remove_busy_action c a)
          ≡ (if text_eq a b then count_of b c - 1 else count_of b c))
unfolding add_busy_action remove_busy_action
count-add_remove c a b = elim (Bool-cases (text_eq a b)) [
  | inl e ↦
      let same = (text_eq_iff a b).0 e in
      rw (← same) (
        count-with_count a a (count_of a c + 1) c ∙ (rw (same_text a) refl),
        ground (arith, count-with_count a a (count_of a c - 1) c, count-without a a c, same_text a),
      )
  | inr e ↦ (
    count-with_count a b (count_of a c + 1) c ∙ (rw e refl),
    ground (arith, count-with_count a b (count_of a c - 1) c, count-without a b c, e),
  )
]

-- An action that is started and finished once leaves every indicator as it was, and while it is under
-- way its own indicator is on.
pub busy_while_running :
    (c : BusyActionCounts) (a b : Text)
    → (has_busy_action (add_busy_action c a) a ≡ true)
      × (has_busy_action (remove_busy_action (add_busy_action c a) a) b ≡ has_busy_action c b)
unfolding has_busy_action
busy_while_running c a b = elim (Bool-cases (text_eq a b)) [
  | inl e ↦ (
    ground (arith, (count-add_remove c a a).0, same_text a),
    ground (arith, (count-add_remove (add_busy_action c a) a b).1, (count-add_remove c a b).0, e),
  )
  | inr e ↦ (
    ground (arith, (count-add_remove c a a).0, same_text a),
    ground (arith, (count-add_remove (add_busy_action c a) a b).1, (count-add_remove c a b).0, e),
  )
]
