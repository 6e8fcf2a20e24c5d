-- ===== src/Agent/Trust/Suffix.antt =====
-- `endsWith` and the text before the suffix.
use lucky_tag.Common.{
  ℕ, zero, suc, ◌-◌, ◌≡◌, ◌↔◌, ◌∙◌, refl, ap, true, [], ◌∷◌, ◌++◌, length, take, drop, leb, arith,
  length-append, and→both,
}
use lucky_tag.Agent.Trust.{ends_with}
use lucky_tag.Text.{Text, text_eq, text_eq_iff}

take-append-drop : (n : ℕ) (s : Text) → s ≡ take n s ++ drop n s
take-append-drop zero s = refl
take-append-drop (suc n) [] = refl
take-append-drop (suc n) (c ∷ s) = ap (λ t. c ∷ t) (take-append-drop n s)

drop-append : (s t : Text) → drop (length s) (s ++ t) ≡ t
drop-append [] t = refl
drop-append (c ∷ s) t = drop-append s t

pub ends_with_iff :
    (text suffix : Text)
    → (ends_with text suffix ≡ true) ↔ ((before : Text) × (text ≡ before ++ suffix))
unfolding ends_with
ends_with_iff text suffix = (
  λ e.
      let n = length text - length suffix in
      let (short, same) =
        and→both (leb (length suffix) (length text)) (text_eq (drop n text) suffix) e in
      (
        take n text,
        take-append-drop n text
            ∙ ap (λ t. take n text ++ t) ((text_eq_iff (drop n text) suffix).0 same),
      ),
  λ (before, e).
      let long = length-append before suffix in
      let short : leb (length suffix) (length (before ++ suffix)) ≡ true = ground (arith, long) in
      let n : length (before ++ suffix) - length suffix ≡ length before = omega (arith, long) in
      let same =
        (text_eq_iff (drop (length before) (before ++ suffix)) suffix).1
          (drop-append before suffix) in
      rw (e, short, n) same,
)
