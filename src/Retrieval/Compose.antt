-- ===== src/Retrieval/Compose.antt =====
-- The composed reply is empty exactly without evidence, and respects the length limit.
use lucky_tag.Common.{
  ℕ, ◌-◌, ◌≤◌, ◌≡◌, ◌≢◌, ◌↔◌, refl, false, List, [], ◌∷◌, ◌++◌, max, leb, length, take,
  length-append, length-take, arith, Bool-cases, inl, inr,
}
use lucky_tag.Contracts.{ReplyEvidence}
use lucky_tag.Text.{Text, is_space, trim, trim_end, join, lit, member}
use lucky_tag.Text.Trimming.{length-trim_end, trim-cons}
use lucky_tag.Retrieval.{
  unique_from, reply_lines, fit, ellipsis, compose_unique, compose_knowledge_reply,
}

length-fit : (n : ℕ) (t : Text) → 2 ≤ n → length (fit n t) ≤ n
unfolding fit
length-fit n t h = ground (
  arith,
  length-append (trim_end (take (max 1 (n - 1)) t)) (ellipsis ∷ []),
  length-trim_end (take (max 1 (n - 1)) t),
  length-take (max 1 (n - 1)) t,
)

-- A cut or uncut text that began with something is not empty.
fit-cons : (n c : ℕ) (t : Text) → fit n (c ∷ t) ≢ []
unfolding fit
fit-cons n c t = elim (Bool-cases (leb (length (c ∷ t)) n)) [
  | inl e ↦ rw e (cc)
  | inr e ↦ rw e (append_ne (trim_end (take (max 1 (n - 1)) (c ∷ t))))
]
  where
    append_ne : (s : Text) → (s ++ ellipsis ∷ []) ≢ []
    append_ne [] = cc
    append_ne (x ∷ s) = cc

heading_visible : is_space 0x6839 ≡ false
unfolding is_space
heading_visible = refl

compose_unique-ne :
    (item : ReplyEvidence) (items : List ReplyEvidence) (n : ℕ)
    → compose_unique (item ∷ items) n ≢ []
unfolding compose_unique reply_lines join
compose_unique-ne item items n = rw (trim-cons _ _ heading_visible) (fit-cons (max 1 n) _ _)

length-compose_unique :
    (items : List ReplyEvidence) (n : ℕ) → 2 ≤ n → length (compose_unique items n) ≤ n
unfolding compose_unique
length-compose_unique [] n h = omega arith
length-compose_unique (item ∷ items) n h =
    omega (arith, length-fit (max 1 n) (trim (join (lit "\n") (reply_lines (item ∷ items)))))

compose_unique_empty :
    (items : List ReplyEvidence) (n : ℕ) → (compose_unique items n ≡ []) ↔ (items ≡ [])
unfolding compose_unique
compose_unique_empty [] n = (λ _. refl, λ _. refl)
compose_unique_empty (item ∷ items) n =
    (λ e. absurd (compose_unique-ne item items n e), λ e. absurd (cons_ne e))
  where
    cons_ne : (item ∷ items) ≢ []
    cons_ne = cc

unique_from_empty : (items : List ReplyEvidence) → (unique_from 3 [] items ≡ []) ↔ (items ≡ [])
unfolding unique_from member
unique_from_empty [] = (λ _. refl, λ _. refl)
unique_from_empty (item ∷ items) = ground arith

pub compose_empty :
    (evidence : List ReplyEvidence) (n : ℕ)
    → (compose_knowledge_reply evidence n ≡ []) ↔ (evidence ≡ [])
unfolding compose_knowledge_reply
compose_empty evidence n =
    let (a, b) = compose_unique_empty (unique_from 3 [] evidence) n in
    let (c, d) = unique_from_empty evidence in (λ e. c (a e), λ e. b (d e))

-- For a limit of two or more units the reply fits it, and it is empty exactly if there is no
-- evidence at all.
pub compose_knowledge_reply_bounds :
    (evidence : List ReplyEvidence) (max_length : ℕ)
    → 2 ≤ max_length
    → (length (compose_knowledge_reply evidence max_length) ≤ max_length)
      × ((compose_knowledge_reply evidence max_length ≡ []) ↔ (evidence ≡ []))
unfolding compose_knowledge_reply
compose_knowledge_reply_bounds evidence n h =
    (length-compose_unique (unique_from 3 [] evidence) n h, compose_empty evidence n)
