-- ===== src/Requirements/Generate/Bounds.antt =====
-- The sizes of a generated draft, and where its evidence comes from.
use lucky_tag.Common.{
  ℕ, suc, ◌-◌, ◌≤◌, ◌≡◌, refl, sym, ap, ◌∙◌, Bool, false, not, ◌&&◌, Option, none, some, List, [],
  ◌∷◌, map, arith, ltb, leb, leb→le, subst, length, take, head?, filter, min, Bool-cases, inl, inr,
  length-append, length-take, mem_of_mem-filter, mem_of_mem-take, mem_of_mem-map, length-map,
  and→both,
}
use lucky_tag.Common.Sort.{sort}
use lucky_tag.Act.{and_then-eq-ok}
use lucky_tag.Contracts.{DemoMessageMessage}
use lucky_tag.Host.{Host}
use lucky_tag.Requirements.{Pattern, Platform, RequirementEvidence}
use lucky_tag.Requirements.Generate.{
  Scored, Generated, clean_message_text, statements_of, best_title, min_requirement_score, truncate,
  is_usable, scored_from, around, is_near, pick_relevant_messages, derive_title, describe, unique,
  evidence_from, assembled, evidence_of, evidence_lines, draft_from, generate_requirement_draft,
  max_evidence, max_evidence_text, max_description_length,
}
use lucky_tag.Text.{Text, lit, join, trim_end}
use lucky_tag.Text.Trimming.{length-trim_end}
use lucky_tag.Worker.Effects.{ok}
use mathlib.Core.List.{Memᴰ}

length-truncate : (value : Text) (n : ℕ) → 1 ≤ n → length (truncate value n) ≤ n
unfolding truncate
length-truncate value n h = elim (Bool-cases (leb (length value) n)) [
  | inl e ↦ rw e (leb→le _ _ e)
  | inr e ↦ rw e (
      omega (
        arith,
        length-append (trim_end (take (n - 1) value)) (0x2026 ∷ []),
        length-trim_end (take (n - 1) value),
        length-take (n - 1) value,
      ))
]

ok_injective {ℓ} : {A : Type ℓ} {a b : A} → ok a ≡ ok b → a ≡ b
ok_injective e = cc

module _ (p : Platform) where
  mem_of_mem-scored_from :
      (i : ℕ) {e : Scored} (ms : List DemoMessageMessage)
      → Memᴰ e (scored_from p i ms)
      → Memᴰ e.message ms
  unfolding scored_from
  mem_of_mem-scored_from i [] m = elim m [ ]
  mem_of_mem-scored_from i (x ∷ ms) (Memᴰ.head e) = Memᴰ.head (ap (λ s. s.message) e)
  mem_of_mem-scored_from i (x ∷ ms) (Memᴰ.tail m) = Memᴰ.tail (mem_of_mem-scored_from (suc i) ms m)

  mem_of_mem-around :
      (h : Host) (focal : Option Scored) (ms : List DemoMessageMessage) {m : DemoMessageMessage}
      → Memᴰ m (around p h (scored_from p 0 ms) focal)
      → Memᴰ m ms
  unfolding around
  mem_of_mem-around h none ms m = elim m [ ]
  mem_of_mem-around h (some focal) ms m =
      elim (Bool-cases (ltb focal.score min_requirement_score)) [
        | inl weak ↦ elim (rw weak at m) [ ]
        | inr strong ↦
            let (e, n, q) = mem_of_mem-map (λ s. s.message) _ (rw strong at m) in
            let (n', near) = mem_of_mem-filter (is_near p h focal) _ n in
            subst (λ x. Memᴰ x ms) (sym q) (mem_of_mem-scored_from 0 ms n')
      ]

  -- What is picked was sent and not recalled.
  mem_of_mem-pick :
      (h : Host) (ms : List DemoMessageMessage) {m : DemoMessageMessage}
      → Memᴰ m (pick_relevant_messages p h ms)
      → Memᴰ m ms × (m.recalled ≡ false)
  unfolding pick_relevant_messages is_usable
  mem_of_mem-pick h ms {m} n =
      let focal : Option Scored = head? (
        sort (λ left right. leb right.score left.score)
          (scored_from p 0 (filter (is_usable p) ms))) in
      let (sent, usable) =
        mem_of_mem-filter (is_usable p) ms
          (mem_of_mem-around h focal (filter (is_usable p) ms) n) in
      let kept = and→both (not m.recalled) (ltb 1 (length (clean_message_text p m.text))) usable in
      (sent, ground (arith, kept.0))

  length-derive_title : (ms : List DemoMessageMessage) → length (derive_title p ms) ≤ 120
  unfolding derive_title lit
  length-derive_title ms = elim (Bool-cases (is_tracing ms)) [
    | inl e ↦ rw e (omega arith)
    | inr e ↦ rw e (length-truncate (best_title p (statements_of p ms)) 120 (omega arith))
  ]
    where
      is_tracing : List DemoMessageMessage → Bool
      is_tracing ms =
          let combined = join (lit "；") (map (λ m. clean_message_text p m.text) ms) in
          p.test Pattern.subagent combined
          && (p.test Pattern.span_words combined && p.test Pattern.token_words combined)

  evidence_of-IsShort : (m : DemoMessageMessage) → length (evidence_of p m).text ≤ 800
  unfolding evidence_of
  evidence_of-IsShort m = length-truncate (clean_message_text p m.text) 800 (omega arith)

  abbrev IsDraftOf : List DemoMessageMessage → Generated → Type 0
  IsDraftOf relevant g =
      (length g.title ≤ 120)
      × (length g.description ≤ max_description_length)
      × (1 ≤ length relevant)
      × (g.evidence ≡ evidence_from p relevant)

  assembled-IsDraftOf :
      (group : Text) (start finish : ℕ) (m : DemoMessageMessage) (ms : List DemoMessageMessage)
      (lines : List Text)
      → IsDraftOf (m ∷ ms) (assembled p group start finish (m ∷ ms) lines)
  unfolding assembled
  assembled-IsDraftOf group start finish m ms lines =
      let title = derive_title p (m ∷ ms) in
      let text = describe p group start finish title (unique p (statements_of p (m ∷ ms))) lines in
      (
        length-derive_title (m ∷ ms),
        length-truncate text max_description_length (omega arith),
        omega arith,
        refl,
      )

  draft_from-eq-ok :
      (h : Host) (group : Text) (start finish : ℕ) (ms : List DemoMessageMessage) {g : Generated}
      → draft_from p h group start finish ms ≡ ok g
      → IsDraftOf ms g
  unfolding draft_from
  draft_from-eq-ok h group start finish [] e = cc
  draft_from-eq-ok h group start finish (m ∷ ms) {g} e =
      let relevant = m ∷ ms in
      let (lines, read, built) =
        and_then-eq-ok (evidence_lines p h (evidence_from p relevant))
          (λ lines. ok (assembled p group start finish relevant lines)) e in
      subst (IsDraftOf relevant) (ok_injective built)
        (assembled-IsDraftOf group start finish m ms lines)

  -- A draft that is generated has a title of at most 120 units, a description of at most 18000, and from
  -- 1 to 12 pieces of evidence of at most 800 units, each of which quotes a message of the chat that was
  -- not recalled.
  pub generate_requirement_draft_bounds :
      (h : Host) (group : Text) (start finish : ℕ) (messages : List DemoMessageMessage)
      {g : Generated}
      → generate_requirement_draft p h group start finish messages ≡ ok g
      → (length g.title ≤ 120)
        × (length g.description ≤ max_description_length)
        × (1 ≤ length g.evidence)
        × (length g.evidence ≤ max_evidence)
        × ((e : RequirementEvidence)
            → Memᴰ e g.evidence
            → (length e.text ≤ max_evidence_text)
              × ((m : DemoMessageMessage) × Memᴰ m messages
                  × (m.recalled ≡ false)
                  × (e ≡ evidence_of p m)))
  unfolding generate_requirement_draft evidence_from
  generate_requirement_draft_bounds h group start finish messages {g} e =
      let picked : List DemoMessageMessage = pick_relevant_messages p h messages in
      let (short, small, some_left, made) = draft_from-eq-ok h group start finish picked e in
      let size : length g.evidence ≡ min 12 (length picked) =
        ap length made
        ∙ length-map (evidence_of p) (take max_evidence picked)
        ∙ length-take max_evidence picked in
      (
        short,
        small,
        omega (arith, size),
        omega (arith, size),
        λ q n.
            let (m, taken, is) =
              mem_of_mem-map (evidence_of p) (take max_evidence picked)
                (subst (λ es. Memᴰ q es) made n) in
            let (sent, kept) =
              mem_of_mem-pick h messages (mem_of_mem-take max_evidence picked taken) in
            (rw is (evidence_of-IsShort m), (m, sent, kept, is)),
      )
