-- ===== src/Knowledge/Chunks/Tiling.antt =====
-- The chunks of a document are the pieces of a cover of its body.
use lucky_tag.Common.{
  ℕ, zero, suc, ◌+◌, ◌-◌, ◌≤◌, ◌<◌, ◌≡◌, refl, ap, ◌∙◌, inl, inr, min, max, Bool, true, false, List,
  [], ◌∷◌, map, arith, ltb, leb, length, Bool-cases, if◌then◌else◌,
}
use lucky_tag.Host.{Host}
use lucky_tag.Knowledge.{KnowledgeDocument, KnowledgeChunk}
use lucky_tag.Knowledge.Chunks.{
  find_down, find_boundary, span_end, slice, max_length, boundary_reach, chunk_of,
  push_unless_empty, chunks_from, chunk_document,
}
use lucky_tag.Knowledge.Clean.{normalize_text}
use lucky_tag.Text.{Text, trim}

-- Spans that start at the places reached so far or before, move on, are at most 900 long and end at `n`.
pub data Tiling (n : ℕ) : ℕ → List (ℕ × ℕ) → Type 0 where
  last :
      {start reached : ℕ}
      → start ≤ reached
      → start < n
      → n ≤ start + max_length
      → Tiling n reached ((start, n) ∷ [])
  more :
      {start reached finish begin_next end_next : ℕ} {rest : List (ℕ × ℕ)}
      → start ≤ reached
      → start < finish
      → finish < n
      → finish ≤ start + max_length
      → start < begin_next
      → Tiling n finish ((begin_next, end_next) ∷ rest)
      → Tiling n reached ((start, finish) ∷ (begin_next, end_next) ∷ rest)

abbrev cons_unless_empty : Text → List Text → List Text
cons_unless_empty [] texts = texts
cons_unless_empty (c ∷ t) texts = (c ∷ t) ∷ texts

-- The trimmed pieces of a text, without the empty ones.
abbrev pub pieces : Text → List (ℕ × ℕ) → List Text
pieces body [] = []
pieces body ((start, finish) ∷ spans) =
    cons_unless_empty (trim (slice body start finish)) (pieces body spans)

-- Positions count on from a number.
abbrev pub IsNumbered : ℕ → List KnowledgeChunk → Type 0
IsNumbered position [] = Unit
IsNumbered position (c ∷ cs) = (c.position ≡ position) × IsNumbered (position + 1) cs

find_down-le :
    (rounds index : ℕ) (text : Text) (maximum : ℕ)
    → index ≤ maximum
    → find_down rounds index text maximum ≤ maximum
unfolding find_down
find_down-le zero index text maximum h = omega arith
find_down-le (suc rounds) index text maximum h =
    ground (arith, find_down-le rounds (index - 1) text maximum)

span_end_bounds :
    (body : Text) (cursor : ℕ)
    → cursor < length body
    → (cursor < span_end body cursor)
      × (span_end body cursor ≤ length body)
      × (span_end body cursor ≤ cursor + max_length)
unfolding span_end find_boundary
span_end_bounds body cursor h =
    let finish = min (length body) (cursor + max_length) in
    let below =
      find_down-le (suc finish - (cursor + boundary_reach)) finish body finish (omega arith) in
    ground (arith, below)

module _ (body : Text) where
  abbrev next_cursor : ℕ → ℕ
  next_cursor cursor = max (cursor + 1) (span_end body cursor - 120)

  spans_from : ℕ → ℕ → List (ℕ × ℕ)
  spans_from zero cursor = []
  spans_from (suc fuel) cursor =
      let rest = spans_from fuel (next_cursor cursor) in
      let spans =
        (cursor, span_end body cursor)
        ∷ (if leb (length body) (span_end body cursor) then [] else rest) in
      if ltb cursor (length body) then spans else []

  spans_from-Tiling :
      (fuel cursor reached : ℕ)
      → cursor ≤ reached
      → cursor < length body
      → length body ≤ cursor + fuel
      → (finish : ℕ) × (rest : List (ℕ × ℕ)) × (spans_from fuel cursor ≡ (cursor, finish) ∷ rest)
        × Tiling (length body) reached ((cursor, finish) ∷ rest)
  unfolding spans_from
  spans_from-Tiling zero cursor reached r h enough = absurd (omega arith)
  spans_from-Tiling (suc fuel) cursor reached r h enough =
      let (moves, inside, short) = span_end_bounds body cursor h in
      let inside_test : ltb cursor (length body) ≡ true = ground arith in
      elim (Bool-cases (leb (length body) (span_end body cursor))) [
        | inl ends ↦
            let full : span_end body cursor ≡ length body = ground (arith, ends, inside) in
            (
              span_end body cursor,
              [],
              rw (inside_test, ends) refl,
              rw full (Tiling.last r h (omega (arith, full, short))),
            )
        | inr goes ↦
            let below : span_end body cursor < length body = ground (arith, goes) in
            let (finish, rest, found, tiling) =
              spans_from-Tiling fuel (next_cursor cursor) (span_end body cursor)
                (omega (arith, moves)) (omega (arith, moves, below)) (omega (arith, enough)) in
            (
              span_end body cursor,
              (next_cursor cursor, finish) ∷ rest,
              rw (inside_test, goes) (ap (λ t. (cursor, span_end body cursor) ∷ t) found),
              Tiling.more r moves below short (omega arith) tiling,
            )
      ]

module _ (h : Host) (document : KnowledgeDocument) (body : Text) where
  branch-texts :
      (b : Bool) (cs : List KnowledgeChunk) (spans : List (ℕ × ℕ))
      → map (λ c. c.text) cs ≡ pieces body spans
      → map (λ c. c.text) (if b then [] else cs) ≡ pieces body (if b then [] else spans)
  branch-texts true cs spans e = refl
  branch-texts false cs spans e = e

  push-texts :
      (t : Text) (position : ℕ) (rest : ℕ → List KnowledgeChunk) (texts : List Text)
      → ((p : ℕ) → map (λ c. c.text) (rest p) ≡ texts)
      → map (λ c. c.text) (push_unless_empty h document t position rest) ≡ cons_unless_empty t texts
  unfolding chunk_of
  push-texts [] position rest texts e = e position
  push-texts (c ∷ t) position rest texts e = rw (e (position + 1)) refl

  chunks_from-texts :
      (fuel cursor position : ℕ)
      → map (λ c. c.text) (chunks_from h document body fuel cursor position)
        ≡ pieces body (spans_from body fuel cursor)
  unfolding chunks_from spans_from
  chunks_from-texts zero cursor position = refl
  chunks_from-texts (suc fuel) cursor position = elim (Bool-cases (ltb cursor (length body))) [
    | inr past ↦ rw past refl
    | inl inside ↦ rw inside (
        push-texts (trim (slice body cursor (span_end body cursor))) position _ _ (λ p.
          branch-texts (leb (length body) (span_end body cursor)) _ _
            (chunks_from-texts fuel (next_cursor body cursor) p)))
  ]

  push-IsNumbered :
      (t : Text) (position : ℕ) (rest : ℕ → List KnowledgeChunk)
      → ((p : ℕ) → IsNumbered p (rest p))
      → IsNumbered position (push_unless_empty h document t position rest)
  unfolding chunk_of
  push-IsNumbered [] position rest e = e position
  push-IsNumbered (c ∷ t) position rest e = (refl, e (position + 1))

  branch-IsNumbered :
      (b : Bool) (p : ℕ) (cs : List KnowledgeChunk)
      → IsNumbered p cs
      → IsNumbered p (if b then [] else cs)
  branch-IsNumbered true p cs e = tt
  branch-IsNumbered false p cs e = e

  chunks_from-IsNumbered :
      (fuel cursor position : ℕ)
      → IsNumbered position (chunks_from h document body fuel cursor position)
  unfolding chunks_from
  chunks_from-IsNumbered zero cursor position = tt
  chunks_from-IsNumbered (suc fuel) cursor position = elim (Bool-cases (ltb cursor (length body))) [
    | inr past ↦ rw past tt
    | inl inside ↦ rw inside (
        push-IsNumbered (trim (slice body cursor (span_end body cursor))) position _ (λ p.
          branch-IsNumbered (leb (length body) (span_end body cursor)) p _
            (chunks_from-IsNumbered fuel (next_cursor body cursor) p)))
  ]

-- The chunks of a document whose normalised body is not empty are numbered from 0, and their texts are
-- the trimmed pieces, without the empty ones, of spans that cover the body from its start to its end:
-- each starts at or before the end of the one before it and after that one's start, and is at most 900
-- units long.
pub chunk_document-Tiling :
    (h : Host) (document : KnowledgeDocument)
    → 0 < length (normalize_text document.body)
    → IsNumbered 0 (chunk_document h document)
      × (spans : List (ℕ × ℕ)) × Tiling (length (normalize_text document.body)) 0 spans
      × (map (λ c. c.text) (chunk_document h document)
          ≡ pieces (normalize_text document.body) spans)
unfolding chunk_document
chunk_document-Tiling h document some_text =
    let body = normalize_text document.body in
    let (finish, rest, found, tiling) =
      spans_from-Tiling body (length body) 0 0 (omega arith) some_text (omega arith) in
    (
      chunks_from-IsNumbered h document body (length body) 0 0,
      (0, finish) ∷ rest,
      tiling,
      chunks_from-texts h document body (length body) 0 0 ∙ ap (pieces body) found,
    )
