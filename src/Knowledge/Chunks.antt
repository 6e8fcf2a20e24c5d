-- ===== src/Knowledge/Chunks.antt =====
-- main/core/knowledge-sync.ts: `chunkDocument` and `findBoundary`.
pub mod Tiling
use lucky_tag.Common.{
  ℕ, zero, suc, ◌+◌, ◌-◌, min, max, Bool, true, false, Option, none, some, List, [], ◌∷◌, ◌++◌, ltb,
  leb, ◌==◌, any, length, take, drop, head?, if◌then◌else◌,
}
use lucky_tag.Host.{Host}
use lucky_tag.Knowledge.{KnowledgeDocument, KnowledgeChunk}
use lucky_tag.Knowledge.Clean.{normalize_text}
use lucky_tag.Text.{Text, lit, member, trim, is_empty, decimal}
use lucky_tag.Worker.Records.{hex}

abbrev pub max_length : ℕ
max_length = 900

abbrev pub overlap : ℕ
overlap = 120

-- `Math.floor(maxLength * 0.6)`
abbrev pub boundary_reach : ℕ
boundary_reach = 540

-- `createHash('sha256').update(value).digest('hex')`
unfoldable pub stable_hash : Host → Text → Text
stable_hash h value = hex (h.sha256 value)

-- `'\n。！？.!?；;'.includes(…)`: the empty text of a missing unit is included too.
unfoldable pub is_boundary : Option ℕ → Bool
is_boundary none = true
is_boundary (some c) = any (λ d. d == c) (10 ∷ lit "。！？.!?；;")

-- `index` runs down from `maximum`, for so many rounds.
unfoldable pub find_down : ℕ → ℕ → Text → ℕ → ℕ
unfolding is_boundary
find_down zero index text maximum = maximum
find_down (suc rounds) index text maximum =
    let rest = find_down rounds (index - 1) text maximum in
    if is_boundary (head? (drop (index - 1) text)) then index else rest

-- `index >= minimum`
unfoldable pub find_boundary : Text → ℕ → ℕ → ℕ
unfolding find_down
find_boundary text minimum maximum = find_down (suc maximum - minimum) maximum text maximum

-- `end`, for a cursor
unfoldable pub span_end : Text → ℕ → ℕ
unfolding find_boundary
span_end body cursor =
    let finish = min (length body) (cursor + max_length) in
    let candidate = find_boundary body (cursor + boundary_reach) finish in
    if ltb finish (length body)
    then (if ltb cursor candidate then candidate else finish)
    else finish

-- `body.slice(cursor, end)`
abbrev pub slice : Text → ℕ → ℕ → Text
slice body start finish = take (finish - start) (drop start body)

module _ (h : Host) (document : KnowledgeDocument) where
  unfoldable pub chunk_of : ℕ → Text → KnowledgeChunk
  unfolding stable_hash
  chunk_of position text = record {
    id = stable_hash h (document.id ++ (0 ∷ decimal position) ++ (0 ∷ text));
    document_id = document.id;
    source_id = document.source_id;
    source_label = document.source_label;
    title = document.title;
    text = text;
    position = position;
  }

  -- `if (text) chunks.push(…)`, then the rest, which counts on from the next position
  abbrev pub push_unless_empty : Text → ℕ → (ℕ → List KnowledgeChunk) → List KnowledgeChunk
  push_unless_empty [] position rest = rest position
  push_unless_empty (c ∷ t) position rest = chunk_of position (c ∷ t) ∷ rest (position + 1)

  -- The loop; the body's length is fuel enough, since the cursor grows in each round.
  unfoldable pub chunks_from : Text → ℕ → ℕ → ℕ → List KnowledgeChunk
  chunks_from body zero cursor position = []
  chunks_from body (suc fuel) cursor position =
      let finish = span_end body cursor in
      let pushed = push_unless_empty (trim (slice body cursor finish)) position (λ next.
        let rest = chunks_from body fuel (max (cursor + 1) (finish - overlap)) next in
        if leb (length body) finish then [] else rest) in
      if ltb cursor (length body) then pushed else []

  -- `chunkDocument`; an empty body has no round.
  unfoldable pub chunk_document : List KnowledgeChunk
  unfolding chunks_from
  chunk_document = let body = normalize_text document.body in chunks_from body (length body) 0 0
