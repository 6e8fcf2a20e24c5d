-- ===== src/Retrieval.antt =====
-- main/core/retrieval.ts: how a reply is put together from the evidence that the index found.
pub mod Compose
mod Tests
use lucky_tag.Common.{
  ℕ, zero, suc, ◌+◌, ◌-◌, ◌≤◌, ◌≡◌, Bool, true, false, List, [], ◌∷◌, ◌++◌, map, max, leb, length,
  take, if◌then◌else◌,
}
use lucky_tag.Contracts.{ReplyEvidence}
use lucky_tag.Text.{Text, lit, member, trim, trim_end, join, decimal, distinct, is_empty}

abbrev pub evidence_key : ReplyEvidence → Text
evidence_key item = item.document_id ++ 0 ∷ item.excerpt

-- The loop that collects at most three distinct items; `seen` are the keys so far.
unfoldable pub unique_from : ℕ → List Text → List ReplyEvidence → List ReplyEvidence
unfolding member
unique_from zero seen items = []
unique_from (suc room) seen [] = []
unique_from (suc room) seen (item ∷ items) =
    let fresh = item ∷ unique_from room (evidence_key item ∷ seen) items in
    if member (evidence_key item) seen then unique_from (suc room) seen items else fresh

-- `${index + 1}. ${item.excerpt}`
unfoldable pub numbered_from : ℕ → List ReplyEvidence → List Text
unfolding lit decimal
numbered_from index [] = []
numbered_from index (item ∷ items) =
    (decimal (index + 1) ++ lit ". " ++ item.excerpt) ∷ numbered_from (index + 1) items

abbrev pub ellipsis : ℕ
ellipsis = 0x2026

-- The heading, 「根据本地知识库，我找到这些直接相关的信息：」, after its first character.
unfoldable pub heading_rest : Text
unfolding lit
heading_rest = lit "据本地知识库，我找到这些直接相关的信息："

abbrev pub heading : Text
heading = 0x6839 ∷ heading_rest

unfoldable pub reply_lines : List ReplyEvidence → List Text
unfolding heading_rest numbered_from lit join
reply_lines unique =
    heading
    ∷ []
    ∷ (numbered_from 0 unique
        ++ [] ∷ (lit "参考：" ++ join (lit "；") (distinct (map (λ item. item.title) unique))) ∷ [])

-- Cut to the limit, with an ellipsis in place of what is lost.
unfoldable pub fit : ℕ → Text → Text
unfolding trim_end
fit safe_limit reply =
    if leb (length reply) safe_limit
    then reply
    else trim_end (take (max 1 (safe_limit - 1)) reply) ++ ellipsis ∷ []

unfoldable pub compose_unique : List ReplyEvidence → ℕ → Text
unfolding fit trim join reply_lines lit
compose_unique [] max_length = []
compose_unique (item ∷ items) max_length =
    fit (max 1 max_length) (trim (join (lit "\n") (reply_lines (item ∷ items))))

unfoldable pub compose_knowledge_reply : List ReplyEvidence → ℕ → Text
unfolding unique_from compose_unique
compose_knowledge_reply evidence max_length = compose_unique (unique_from 3 [] evidence) max_length
