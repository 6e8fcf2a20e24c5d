-- ===== src/Retrieval/Tests.antt =====
-- A reply composed from one piece of evidence.
use lucky_tag.Common.{◌≤◌, ◌≡◌, ◌↔◌, List, [], ◌∷◌, length, arith}
use lucky_tag.Contracts.{ReplyEvidence}
use lucky_tag.Retrieval.{compose_knowledge_reply}
use lucky_tag.Retrieval.Compose.{compose_knowledge_reply_bounds}

abbrev found : List ReplyEvidence
found =
    record {
      document_id = 100 ∷ [];
      title = 116 ∷ [];
      source_label = 108 ∷ [];
      excerpt = 97 ∷ [];
      score = 9;
    }
    ∷ []

compose_knowledge_reply_bounds_example :
    (length (compose_knowledge_reply found 10) ≤ 10)
    × ((compose_knowledge_reply found 10 ≡ []) ↔ (found ≡ []))
compose_knowledge_reply_bounds_example = compose_knowledge_reply_bounds found 10 (omega arith)
