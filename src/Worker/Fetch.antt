-- ===== src/Worker/Fetch.antt =====
-- worker.ts: `fetchMentions`, the paged read of new mentions.
pub mod Pages
use lucky_tag.Common.{
  ℕ, zero, suc, Bool, true, false, not, ◌||◌, Option, none, some, List, [], ◌∷◌, if◌then◌else◌,
}
use lucky_tag.Common.Sort.{sort}
use lucky_tag.Contracts.{DemoMessageMessage, DemoMessageMentionPage}
use lucky_tag.Host.{Host, locale_le}
use lucky_tag.Text.{Text, text_eq, truthy, member}
use lucky_tag.Worker.Effects.{M, Options, MentionsInput, pure, ◌>>=◌, list_mentions}

-- `messages.set(message.id, message)`: a known id keeps its place.
unfoldable pub set_message : DemoMessageMessage → List DemoMessageMessage → List DemoMessageMessage
set_message message [] = message ∷ []
set_message message (m ∷ ms) =
    if text_eq m.id message.id then message ∷ ms else m ∷ set_message message ms

unfoldable pub set_messages :
    List DemoMessageMessage → List DemoMessageMessage → List DemoMessageMessage
set_messages [] known = known
set_messages (m ∷ ms) known = set_messages ms (set_message m known)

-- `left.createdAt.localeCompare(right.createdAt) <= 0`
abbrev pub oldest_first : Host → DemoMessageMessage → DemoMessageMessage → Bool
oldest_first h left right = locale_le h left.created_at right.created_at

-- `!page.hasMore || !page.nextCursor` ends the loop.
abbrev pub next_page : DemoMessageMentionPage → Option Text
next_page page = if page.has_more then truthy page.next_cursor else none

abbrev pub page_limit : ℕ
page_limit = 10

module _ (o : Options) (group_id start finish : Text) where
  abbrev pub page_input : Text → MentionsInput
  page_input cursor = record {
    group_id = group_id;
    start = start;
    finish = finish;
    limit = 30;
    cursor = cursor;
  }

  -- At most `pages` more pages; a cursor that comes back ends the loop.
  unfoldable pub fetch_pages :
      ℕ → List Text → Text → List DemoMessageMessage → M (List DemoMessageMessage)
  fetch_pages zero visited cursor messages = pure messages
  fetch_pages (suc pages) visited cursor messages =
      if member cursor visited then pure messages else (do
        page ← list_mentions o (page_input cursor)
        elim (next_page page) [
          | none ↦ pure (set_messages page.messages messages)
          | some next ↦
              fetch_pages pages (cursor ∷ visited) next (set_messages page.messages messages)
        ])

  unfoldable pub fetch_mentions : M (List DemoMessageMessage)
  fetch_mentions = do
    messages ← fetch_pages page_limit [] (48 ∷ []) []
    pure (sort (oldest_first o.host) messages)
