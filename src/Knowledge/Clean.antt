-- ===== src/Knowledge/Clean.antt =====
-- main/core/knowledge-sync.ts: `normalizeText` and `normalizeInline`, replacement by replacement.
use lucky_tag.Common.{ℕ, Bool, true, false, ◌||◌, ◌==◌, [], ◌∷◌, if◌then◌else◌}
use lucky_tag.Text.{Text, is_space, trim}

-- `.replace(/^\uFEFF/u, '')`
unfoldable pub strip_mark : Text → Text
strip_mark [] = []
strip_mark (c ∷ s) = if c == 0xFEFF then s else c ∷ s

abbrev drop_line_feed : Text → Text
drop_line_feed [] = []
drop_line_feed (c ∷ s) = if c == 10 then s else c ∷ s

-- `.replace(/\r\n?/gu, '\n')`: the rest is converted already, so a line feed behind stands first.
unfoldable pub convert_returns : Text → Text
convert_returns [] = []
convert_returns (c ∷ []) = if c == 13 then 10 ∷ [] else c ∷ []
convert_returns (c ∷ d ∷ s) =
    let rest = convert_returns (d ∷ s) in
    if c == 13 then (if d == 10 then 10 ∷ drop_line_feed rest else 10 ∷ rest) else c ∷ rest

-- `[\t\f\v ]`
unfoldable pub is_blank : ℕ → Bool
is_blank c = c == 9 || c == 12 || c == 11 || c == 32

abbrev space_before : Text → Text
space_before [] = 32 ∷ []
space_before (c ∷ s) = if c == 32 then c ∷ s else 32 ∷ c ∷ s

-- `.replace(/[\t\f\v ]+/gu, ' ')`
unfoldable pub collapse_blanks : Text → Text
unfolding is_blank
collapse_blanks [] = []
collapse_blanks (c ∷ s) =
    if is_blank c then space_before (collapse_blanks s) else c ∷ collapse_blanks s

abbrev cons_unless_line_end : ℕ → Text → Text
cons_unless_line_end c [] = c ∷ []
cons_unless_line_end c (d ∷ s) =
    if c == 32 then (if d == 10 then d ∷ s else c ∷ d ∷ s) else c ∷ d ∷ s

-- The spaces before a line feed
unfoldable pub trim_line_ends : Text → Text
trim_line_ends [] = []
trim_line_ends (c ∷ s) = cons_unless_line_end c (trim_line_ends s)

-- The spaces after a line feed; `fresh` says that one was just passed.
unfoldable pub trim_line_starts : Bool → Text → Text
trim_line_starts fresh [] = []
trim_line_starts true (c ∷ s) =
    if c == 32 then trim_line_starts true s else c ∷ trim_line_starts (c == 10) s
trim_line_starts false (c ∷ s) = c ∷ trim_line_starts (c == 10) s

abbrev cons_unless_third : Text → Text
cons_unless_third [] = 10 ∷ []
cons_unless_third (c ∷ []) = 10 ∷ c ∷ []
cons_unless_third (c ∷ d ∷ s) =
    if c == 10 then (if d == 10 then c ∷ d ∷ s else 10 ∷ c ∷ d ∷ s) else 10 ∷ c ∷ d ∷ s

-- `.replace(/\n{3,}/gu, '\n\n')`
unfoldable pub limit_line_feeds : Text → Text
limit_line_feeds [] = []
limit_line_feeds (c ∷ s) =
    if c == 10 then cons_unless_third (limit_line_feeds s) else c ∷ limit_line_feeds s

unfoldable pub normalize_text : Text → Text
unfolding strip_mark convert_returns collapse_blanks trim_line_ends trim_line_starts
    limit_line_feeds
normalize_text value = trim (
    limit_line_feeds (
      trim_line_starts false
        (trim_line_ends (collapse_blanks (convert_returns (strip_mark value))))))

-- `.replace(/\s+/gu, ' ')`
unfoldable pub collapse_spaces : Text → Text
unfolding is_space
collapse_spaces [] = []
collapse_spaces (c ∷ s) =
    if is_space c then space_before (collapse_spaces s) else c ∷ collapse_spaces s

unfoldable pub normalize_inline : Text → Text
unfolding collapse_spaces
normalize_inline value = trim (collapse_spaces value)
