-- ===== src/Host.antt =====
-- What the program takes from its platform: dates, collation, number formatting and SHA-256.
-- An instant is a number of milliseconds since the earliest instant of a `Date`, which lies
-- 8 640 000 000 000 000 ms before 1970; so every valid `getTime()` is a natural number.
use lucky_tag.Common.{ℕ, ◌≡◌, ◌⊎◌, Bool, true, false, Option, some, List, Ordering}
use lucky_tag.Text.{Text}

pub record Host : Type 0 where
  -- `new Date(text).getTime()`, with `none` for NaN
  pub parse_date : Text → Option ℕ
  -- `new Date(instant).toISOString()`
  pub to_iso : ℕ → Text
  -- `left.localeCompare(right)`
  pub locale_compare : Text → Text → Ordering
  -- `score.toFixed(3)`
  pub to_fixed3 : ℕ → Text
  -- `createHash('sha256').update(text).digest()`, byte by byte
  pub sha256 : Text → List ℕ

-- `left.localeCompare(right) <= 0`
abbrev pub locale_le : Host → Text → Text → Bool
locale_le h s t = elim (h.locale_compare s t) [ Ordering.gt ↦ false | _ ↦ true ]

-- Documented behaviour: an ISO text parses to its instant, and collation is a total preorder.
pub record IsHost (h : Host) : Type 0 where
  pub parse-iso : (t : ℕ) → h.parse_date (h.to_iso t) ≡ some t
  pub locale_total : (s t : Text) → (locale_le h s t ≡ true) ⊎ (locale_le h t s ≡ true)
  pub locale_trans :
      (s t u : Text) → locale_le h s t ≡ true → locale_le h t u ≡ true → locale_le h s u ≡ true

-- 1970-01-01T00:00:00Z
abbrev pub epoch : ℕ
epoch = 8640000000000000
