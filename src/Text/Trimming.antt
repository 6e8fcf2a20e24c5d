-- ===== src/Text/Trimming.antt =====
-- Lemmas on trimming and joining texts.
use lucky_tag.Common.{ℕ, ◌≤◌, ◌≡◌, false, [], ◌∷◌, arith, length}
use lucky_tag.Text.{Text, is_space, trim_end, trim}

pub length-trim_end : (s : Text) → length (trim_end s) ≤ length s
unfolding trim_end
length-trim_end [] = omega arith
length-trim_end (c ∷ s) = ground (arith, length-trim_end s)

-- A text that begins with a visible character keeps it.
pub trim_end-cons : (c : ℕ) (s : Text) → is_space c ≡ false → trim_end (c ∷ s) ≡ c ∷ trim_end s
unfolding trim_end
trim_end-cons c s h = ground arith

pub trim-cons : (c : ℕ) (s : Text) → is_space c ≡ false → trim (c ∷ s) ≡ c ∷ trim_end s
unfolding trim
trim-cons c s h = ground (arith, trim_end-cons c s h)
