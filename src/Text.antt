-- ===== src/Text.antt =====
-- JavaScript strings: sequences of UTF-16 code units, with the operations of `String.prototype`
-- that the program calls.
pub mod Keyed
pub mod Member
pub mod Trimming
use lucky_tag.Common.{
  ℕ, zero, suc, ◌+◌, ◌-◌, ◌*◌, ◌/◌, ◌%◌, ◌≤◌, ◌≡◌, refl, ◌↔◌, Bool, true, false, not, ◌&&◌, ◌||◌,
  Option, none, some, List, [], ◌∷◌, ◌++◌, arith, ltb, leb, ◌==◌, if◌then◌else◌, length, take,
}
use Prim.Native.Char.{code}
use Prim.Native.String.{String}

abbrev pub Text : Type 0
Text = List ℕ

-- A literal of the source; a code point above 0xFFFF takes two units.
unfoldable pub lit : String → Text
lit String.[] = []
lit (String.◌∷◌ c s) =
    if ltb (code c) 0x10000
    then code c ∷ lit s
    else (0xD800 + (code c - 0x10000) / 0x400) ∷ (0xDC00 + (code c - 0x10000) % 0x400) ∷ lit s

-- `left === right`
unfoldable pub text_eq : Text → Text → Bool
text_eq [] [] = true
text_eq (a ∷ s) (b ∷ t) = a == b && text_eq s t
text_eq _ _ = false

pub text_eq_iff : (s t : Text) → (text_eq s t ≡ true) ↔ (s ≡ t)
unfolding text_eq
text_eq_iff [] [] = ground arith
text_eq_iff (a ∷ s) (b ∷ t) = ground (arith, text_eq_iff s t)
text_eq_iff [] (b ∷ t) = ground arith
text_eq_iff (a ∷ s) [] = ground arith

-- The characters that `trim` and `\s` take: WhiteSpace and LineTerminator of ECMAScript.
unfoldable pub is_space : ℕ → Bool
is_space c =
    (leb 9 c && leb c 13)
    || c == 32
    || c == 0xA0
    || c == 0x1680
    || (leb 0x2000 c && leb c 0x200A)
    || c == 0x2028
    || c == 0x2029
    || c == 0x202F
    || c == 0x205F
    || c == 0x3000
    || c == 0xFEFF

unfoldable pub trim_start : Text → Text
unfolding is_space
trim_start [] = []
trim_start (c ∷ s) = if is_space c then trim_start s else c ∷ s

abbrev cons_unless_blank : ℕ → Text → Text
cons_unless_blank c [] = if is_space c then [] else c ∷ []
cons_unless_blank c (d ∷ t) = c ∷ d ∷ t

unfoldable pub trim_end : Text → Text
unfolding is_space
trim_end [] = []
trim_end (c ∷ s) = cons_unless_blank c (trim_end s)

unfoldable pub trim : Text → Text
unfolding trim_start trim_end
trim s = trim_end (trim_start s)

-- `Boolean(text)`: an absent or empty string counts as false.
abbrev pub truthy : Option Text → Option Text
truthy (some (c ∷ s)) = some (c ∷ s)
truthy _ = none

abbrev pub is_empty : Text → Bool
is_empty [] = true
is_empty (c ∷ s) = false

-- `${n}` for a natural number: its decimal digits.
decimal_from : ℕ → ℕ → Text → Text
decimal_from zero n acc = acc
decimal_from (suc fuel) n acc =
    let rest = decimal_from fuel (n / 10) ((48 + n % 10) ∷ acc) in
    if ltb n 10 then (48 + n % 10) ∷ acc else rest

unfoldable pub decimal : ℕ → Text
unfolding decimal_from
decimal n = decimal_from (suc n) n []

-- `parts.join(separator)`
unfoldable pub join : Text → List Text → Text
join separator [] = []
join separator (t ∷ []) = t
join separator (t ∷ u ∷ ts) = t ++ separator ++ join separator (u ∷ ts)

-- `set.has(text)` on the entries so far.
unfoldable pub member : Text → List Text → Bool
unfolding text_eq
member t [] = false
member t (u ∷ us) = text_eq t u || member t us

-- `[...new Set(texts)]`: the first of each, in order.
unfoldable pub distinct_from : List Text → List Text → List Text
unfolding member
distinct_from seen [] = []
distinct_from seen (t ∷ ts) =
    let fresh = t ∷ distinct_from (t ∷ seen) ts in
    if member t seen then distinct_from seen ts else fresh

abbrev pub distinct : List Text → List Text
distinct = distinct_from []
