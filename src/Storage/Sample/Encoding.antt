-- ===== src/Storage/Sample/Encoding.antt =====
-- Encodings of values as lists of numbers that decode to the value and the rest.
use lucky_tag.Common.{ℕ, zero, suc, ◌≡◌, refl, ap, ◌∙◌, Option, none, some, List, [], ◌∷◌, length}
use lucky_tag.Text.{Text}

pub record Codec (A : Type 0) : Type 0 where
  pub encode : A → Text → Text
  pub decode : Text → Option (A × Text)
  pub decode-encode : (a : A) (rest : Text) → decode (encode a rest) ≡ some (a, rest)

abbrev take_number : Text → Option (ℕ × Text)
take_number [] = none
take_number (n ∷ s) = some (n, s)

abbrev pub number : Codec ℕ
number = record {
  encode = λ n rest. n ∷ rest;
  decode = take_number;
  decode-encode = λ n rest. refl;
}

module _ {A B : Type 0} where
  abbrev mapped : (A → B) → Option (A × Text) → Option (B × Text)
  mapped f none = none
  mapped f (some (a, rest)) = some (f a, rest)

  -- By a value of another type that determines it.
  abbrev pub via : (f : B → A) (g : A → B) → ((b : B) → g (f b) ≡ b) → Codec A → Codec B
  via f g back c = record {
    encode = λ b rest. c.encode (f b) rest;
    decode = λ s. mapped g (c.decode s);
    decode-encode =
        λ b rest. ap (mapped g) (c.decode-encode (f b) rest) ∙ ap (λ t. some (t, rest)) (back b);
  }

  abbrev with_first : A → Option (B × Text) → Option ((A × B) × Text)
  with_first a none = none
  with_first a (some (b, rest)) = some ((a, b), rest)

  abbrev then_second : Codec B → Option (A × Text) → Option ((A × B) × Text)
  then_second d none = none
  then_second d (some (a, s)) = with_first a (d.decode s)

  infixr 40 ◌⊗◌
  abbrev pub ◌⊗◌ : Codec A → Codec B → Codec (A × B)
  c ⊗ d = record {
    encode = λ ab rest. c.encode ab.0 (d.encode ab.1 rest);
    decode = λ s. then_second d (c.decode s);
    decode-encode = λ ab rest.
        ap (then_second d) (c.decode-encode ab.0 (d.encode ab.1 rest))
        ∙ ap (with_first ab.0) (d.decode-encode ab.1 rest);
  }

module _ {A : Type 0} (c : Codec A) where
  unfoldable pub encode_all : List A → Text → Text
  encode_all [] rest = rest
  encode_all (a ∷ as') rest = c.encode a (encode_all as' rest)

  abbrev and_more : A → Option (List A × Text) → Option (List A × Text)
  and_more a none = none
  and_more a (some (more, rest)) = some (a ∷ more, rest)

  abbrev first_of : (Text → Option (List A × Text)) → Option (A × Text) → Option (List A × Text)
  first_of others none = none
  first_of others (some (a, s)) = and_more a (others s)

  unfoldable pub decode_all : ℕ → Text → Option (List A × Text)
  decode_all zero s = some ([], s)
  decode_all (suc n) s = first_of (λ t. decode_all n t) (c.decode s)

  pub decode_all-encode_all :
      (xs : List A) (rest : Text) → decode_all (length xs) (encode_all xs rest) ≡ some (xs, rest)
  unfolding encode_all decode_all
  decode_all-encode_all [] rest = refl
  decode_all-encode_all (x ∷ xs) rest =
      ap (first_of (λ t. decode_all (length xs) t)) (c.decode-encode x (encode_all xs rest))
      ∙ ap (and_more x) (decode_all-encode_all xs rest)

  abbrev counted : Option (ℕ × Text) → Option (List A × Text)
  counted none = none
  counted (some (n, s)) = decode_all n s

  abbrev pub list : Codec (List A)
  unfolding encode_all decode_all
  list = record {
    encode = λ xs rest. length xs ∷ encode_all xs rest;
    decode = λ s. counted (take_number s);
    decode-encode = λ xs rest. decode_all-encode_all xs rest;
  }

  abbrev pub to_list : Option A → List A
  to_list none = []
  to_list (some a) = a ∷ []

  abbrev pub from_list : List A → Option A
  from_list [] = none
  from_list (a ∷ _) = some a

  pub option_back : (o : Option A) → from_list (to_list o) ≡ o
  option_back none = refl
  option_back (some a) = refl

  abbrev pub option : Codec (Option A)
  unfolding encode_all decode_all
  option = via to_list from_list option_back list

abbrev pub text : Codec Text
unfolding encode_all decode_all
text = list number
