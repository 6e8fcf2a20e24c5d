-- ===== src/Config/Value.antt =====
-- shared/validation.ts: values of type `unknown`, as JSON and IPC deliver them, and the tests on texts.
use lucky_tag.Common.{
  ℕ, zero, suc, ◌+◌, Bool, true, false, not, ◌&&◌, ◌||◌, Option, none, some, [], ◌∷◌, every, any,
  ltb, leb, ◌==◌, if◌then◌else◌, length,
}
use Prim.Native.String.{String}
use lucky_tag.Text.{Text, lit, text_eq, is_space, is_empty, trim}

-- A number of JavaScript: whole, or strictly between `floor` and `floor + 1`, or below zero, or no
-- number at all.
pub data Number : Type 0 where
  whole : ℕ → Number
  between : (floor : ℕ) → Number
  negative_whole negative_fraction infinity negative_infinity not_a_number : Number

mutual
  pub data Value : Type 0 where
    undefined null : Value
    boolean : Bool → Value
    number : Number → Value
    string : Text → Value
    array : Values → Value
    object : Fields → Value

  pub data Values : Type 0 where
    nil : Values
    cons : Value → Values → Values

  pub data Fields : Type 0 where
    empty : Fields
    field : (key : Text) → Value → Fields → Fields

unfoldable pub lookup : Text → Fields → Value
lookup key Fields.empty = Value.undefined
lookup key (Fields.field k v fields) = if text_eq k key then v else lookup key fields

-- `isRecord(value)` with the fields, `value[key]`
unfoldable pub is_record : Value → Bool
is_record (Value.object fields) = true
is_record _ = false

unfoldable pub get : String → Value → Value
get key (Value.object fields) = lookup (lit key) fields
get key _ = Value.undefined

unfoldable pub is_boolean : Value → Bool
is_boolean (Value.boolean b) = true
is_boolean _ = false

-- `Number.isInteger(value)`, and the bounds on it
unfoldable pub is_integer_within : ℕ → ℕ → Value → Bool
is_integer_within low high (Value.number (Number.whole n)) = leb low n && leb n high
is_integer_within low high _ = false

-- `typeof value === 'number' && value >= 0 && value <= 1`
unfoldable pub is_fraction : Value → Bool
is_fraction (Value.number (Number.whole n)) = leb n 1
is_fraction (Value.number (Number.between floor)) = floor == 0
is_fraction _ = false

unfoldable pub is_text : Value → Bool
is_text (Value.string t) = true
is_text _ = false

unfoldable pub text_of : Value → Text
text_of (Value.string t) = t
text_of _ = []

-- `value === text`
unfoldable pub is_literal : String → Value → Bool
is_literal t (Value.string s) = text_eq s (lit t)
is_literal t _ = false

unfoldable pub is_non_empty_string : ℕ → Value → Bool
is_non_empty_string max (Value.string t) = not (is_empty (trim t)) && leb (length t) max
is_non_empty_string max _ = false

unfoldable pub is_control : ℕ → Bool
is_control c = leb c 0x1F || (leb 0x7F c && leb c 0x9F)

unfoldable pub has_control_characters : Text → Bool
has_control_characters = any is_control

unfoldable pub is_external_id : Value → Bool
is_external_id v =
    is_non_empty_string 256 v && not (any (λ c. is_space c || is_control c) (text_of v))

-- `[A-Za-z0-9._:@-]`
unfoldable pub is_record_id_char : ℕ → Bool
is_record_id_char c =
    (leb 65 c && leb c 90)
    || (leb 97 c && leb c 122)
    || (leb 48 c && leb c 57)
    || c == 46
    || c == 95
    || c == 58
    || c == 64
    || c == 45

unfoldable pub is_record_id : Value → Bool
is_record_id v = is_non_empty_string 128 v && every is_record_id_char (text_of v)

unfoldable pub is_safe_local_path : Value → Bool
is_safe_local_path v = is_non_empty_string 4096 v && not (has_control_characters (text_of v))

-- `[^\s/]+` between slashes: how many characters the current segment has, how many segments follow.
unfoldable pub has_segments : ℕ → ℕ → Text → Bool
has_segments more here [] = more == 0 && ltb 0 here
has_segments zero here (c ∷ t) =
    let rest = has_segments zero (here + 1) t in if c == 47 || is_space c then false else rest
has_segments (suc more) here (c ∷ t) =
    let next = has_segments more 0 t in
    let rest = has_segments (suc more) (here + 1) t in
    if c == 47 then ltb 0 here && next else not (is_space c) && rest

unfoldable pub is_sample_library_namespace : Value → Bool
is_sample_library_namespace v =
    is_non_empty_string 512 v
    && not (has_control_characters (text_of v))
    && has_segments 1 0 (text_of v)

-- What `new URL(text)` gives, if it does not throw.
pub record Url : Type 0 where
  pub protocol : Text
  pub hostname : Text
  pub username : Text
  pub password : Text
  pub hash : Text

module _ (parse_url : Text → Option Url) where
  abbrev pub is_library_url : Option Url → Bool
  is_library_url none = false
  is_library_url (some url) =
      text_eq url.protocol (lit "https:")
      && text_eq url.hostname (lit "library.example.invalid")
      && is_empty url.username
      && is_empty url.password

  unfoldable pub is_sample_library_doc_reference : Value → Bool
  is_sample_library_doc_reference v =
      is_non_empty_string 1024 v
      && not (has_control_characters (text_of v))
      && (has_segments 2 0 (text_of v) || is_library_url (parse_url (text_of v)))

  unfoldable pub is_knowledge_source : Value → Bool
  is_knowledge_source v =
      is_record v
      && is_record_id (get "id" v)
      && is_non_empty_string 120 (get "label" v)
      && is_boolean (get "enabled" v)
      && (if is_literal "local-directory" (get "type" v)
          then is_safe_local_path (get "path" v)
          else (if is_literal "sampleLibrary-doc" (get "type" v)
              then is_sample_library_doc_reference (get "routeOrUrl" v)
              else (is_literal "sampleLibrary-book" (get "type" v)
                  && is_sample_library_namespace (get "namespace" v))))
