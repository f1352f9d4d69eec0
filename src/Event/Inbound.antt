-- ===== src/Event/Inbound.antt =====
-- services/rag-service/src/rag/transport/status_event.py: IngestEvent and its strict parser.
-- `json.loads` and `datetime.fromisoformat` are parameters; `loads` gives none where it raises.
pub mod Laws
use rag_poc.Prelude.{
  ℕ, zero, suc, Text, str, Bool, true, false, ◌&&◌, ◌||◌, not, Option, none, some, List, [], ◌∷◌,
  text_eq, leb, all, ◌==◌, if◌then◌else◌, Result, ok, err, ◌>>=◌,
}
use rag_poc.Value.{Value, int, text, object, Fields, lookup, pos, Moment}
use rag_poc.Event.{
  InvalidEvent, not_json, not_object, required, not_unicode, bad_version, bad_size, bad_created_at,
  not_a_date, schema_version, or_fail, check_attempts,
}

pub record IngestEvent : Type 0 where
  pub id : Text
  pub hash : Text
  pub filename : Text
  pub bucket_path : Text
  pub size : ℕ
  pub attempts : ℕ
  pub created_at : Moment
  pub schema_version : ℕ

is_digit : ℕ → Bool
is_digit c = leb b'0' c && leb c b'9'

-- `n` digits, and then what `rest` accepts
digits_then : ℕ → (Text → Bool) → Text → Bool
unfolding is_digit
digits_then zero rest t = rest t
digits_then (suc n) rest [] = false
digits_then (suc n) rest (c ∷ t) = is_digit c && digits_then n rest t

char_then : ℕ → (Text → Bool) → Text → Bool
char_then d rest [] = false
char_then d rest (c ∷ t) = c == d && rest t

-- up to `n` digits and a closing Z
fraction_then_z : ℕ → Text → Bool
unfolding is_digit
fraction_then_z n [] = false
fraction_then_z zero (c ∷ t) = c == b'Z' && text_eq t []
fraction_then_z (suc n) (c ∷ t) = (c == b'Z' && text_eq t []) || (is_digit c && fraction_then_z n t)

-- (\.[0-9]{1,9})?Z
fraction_or_z : Text → Bool
unfolding fraction_then_z digits_then char_then
fraction_or_z t = text_eq t (str "Z") || char_then b'.' (digits_then 1 (fraction_then_z 8)) t

-- _CREATED_AT.fullmatch
unfoldable pub created_at_matches : Text → Bool
unfolding fraction_or_z digits_then char_then
created_at_matches = digits_then 4 (
    char_then b'-' (
      digits_then 2 (
        char_then b'-' (
          digits_then 2 (
            char_then b'T' (
              digits_then 2 (
                char_then b':' (digits_then 2 (char_then b':' (digits_then 2 fraction_or_z))))))))))

-- `value.encode("utf-8")` succeeds: no lone surrogate
unfoldable pub encodes : Text → Bool
encodes = all (λ c. not (leb 0xd800 c && leb c 0xdfff))

-- field_of
unfoldable pub field_of : Text → Fields → Result InvalidEvent Value
field_of name document = or_fail (lookup name document) (required name)

-- the checks of text(name) on the value
check_text : Text → Value → Result InvalidEvent Text
check_text name (text t) =
    if text_eq t []
    then err (InvalidEvent.empty_text name)
    else if encodes t
    then ok t
    else err (not_unicode name)
check_text name _ = err (InvalidEvent.empty_text name)

unfoldable pub text_field : Text → Fields → Result InvalidEvent Text
unfolding check_text field_of encodes
text_field name document = do v ← field_of name document; check_text name v

check_version : Value → Result InvalidEvent ℕ
check_version (int (pos n)) = if n == schema_version then ok n else err bad_version
check_version _ = err bad_version

check_size : Value → Result InvalidEvent ℕ
check_size (int (pos n)) = ok n
check_size _ = err bad_size

-- IngestEvent.parse_timestamp
unfoldable pub parse_timestamp : (Text → Option Moment) → Value → Result InvalidEvent Moment
parse_timestamp from_iso (text t) =
    if created_at_matches t then or_fail (from_iso t) not_a_date else err bad_created_at
parse_timestamp from_iso _ = err bad_created_at

version_field : Fields → Result InvalidEvent ℕ
unfolding field_of check_version
version_field document = do v ← field_of (str "schema_version") document; check_version v

size_field : Fields → Result InvalidEvent ℕ
unfolding field_of check_size
size_field document = do v ← field_of (str "size") document; check_size v

attempts_field : Fields → Result InvalidEvent ℕ
unfolding field_of check_attempts
attempts_field document = do v ← field_of (str "attempts") document; check_attempts v

created_field : (Text → Option Moment) → Fields → Result InvalidEvent Moment
unfolding field_of parse_timestamp
created_field from_iso document = do
  v ← field_of (str "created_at") document
  parse_timestamp from_iso v

-- The first failing field, in the order in which the source reads them, is the error.
assemble :
    (version size : Result InvalidEvent ℕ) (id hash filename bucket_path : Result InvalidEvent Text)
    (attempts : Result InvalidEvent ℕ) (created_at : Result InvalidEvent Moment)
    → Result InvalidEvent IngestEvent
assemble version size id hash filename bucket_path attempts created_at = do
  version ← version
  size ← size
  id ← id
  hash ← hash
  filename ← filename
  bucket_path ← bucket_path
  attempts ← attempts
  created_at ← created_at
  ok (record {
    id = id;
    hash = hash;
    filename = filename;
    bucket_path = bucket_path;
    size = size;
    attempts = attempts;
    created_at = created_at;
    schema_version = version;
  })

unfoldable pub parse_fields : (Text → Option Moment) → Fields → Result InvalidEvent IngestEvent
unfolding assemble version_field size_field text_field attempts_field created_field
parse_fields from_iso document =
    assemble (version_field document) (size_field document) (text_field (str "id") document)
      (text_field (str "hash") document) (text_field (str "filename") document)
      (text_field (str "bucket_path") document) (attempts_field document)
      (created_field from_iso document)

parse_document : (Text → Option Moment) → Option Value → Result InvalidEvent IngestEvent
unfolding parse_fields
parse_document from_iso none = err not_json
parse_document from_iso (some (object document)) = parse_fields from_iso document
parse_document from_iso (some _) = err not_object

-- IngestEvent.parse
unfoldable pub parse :
    (Value → Option Value) → (Text → Option Moment) → Value → Result InvalidEvent IngestEvent
unfolding parse_document
parse loads from_iso raw = parse_document from_iso (loads raw)
