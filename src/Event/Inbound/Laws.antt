-- ===== src/Event/Inbound/Laws.antt =====
-- What IngestEvent.parse of services/rag-service/src/rag/transport/status_event.py accepts.
use rag_poc.Prelude.{
  ℕ, ◌≤◌, Text, str, ◌≡◌, ◌≢◌, ◌↔◌, refl, true, Option, none, some, arith, text_eq_iff, Result, ok,
  >>=-eq-ok, [],
}
use rag_poc.Value.{Value, int, text, object, Fields, lookup, pos, negsuc, Moment}
use rag_poc.Event.{InvalidEvent, schema_version, max_integer, check_attempts}
use rag_poc.Event.Inbound.{
  IngestEvent, parse, parse_document, parse_fields, assemble, version_field, size_field,
  attempts_field, created_field, field_of, text_field, check_text, check_version, check_size,
  parse_timestamp, created_at_matches, encodes,
}

-- A required text of the document.
pub record IsTextField (name : Text) (document : Fields) (t : Text) : Type 0 where
  pub present : lookup name document ≡ some (text t)
  pub nonempty : t ≢ []
  pub unicode : encodes t ≡ true

-- The document that describes an event, said without the parser.
pub record Describes (from_iso : Text → Option Moment) (document : Fields) (e : IngestEvent)
    : Type 0 where
  pub version : lookup (str "schema_version") document ≡ some (int (pos schema_version))
  pub version_kept : e.schema_version ≡ schema_version
  pub size : lookup (str "size") document ≡ some (int (pos e.size))
  pub id : IsTextField (str "id") document e.id
  pub hash : IsTextField (str "hash") document e.hash
  pub filename : IsTextField (str "filename") document e.filename
  pub bucket_path : IsTextField (str "bucket_path") document e.bucket_path
  pub attempts : lookup (str "attempts") document ≡ some (int (pos e.attempts))
  pub attempts_fit : e.attempts ≤ max_integer
  pub stamp : Text
  pub created : lookup (str "created_at") document ≡ some (text stamp)
  pub created_matches : created_at_matches stamp ≡ true
  pub created_date : from_iso stamp ≡ some e.created_at

module _ (name : Text) (document : Fields) where
  field_of-inv : {v : Value} → field_of name document ≡ ok v → lookup name document ≡ some v
  unfolding field_of
  field_of-inv h = ground arith

  field_of-some : {v : Value} → lookup name document ≡ some v → field_of name document ≡ ok v
  unfolding field_of
  field_of-some h = rw h

check_text-inv :
    (name : Text) (v : Value) (t : Text)
    → check_text name v ≡ ok t
    → (v ≡ text t) × (t ≢ []) × (encodes t ≡ true)
unfolding check_text
check_text-inv name (text s) t h = ground (arith, text_eq_iff s [])
check_text-inv name _ t h = absurd (cc h)

check_version-inv :
    (v : Value) (n : ℕ)
    → check_version v ≡ ok n
    → (v ≡ int (pos schema_version)) × (n ≡ schema_version)
unfolding check_version
check_version-inv (int (pos m)) n h = ground arith
check_version-inv (int (negsuc m)) n h = absurd (cc h)
check_version-inv _ n h = absurd (cc h)

check_size-inv : (v : Value) (n : ℕ) → check_size v ≡ ok n → v ≡ int (pos n)
unfolding check_size
check_size-inv (int (pos m)) n h = ground arith
check_size-inv (int (negsuc m)) n h = absurd (cc h)
check_size-inv _ n h = absurd (cc h)

check_attempts-inv :
    (v : Value) (n : ℕ) → check_attempts v ≡ ok n → (v ≡ int (pos n)) × (n ≤ max_integer)
unfolding check_attempts
check_attempts-inv (int (pos m)) n h = ground arith
check_attempts-inv (int (negsuc m)) n h = absurd (cc h)
check_attempts-inv _ n h = absurd (cc h)

parse_timestamp-inv :
    (from_iso : Text → Option Moment) (v : Value) (m : Moment)
    → parse_timestamp from_iso v ≡ ok m
    → (t : Text) × (v ≡ text t) × (created_at_matches t ≡ true) × (from_iso t ≡ some m)
unfolding parse_timestamp
parse_timestamp-inv from_iso (text t) m h = (t, ground arith, ground arith, ground arith)
parse_timestamp-inv from_iso _ m h = absurd (cc h)

module _ (name : Text) (document : Fields) (t : Text) where
  text_field-inv : text_field name document ≡ ok t → IsTextField name document t
  unfolding text_field
  text_field-inv h =
      let (v, found, checked) = >>=-eq-ok (field_of name document) (check_text name) t h in
      let (is, nonempty, unicode) = check_text-inv name v t checked in
      record {
        present = field_of-inv name document (rw (← is) found);
        nonempty = nonempty;
        unicode = unicode;
      }

  text_field-some : IsTextField name document t → text_field name document ≡ ok t
  unfolding text_field check_text
  text_field-some h = rw h.present (ground (arith, text_eq_iff t [], h.nonempty, h.unicode))

-- What one field's reader returns, as statements on the document.
version_field-inv :
    (document : Fields) (n : ℕ)
    → version_field document ≡ ok n
    → (lookup (str "schema_version") document ≡ some (int (pos schema_version)))
      × (n ≡ schema_version)
unfolding version_field
version_field-inv document n h =
    let (v, found, checked) = >>=-eq-ok (field_of _ document) check_version n h in
    let (is, e) = check_version-inv v n checked in (rw (← is) (field_of-inv _ document found), e)

size_field-inv :
    (document : Fields) (n : ℕ)
    → size_field document ≡ ok n
    → lookup (str "size") document ≡ some (int (pos n))
unfolding size_field
size_field-inv document n h =
    let (v, found, checked) = >>=-eq-ok (field_of _ document) check_size n h in
    rw (← check_size-inv v n checked) (field_of-inv _ document found)

attempts_field-inv :
    (document : Fields) (n : ℕ)
    → attempts_field document ≡ ok n
    → (lookup (str "attempts") document ≡ some (int (pos n))) × (n ≤ max_integer)
unfolding attempts_field
attempts_field-inv document n h =
    let (v, found, checked) = >>=-eq-ok (field_of _ document) check_attempts n h in
    let (is, fit) = check_attempts-inv v n checked in
    (rw (← is) (field_of-inv _ document found), fit)

created_field-inv :
    (from_iso : Text → Option Moment) (document : Fields) (m : Moment)
    → created_field from_iso document ≡ ok m
    → (t : Text) × (lookup (str "created_at") document ≡ some (text t))
      × (created_at_matches t ≡ true)
      × (from_iso t ≡ some m)
unfolding created_field
created_field-inv from_iso document m h =
    let (v, found, checked) = >>=-eq-ok (field_of _ document) (parse_timestamp from_iso) m h in
    let (t, is, matches, date) = parse_timestamp-inv from_iso v m checked in
    (t, rw (← is) (field_of-inv _ document found), matches, date)

-- All eight readers succeeded.
assemble-inv :
    (r1 r2 : Result InvalidEvent ℕ) (r3 r4 r5 r6 : Result InvalidEvent Text)
    (r7 : Result InvalidEvent ℕ) (r8 : Result InvalidEvent Moment) (e : IngestEvent)
    → assemble r1 r2 r3 r4 r5 r6 r7 r8 ≡ ok e
    → (r1 ≡ ok e.schema_version)
      × (r2 ≡ ok e.size)
      × (r3 ≡ ok e.id)
      × (r4 ≡ ok e.hash)
      × (r5 ≡ ok e.filename)
      × (r6 ≡ ok e.bucket_path)
      × (r7 ≡ ok e.attempts)
      × (r8 ≡ ok e.created_at)
unfolding assemble
assemble-inv r1 r2 r3 r4 r5 r6 r7 r8 e h = ground arith

-- The parser accepts only documents that describe the event it returns.
parse_fields-Describes :
    (from_iso : Text → Option Moment) (document : Fields) (e : IngestEvent)
    → parse_fields from_iso document ≡ ok e
    → Describes from_iso document e
unfolding parse_fields
parse_fields-Describes from_iso document e h =
    let (h1, h2, h3, h4, h5, h6, h7, h8) =
      assemble-inv (version_field document) (size_field document) (text_field (str "id") document)
        (text_field (str "hash") document) (text_field (str "filename") document)
        (text_field (str "bucket_path") document) (attempts_field document)
        (created_field from_iso document) e h in
    let (version, version_kept) = version_field-inv document _ h1 in
    let (attempts, fit) = attempts_field-inv document _ h7 in
    let (stamp, created, matches, date) = created_field-inv from_iso document _ h8 in
    record {
      version = version;
      version_kept = version_kept;
      size = size_field-inv document _ h2;
      id = text_field-inv _ document _ h3;
      hash = text_field-inv _ document _ h4;
      filename = text_field-inv _ document _ h5;
      bucket_path = text_field-inv _ document _ h6;
      attempts = attempts;
      attempts_fit = fit;
      stamp = stamp;
      created = created;
      created_matches = matches;
      created_date = date;
    }

version_field-some :
    (document : Fields)
    → lookup (str "schema_version") document ≡ some (int (pos schema_version))
    → version_field document ≡ ok schema_version
unfolding version_field check_version
version_field-some document h = rw (field_of-some _ document h)

size_field-some :
    (document : Fields) (n : ℕ)
    → lookup (str "size") document ≡ some (int (pos n))
    → size_field document ≡ ok n
unfolding size_field check_size
size_field-some document n h = rw (field_of-some _ document h)

attempts_field-some :
    (document : Fields) (n : ℕ)
    → lookup (str "attempts") document ≡ some (int (pos n))
    → n ≤ max_integer
    → attempts_field document ≡ ok n
unfolding attempts_field check_attempts
attempts_field-some document n h fit = rw (field_of-some _ document h) (ground arith)

created_field-some :
    (from_iso : Text → Option Moment) (document : Fields) (t : Text) (m : Moment)
    → lookup (str "created_at") document ≡ some (text t)
    → created_at_matches t ≡ true
    → from_iso t ≡ some m
    → created_field from_iso document ≡ ok m
unfolding created_field parse_timestamp
created_field-some from_iso document t m h matches date =
    rw (field_of-some _ document h, matches, date)

-- And it accepts every document that describes an event, with that event.
Describes-parse_fields :
    (from_iso : Text → Option Moment) (document : Fields) (e : IngestEvent)
    → Describes from_iso document e
    → parse_fields from_iso document ≡ ok e
unfolding parse_fields assemble
Describes-parse_fields from_iso document e d =
    rw
      (
        version_field-some document d.version,
        size_field-some document _ d.size,
        text_field-some _ document _ d.id,
        text_field-some _ document _ d.hash,
        text_field-some _ document _ d.filename,
        text_field-some _ document _ d.bucket_path,
        attempts_field-some document _ d.attempts d.attempts_fit,
        created_field-some from_iso document _ _ d.created d.created_matches d.created_date,
      )
      (rw d.version_kept)

parse_document-object :
    (from_iso : Text → Option Moment) (o : Option Value) (e : IngestEvent)
    → parse_document from_iso o ≡ ok e
    → (document : Fields) × (o ≡ some (object document)) × (parse_fields from_iso document ≡ ok e)
unfolding parse_document
parse_document-object from_iso none e h = absurd (cc h)
parse_document-object from_iso (some (object document)) e h = (document, refl, h)
parse_document-object from_iso (some _) e h = absurd (cc h)

module _ (loads : Value → Option Value) (from_iso : Text → Option Moment) (raw : Value)
    (e : IngestEvent) where
  -- IngestEvent.parse returns the event e exactly when the payload decodes to a JSON object that
  -- describes e: schema_version is the integer 1, size a non-negative integer, attempts an integer
  -- of at most 2^31 - 1, the four texts are non-empty and hold no lone surrogate, and created_at
  -- matches the timestamp grammar and is a date. So a payload that fails any of these is refused.
  pub parse_exact :
      (parse loads from_iso raw ≡ ok e)
      ↔ ((document : Fields) × (loads raw ≡ some (object document)) × Describes from_iso document e)
  unfolding parse
  parse_exact = (
    λ h.
        let (document, loaded, fields) = parse_document-object from_iso (loads raw) e h in
        (document, loaded, parse_fields-Describes from_iso document e fields),
    λ (document, loaded, d).
        unfold parse_document in rw loaded (Describes-parse_fields from_iso document e d),
  )

  -- What every client of the parser relies on.
  pub parse-fits : parse loads from_iso raw ≡ ok e → (e.hash ≢ []) × (e.attempts ≤ max_integer)
  parse-fits h = let (document, loaded, d) = parse_exact.0 h in (d.hash.nonempty, d.attempts_fit)
