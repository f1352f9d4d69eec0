-- ===== src/IngestFile/Accepted.antt =====
-- The entries that services/rag-service/src/rag/tools/ingest_file.py adds, and the consumer that reads
-- them (services/rag-service/src/rag/transport/stream_consumer.py).
use rag_poc.Prelude.{
  ℕ, ◌≤◌, Text, ◌≡◌, ◌⊎◌, inl, inr, refl, sym, subst, Bool-cases, Option, none, some, List, [], ◌∷◌,
  In, length, text_eq, ltb, ltb→lt, Result, ok, err, arith,
}
use rag_poc.Value.{text, int, object, Fields, lookup, pos}
use rag_poc.Failure.{Failure}
use rag_poc.Event.{InvalidEvent}
use rag_poc.Event.Inbound.{IngestEvent, parse}
use rag_poc.Event.Inbound.Laws.{Describes, parse_exact}
use rag_poc.Consumer.{Env}
use rag_poc.Consumer.Entry.{
  decode, max_payload_bytes, parse_payload, parse_raw, or_none, is_ingest_type,
}
use rag_poc.IngestFile.{
  Environment, Act, uploaded, added, State, Upload, stored, refused, broke, object_key, document,
  entry_of, after_upload, after_parse, payload_of, with_content, run,
}
use rag_poc.IngestFile.Log.{publish-Adds}

-- The consumer takes the entry for what the parser made of its payload, unless it is too long.
decode-entry_of :
    (consumer : Env) (payload : Text) (event : IngestEvent)
    → parse consumer.loads consumer.from_iso (text payload) ≡ ok event
    → length payload ≤ max_payload_bytes
    → decode consumer (some (entry_of payload)) ≡ some event
unfolding decode is_ingest_type parse_payload parse_raw or_none lookup text_eq
decode-entry_of consumer payload event parsed short =
    elim (Bool-cases (ltb max_payload_bytes (length payload))) [
      | inl long ↦ absurd (omega (arith, ltb→lt _ _ long, short))
      | inr fits ↦ rw (fits, parsed) refl
    ]

module _ (env : Environment) where
  open env use {World}

  -- json.loads gives back what json.dumps wrote of a document.
  abbrev pub LoadsBack : Fields → Type 0
  LoadsBack d = env.loads (text (env.dumps d)) ≡ some (object d)

  -- The document that a run from this world makes of the content.
  abbrev pub document_at : World → List ℕ → Fields
  document_at w content =
      let (id, w1) = env.uuid w in
      document id (env.sha256 content) env.filename content (env.now w1).0

  -- An entry that was added for a file with this content.
  pub record IsAccepted (content : List ℕ) (fields : Fields) (log : List Act) : Type 1 where
    pub payload : Text
    pub event : IngestEvent
    pub is_entry : fields ≡ entry_of payload
    pub hash : event.hash ≡ env.sha256 content
    pub bucket_path : event.bucket_path ≡ object_key (env.sha256 content)
    pub size : event.size ≡ length content
    pub attempts : event.attempts ≡ 0
    pub stored_before :
        log ≡ (added fields ∷ uploaded (object_key (env.sha256 content)) content ∷ [])
    pub taken :
        (consumer : Env)
        → consumer.loads ≡ env.loads
        → consumer.from_iso ≡ env.from_iso
        → length payload ≤ max_payload_bytes
        → decode consumer (some fields) ≡ some event

  text_inj : (s t : Text) → some (text s) ≡ some (text t) → t ≡ s
  text_inj s t h = cc h

  number_inj : (m n : ℕ) → some (int (pos m)) ≡ some (int (pos n)) → n ≡ m
  number_inj m n h = cc h

  described :
      (id created_at : Text) (content : List ℕ) (event : IngestEvent)
      → LoadsBack (document id (env.sha256 content) env.filename content created_at)
      → parse env.loads env.from_iso (text (payload_of env content id created_at)) ≡ ok event
      → (event.hash ≡ env.sha256 content)
        × (event.bucket_path ≡ object_key (env.sha256 content))
        × (event.size ≡ length content)
        × (event.attempts ≡ 0)
  unfolding lookup text_eq
  described id created_at content event back parsed =
      let (d, loaded, describes) = (parse_exact env.loads env.from_iso _ event).0 parsed in
      let same : document id (env.sha256 content) env.filename content created_at ≡ d =
        cc (back, loaded) in
      let is_event = subst (λ fields. Describes env.from_iso fields event) (sym same) describes in
      (
        text_inj _ _ is_event.hash.present,
        text_inj _ _ is_event.bucket_path.present,
        number_inj _ _ is_event.size,
        number_inj _ _ is_event.attempts,
      )

  In-added_inv :
      (fields fields' : Fields) (key : Text) (content : List ℕ) (log : List Act)
      → (log ≡ (uploaded key content ∷ [])) ⊎ (log ≡ (added fields' ∷ uploaded key content ∷ []))
      → In (added fields) log
      → (fields ≡ fields') × (log ≡ (added fields ∷ uploaded key content ∷ []))
  In-added_inv fields fields' key content log (inl e) m =
      absurd (only_uploaded (subst (In (added fields)) e m))
    where
      only_uploaded : In (added fields) (uploaded key content ∷ []) → ⊥
      only_uploaded (inl h) = absurd (cc h)
      only_uploaded (inr h) = absurd h
  In-added_inv fields fields' key content log (inr e) m = is_added (subst (In (added fields)) e m)
    where
      is_added :
          In (added fields) (added fields' ∷ uploaded key content ∷ [])
          → (fields ≡ fields') × (log ≡ (added fields ∷ uploaded key content ∷ []))
      is_added (inl h) = (cc h, cc (e, h))
      is_added (inr (inl h)) = absurd (cc h)
      is_added (inr (inr h)) = absurd h

  module _ (fuel : ℕ) (wait : Option ℕ) (fields : Fields) (content : List ℕ) where
    abbrev key : Text
    key = object_key (env.sha256 content)

    after_upload-IsAccepted :
        (id created_at : Text) (event : IngestEvent) (u : Upload) (w : World)
        → LoadsBack (document id (env.sha256 content) env.filename content created_at)
        → let payload = payload_of env content id created_at in
          parse env.loads env.from_iso (text payload) ≡ ok event
          → let s =
              (after_upload env fuel wait content payload u (record { world = w; log = [] })).1 in
            In (added fields) s.log → IsAccepted content fields s.log
    after_upload-IsAccepted id created_at event refused w back parsed m = absurd m
    after_upload-IsAccepted id created_at event (broke e) w back parsed m = absurd m
    after_upload-IsAccepted id created_at event stored w back parsed m =
        let payload = payload_of env content id created_at in
        let s : State World = record { world = w; log = uploaded key content ∷ [] } in
        let (is_entry, order) =
          In-added_inv fields (entry_of payload) key content _
            ((publish-Adds env fuel wait (env.sha256 content) payload).at s) m in
        let (hash, bucket_path, size, attempts) =
          described id created_at content event back parsed in
        record {
          payload = payload;
          event = event;
          is_entry = is_entry;
          hash = hash;
          bucket_path = bucket_path;
          size = size;
          attempts = attempts;
          stored_before = order;
          taken = λ consumer loads from_iso short.
              subst (λ fs. decode consumer (some fs) ≡ some event) (sym is_entry)
                (decode-entry_of consumer payload event (rw (loads, from_iso) parsed) short);
        }

    after_parse-IsAccepted :
        (id created_at : Text) (invalid : InvalidEvent → Failure)
        (r : Result InvalidEvent IngestEvent) (w : World)
        → LoadsBack (document id (env.sha256 content) env.filename content created_at)
        → let payload = payload_of env content id created_at in
          parse env.loads env.from_iso (text payload) ≡ r
          → let s = (after_parse env invalid fuel wait content payload r w).1 in
            In (added fields) s.log → IsAccepted content fields s.log
    after_parse-IsAccepted id created_at invalid (err e) w back parsed m = absurd m
    after_parse-IsAccepted id created_at invalid (ok event) w back parsed m =
        after_upload-IsAccepted id created_at event _ _ back parsed m

  -- Where json.loads gives back the document that json.dumps wrote: an entry that run adds to the
  -- stream, after which it may wait for any time, holds a payload that a consumer with the same
  -- decoder takes for an event, unless it is over the length that the consumer accepts. The event
  -- carries the hash of the file, the key that the file was stored under before, its size and no
  -- attempts. Nothing else was added or stored.
  pub run-IsAccepted :
      (fuel : ℕ) (wait : Option ℕ) (w : World) (fields : Fields)
      → ((content : List ℕ) → env.content ≡ some content → LoadsBack (document_at w content))
      → In (added fields) (run env fuel wait w).1.log
      → (content : List ℕ) × (env.content ≡ some content)
        × IsAccepted content fields (run env fuel wait w).1.log
  unfolding run
  run-IsAccepted fuel wait w fields trips m = of_content env.content refl m
    where
      of_content :
          (c : Option (List ℕ))
          → env.content ≡ c
          → In (added fields) (with_content env fuel wait c w).1.log
          → (content : List ℕ) × (c ≡ some content)
            × IsAccepted content fields (with_content env fuel wait c w).1.log
      of_content none same g = absurd g
      of_content (some content) same g = (
        content,
        refl,
        after_parse-IsAccepted fuel wait fields content _ _ _ _ _ (trips content same) refl g,
      )
