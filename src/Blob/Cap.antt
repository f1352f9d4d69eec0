-- ===== src/Blob/Cap.antt =====
-- What the cap of services/rag-service/src/rag/adapters/minio_blob_store.py guarantees.
use rag_poc.Prelude.{
  ℕ, ◌+◌, ◌≤◌, ◌<◌, ◌≡◌, ◌↔◌, refl, List, [], ◌∷◌, ◌++◌, length, length-append, ltb, ltb→lt, ltb→ge,
  Bool-cases, Option-cases, none, inl, inr, arith, Result, ok, err, Option, some, str, decimal, ◌⊎◌,
}
use rag_poc.Event.{Reason}
use rag_poc.Failure.{Failure, permanent_error}
use rag_poc.Blob.{
  ClientError, Stream, ended, broken, part, Act, taken, closed, released, read_parts,
  as_ingest_error, or_ingest_error, get,
}

-- All bytes that a stream yields, where it ends without an error.
abbrev pub contents : Stream → Option (List ℕ)
contents ended = some []
contents (broken e) = none
contents (part bytes rest) = elim (contents rest) [ none ↦ none | some more ↦ some (bytes ++ more) ]

append_nil : (xs : List ℕ) → (xs ++ []) ≡ xs
append_nil [] = refl
append_nil (x ∷ xs) = cc (append_nil xs)

append_assoc : (xs ys zs : List ℕ) → ((xs ++ ys) ++ zs) ≡ (xs ++ (ys ++ zs))
append_assoc [] ys zs = refl
append_assoc (x ∷ xs) ys zs = cc (append_assoc xs ys zs)

-- The bytes that a stream yields up to its end or its error.
abbrev pub yielded : Stream → List ℕ
yielded ended = []
yielded (broken e) = []
yielded (part bytes rest) = bytes ++ yielded rest

-- The error that a stream ends with.
abbrev pub error_of : Stream → Option ClientError
error_of ended = none
error_of (broken e) = some e
error_of (part bytes rest) = error_of rest

abbrev pub too_large : ℕ → Failure
too_large max_bytes =
    permanent_error Reason.unsupported_type
      (some (str "file too large (over " ++ (decimal max_bytes ++ str " bytes)")))

-- A part is taken only while the bytes taken before it are within the cap.
abbrev pub Capped : ℕ → ℕ → List Act → Type 0
Capped max_bytes total [] = Unit
Capped max_bytes total (taken bytes ∷ acts) =
    (total ≤ max_bytes) × Capped max_bytes (total + length bytes) acts
Capped max_bytes total (_ ∷ acts) = Capped max_bytes total acts

-- What reading the rest of a stream returns, with the bytes read so far.
record IsRead (max_bytes total : ℕ) (read content : List ℕ) (stream : Stream) : Type 0 where
  more : List ℕ
  all_of_it : contents stream ≡ some more
  appended : content ≡ (read ++ more)
  fits : total + length more ≤ max_bytes

-- How reading the rest of a stream fails: the cap is passed, or the stream ends with an error
-- within it.
abbrev pub Failed : ℕ → ℕ → Stream → Failure → Type 0
Failed max_bytes total stream e =
    ((e ≡ too_large max_bytes) × (max_bytes < total + length (yielded stream)))
    ⊎ ((x : ClientError) × (error_of stream ≡ some x)
        × (e ≡ as_ingest_error x)
        × (total + length (yielded stream) ≤ max_bytes))

or_ingest_error-ok_inv :
    (r : Result ClientError (List ℕ)) (content : List ℕ)
    → or_ingest_error r ≡ ok content
    → r ≡ ok content
or_ingest_error-ok_inv (ok c) content h = cc h
or_ingest_error-ok_inv (err e) content h = absurd (cc h)

get_fits :
    {max_bytes : ℕ} {content : List ℕ} {stream : Stream}
    → IsRead max_bytes 0 [] content stream
    → length content ≤ max_bytes
get_fits r = rw r.appended (omega (arith, r.fits))

module _ (max_bytes : ℕ) where
  read_parts_complete :
      (total : ℕ) (read more : List ℕ) (stream : Stream)
      → contents stream ≡ some more
      → total + length more ≤ max_bytes
      → (read_parts max_bytes total read stream).0 ≡ ok (read ++ more)
  unfolding read_parts
  read_parts_complete total read more ended e h = cc (e, append_nil read)
  read_parts_complete total read more (broken x) e h = absurd (cc e)
  read_parts_complete total read more (part bytes rest) e h = elim (Option-cases (contents rest)) [
    | inl n ↦ absurd (cc (rw n at e))
    | inr (tail, n) ↦
        let same : (bytes ++ tail) ≡ more = cc (rw n at e) in
        let len = length-append bytes tail in
        let whole : total + length (bytes ++ tail) ≤ max_bytes = rw same h in
        let left : total + length bytes + length tail ≤ max_bytes = omega (arith, len, whole) in
        let next = read_parts_complete (total + length bytes) (read ++ bytes) tail rest n left in
        elim (Bool-cases (ltb max_bytes (total + length bytes))) [
          | inl big ↦ absurd (omega (arith, ltb→lt _ _ big, left))
          | inr small ↦ rw small (cc (next, append_assoc read bytes tail, same))
        ]
  ]

  read_parts_sound :
      (total : ℕ) (read content : List ℕ) (stream : Stream)
      → total ≤ max_bytes
      → (read_parts max_bytes total read stream).0 ≡ ok content
      → IsRead max_bytes total read content stream
  unfolding read_parts
  read_parts_sound total read content ended within h = record {
    more = [];
    all_of_it = refl;
    appended = cc (h, append_nil read);
    fits = omega (arith, within);
  }
  read_parts_sound total read content (broken e) within h = absurd (cc h)
  read_parts_sound total read content (part bytes rest) within h =
      elim (Bool-cases (ltb max_bytes (total + length bytes))) [
        | inl big ↦ absurd (cc (rw big at h))
        | inr small ↦
            let r =
              read_parts_sound (total + length bytes) (read ++ bytes) content rest
                (ltb→ge _ _ small) (rw small at h) in
            record {
              more = bytes ++ r.more;
              all_of_it = rw r.all_of_it refl;
              appended = cc (r.appended, append_assoc read bytes r.more);
              fits = omega (arith, length-append bytes r.more, r.fits);
            }
      ]

  read_parts-Failed :
      (total : ℕ) (read : List ℕ) (stream : Stream) (e : Failure)
      → total ≤ max_bytes
      → or_ingest_error (read_parts max_bytes total read stream).0 ≡ err e
      → Failed max_bytes total stream e
  unfolding read_parts as_ingest_error
  read_parts-Failed total read ended e within h = absurd (cc h)
  read_parts-Failed total read (broken x) e within h = inr (x, refl, cc h, omega (arith, within))
  read_parts-Failed total read (part bytes rest) e within h =
      let len = length-append bytes (yielded rest) in
      elim (Bool-cases (ltb max_bytes (total + length bytes))) [
        | inl big ↦ inl (cc (rw big at h), omega (arith, len, ltb→lt _ _ big))
        | inr small ↦
            elim (read_parts-Failed (total + length bytes) (read ++ bytes) rest e (ltb→ge _ _ small)
              (rw small at h)) [
                | inl (same, over) ↦ inl (same, omega (arith, len, over))
                | inr (x, ends, same, fits) ↦ inr (x, ends, same, omega (arith, len, fits))
              ]
      ]

  read_parts-Capped :
      (total : ℕ) (read : List ℕ) (stream : Stream)
      → total ≤ max_bytes
      → Capped max_bytes total (read_parts max_bytes total read stream).1
  unfolding read_parts
  read_parts-Capped total read ended within = tt
  read_parts-Capped total read (broken e) within = tt
  read_parts-Capped total read (part bytes rest) within =
      elim (Bool-cases (ltb max_bytes (total + length bytes))) [
        | inl big ↦ rw big (within, tt)
        | inr small ↦ rw small (
          within,
          read_parts-Capped (total + length bytes) (read ++ bytes) rest (ltb→ge _ _ small),
        )
      ]

  -- An object is returned exactly when its stream ends without an error and its bytes are within
  -- the cap, and what is returned is all of them.
  pub get_exact :
      (stream : Stream) (content : List ℕ)
      → ((get max_bytes (ok stream)).0 ≡ ok content)
        ↔ ((contents stream ≡ some content) × (length content ≤ max_bytes))
  unfolding get
  get_exact stream content = (
    λ h.
        let r = read_parts_sound 0 [] content stream (omega arith) (or_ingest_error-ok_inv _ _ h) in
        (cc (r.all_of_it, r.appended), get_fits r),
    λ (all_of_it, fits).
        rw (read_parts_complete 0 [] content stream all_of_it (omega (arith, fits))) refl,
  )

  -- A failed read of an object that was found either passes the cap, and says so, or reports the
  -- error that the stream ended with before the cap. A part is taken only while what was taken
  -- before is within the cap, and in the end the response is closed, then released.
  pub get-Failed :
      (stream : Stream) (e : Failure)
      → (get max_bytes (ok stream)).0 ≡ err e
      → Failed max_bytes 0 stream e
        × (acts : List Act) × ((get max_bytes (ok stream)).1 ≡ (acts ++ (closed ∷ (released ∷ []))))
        × Capped max_bytes 0 acts
  unfolding get
  get-Failed stream e h = (
    read_parts-Failed 0 [] stream e (omega arith) h,
    (read_parts max_bytes 0 [] stream).1,
    refl,
    read_parts-Capped 0 [] stream (omega arith),
  )
