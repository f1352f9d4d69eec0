-- ===== src/Blob.antt =====
-- services/rag-service/src/rag/adapters/minio_blob_store.py: the object is read with a cap on its
-- bytes. The client is a parameter: what it returns for a key, and the stream of the response.
pub mod Cap
mod Tests
use rag_poc.Prelude.{
  ℕ, ◌+◌, Text, str, List, [], ◌∷◌, ◌++◌, length, ltb, decimal, text_eq, if◌then◌else◌, Option,
  some, Result, ok, err,
}
use rag_poc.Event.{Reason}
use rag_poc.Failure.{Failure, permanent_error, transient_error}

-- What the client raises: an S3Error with its code; a MinioException, an HTTPError or an OSError
-- with its type's name; or another exception.
pub data ClientError : Type 0 where
  s3_error minio_exception http_error os_error : Text → ClientError
  other : Failure → ClientError

-- response.stream: the parts it yields, up to its end or to what it raises.
pub data Stream : Type 0 where
  ended : Stream
  broken : ClientError → Stream
  part : List ℕ → Stream → Stream

-- What is done to the response, for the statements about it: the program keeps no such record.
pub data Act : Type 0 where
  taken : List ℕ → Act
  closed released : Act

-- for part in response.stream(_READ_CHUNK): the parts as one, or how it ended, and the acts
unfoldable pub read_parts : ℕ → ℕ → List ℕ → Stream → Result ClientError (List ℕ) × List Act
read_parts max_bytes total read ended = (ok read, [])
read_parts max_bytes total read (broken e) = (err e, [])
read_parts max_bytes total read (part bytes rest) =
    let (r, acts) = read_parts max_bytes (total + length bytes) (read ++ bytes) rest in
    if ltb max_bytes (total + length bytes)
    then (
      err (
          other (
            permanent_error Reason.unsupported_type
              (some (str "file too large (over " ++ (decimal max_bytes ++ str " bytes)"))))),
      taken bytes ∷ [],
    )
    else (r, taken bytes ∷ acts)

-- the except clauses
unfoldable pub as_ingest_error : ClientError → Failure
as_ingest_error (s3_error code) =
    if text_eq code (str "NoSuchKey")
    then transient_error Reason.internal (some (str "object missing"))
    else transient_error Reason.dependency_unavailable (some (str "minio: " ++ code))
as_ingest_error (minio_exception name) =
    transient_error Reason.dependency_unavailable (some (str "minio: " ++ name))
as_ingest_error (http_error name) =
    transient_error Reason.dependency_unavailable (some (str "minio: " ++ name))
as_ingest_error (os_error name) =
    transient_error Reason.dependency_unavailable (some (str "minio: " ++ name))
as_ingest_error (other e) = e

abbrev pub or_ingest_error : Result ClientError (List ℕ) → Result Failure (List ℕ)
or_ingest_error (ok bytes) = ok bytes
or_ingest_error (err e) = err (as_ingest_error e)

-- get, for what get_object came to; close and release_conn do not raise.
unfoldable pub get : ℕ → Result ClientError Stream → Result Failure (List ℕ) × List Act
unfolding read_parts as_ingest_error
get max_bytes (err e) = (err (as_ingest_error e), [])
get max_bytes (ok stream) =
    let (r, acts) = read_parts max_bytes 0 [] stream in
    (or_ingest_error r, acts ++ (closed ∷ (released ∷ [])))
