-- ===== src/Ingest.antt =====
-- services/rag-service/src/rag/ingest/service.py: the ingest pipeline. The blob store, the parsers,
-- the embedder, the vector index, the registry and the clocks of ports.py are the parameter `Ports`.
pub mod Chunks
pub mod Early
pub mod Names
pub mod Order
pub mod Points
mod Tests
use rag_poc.Prelude.{
  ℕ, zero, suc, ◌+◌, Text, str, Bool, true, false, Option, none, some, List, [], ◌∷◌, ◌++◌, ltb,
  length, decimal, has_content, if◌then◌else◌, Result, ok, err,
}
use rag_poc.Event.{Reason}
use rag_poc.Event.Inbound.{IngestEvent}
use rag_poc.Failure.{Failure, permanent_error, transient_error, dependency_unavailable, other_error}
use rag_poc.Exec.{Exec, pure, raise, from_result, modify, catch, ◌>>=◌, ◌>>◌}
use rag_poc.Job.{Outcome}
use rag_poc.Deadline
use rag_poc.Deadline.{Deadline}
use Chunks.{keep_content, batches}
use Names.{extension, is_markdown}

pub record IngestSettings : Type 0 where
  pub chunk_size : ℕ
  pub chunk_overlap : ℕ
  pub embed_batch_size : ℕ
  pub max_file_bytes : ℕ

pub record Point (V : Type 0) : Type 0 where
  pub hash : Text
  pub filename : Text
  pub chunk_index : ℕ
  pub text : Text
  pub vector : V

-- indexed_at is in microseconds.
pub record IndexedDocument : Type 0 where
  pub hash : Text
  pub filename : Text
  pub object_path : Text
  pub chunk_count : ℕ
  pub indexed_at : ℕ

-- What the service is given. Each call may raise anything; the two clocks do not raise. `split_text`
-- is the third-party splitter: for Markdown or not, with its size and overlap.
pub record Ports : Type 1 where
  pub World : Type 0
  pub Vector : Type 0
  pub Parser : Type 0
  pub clock : World → ℕ × World
  pub now : World → ℕ × World
  pub exists : Text → Exec World Bool
  pub register : IndexedDocument → Exec World (Unit {0})
  pub get : Text → ℕ → Exec World (List ℕ)
  pub parser_for : Text → Exec World Parser
  pub parse : Parser → List ℕ → Exec World Text
  pub lower : Text → Text
  pub split_text : Bool → ℕ → ℕ → Text → Exec World (List Text)
  pub embed_documents : List Text → Exec World (List Vector)
  pub delete_by_hash : Text → Exec World (Unit {0})
  pub upsert : List (Point Vector) → Exec World (Unit {0})

-- The calls that cost something or change something, for the statements about the service: the
-- program keeps no such record. `fetching`, `embedding`, `deleting`, `upserting` and `registering`
-- stand for a call that began, `deleted`, `upserted` and `registered` for its success.
pub data Act (V : Type 0) : Type 0 where
  fetching : Text → Act V
  embedding : List Text → Act V
  deleting : Text → Act V
  deleted : Text → Act V
  upserting : List (Point V) → Act V
  upserted : List (Point V) → Act V
  registering : IndexedDocument → Act V
  registered : IndexedDocument → Act V

pub record State (W V : Type 0) : Type 0 where
  pub world : W
  pub log : List (Act V)

module _ {W V : Type 0} where
  unfoldable pub note : Act V → Exec (State W V) (Unit {0})
  unfolding modify
  note a = modify (λ s. record s { log = a ∷ s.log })

  unfoldable pub call : {A : Type 0} → Exec W A → Exec (State W V) A
  call m s = let (r, w) = m s.world in (r, record s { world = w })

  -- The call between its two acts: the second only if it succeeds.
  unfoldable pub recorded : {A : Type 0} → Act V → Act V → Exec W A → Exec (State W V) A
  recorded before after m s =
      let (r, w) = m s.world in
      (
        r,
        elim r [
          | ok a ↦ record { world = w; log = after ∷ before ∷ s.log }
          | err e ↦ record { world = w; log = before ∷ s.log }
        ],
      )

  unfoldable pub ask : {A : Type 0} → (W → A × W) → Exec (State W V) A
  unfolding pure
  ask f s = let (a, w) = f s.world in pure a (record s { world = w })

-- [Point(...) for i, (chunk, vector) in enumerate(zip(chunks, vectors, strict=True))]
unfoldable pub make_points :
    {V : Type 0} → Text → Text → ℕ → List Text → List V → Result Failure (List (Point V))
make_points hash filename i [] [] = ok []
make_points hash filename i [] (v ∷ vs) = err (other_error (str "ValueError"))
make_points hash filename i (c ∷ cs) [] = err (other_error (str "ValueError"))
make_points hash filename i (c ∷ cs) (v ∷ vs) = elim (make_points hash filename (suc i) cs vs) [
  | ok ps ↦
      ok (record { hash = hash; filename = filename; chunk_index = i; text = c; vector = v } ∷ ps)
  | err e ↦ err e
]

module _ (ports : Ports) where
  open ports use {World, Vector}

  abbrev pub Code : Type 0 → Type 0
  Code = Exec (State World Vector)

  -- the calls that cost or change something, with their acts
  abbrev pub get : Text → ℕ → Code (List ℕ)
  get key limit = do note (fetching key); call (ports.get key limit)

  abbrev pub embed_documents : List Text → Code (List Vector)
  embed_documents texts = do note (embedding texts); call (ports.embed_documents texts)

  abbrev pub delete_by_hash : Text → Code (Unit {0})
  delete_by_hash hash = recorded (deleting hash) (deleted hash) (ports.delete_by_hash hash)

  abbrev pub upsert : List (Point Vector) → Code (Unit {0})
  upsert points = recorded (upserting points) (upserted points) (ports.upsert points)

  abbrev pub register : IndexedDocument → Code (Unit {0})
  register doc = recorded (registering doc) (registered doc) (ports.register doc)

  unfoldable pub check : Deadline → Code (Unit {0})
  unfolding Deadline.check
  check deadline = do now ← ask ports.clock; Deadline.check deadline now

  -- chunking.split
  unfoldable pub split : Text → Text → ℕ → ℕ → Code (List Text)
  unfolding is_markdown keep_content
  split text ext size overlap = do
    parts ← call (ports.split_text (is_markdown ports.lower ext) size overlap text)
    pure (keep_content parts)

  -- the loop over the batches
  unfoldable pub embed_batches : Deadline → List (List Text) → Code (List Vector)
  embed_batches deadline [] = pure []
  embed_batches deadline (batch ∷ rest) = do
    check deadline
    vectors ← embed_documents batch
    more ← embed_batches deadline rest
    pure (vectors ++ more)

  -- range(0, len(chunks), step) raises at the step 0
  unfoldable pub embed : Deadline → ℕ → List Text → Code (List Vector)
  embed deadline zero chunks = raise (other_error (str "ValueError"))
  embed deadline (suc size) chunks = embed_batches deadline (batches (suc size) chunks)

  -- the body of the `try`
  unfoldable pub store :
      IngestSettings → IngestEvent → Deadline → List Text → Code (List (Point Vector))
  store settings event deadline chunks = do
    vectors ← embed deadline settings.embed_batch_size chunks
    check deadline
    points ← from_result (make_points event.hash event.filename 0 chunks vectors)
    delete_by_hash event.hash
    upsert points
    pure points

  -- except DependencyUnavailable: the constructor's text is str(exc)
  abbrev pub as_transient : {A : Type 0} → Failure → Code A
  as_transient (dependency_unavailable text) =
      raise (transient_error Reason.dependency_unavailable (some text))
  as_transient e = raise e

  abbrev pub no_text : {A : Type 0} → Code A
  no_text = raise (permanent_error Reason.empty_text (some (str "no extractable text")))

  -- what follows the `try`
  unfoldable pub finish : IngestEvent → List (Point Vector) → Code Outcome
  finish event points = do
    now ← ask ports.now
    let doc : IndexedDocument = record {
      hash = event.hash;
      filename = event.filename;
      object_path = event.bucket_path;
      chunk_count = length points;
      indexed_at = now;
    }
    register doc
    pure (Outcome.indexed (some (length points)))

  unfoldable pub index_chunks : IngestSettings → IngestEvent → Deadline → List Text → Code Outcome
  index_chunks settings event deadline [] = no_text
  index_chunks settings event deadline chunks = do
    points ← catch (store settings event deadline chunks) as_transient
    finish event points

  unfoldable pub index_text : IngestSettings → IngestEvent → Deadline → Text → Code Outcome
  unfolding extension
  index_text settings event deadline text =
      if has_content text
      then (do
        chunks ←
            split text (extension ports.lower event.filename) settings.chunk_size
              settings.chunk_overlap
        index_chunks settings event deadline chunks)
      else no_text

  unfoldable pub fetch : IngestSettings → IngestEvent → Deadline → Code Outcome
  fetch settings event deadline = do
    parser ← call (ports.parser_for event.filename)
    if ltb settings.max_file_bytes event.size
        then raise (
            permanent_error Reason.unsupported_type (
              some (
                str "file too large (over " ++ (decimal settings.max_file_bytes ++ str " bytes)"))))
        else (do
          check deadline
          content ← get event.bucket_path settings.max_file_bytes
          check deadline
          text ← call (ports.parse parser content)
          index_text settings event deadline text)

  -- IngestService.process
  unfoldable pub process : IngestSettings → IngestEvent → Deadline → Code Outcome
  process settings event deadline = do
    known ← call (ports.exists event.hash)
    if known then pure (Outcome.indexed none) else fetch settings event deadline
