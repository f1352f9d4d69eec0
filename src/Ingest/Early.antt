-- ===== src/Ingest/Early.antt =====
-- The checks of services/rag-service/src/rag/ingest/service.py that come before any work.
use rag_poc.Prelude.{
  ◌<◌, ◌≡◌, refl, inl, inr, [], ◌++◌, none, some, str, decimal, Bool, true, false, if◌then◌else◌,
  ltb, ltb→ge, ltb→lt, ◌≤◌, ◌⊎◌, Bool-cases, Result, ok, err,
}
use rag_poc.Event.{Reason}
use rag_poc.Event.Inbound.{IngestEvent}
use rag_poc.Exec.{pure, raise, continue, ◌>>=◌}
use rag_poc.Failure.{Failure, permanent_error}
use rag_poc.Job.{Outcome}
use rag_poc.Deadline.{Deadline}
use rag_poc.Ingest.{Ports, IngestSettings, State, call, fetch, process}

module _ (ports : Ports) (settings : IngestSettings) (event : IngestEvent)
    (deadline : Deadline) where
  open ports use {World, Vector}

  abbrev start : World → State World Vector
  start w = record { world = w; log = [] }

  -- A file of a known type that is too large.
  abbrev pub too_large_failure : Failure
  too_large_failure =
      permanent_error Reason.unsupported_type
        (some (str "file too large (over " ++ (decimal settings.max_file_bytes ++ str " bytes)")))

  -- The end of a job that has done nothing.
  abbrev pub Untouched :
      Result Failure Outcome → Result Failure Outcome × State World Vector → Type 0
  Untouched end (r, s) = (r ≡ end) × (s.log ≡ [])

  -- How a job ends by what the parsers say of a new document: only a file that is not too large goes
  -- on.
  abbrev pub IsSized :
      Result Failure ports.Parser → Result Failure Outcome × State World Vector → Type 0
  IsSized (err e) run = Untouched (err e) run
  IsSized (ok p) run =
      ((settings.max_file_bytes < event.size) × Untouched (err too_large_failure) run)
      ⊎ (event.size ≤ settings.max_file_bytes)

  -- How a job ends by what the registry says of the document.
  abbrev pub StopsFor :
      Result Failure Bool → World → Result Failure Outcome × State World Vector → Type 0
  StopsFor (err e) w run = Untouched (err e) run
  StopsFor (ok true) w run = Untouched (ok (Outcome.indexed none)) run
  StopsFor (ok false) w run = IsSized (ports.parser_for event.filename w).0 run

  sized :
      (r : Result Failure ports.Parser) (w : World)
      (f : ports.Parser → State World Vector → Result Failure Outcome × State World Vector)
      → ((p : ports.Parser)
          → ((settings.max_file_bytes < event.size)
              × (f p (start w) ≡ (err too_large_failure, start w)))
            ⊎ (event.size ≤ settings.max_file_bytes))
      → IsSized r (continue r f (start w))
  sized (err e) w f k = (refl, refl)
  sized (ok p) w f k = elim (k p) [
    | inl (large, same) ↦ inl (large, rw same (refl, refl))
    | inr small ↦ inr small
  ]

  fetch-IsSized :
      (w : World)
      → IsSized
          (ports.parser_for event.filename w).0
          (fetch ports settings event deadline (start w))
  unfolding fetch ◌>>=◌ call raise
  fetch-IsSized w =
      sized (ports.parser_for event.filename w).0 (ports.parser_for event.filename w).1 _ λ p.
        elim (Bool-cases (ltb settings.max_file_bytes event.size)) [
          | inr small ↦ inr (ltb→ge _ _ small)
          | inl large ↦ inl (ltb→lt _ _ large, rw large refl)
        ]

  known :
      (r : Result Failure Bool) (w : World)
      → StopsFor r w (
          continue r
            (λ b. if b then pure (Outcome.indexed none) else fetch ports settings event deadline)
            (start w))
  unfolding pure
  known (err e) w = (refl, refl)
  known (ok true) w = (refl, refl)
  known (ok false) w = fetch-IsSized w

  -- If the registry has a row for the document, the job reports it as indexed again. If the registry
  -- cannot say, or it has no row and there is no parser for the file, the job raises that error; and if
  -- there is a parser but the file is larger than the limit, the permanent error that says so. In all
  -- of these it reads no file, embeds nothing and changes nothing.
  pub process_early :
      (w : World)
      → StopsFor
          (ports.exists event.hash w).0
          (ports.exists event.hash w).1
          (process ports settings event deadline (start w))
  unfolding process ◌>>=◌ call
  process_early w = known (ports.exists event.hash w).0 (ports.exists event.hash w).1
