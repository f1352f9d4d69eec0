-- ===== src/Embedder.antt =====
-- services/rag-service/src/rag/adapters/ollama_embedder.py. The Ollama client is a parameter.
pub mod Laws
pub mod Aligned
mod Tests
use rag_poc.Prelude.{
  ℕ, suc, Text, str, List, [], ◌∷◌, ◌++◌, length, ◌==◌, decimal, if◌then◌else◌, Option, none, some,
  Result, ok, err,
}
use rag_poc.Value.{ℤ, pos, negsuc}
use rag_poc.Failure.{Failure, dependency_unavailable, other_error}
use rag_poc.Exec.{Exec}

-- What the client raises: a ConnectionError or an HTTPError with its type's name, a ResponseError
-- with its status code, or another exception.
pub data ClientError : Type 0 where
  connection_error http_error : Text → ClientError
  response_error : ℤ → ClientError
  other : Failure → ClientError

-- The client's `embed`, for a model and the inputs; F is the type of floats. It returns lists.
pub record Client (W F : Type 0) : Type 0 where
  pub embed : Text → List Text → W → Result ClientError (List (List F)) × W

-- OllamaEmbedder.__init__
pub record OllamaEmbedder : Type 0 where
  pub model : Text
  pub query_instruction : Text

-- What the embedder raises: DependencyUnavailable with its detail and its cause,
-- ModelNotAvailable, or what the client raised.
pub data EmbedError : Type 0 where
  unavailable : Text → Option ClientError → EmbedError
  model_not_available : Text → EmbedError
  raised : Failure → EmbedError

-- f"{status_code}"
abbrev number : ℤ → Text
number (pos n) = decimal n
number (negsuc n) = str "-" ++ decimal (suc n)

-- _describe
unfoldable pub describe : ClientError → Text
describe (response_error status) = str "HTTP " ++ number status
describe (connection_error name) = name
describe (http_error name) = name
describe (other e) = []

-- the except clause of _embed
unfoldable pub as_unavailable : ClientError → EmbedError
unfolding describe
as_unavailable (other e) = raised e
as_unavailable e = unavailable (describe e) (some e)

-- the test of _embed on the number of vectors
unfoldable pub counted :
    {F : Type 0} → ℕ → Result ClientError (List (List F)) → Result EmbedError (List (List F))
unfolding as_unavailable
counted inputs (err e) = err (as_unavailable e)
counted inputs (ok vectors) =
    if length vectors == inputs
    then ok vectors
    else err (
        unavailable
          (decimal (length vectors) ++ (str " vectors for " ++ (decimal inputs ++ str " inputs")))
          none)

-- vectors[0]
abbrev pub first_vector :
    {F : Type 0} → Result EmbedError (List (List F)) → Result EmbedError (List F)
first_vector (err e) = err e
first_vector (ok []) = err (raised (other_error (str "IndexError")))
first_vector (ok (v ∷ vs)) = ok v

-- the except clause of dimension, by the cause of the error
unfoldable pub as_missing_model : Text → EmbedError → EmbedError
as_missing_model model (unavailable detail (some (response_error (pos status)))) =
    if status == 404
    then model_not_available model
    else unavailable detail (some (response_error (pos status)))
as_missing_model model e = e

abbrev pub dimension_of : {F : Type 0} → Text → Result EmbedError (List F) → Result EmbedError ℕ
dimension_of model (ok v) = ok (length v)
dimension_of model (err e) = err (as_missing_model model e)

-- How the services see an error: DependencyUnavailable by its str().
unfoldable pub as_failure : EmbedError → Failure
as_failure (unavailable detail cause) = dependency_unavailable (str "ollama: " ++ detail)
as_failure (model_not_available model) = other_error (str "ModelNotAvailable")
as_failure (raised e) = e

abbrev pub or_failure : {A : Type 0} → Result EmbedError A → Result Failure A
or_failure (ok a) = ok a
or_failure (err e) = err (as_failure e)

module _ {W F : Type 0} (client : Client W F) (embedder : OllamaEmbedder) where
  -- _embed
  unfoldable pub embed : List Text → W → Result EmbedError (List (List F)) × W
  unfolding counted
  embed texts w =
      let (r, w') = client.embed embedder.model texts w in (counted (length texts) r, w')

  -- embed_documents
  unfoldable pub embed_documents : List Text → W → Result EmbedError (List (List F)) × W
  unfolding embed
  embed_documents [] w = (ok [], w)
  embed_documents (t ∷ ts) w = embed (t ∷ ts) w

  -- embed_query
  unfoldable pub embed_query : Text → W → Result EmbedError (List F) × W
  unfolding embed
  embed_query text w =
      let prompt = str "Instruct: " ++ (embedder.query_instruction ++ (str "\nQuery:" ++ text)) in
      let (r, w') = embed (prompt ∷ []) w in (first_vector r, w')

  -- dimension
  unfoldable pub dimension : W → Result EmbedError ℕ × W
  unfolding embed as_missing_model
  dimension w =
      let (r, w') = embed (str "dimension probe" ∷ []) w in
      (dimension_of embedder.model (first_vector r), w')

  -- embed_documents as a port of the services
  unfoldable pub documents_port : List Text → Exec W (List (List F))
  unfolding embed_documents as_failure
  documents_port texts w = let (r, w') = embed_documents texts w in (or_failure r, w')
